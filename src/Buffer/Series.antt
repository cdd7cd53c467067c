-- ===== src/Buffer/Series.antt =====
-- sources/agent/src/buffer.h and buffer.cc: `SeriesBuffer`, a ring of samples in which
-- `head` and `tail` count pushes and only their remainders index the storage.
-- Each method holds the lock from its first to its last line, so it is one step.
mod Window
pub mod Bounds
pub mod Unsent
pub mod Stall
pub mod History
use volta.Prelude.{
  ℕ, zero, suc, ◌+◌, ◌-◌, ◌%◌, ◌≤◌, ◌<◌, ◌^◌, Bool, true, false, Option, none, some, List, [], ◌∷◌,
  ltb, leb, ◌==◌, if◌then◌else◌, ◌&&◌, length, get_or, set, replicate, is_empty, add64, sub64,
}

pub record Sample : Type 0 where
  pub timestamp_ns : ℕ
  pub value : ℕ

-- `Sample{}`
abbrev pub zero_sample : Sample
zero_sample = record { timestamp_ns = 0; value = 0 }

pub record SeriesBuffer : Type 0 where
  pub capacity : ℕ
  pub samples : List Sample
  pub head : ℕ
  pub tail : ℕ

pub record Snapshot : Type 0 where
  pub samples : List Sample
  pub end : ℕ

-- `head_` restarts at 0; `tail_` is left as it is.
unfoldable pub set_capacity : SeriesBuffer → ℕ → SeriesBuffer
set_capacity s capacity = record s {
  capacity = capacity;
  samples = replicate capacity zero_sample;
  head = 0;
}

-- The constructor: the members' initialisers, then `SetCapacity`.
unfoldable pub new : ℕ → SeriesBuffer
unfolding set_capacity
new capacity = set_capacity (record { capacity = 0; samples = []; head = 0; tail = 0 }) capacity

-- A `set` out of range changes nothing; `Bounds.in_bounds` rules it out.
unfoldable pub push : SeriesBuffer → Sample → SeriesBuffer
push s sample = if s.capacity == 0 then s else record s {
  tail = if leb s.capacity (sub64 s.head s.tail) then add64 s.tail 1 else s.tail;
  samples = set s.samples (s.head % s.capacity) sample;
  head = add64 s.head 1;
}

unfoldable pub latest : SeriesBuffer → Option Sample
latest s =
    if s.head == 0 then none else some (get_or s.samples (sub64 s.head 1 % s.capacity) zero_sample)

unfoldable pub get_next_snapshot_size : SeriesBuffer → ℕ
get_next_snapshot_size s = sub64 s.head s.tail

-- The loop of `GetSnapshot` with `rounds` rounds left: `push_back(samples_[i % capacity_])`.
abbrev pub copy_from : List Sample → ℕ → ℕ → ℕ → List Sample
copy_from samples capacity i zero = []
copy_from samples capacity i (suc rounds) =
    get_or samples (i % capacity) zero_sample ∷ copy_from samples capacity (i + 1) rounds

-- `for (i = tail_; i < head_; ++i)` makes `head - tail` rounds, none where `tail_` is not below.
unfoldable pub snapshot_of : SeriesBuffer → Snapshot
snapshot_of s = record {
  samples = copy_from s.samples s.capacity s.tail (s.head - s.tail);
  end = s.head;
}

-- `max_size()` of a vector of samples, of 16 bytes each.
abbrev max_samples : ℕ
max_samples = 2 ^ 59 - 1

-- `GetSnapshot`; `none` is the `std::length_error` of `reserve(head_ - tail_)`, where `tail_` is above
-- `head_` and the difference wraps to more samples than a vector can hold. Where it is not, as many
-- samples are in the storage already, so that a vector can hold them.
unfoldable pub get_snapshot : SeriesBuffer → Option Snapshot
unfolding snapshot_of
get_snapshot s =
    if ltb s.head s.tail && ltb max_samples (sub64 s.head s.tail)
    then none
    else some (snapshot_of s)

unfoldable pub ack_snapshot : SeriesBuffer → Snapshot → SeriesBuffer
ack_snapshot s snapshot = if ltb s.tail snapshot.end then record s { tail = snapshot.end } else s

-- `Size` and `Empty`: of the storage, which always has the capacity's length.
unfoldable pub size : SeriesBuffer → ℕ
size s = length s.samples

unfoldable pub empty : SeriesBuffer → Bool
empty s = is_empty s.samples

-- A producer's calls in order.
unfoldable pub push_all : SeriesBuffer → List Sample → SeriesBuffer
push_all s [] = s
push_all s (x ∷ xs) = push_all (push s x) xs
