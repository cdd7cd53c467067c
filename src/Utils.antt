-- ===== src/Utils.antt =====
-- sources/agent/src/utils/utils.h and utils.cc. What the C library and the system answer, and the two
-- numbers that the generator of `GenerateUUIDv4` draws, are arguments.
pub mod Bits
pub mod Hex
pub mod Uuid
use Prim.Native.Nat.{bit_and, bit_or}
use volta.Prelude.{
  ℕ, zero, suc, ◌+◌, ◌-◌, ◌/◌, ◌%◌, ◌^◌, List, [], ◌∷◌, ◌++◌, Text, text, length, replicate, ltb,
  if◌then◌else◌, Bool, ◌||◌, ◌==◌, Option, none, some, contains, dec,
}

-- A digit of `std::hex`.
abbrev pub hex_digit : ℕ → ℕ
hex_digit d = if ltb d 10 then b'0' + d else b'a' + (d - 10)

-- The hexadecimal digits of a number, as few as needed, at most as many as the fuel.
unfoldable pub hex_from : ℕ → ℕ → Text
hex_from zero n = []
hex_from (suc f) n =
    let more = hex_from f (n / 16) in
    if ltb n 16 then hex_digit n ∷ [] else more ++ hex_digit (n % 16) ∷ []

-- `std::hex << std::setfill('0') << std::setw(width)`; a `uint64_t` has at most sixteen digits.
unfoldable pub hex : ℕ → ℕ → Text
unfolding hex_from
hex width n = replicate (width - length (hex_from 16 n)) b'0' ++ hex_from 16 n

-- Version 4 in the first number, variant 1 in the second.
abbrev pub with_version : ℕ → ℕ
with_version a = bit_or (bit_and a 0xffffffffffff0fff) 0x4000

abbrev pub with_variant : ℕ → ℕ
with_variant b = bit_or (bit_and b 0x3fffffffffffffff) 0x8000000000000000

-- The text of the two numbers.
unfoldable pub uuid_text : ℕ → ℕ → Text
unfolding hex
uuid_text a b =
    hex 8 (a / 2 ^ 32)
    ++ (b'-' ∷ hex 4 (bit_and (a / 2 ^ 16) 0xffff)
        ++ (b'-' ∷ hex 4 (bit_and a 0xffff)
            ++ (b'-' ∷ hex 4 (b / 2 ^ 48) ++ (b'-' ∷ hex 12 (bit_and b 0x0000ffffffffffff)))))

unfoldable pub generate_uuid_v4 : ℕ → ℕ → Text
unfolding uuid_text
generate_uuid_v4 a b = uuid_text (with_version a) (with_variant b)

-- What `inet_pton` returns for each family, and `getaddrinfo`.
pub record Network : Type 0 where
  pub inet_pton : Text → ℕ
  pub inet_pton_6 : Text → ℕ
  pub getaddrinfo : Text → ℕ

unfoldable pub is_valid_ip : Network → Text → Bool
is_valid_ip net ip = net.inet_pton ip == 1 || net.inet_pton_6 ip == 1

unfoldable pub is_resolvable : Network → Text → Bool
is_resolvable net host = net.getaddrinfo host == 0

-- The members of a set of CPUs among `n` from `i` on.
unfoldable pub print_cpus : List ℕ → ℕ → ℕ → Text
print_cpus set i zero = []
print_cpus set i (suc n) =
    let rest = print_cpus set (i + 1) n in if contains set i then dec i ++ (b' ' ∷ rest) else rest

-- What `PrintCurrentAffinity` prints, at the set that `sched_getaffinity` gives if it succeeds, and the
-- number of CPUs.
unfoldable pub print_current_affinity : Option (List ℕ) → ℕ → Text
unfolding print_cpus
print_current_affinity none max_cpus = []
print_current_affinity (some set) max_cpus =
    text "Current CPU affinity: " ++ (print_cpus set 0 max_cpus ++ 10 ∷ [])
