-- ===== src/Buffer/Keys/Hash.antt =====
-- sources/agent/src/buffer.cc: `HashCombineBytes` and `BufferKeyHash`, a 64-bit FNV-1a hash.
use Prim.Native.Nat.{bit_xor}
use volta.Prelude.{
  ℕ, zero, suc, ◌/◌, ◌%◌, ◌<◌, ◌^◌, ◌≡◌, refl, List, [], ◌∷◌, ◌++◌, arith, mul64, length,
}
use volta.Buffer.Keys.{BufferKey}

abbrev fnv_offset : ℕ
fnv_offset = 1469598103934665603

abbrev fnv_prime : ℕ
fnv_prime = 1099511628211

-- The object representation of an unsigned field of `size` bytes, least significant byte first.
abbrev bytes_of : ℕ → ℕ → List ℕ
bytes_of zero n = []
bytes_of (suc size) n = n % 256 ∷ bytes_of size (n / 256)

unfoldable pub hash_combine_bytes : ℕ → List ℕ → ℕ
hash_combine_bytes hash [] = hash
hash_combine_bytes hash (byte ∷ bytes) =
    hash_combine_bytes (mul64 (bit_xor hash byte) fnv_prime) bytes

unfoldable pub hash : BufferKey → ℕ
unfolding hash_combine_bytes
hash key =
    let h = hash_combine_bytes fnv_offset (bytes_of 4 key.metric_type) in
    let h = hash_combine_bytes h (bytes_of 2 key.pci_domain) in
    let h = hash_combine_bytes h (bytes_of 1 key.pci_bus) in
    let h = hash_combine_bytes h (bytes_of 1 key.pci_device) in
    let h = hash_combine_bytes h (bytes_of 1 key.pci_function) in
    let h = hash_combine_bytes h (bytes_of 1 key.socket_index) in
    let h = hash_combine_bytes h (bytes_of 2 key.core_index) in
    let h = hash_combine_bytes h (bytes_of 4 key.ifindex) in
    let h = hash_combine_bytes h (bytes_of 4 key.disk_major) in
    hash_combine_bytes h (bytes_of 4 key.disk_minor)

-- The bytes of a key in the order in which they are hashed, without padding.
abbrev key_bytes : BufferKey → List ℕ
key_bytes key =
    bytes_of 4 key.metric_type
    ++ (bytes_of 2 key.pci_domain
        ++ (bytes_of 1 key.pci_bus
            ++ (bytes_of 1 key.pci_device
                ++ (bytes_of 1 key.pci_function
                    ++ (bytes_of 1 key.socket_index
                        ++ (bytes_of 2 key.core_index
                            ++ (bytes_of 4 key.ifindex
                                ++ (bytes_of 4 key.disk_major ++ bytes_of 4 key.disk_minor))))))))

hash_combine_bytes-lt : (h : ℕ) (xs : List ℕ) → h < 2 ^ 64 → hash_combine_bytes h xs < 2 ^ 64
unfolding hash_combine_bytes
hash_combine_bytes-lt h [] l = l
hash_combine_bytes-lt h (x ∷ xs) l =
    hash_combine_bytes-lt (mul64 (bit_xor h x) fnv_prime) xs (omega arith)

-- The ten calls of the hash are one pass over the bytes of the key's fields, which are 24, and the
-- result fits a `size_t`.
hash-one_pass :
    (key : BufferKey)
    → (hash key ≡ hash_combine_bytes fnv_offset (key_bytes key))
      × (length (key_bytes key) ≡ 24)
      × (hash key < 2 ^ 64)
unfolding hash
hash-one_pass key = (refl, refl, hash_combine_bytes-lt fnv_offset (key_bytes key) (omega arith))
