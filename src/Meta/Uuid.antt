-- ===== src/Meta/Uuid.antt =====
-- The identifiers in soc/firmware/src/hdd_metadata.c: 128 bits out of a shift register that a hash of the
-- fingerprint seeds, and their printed form.
pub mod Version
use Prim.Native.Nat.{bit_xor}
use flux_ripper.Base.{
  ℕ, zero, suc, ◌+◌, ◌-◌, ◌*◌, ◌/◌, ◌%◌, ◌^◌, if◌then◌else◌, ltb, bit_and, bit_or, List, [], ◌∷◌,
  ◌++◌, get_or,
}
use flux_ripper.Meta.State.{Uuid}

-- `lfsr_next`: the next state, which is also its value.
unfoldable pub lfsr_next : ℕ → ℕ
lfsr_next s =
    let b = bit_and (bit_xor (bit_xor (bit_xor s (s / 2 ^ 2)) (s / 2 ^ 3)) (s / 2 ^ 5)) 1 in
    bit_or (s / 2) (b * 2 ^ 31)

-- `fingerprint_hash`, of the 32 bytes.
unfoldable pub hash_from : ℕ → List ℕ → ℕ
hash_from h [] = h
hash_from h (b ∷ bs) = hash_from ((h * 2 ^ 5 + h + b) % 2 ^ 32) bs

abbrev pub fingerprint_hash : List ℕ → ℕ
fingerprint_hash bytes = hash_from 5381 bytes

-- The low byte of the next `n` states.
unfoldable pub low_bytes : ℕ → ℕ → List ℕ
low_bytes zero s = []
low_bytes (suc n) s = bit_and (lfsr_next s) 0xFF ∷ low_bytes n (lfsr_next s)

-- The variant bits, in the first byte.
unfoldable pub mark_variant : List ℕ → List ℕ
mark_variant [] = []
mark_variant (b ∷ bs) = bit_or (bit_and b 0x3F) 0x80 ∷ bs

-- `meta_generate_uuid`
unfoldable pub generate_uuid : List ℕ → ℕ → Uuid
unfolding hash_from
generate_uuid fingerprint timestamp =
    let hash = fingerprint_hash fingerprint in
    let s1 = lfsr_next (bit_xor (bit_xor hash (timestamp % 2 ^ 32)) 0xDEADBEEF) in
    let s2 = lfsr_next s1 in
    let s3 = lfsr_next s2 in
    record {
      data1 = bit_xor s1 hash;
      data2 = bit_and s2 0xFFFF;
      data3 = bit_or (bit_and s3 0x0FFF) 0x4000;
      data4 = mark_variant (low_bytes 8 s3);
    }

-- `%0nX`: the last `n` digits to the base 16, which are all where the number has no more.
unfoldable pub hex_digit : ℕ → ℕ
hex_digit v = if ltb v 10 then 48 + v else 55 + v

unfoldable pub hex : ℕ → ℕ → List ℕ
unfolding hex_digit
hex zero v = []
hex (suc n) v = hex_digit (v / 16 ^ n % 16) ∷ hex n v

-- `meta_uuid_to_string`, without its NUL.
unfoldable pub uuid_to_string : Uuid → List ℕ
unfolding hex
uuid_to_string u =
    let byte : ℕ → List ℕ = λ i. hex 2 (get_or (u.data4) i 0) in
    hex 8 u.data1
    ++ (45 ∷ hex 4 u.data2)
    ++ (45 ∷ hex 4 u.data3)
    ++ (45 ∷ byte 0 ++ byte 1)
    ++ (45 ∷ byte 2 ++ byte 3 ++ byte 4 ++ byte 5 ++ byte 6 ++ byte 7)
