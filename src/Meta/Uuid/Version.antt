-- ===== src/Meta/Uuid/Version.antt =====
-- The version and the variant of a generated identifier.
use flux_ripper.Base.{
  ℕ, zero, suc, ◌+◌, ◌*◌, ◌/◌, ◌%◌, ◌^◌, ◌<◌, ◌≡◌, refl, ap, ◌∙◌, arith, bit_and, bit_or,
  bit_and-le, bit_or-shift, bit_or_comm, List, length, get_or,
}
use flux_ripper.Meta.Uuid.{
  lfsr_next, low_bytes, mark_variant, generate_uuid, hex_digit, hex, uuid_to_string,
}

-- `(x & (2 ^ k - 1)) | (v << k)`
marked : (k v x m : ℕ) → m < 2 ^ k → bit_or (bit_and x m) (v * 2 ^ k) ≡ v * 2 ^ k + bit_and x m
marked k v x m p =
    let small : bit_and x m < 2 ^ k = omega (arith, bit_and-le x m) in
    bit_or_comm (bit_and x m) (v * 2 ^ k) ∙ bit_or-shift k v (bit_and x m) small

length-low_bytes : (n s : ℕ) → length (low_bytes n s) ≡ n
unfolding low_bytes
length-low_bytes zero s = refl
length-low_bytes (suc n) s = ap suc (length-low_bytes n (lfsr_next s))

version_digit : (x : ℕ) → bit_or (bit_and x 0x0FFF) 0x4000 / 2 ^ 12 ≡ 4
version_digit x = omega (arith, marked 12 4 x 0x0FFF (omega arith), bit_and-le x 0x0FFF)

variant_bits : (x : ℕ) → bit_or (bit_and x 0x3F) 0x80 / 2 ^ 6 ≡ 2
variant_bits x = omega (arith, marked 6 2 x 0x3F (omega arith), bit_and-le x 0x3F)

-- Whatever the fingerprint and the time, the identifier has the version 4 in the upper four bits of `data3`,
-- the variant of RFC 4122 in the upper two bits of the first byte of `data4`, eight bytes there, and prints
-- as 36 characters with the version as the fifteenth.
pub generate_uuid_marks :
    (fingerprint : List ℕ) (timestamp : ℕ)
    → ((generate_uuid fingerprint timestamp).data3 / 2 ^ 12 ≡ 4)
      × (get_or ((generate_uuid fingerprint timestamp).data4) 0 0 / 2 ^ 6 ≡ 2)
      × (length ((generate_uuid fingerprint timestamp).data4) ≡ 8)
      × (length (uuid_to_string (generate_uuid fingerprint timestamp)) ≡ 36)
      × (get_or (uuid_to_string (generate_uuid fingerprint timestamp)) 14 0 ≡ 52)
unfolding generate_uuid mark_variant low_bytes uuid_to_string hex hex_digit
generate_uuid_marks fingerprint timestamp =
    (version_digit _, variant_bits _, refl, refl, ap (λ v. hex_digit (v % 16)) (version_digit _))
