-- ===== src/Scsi/Cdb.antt =====
-- Big-endian fields of CDBs and responses, in soc/firmware/src/scsi_handler.c.
use flux_ripper.Base.{
  ℕ, ◌+◌, ◌*◌, ◌/◌, ◌%◌, ◌^◌, ◌<◌, ◌≡◌, arith, List, [], ◌∷◌, ◌++◌, get_or, bit_and, bit_or,
  bit_and-byte, bit_or-shift,
}

-- A byte of a CDB or a buffer; every CDB has 16 bytes.
abbrev pub byte : List ℕ → ℕ → ℕ
byte bytes i = get_or bytes i 0

-- `get_be32(&buf[i])`
unfoldable pub get_be32 : List ℕ → ℕ → ℕ
get_be32 buf i =
    bit_or
      (bit_or (bit_or (byte buf i * 2 ^ 24) (byte buf (i + 1) * 2 ^ 16)) (byte buf (i + 2) * 2 ^ 8))
      (byte buf (i + 3))

-- `get_be16(&buf[i])`
unfoldable pub get_be16 : List ℕ → ℕ → ℕ
get_be16 buf i = bit_or (byte buf i * 2 ^ 8) (byte buf (i + 1))

-- The four bytes that `put_be32` writes.
unfoldable pub put_be32 : ℕ → List ℕ
put_be32 v =
    bit_and (v / 2 ^ 24) 255
    ∷ bit_and (v / 2 ^ 16) 255
    ∷ bit_and (v / 2 ^ 8) 255
    ∷ bit_and v 255
    ∷ []

-- The two bytes that `put_be16` writes.
unfoldable pub put_be16 : ℕ → List ℕ
put_be16 v = bit_and (v / 2 ^ 8) 255 ∷ bit_and v 255 ∷ []

join_be32 :
    (a b c d : ℕ)
    → b < 256
    → c < 256
    → d < 256
    → bit_or (bit_or (bit_or (a * 2 ^ 24) (b * 2 ^ 16)) (c * 2 ^ 8)) d
      ≡ a * 2 ^ 24 + b * 2 ^ 16 + c * 2 ^ 8 + d
join_be32 a b c d p q r =
    let two : bit_or (a * 2 ^ 24) (b * 2 ^ 16) ≡ (a * 256 + b) * 2 ^ 16 =
      omega (arith, bit_or-shift 24 a (b * 2 ^ 16) (omega arith)) in
    let three : bit_or ((a * 256 + b) * 2 ^ 16) (c * 2 ^ 8) ≡ (a * 65536 + b * 256 + c) * 2 ^ 8 =
      omega (arith, bit_or-shift 16 (a * 256 + b) (c * 2 ^ 8) (omega arith)) in
    rw (two, three) (omega (arith, bit_or-shift 8 (a * 65536 + b * 256 + c) d r))

-- What is stored big-endian is read back, modulo the width.
pub get_be32-put_be32 : (v : ℕ) (rest : List ℕ) → v < 2 ^ 32 → get_be32 (put_be32 v ++ rest) 0 ≡ v
unfolding get_be32 put_be32
get_be32-put_be32 v rest h =
    rw
      (
        bit_and-byte (v / 2 ^ 24),
        bit_and-byte (v / 2 ^ 16),
        bit_and-byte (v / 2 ^ 8),
        bit_and-byte v,
      )
      (omega (
        arith,
        join_be32 (v / 2 ^ 24 % 256) (v / 2 ^ 16 % 256) (v / 2 ^ 8 % 256) (v % 256) (omega arith)
            (omega arith) (omega arith),
      ))
