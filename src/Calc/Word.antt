-- ===== src/Calc/Word.antt =====
-- Bit patterns of `w` bits and the integers that they stand for.
use kcc.Prelude.{
  ℕ, ◌-◌, ◌%◌, ◌^◌, ◌≤◌, ◌<◌, Bool, true, false, ◌≡◌, ltb, if◌then◌else◌, arith, ◌==◌,
}
use kcc.Prelude.Int.{ℤ, pos, negsuc, ◌==ℤ◌}
use kcc.Ty.Conversion.{Sign, signed, unsigned}

-- The pattern of an integer modulo `2 ^ w`.
unfoldable pub encode : ℕ → ℤ → ℕ
encode w (pos n) = n % 2 ^ w
encode w (negsuc n) = 2 ^ w - 1 - n % 2 ^ w

-- The integer that a pattern stands for.
unfoldable pub read : Sign → ℕ → ℕ → ℤ
read unsigned w b = pos b
read signed w b = if ltb b (2 ^ (w - 1)) then pos b else negsuc (2 ^ w - 1 - b)

-- The integers that have a pattern of their own.
unfoldable pub fits : Sign → ℕ → ℤ → Bool
fits unsigned w (pos n) = ltb n (2 ^ w)
fits unsigned w (negsuc n) = false
fits signed w (pos n) = ltb n (2 ^ (w - 1))
fits signed w (negsuc n) = ltb n (2 ^ (w - 1))

-- The widths of the integer types.
pub data IsWidth : ℕ → Type 0 where
  w1 : IsWidth 1
  w8 : IsWidth 8
  w16 : IsWidth 16
  w32 : IsWidth 32
  w64 : IsWidth 64

pub encode-lt : (w : ℕ) → IsWidth w → (z : ℤ) → encode w z < 2 ^ w
unfolding encode
encode-lt w w1 z = ground arith
encode-lt w w8 z = ground arith
encode-lt w w16 z = ground arith
encode-lt w w32 z = ground arith
encode-lt w w64 z = ground arith

pub read-encode :
    (s : Sign) (w : ℕ) → IsWidth w → (z : ℤ) → fits s w z ≡ true → read s w (encode w z) ≡ z
unfolding encode read fits
read-encode s w w1 z h = ground arith
read-encode s w w8 z h = ground arith
read-encode s w w16 z h = ground arith
read-encode s w w32 z h = ground arith
read-encode s w w64 z h = ground arith

pub encode-read : (s : Sign) (w : ℕ) → IsWidth w → (b : ℕ) → b < 2 ^ w → encode w (read s w b) ≡ b
unfolding encode read
encode-read s w w1 b h = ground arith
encode-read s w w8 b h = ground arith
encode-read s w w16 b h = ground arith
encode-read s w w32 b h = ground arith
encode-read s w w64 b h = ground arith

pub encode-read_narrow :
    (s : Sign) (w v : ℕ)
    → IsWidth w
    → IsWidth v
    → v ≤ w
    → (b : ℕ) → b < 2 ^ w
    → encode v (read s w b) ≡ b % 2 ^ v
unfolding encode read
encode-read_narrow s w v w1 w1 h b hb = ground arith
encode-read_narrow s w v w8 w1 h b hb = ground arith
encode-read_narrow s w v w8 w8 h b hb = ground arith
encode-read_narrow s w v w16 w1 h b hb = ground arith
encode-read_narrow s w v w16 w8 h b hb = ground arith
encode-read_narrow s w v w16 w16 h b hb = ground arith
encode-read_narrow s w v w32 w1 h b hb = ground arith
encode-read_narrow s w v w32 w8 h b hb = ground arith
encode-read_narrow s w v w32 w16 h b hb = ground arith
encode-read_narrow s w v w32 w32 h b hb = ground arith
encode-read_narrow s w v w64 w1 h b hb = ground arith
encode-read_narrow s w v w64 w8 h b hb = ground arith
encode-read_narrow s w v w64 w16 h b hb = ground arith
encode-read_narrow s w v w64 w32 h b hb = ground arith
encode-read_narrow s w v w64 w64 h b hb = ground arith
encode-read_narrow s w v _ _ h b hb = absurd (omega arith)

pub read-==ℤ :
    (s : Sign) (w : ℕ)
    → IsWidth w
    → (a b : ℕ) → a < 2 ^ w
    → b < 2 ^ w
    → (read s w a ==ℤ read s w b) ≡ (a == b)
unfolding read
read-==ℤ s w w1 a b ha hb = ground arith
read-==ℤ s w w8 a b ha hb = ground arith
read-==ℤ s w w16 a b ha hb = ground arith
read-==ℤ s w w32 a b ha hb = ground arith
read-==ℤ s w w64 a b ha hb = ground arith

-- An extension keeps the number.
pub encode_wide :
    (w v : ℕ) → IsWidth w → IsWidth v → w ≤ v → (a : ℕ) → a < 2 ^ w → encode v (pos a) ≡ a
unfolding encode
encode_wide w v w1 w1 h a ha = omega arith
encode_wide w v w1 w8 h a ha = omega arith
encode_wide w v w1 w16 h a ha = omega arith
encode_wide w v w1 w32 h a ha = omega arith
encode_wide w v w1 w64 h a ha = omega arith
encode_wide w v w8 w8 h a ha = omega arith
encode_wide w v w8 w16 h a ha = omega arith
encode_wide w v w8 w32 h a ha = omega arith
encode_wide w v w8 w64 h a ha = omega arith
encode_wide w v w16 w16 h a ha = omega arith
encode_wide w v w16 w32 h a ha = omega arith
encode_wide w v w16 w64 h a ha = omega arith
encode_wide w v w32 w32 h a ha = omega arith
encode_wide w v w32 w64 h a ha = omega arith
encode_wide w v w64 w64 h a ha = omega arith
encode_wide w v _ _ h a ha = absurd (omega arith)

pub read_zero : (s : Sign) (w : ℕ) → IsWidth w → (b : ℕ) → (read s w b ==ℤ pos 0) ≡ (b == 0)
unfolding read
read_zero s w w1 b = ground arith
read_zero s w w8 b = ground arith
read_zero s w w16 b = ground arith
read_zero s w w32 b = ground arith
read_zero s w w64 b = ground arith
