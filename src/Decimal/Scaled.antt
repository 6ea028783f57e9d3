-- ===== src/Decimal/Scaled.antt =====
-- A concrete decimal type with four places, for tests and witnesses: the integer `n` stands for
-- n / 10000. Products and quotients are cut towards zero.
use propfirm_engine.Base.{
  zero, suc, Option, none, some, ltb, leb, ℕ, ◌+◌, ◌*◌, ◌/◌, ◌^◌, Bool, not, if◌then◌else◌, ◌==◌,
  arith,
}
use propfirm_engine.Base.Int.{ℤ, pos, negsuc, pos_part, neg_part, sub_ℕ, ◌+ℤ◌, ◌-ℤ◌, ltb_ℤ, leb_ℤ}
use propfirm_engine.Decimal.{Decimal, IsOrdered, IsMonotone}

abbrev pub Scaled : Type 0
Scaled = ℤ

abbrev unit : ℕ
unit = 10000

-- A signed magnitude.
abbrev with_sign : Bool → ℕ → ℤ
with_sign negative n = if negative then sub_ℕ 0 n else pos n

abbrev magnitude : ℤ → ℕ
magnitude a = pos_part a + neg_part a

abbrev is_negative : ℤ → Bool
is_negative a = ltb_ℤ a (pos 0)

abbrev mul_scaled : ℤ → ℤ → ℤ
mul_scaled (pos a) (pos b) = pos (a * b / unit)
mul_scaled (pos a) (negsuc b) = sub_ℕ 0 (a * (b + 1) / unit)
mul_scaled (negsuc a) (pos b) = sub_ℕ 0 ((a + 1) * b / unit)
mul_scaled (negsuc a) (negsuc b) = pos ((a + 1) * (b + 1) / unit)

abbrev div_scaled : ℤ → ℤ → ℤ
div_scaled a b = mul_sign b (with_sign (is_negative a) (magnitude a * unit / magnitude b))
  where
    mul_sign : ℤ → ℤ → ℤ
    mul_sign (pos _) q = q
    mul_sign (negsuc _) q = pos 0 -ℤ q

abbrev natural_below : ℕ → Bool → ℕ → Option ℕ
natural_below bound negative n = if negative then none else if ltb n bound then some n else none

-- The whole part of a square root, bit by bit.
abbrev root : ℕ → ℕ → ℕ → ℕ
root zero n r = r
root (suc k) n r = root k n (if leb ((r + 2 ^ k) * (r + 2 ^ k)) n then r + 2 ^ k else r)

abbrev new_scaled : ℤ → ℕ → ℤ
new_scaled a s = with_sign (is_negative a) (magnitude a * unit / 10 ^ s)

instance abbrev pub scaled_decimal : Decimal Scaled
scaled_decimal = record {
  nought = pos 0;
  new = new_scaled;
  add = ◌+ℤ◌;
  sub = ◌-ℤ◌;
  mul = mul_scaled;
  div = div_scaled;
  max = λ a b. if ltb_ℤ a b then b else a;
  min = λ a b. if ltb_ℤ b a then b else a;
  abs = λ a. pos (magnitude a);
  lt = ltb_ℤ;
  le = leb_ℤ;
  is_zero = λ a. magnitude a == 0;
  is_sign_positive = λ a. not (is_negative a);
  to_u32 = λ a. natural_below (2 ^ 32) (is_negative a) (magnitude a / unit);
  to_u64 = λ a. natural_below (2 ^ 64) (is_negative a) (magnitude a / unit);
  to_i64 = λ a. some (with_sign (is_negative a) (magnitude a / unit));
  sqrt = λ a. if is_negative a then none else some (pos (root 64 (magnitude a * unit) 0));
}

pub Scaled-IsOrdered : IsOrdered Scaled
Scaled-IsOrdered = ground arith

pub Scaled-IsMonotone : IsMonotone Scaled
unfolding ◌+ℤ◌ ◌-ℤ◌
Scaled-IsMonotone = ground arith
