-- ===== src/Decimal.antt =====
-- `rust_decimal::Decimal`, which core/types.rs re-exports: a parameter of the model.
-- `Decimal` holds the operations that the modelled code calls, `IsOrdered` and `IsMonotone` the
-- documented behaviour that theorems name as a hypothesis: the total numeric order, the two
-- selections, and laws of arithmetic that rounding keeps. Overflow, which panics, is left out.
pub mod Scaled
use propfirm_engine.Base.{ℕ, Option, Bool, true, false, not, ◌≡◌, if◌then◌else◌}
use propfirm_engine.Base.Int.{ℤ, pos}

pub record Decimal (D : Type 0) : Type 0 where
  pub nought : D
  -- `Decimal::new(number, scale)`: number / 10 ^ scale, also `Decimal::from(number)` at scale 0.
  pub new : ℤ → ℕ → D
  pub add : D → D → D
  pub sub : D → D → D
  pub mul : D → D → D
  -- Read only where the divisor is not zero: division by zero panics.
  pub div : D → D → D
  pub max : D → D → D
  pub min : D → D → D
  pub abs : D → D
  pub lt : D → D → Bool
  pub le : D → D → Bool
  pub is_zero : D → Bool
  pub is_sign_positive : D → Bool
  -- The conversions cut the fraction off, and fail out of range.
  pub to_u32 : D → Option ℕ
  pub to_u64 : D → Option ℕ
  pub to_i64 : D → Option ℤ
  -- No square root of a negative number.
  pub sqrt : D → Option D

module _ {D : Type 0} ⦃d : Decimal D⦄ where
  infix 4 ◌≼◌
  abbrev pub ◌≼◌ : D → D → Type 0
  x ≼ y = d.le x y ≡ true

-- The order on values, and what `max` and `min` select.
pub record IsOrdered (D : Type 0) ⦃d : Decimal D⦄ : Type 0 where
  pub lt-eq-not-le : (x y : D) → d.lt x y ≡ not (d.le y x)
  pub le_refl : (x : D) → x ≼ x
  pub le_trans : (x y z : D) → x ≼ y → y ≼ z → x ≼ z
  pub le_total : (x y : D) → d.le x y ≡ false → y ≼ x
  pub max_lem : (x y : D) → d.max x y ≡ (if d.lt x y then y else x)
  pub min_lem : (x y : D) → d.min x y ≡ (if d.lt y x then y else x)

-- Arithmetic that is monotone, as it stays when a result is rounded.
pub record IsMonotone (D : Type 0) ⦃d : Decimal D⦄ : Type 0 where
  pub sub_mono : (x y z : D) → x ≼ y → d.sub x z ≼ d.sub y z
  pub sub_anti : (x y z : D) → x ≼ y → d.sub z y ≼ d.sub z x
  pub sub_self : (x : D) → d.sub x x ≡ d.nought
  pub sub_nought : (x : D) → d.sub x d.nought ≡ x
  pub add_mono : (x y z : D) → x ≼ y → d.add x z ≼ d.add y z
