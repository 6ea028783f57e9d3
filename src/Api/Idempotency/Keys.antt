-- ===== src/Api/Idempotency/Keys.antt =====
-- Keys and digests: which requests share a key, and which bodies share a hash.
use propfirm_engine.Base.{
  ℕ, ◌/◌, ◌%◌, ◌<◌, suc, zero, false, List, [], ◌∷◌, ◌++◌, some, ◌≡◌, ◌↔◌, refl, ap, length,
  get_elem?, unwrap_or, arith, Bool, any, ◌==◌, All,
}
use propfirm_engine.Core.Ids.{Uuid}
use propfirm_engine.Api.Idempotency.{
  Text, Environment, composite_key, hash_body, finalize_hex, hex, hex_digit, hex_digits,
}

abbrev pub has_nul : Text → Bool
has_nul = any (λ c. c == 0)

-- The text of a UUID tells UUIDs apart, and has no byte zero: it is made of hexadecimal digits and
-- hyphens.
pub record IsDisplay (env : Environment) : Type 0 where
  pub show_injective : (a b : Uuid) → env.show_uuid a ≡ env.show_uuid b → a ≡ b
  pub show_no_nul : (a : Uuid) → has_nul (env.show_uuid a) ≡ false

-- The digest is a list of bytes.
pub record IsDigest (env : Environment) : Type 0 where
  pub bytes : (m : List ℕ) → All (λ b. b < 256) (env.sha256 m)

split_at_nul :
    (s s' t t' : Text)
    → has_nul s ≡ false
    → has_nul s' ≡ false
    → s ++ 0 ∷ t ≡ s' ++ 0 ∷ t'
    → (s ≡ s') × (t ≡ t')
split_at_nul [] [] t t' h h' e = (refl, ground (arith, e))
split_at_nul [] (b ∷ s') t t' h h' e = absurd (ground (arith, e, h'))
split_at_nul (a ∷ s) [] t t' h h' e = absurd (ground (arith, e, h))
split_at_nul (a ∷ s) (b ∷ s') t t' h h' e =
    ground (arith, split_at_nul s s' t t' (ground arith) (ground arith) (ground arith), e)

-- Two requests of tenants, to endpoints whose names have no byte zero, share a key exactly when
-- the tenant, the endpoint and the idempotency key are the same.
pub composite_key_injective :
    (env : Environment) (a b : Uuid) (endpoint endpoint' key key' : Text)
    → IsDisplay env
    → has_nul endpoint ≡ false
    → has_nul endpoint' ≡ false
    → (composite_key env (some a) endpoint key ≡ composite_key env (some b) endpoint' key')
      ↔ ((a ≡ b) × (endpoint ≡ endpoint') × (key ≡ key'))
unfolding composite_key
composite_key_injective env a b endpoint endpoint' key key' d h h' = (
  λ e.
      let (same, rest) =
        split_at_nul (env.show_uuid a) (env.show_uuid b) (endpoint ++ 0 ∷ key)
          (endpoint' ++ 0 ∷ key') (d.show_no_nul a) (d.show_no_nul b) e in
      let (same_endpoint, same_key) = split_at_nul endpoint endpoint' key key' h h' rest in
      (d.show_injective a b same, same_endpoint, same_key),
  λ e. ground (arith, e),
)

-- Texts in rising order.
abbrev IsRising : ℕ → Text → Type 0
IsRising low [] = Unit
IsRising low (c ∷ t) = (low < c) × IsRising c t

rising_above :
    (low : ℕ) (t : Text) (i : ℕ) → IsRising low t → i < length t → low < unwrap_or (get_elem? t i) 0
rising_above low [] i r h = absurd (omega arith)
rising_above low (c ∷ t) zero (r, rs) h = r
rising_above low (c ∷ t) (suc i) (r, rs) h = omega (arith, rising_above c t i rs (omega arith), r)

rising_injective :
    (low : ℕ) (t : Text) (i j : ℕ)
    → IsRising low t
    → i < length t
    → j < length t
    → unwrap_or (get_elem? t i) 0 ≡ unwrap_or (get_elem? t j) 0
    → i ≡ j
rising_injective low [] i j r h k e = absurd (omega arith)
rising_injective low (c ∷ t) zero zero r h k e = refl
rising_injective low (c ∷ t) zero (suc j) (r, rs) h k e =
    absurd (omega (arith, rising_above c t j rs (omega arith), e))
rising_injective low (c ∷ t) (suc i) zero (r, rs) h k e =
    absurd (omega (arith, rising_above c t i rs (omega arith), e))
rising_injective low (c ∷ t) (suc i) (suc j) (r, rs) h k e =
    ap suc (rising_injective c t i j rs (omega arith) (omega arith) e)

hex_digit_injective : (a b : ℕ) → a < 16 → b < 16 → hex_digit a ≡ hex_digit b → a ≡ b
unfolding hex_digit
hex_digit_injective a b h k e = rising_injective 0 hex_digits a b (omega arith) h k e

byte_injective : (a b : ℕ) → a / 16 ≡ b / 16 → a % 16 ≡ b % 16 → a ≡ b
byte_injective a b h k = omega arith

hex_injective : (s t : List ℕ) → All (λ b. b < 256) s → All (λ b. b < 256) t → hex s ≡ hex t → s ≡ t
unfolding hex
hex_injective [] [] hs ht e = refl
hex_injective [] (b ∷ t) hs ht e = absurd (ground (arith, e))
hex_injective (a ∷ s) [] hs ht e = absurd (ground (arith, e))
hex_injective (a ∷ s) (b ∷ t) (ha, hs) (hb, ht) e = ground (
  arith,
  hex_digit_injective (a / 16) (b / 16) (omega arith) (omega arith),
  hex_digit_injective (a % 16) (b % 16) (omega arith) (omega arith),
  hex_injective s t hs ht,
  byte_injective a b,
)

-- Two bodies have the same hash exactly when the digests of their bytes, followed by 0xff, are
-- the same: the text of a digest loses nothing.
pub hash_body_injective :
    (env : Environment) (s t : Text)
    → IsDigest env
    → (hash_body env s ≡ hash_body env t)
      ↔ (env.sha256 (s ++ 255 ∷ []) ≡ env.sha256 (t ++ 255 ∷ []))
unfolding hash_body finalize_hex
hash_body_injective env s t d = (
  λ e.
      hex_injective (env.sha256 (s ++ 255 ∷ [])) (env.sha256 (t ++ 255 ∷ []))
        (d.bytes (s ++ 255 ∷ [])) (d.bytes (t ++ 255 ∷ [])) (ground (arith, e)),
  λ e. ap finalize_hex e,
)
