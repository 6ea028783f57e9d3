-- ===== src/Rules/Defaults/Names.antt =====
-- The ids of the default rules: `RuleId::named` of names that it keeps apart.
use Prim.Native.Nat.{Ordering}
use Prim.Native.String
use text.Mathlib.TextEquality.{path_by_compare, eq_iff}
use propfirm_engine.Base.{
  String, Bool, true, false, not, ◌&&◌, ◌||◌, List, [], ◌∷◌, ◌≡◌, refl, sym, ap, arith, same_string,
  any, ◌==◌, Bool-cases, inl, inr, subst, ◌∙◌, All,
}
use propfirm_engine.Core.Ids.{Uuid}
use propfirm_engine.Rules.Defaults.{dropped_by}

is_eq :
    (o : Ordering)
    → (elim o as (λ _. Bool) [ Ordering.eq ↦ true | _ ↦ false ]) ≡ true
    → o ≡ Ordering.eq
is_eq Ordering.eq h = refl
is_eq Ordering.lt h = absurd (ground arith)
is_eq Ordering.gt h = absurd (ground arith)

pub eq_of_same_string : (s t : String) → same_string s t ≡ true → s ≡ t
eq_of_same_string s t h = path_by_compare s t (is_eq (String.compare s t) h)

abbrev pub rule_names : List String
rule_names =
    "daily_drawdown" ∷ "max_drawdown" ∷ "trailing_drawdown" ∷ "profit_target" ∷ "min_trading_days"
    ∷ "min_profitable_days" ∷ "consistency" ∷ "news_trading" ∷ "overnight_holding"
    ∷ "weekend_holding" ∷ "max_position_size" ∷ "max_open_positions" ∷ "max_daily_trades"
    ∷ "time_limit" ∷ "cooldown" ∷ "hedging" ∷ "grid_trading" ∷ "copy_trading" ∷ "sl_required"
    ∷ "tp_required" ∷ "hft_scalping" ∷ "per_trade_max_loss" ∷ "inactivity" ∷ "max_total_lots"
    ∷ "trading_hours" ∷ "margin" ∷ "cross_account_hedging" ∷ "lowcap_exposure" ∷ []

-- The ids of different names in a list are different.
abbrev pub keeps_apart : (String → Uuid) → List String → Bool
keeps_apart named [] = true
keeps_apart named (s ∷ names) = not (any (λ t. named s == named t) names) && keeps_apart named names

same_string_refl : (s : String) → same_string s s ≡ true
same_string_refl s = (eq_iff s s).1 refl

any-named :
    (named : String → Uuid) (s : String) (names : List String) (id : Uuid)
    → any (same_string s) names ≡ true
    → any (λ t. id == named t) names ≡ false
    → (id == named s) ≡ false
any-named named s [] id h k = absurd (ground (arith, h))
any-named named s (t ∷ names) id h k = elim (Bool-cases (same_string s t)) [
  | inl e ↦
      (let same : named s ≡ named t = ap named (eq_of_same_string s t e) in ground (arith, k, same))
  | inr e ↦ any-named named s names id (ground (arith, h, e)) (ground (arith, k))
]

-- Different names of such a list have different ids.
pub apart :
    (named : String → Uuid) (s t : String) (names : List String)
    → keeps_apart named names ≡ true
    → any (same_string s) names ≡ true
    → any (same_string t) names ≡ true
    → same_string s t ≡ false
    → (named s == named t) ≡ false
apart named s t [] h k l e = absurd (ground (arith, k))
apart named s t (n ∷ names) h k l e = elim (Bool-cases (same_string s n)) [
  | inl a ↦ elim (Bool-cases (same_string t n)) [
    | inl b ↦ absurd (
        let x = eq_of_same_string s n a in
        let y = eq_of_same_string t n b in
        ground (arith, e, subst (λ u. same_string s u ≡ true) (x ∙ sym y) (same_string_refl s)))
    | inr b ↦
        (let x = ap named (eq_of_same_string s n a) in
          ground (
            arith,
            x,
            any-named named t names (named n) (ground (arith, l, b)) (ground (arith, h)),
          ))
  ]
  | inr a ↦ elim (Bool-cases (same_string t n)) [
    | inl b ↦
        (let y = ap named (eq_of_same_string t n b) in
          ground (
            arith,
            y,
            any-named named s names (named n) (ground (arith, k, a)) (ground (arith, h)),
          ))
    | inr b ↦
        apart named s t names (ground (arith, h)) (ground (arith, k, a)) (ground (arith, l, b)) e
  ]
]

abbrev pub dropped_text : String → List (String × Bool) → Bool
dropped_text s [] = false
dropped_text s ((t, off) ∷ rest) = (same_string s t && off) || dropped_text s rest

-- Whether a rule is left out, by its name.
pub dropped_by_name :
    (named : String → Uuid) (s : String) (entries : List (String × Bool)) (names : List String)
    → keeps_apart named names ≡ true
    → any (same_string s) names ≡ true
    → All (λ e. any (same_string e.0) names ≡ true) entries
    → dropped_by named (named s) entries ≡ dropped_text s entries
unfolding dropped_by
dropped_by_name named s [] names h k a = refl
dropped_by_name named s ((t, off) ∷ rest) names h k (l, a) = elim (Bool-cases (same_string s t)) [
  | inl e ↦
      (let same : (named s == named t) ≡ true =
          ground (arith, ap named (eq_of_same_string s t e)) in
        ground (arith, same, e, dropped_by_name named s rest names h k a))
  | inr e ↦
      ground (arith, e, apart named s t names h k l e, dropped_by_name named s rest names h k a)
]
