-- ===== src/Engine/State/Peaks.antt =====
-- The high-water marks of an account: what a run of broker reports does to them.
use propfirm_engine.Base.{
  sym, subst, ◌≡◌, refl, ◌∙◌, ◌⊎◌, inl, inr, List, [], ◌∷◌, map, arith, All, IsOneOf,
}
use propfirm_engine.Decimal.{Decimal, IsOrdered, ◌≼◌}
use propfirm_engine.Core.Account.{Account}
use propfirm_engine.Engine.State.{raise, update_equity, update_balance}

module _ {D : Type 0} ⦃d : Decimal D⦄ where
  -- One broker report, equity and balance, as the pipeline applies a tick.
  abbrev pub report : Account D → D × D → Account D
  report a (equity, balance) = update_balance (update_equity a equity) balance

  unfoldable pub reports : Account D → List (D × D) → Account D
  reports a [] = a
  reports a (r ∷ rs) = reports (report a r) rs

  -- The greatest value of a list.
  abbrev pub IsPeakOf : D → List D → Type 0
  IsPeakOf p xs = All (λ x. x ≼ p) xs × IsOneOf p xs

  -- A peak that is raised by each value in turn.
  raise_all : D → List D → D
  raise_all p [] = p
  raise_all p (x ∷ xs) = raise_all (raise p x) xs

  peak_balance-reports :
      (a : Account D) (rs : List (D × D))
      → (reports a rs).peak_balance ≡ raise_all a.peak_balance (map (λ r. r.1) rs)
  unfolding reports raise_all update_equity update_balance
  peak_balance-reports a [] = refl
  peak_balance-reports a ((e, b) ∷ rs) = peak_balance-reports (report a (e, b)) rs

  peak_equity-reports :
      (a : Account D) (rs : List (D × D))
      → (reports a rs).peak_equity ≡ raise_all a.peak_equity (map (λ r. r.0) rs)
  unfolding reports raise_all update_equity update_balance
  peak_equity-reports a [] = refl
  peak_equity-reports a ((e, b) ∷ rs) = peak_equity-reports (report a (e, b)) rs

  intraday_peak-reports :
      (a : Account D) (rs : List (D × D))
      → (reports a rs).intraday_peak_equity ≡ raise_all a.intraday_peak_equity (map (λ r. r.0) rs)
  unfolding reports raise_all update_equity update_balance
  intraday_peak-reports a [] = refl
  intraday_peak-reports a ((e, b) ∷ rs) = intraday_peak-reports (report a (e, b)) rs

module _ {D : Type 0} ⦃d : Decimal D⦄ (laws : IsOrdered D) where
  open laws use {lt-eq-not-le, le_refl, le_trans, le_total}

  pub raise_le : (peak value : D) → (peak ≼ raise peak value) × (value ≼ raise peak value)
  raise_le peak value =
      ground (arith, lt-eq-not-le peak value, le_refl peak, le_refl value, le_total value peak)

  raise_one_of : (peak value : D) → (raise peak value ≡ peak) ⊎ (raise peak value ≡ value)
  raise_one_of peak value = ground arith

  raise_all-IsPeakOf : (p : D) (xs : List D) → IsPeakOf (raise_all p xs) (p ∷ xs)
  unfolding raise_all
  raise_all-IsPeakOf p [] = ((le_refl p, tt), inl refl)
  raise_all-IsPeakOf p (x ∷ xs) =
      let ((up, rest), one) = raise_all-IsPeakOf (raise p x) xs in
      let (old, new) = raise_le p x in
      let top = raise_all (raise p x) xs in
      (
        (le_trans p (raise p x) top old up, (le_trans x (raise p x) top new up, rest)),
        elim one [
          | inl e ↦ elim (raise_one_of p x) [ inl f ↦ inl (e ∙ f) | inr f ↦ inr (inl (e ∙ f)) ]
          | inr m ↦ inr (inr m)
        ],
      )

  -- Over any run of broker reports, from any account, each of the three peaks of the account is the
  -- greatest of its old value and the values reported: it lies above all of them and is one of them.
  pub reports_peaks :
      (a : Account D) (rs : List (D × D))
      → let b = reports a rs in
        IsPeakOf b.peak_equity (a.peak_equity ∷ map (λ r. r.0) rs)
        × IsPeakOf b.intraday_peak_equity (a.intraday_peak_equity ∷ map (λ r. r.0) rs)
        × IsPeakOf b.peak_balance (a.peak_balance ∷ map (λ r. r.1) rs)
  reports_peaks a rs =
      let es = map (λ (r : D × D). r.0) rs in
      let bs = map (λ (r : D × D). r.1) rs in
      (
        subst (λ p. IsPeakOf p (a.peak_equity ∷ es)) (sym (peak_equity-reports a rs))
            (raise_all-IsPeakOf a.peak_equity es),
        subst (λ p. IsPeakOf p (a.intraday_peak_equity ∷ es)) (sym (intraday_peak-reports a rs))
            (raise_all-IsPeakOf a.intraday_peak_equity es),
        subst (λ p. IsPeakOf p (a.peak_balance ∷ bs)) (sym (peak_balance-reports a rs))
            (raise_all-IsPeakOf a.peak_balance bs),
      )
