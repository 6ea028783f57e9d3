-- ===== src/Engine/Decision/Winner.antt =====
-- What `from_reports` makes of its reports, said without the vectors it fills.
use mathlib.Core.Path.{ap₂, fun_ext}
use Prim.Native.Nat.{max}
use mathlib.Core.List.{append-nil, append_assoc}
use propfirm_engine.Base.{
  ℕ, ◌≡◌, refl, sym, ap, ◌∙◌, Bool, is_some, ◌&&◌, true, false, not, ◌||◌, List, [], ◌∷◌, ◌++◌,
  Option, none, some, arith, ltb, ◌==◌, if◌then◌else◌, is_empty,
}
use propfirm_engine.Rules.Verdict.{RuleVerdict, RuleReport, violation}
use propfirm_engine.Engine.Decision.{
  Violation, no_buckets, from_reports, DecisionKind, Entry, Buckets, sort_report, sort_reports,
  max_from, pick_winner, decide_buckets, intrinsic_weight,
}

-- The kind of decision that a verdict asks for.
abbrev pub kind_of : {D : Type 0} → RuleVerdict D → DecisionKind
kind_of RuleVerdict.pass = DecisionKind.pass
kind_of RuleVerdict.skip = DecisionKind.pass
kind_of (RuleVerdict.warn _) = DecisionKind.warn
kind_of (RuleVerdict.fail _) = DecisionKind.fail
kind_of (RuleVerdict.soft_fail _) = DecisionKind.soft_fail
kind_of (RuleVerdict.liquidate _) = DecisionKind.liquidate
kind_of (RuleVerdict.target_hit _) = DecisionKind.target_hit
kind_of (RuleVerdict.emergency _) = DecisionKind.emergency
kind_of (RuleVerdict.early_warning _) = DecisionKind.early_warning
kind_of (RuleVerdict.gap_flagged _) = DecisionKind.gap_flagged

-- The intrinsic weights are distinct, so equal weights are equal kinds.
abbrev pub same_kind : DecisionKind → DecisionKind → Bool
unfolding intrinsic_weight
same_kind k l = intrinsic_weight k == intrinsic_weight l

-- Whether a verdict other than a pass or a skip asks for a kind.
abbrev pub asks : {D : Type 0} → DecisionKind → RuleVerdict D → Bool
unfolding violation intrinsic_weight
asks k v = is_some (violation v) && same_kind k (kind_of v)

-- The first kind in the documented order that some report asks for, and the priority it has.
abbrev pub summary : (DecisionKind → Bool) → (DecisionKind → ℕ) → DecisionKind × ℕ
summary has top =
    if has DecisionKind.emergency
    then (DecisionKind.emergency, top DecisionKind.emergency)
    else if has DecisionKind.liquidate
    then (DecisionKind.liquidate, top DecisionKind.liquidate)
    else if has DecisionKind.fail
    then (DecisionKind.fail, top DecisionKind.fail)
    else if has DecisionKind.soft_fail
    then (DecisionKind.soft_fail, top DecisionKind.soft_fail)
    else if has DecisionKind.gap_flagged
    then (DecisionKind.gap_flagged, top DecisionKind.gap_flagged)
    else if has DecisionKind.target_hit
    then (DecisionKind.target_hit, top DecisionKind.target_hit)
    else if has DecisionKind.early_warning
    then (DecisionKind.early_warning, top DecisionKind.early_warning)
    else if has DecisionKind.warn
    then (DecisionKind.warn, top DecisionKind.warn)
    else (DecisionKind.pass, 0)

module _ {D : Type 0} where
  -- Whether a report asks for a kind, and the greatest priority of those that do.
  unfoldable pub has : DecisionKind → List (RuleReport D) → Bool
  unfolding violation intrinsic_weight
  has k [] = false
  has k (r ∷ rs) = asks k r.verdict || has k rs

  unfoldable pub top : DecisionKind → List (RuleReport D) → ℕ
  unfolding violation intrinsic_weight
  top k [] = 0
  top k (r ∷ rs) = let rest = top k rs in if asks k r.verdict then max r.priority rest else rest

  -- The entries of one vector.
  entry : DecisionKind → ℕ → RuleVerdict D → List (Entry D)
  unfolding violation intrinsic_weight
  entry k p v = elim (violation v) [
    | none ↦ []
    | some w ↦ if same_kind k (kind_of v) then (p, w) ∷ [] else []
  ]

  entries : DecisionKind → List (RuleReport D) → List (Entry D)
  unfolding entry
  entries k [] = []
  entries k (r ∷ rs) = entry k r.priority r.verdict ++ entries k rs

  bucket : DecisionKind → Buckets D → List (Entry D)
  bucket DecisionKind.pass b = []
  bucket DecisionKind.warn b = b.warnings
  bucket DecisionKind.early_warning b = b.early_warnings
  bucket DecisionKind.target_hit b = b.target_hits
  bucket DecisionKind.fail b = b.fails
  bucket DecisionKind.soft_fail b = b.soft_fails
  bucket DecisionKind.gap_flagged b = b.gap_flagged
  bucket DecisionKind.liquidate b = b.liquidates
  bucket DecisionKind.emergency b = b.emergencies

  bucket-sort_report :
      (k : DecisionKind) (b : Buckets D) (p : ℕ) (v : RuleVerdict D)
      → bucket k (sort_report b p v) ≡ bucket k b ++ entry k p v
  unfolding bucket sort_report entry
  bucket-sort_report k b p v = ground (arith, append-nil (bucket k b))

  bucket-sort_reports :
      (k : DecisionKind) (b : Buckets D) (rs : List (RuleReport D))
      → bucket k (sort_reports b rs) ≡ bucket k b ++ entries k rs
  unfolding sort_reports entries
  bucket-sort_reports k b [] = sym (append-nil (bucket k b))
  bucket-sort_reports k b (r ∷ rs) =
      bucket-sort_reports k (sort_report b r.priority r.verdict) rs
      ∙ ap (λ es. es ++ entries k rs) (bucket-sort_report k b r.priority r.verdict)
      ∙ append_assoc (bucket k b) (entry k r.priority r.verdict) (entries k rs)

  -- The greatest priority of a vector.
  unfoldable pub top_entry : List (Entry D) → ℕ
  top_entry [] = 0
  top_entry (e ∷ es) = max e.0 (top_entry es)

  pub max_from_lem :
      (e : Entry D) (es : List (Entry D)) → (max_from e es).0 ≡ max e.0 (top_entry es)
  unfolding max_from top_entry
  max_from_lem e [] = omega arith
  max_from_lem e (x ∷ xs) = ground (arith, max_from_lem (if ltb x.0 e.0 then e else x) xs)

  abbrev Wins : List (Entry D) → Option (Entry D) → Type 0
  Wins es none = is_empty es ≡ true
  Wins es (some e) = (is_empty es ≡ false) × (e.0 ≡ top_entry es)

  pick_winner-Wins : (es : List (Entry D)) → Wins es (pick_winner es)
  unfolding pick_winner top_entry
  pick_winner-Wins [] = refl
  pick_winner-Wins (e ∷ es) = (refl, max_from_lem e es)

  decide_summary :
      (b : Buckets D)
      → let d = decide_buckets b in
        (d.kind, d.winning_priority)
        ≡ summary (λ k. not (is_empty (bucket k b))) (λ k. top_entry (bucket k b))
  unfolding decide_buckets bucket
  decide_summary b = ground (
    arith,
    pick_winner-Wins b.emergencies,
    pick_winner-Wins b.liquidates,
    pick_winner-Wins b.fails,
    pick_winner-Wins b.soft_fails,
    pick_winner-Wins b.gap_flagged,
    pick_winner-Wins b.target_hits,
    pick_winner-Wins b.early_warnings,
    pick_winner-Wins b.warnings,
  )

  has-entries :
      (k : DecisionKind) (rs : List (RuleReport D)) → not (is_empty (entries k rs)) ≡ has k rs
  unfolding entries entry has
  has-entries k [] = refl
  has-entries k (r ∷ rs) = ground (arith, has-entries k rs)

  top-entries : (k : DecisionKind) (rs : List (RuleReport D)) → top_entry (entries k rs) ≡ top k rs
  unfolding entries entry top top_entry
  top-entries k [] = refl
  top-entries k (r ∷ rs) = ground (arith, top-entries k rs)

  bucket-from :
      (k : DecisionKind) (rs : List (RuleReport D))
      → bucket k (sort_reports no_buckets rs) ≡ entries k rs
  unfolding bucket
  bucket-from k rs = ground (arith, bucket-sort_reports k no_buckets rs)

  pub from_reports-summary :
      (rs : List (RuleReport D))
      → let d = from_reports rs in
        (d.kind, d.winning_priority) ≡ summary (λ k. has k rs) (λ k. top k rs)
  unfolding from_reports
  from_reports-summary rs =
      let b = sort_reports no_buckets rs in
      decide_summary b
      ∙ ap₂ summary
          (fun_ext λ k. ap (λ es. not (is_empty es)) (bucket-from k rs) ∙ has-entries k rs)
          (fun_ext λ k. ap top_entry (bucket-from k rs) ∙ top-entries k rs)

  -- The violations of the reports, in their order.
  unfoldable pub violations_in : List (RuleReport D) → List (Violation D)
  unfolding violation
  violations_in [] = []
  violations_in (r ∷ rs) = elim (violation r.verdict) [
    | none ↦ violations_in rs
    | some v ↦ v ∷ violations_in rs
  ]
