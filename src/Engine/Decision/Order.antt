-- ===== src/Engine/Decision/Order.antt =====
-- Which report wins a decision, and that the order of the reports does not matter.
use Prim.Native.Nat.{max}
use mathlib.Core.Path.{subst, ap₂, fun_ext}
use mathlib.Core.Logic.{∥∥₁_elim}
use mathlib.Core.List.{append_assoc, append-nil, Perm, Permᴰ}
use propfirm_engine.Base.{
  ltb, leb, Bool-cases, ℕ, ◌≤◌, ◌≡◌, refl, sym, ap, ◌∙◌, ◌⊎◌, inl, inr, Bool, true, false, ◌||◌,
  List, [], ◌∷◌, map, arith, All, ◌<◌, IsOneOf, any, if◌then◌else◌, none, some, ◌++◌,
}
use propfirm_engine.Core.Violation.{Violation}
use propfirm_engine.Rules.Verdict
use propfirm_engine.Rules.Verdict.{RuleVerdict, RuleReport, violation}
use propfirm_engine.Engine.Decision.{
  Entry, max_from, pick_winner, DecisionKind, from_reports, intrinsic_weight, is_terminating,
  sort_report, sort_reports, Buckets, no_buckets, decide_buckets,
}
use propfirm_engine.Engine.Decision.Winner.{
  has, top, summary, kind_of, asks, violations_in, from_reports-summary,
}

-- What a report brings to a decision: its kind and its priority.
abbrev pub bid : {D : Type 0} → RuleReport D → DecisionKind × ℕ
bid r = (kind_of r.verdict, r.priority)

summary_heaviest :
    (h : DecisionKind → Bool) (t : DecisionKind → ℕ) (k : DecisionKind)
    → h k ≡ true
    → intrinsic_weight k ≤ intrinsic_weight (summary h t).0
unfolding intrinsic_weight
summary_heaviest h t DecisionKind.pass e = omega arith
summary_heaviest h t k e = ground arith

summary_attained :
    (h : DecisionKind → Bool) (t : DecisionKind → ℕ)
    → let s = summary h t in (s ≡ (DecisionKind.pass, 0)) ⊎ ((h s.0 ≡ true) × (s.1 ≡ t s.0))
summary_attained h t = ground arith

or_swap : (x y z : Bool) → (x || (y || z)) ≡ (y || (x || z))
or_swap x y z = ground arith

top_swap :
    (x y : Bool) (p q n : ℕ)
    → (let m = if y then max q n else n in if x then max p m else m)
      ≡ (let m = if x then max p n else n in if y then max q m else m)
top_swap x y p q n = ground arith

module _ {D : Type 0} where
  has_terminating :
      (rs : List (RuleReport D))
      → any (λ r. Verdict.is_terminating r.verdict) rs ≡ (
          has DecisionKind.emergency rs
          || has DecisionKind.liquidate rs
          || has DecisionKind.fail rs)
  unfolding has Verdict.is_terminating
  has_terminating [] = refl
  has_terminating (r ∷ rs) = ground (arith, has_terminating rs)

  -- A decision terminates the account exactly when some report does.
  pub is_terminating-from_reports :
      (rs : List (RuleReport D))
      → is_terminating (from_reports rs).kind ≡ any (λ r. Verdict.is_terminating r.verdict) rs
  unfolding is_terminating
  is_terminating-from_reports rs = ground (arith, from_reports-summary rs, has_terminating rs)

  All-le_weight :
      (w : ℕ) (rs : List (RuleReport D))
      → ((k : DecisionKind) → has k rs ≡ true → intrinsic_weight k ≤ w)
      → All (λ r. intrinsic_weight (kind_of r.verdict) ≤ w) rs
  unfolding has intrinsic_weight
  All-le_weight w [] h = tt
  All-le_weight w (r ∷ rs) h =
      (ground (arith, h (kind_of r.verdict)), All-le_weight w rs (λ k e. h k (ground arith)))

  top-has : (k : DecisionKind) (rs : List (RuleReport D)) → has k rs ≡ false → top k rs ≡ 0
  unfolding has top
  top-has k [] h = refl
  top-has k (r ∷ rs) h = ground (arith, top-has k rs)

  All-le_top :
      (k : DecisionKind) (n : ℕ) (rs : List (RuleReport D))
      → top k rs ≤ n
      → All (λ r. asks k r.verdict ≡ true → r.priority ≤ n) rs
  unfolding top violation intrinsic_weight
  All-le_top k n [] h = tt
  All-le_top k n (r ∷ rs) h = (λ e. ground arith, All-le_top k n rs (ground arith))

  same_kind_eq : (k : DecisionKind) (v : RuleVerdict D) → asks k v ≡ true → kind_of v ≡ k
  unfolding violation intrinsic_weight
  same_kind_eq k v e = ground arith

  top-IsOneOf :
      (k : DecisionKind) (rs : List (RuleReport D))
      → has k rs ≡ true
      → IsOneOf (k, top k rs) (map bid rs)
  unfolding has top
  top-IsOneOf k [] h = cc
  top-IsOneOf k (r ∷ rs) h =
      let best = top k rs in
      let later : has k rs ≡ true
          → best ≡ top k (r ∷ rs)
          → IsOneOf (k, top k (r ∷ rs)) (map bid (r ∷ rs)) =
        λ e q. inr (subst (λ n. IsOneOf (k, n) (map bid rs)) q (top-IsOneOf k rs e)) in
      elim (Bool-cases (asks k r.verdict)) [
        | inr no_ask ↦ later (ground arith) (ground arith)
        | inl ask ↦ elim (Bool-cases (leb best r.priority)) [
          | inl low ↦ inl (ground (arith, same_kind_eq k r.verdict ask))
          | inr high ↦ later (ground (arith, top-has k rs)) (ground arith)
        ]
      ]

  top-pass : (rs : List (RuleReport D)) → top DecisionKind.pass rs ≡ 0
  unfolding top
  top-pass [] = refl
  top-pass (r ∷ rs) = ground (arith, top-pass rs)

  -- The winner of a decision: the decision's kind and priority are those of some report, or a pass
  -- of priority 0. No report asks for a kind of greater intrinsic weight, whatever its priority, and
  -- of the reports that ask for the decision's kind none has a greater priority.
  pub from_reports_wins :
      (rs : List (RuleReport D))
      → let d = from_reports rs in
        IsOneOf (d.kind, d.winning_priority) ((DecisionKind.pass, 0) ∷ map bid rs)
        × All (λ r. intrinsic_weight (kind_of r.verdict) ≤ intrinsic_weight d.kind) rs
        × All (λ r. asks d.kind r.verdict ≡ true → r.priority ≤ d.winning_priority) rs
  from_reports_wins rs =
      let h = λ (k : DecisionKind). has k rs in
      let t = λ (k : DecisionKind). top k rs in
      let s = summary h t in
      let same = sym (from_reports-summary rs) in
      (
        subst (λ (b : DecisionKind × ℕ). IsOneOf b ((DecisionKind.pass, 0) ∷ map bid rs)) same
            (elim (summary_attained h t) [
              | inl e ↦ inl e
              | inr (asked, best) ↦
                  inr (
                    subst (λ n. IsOneOf (s.0, n) (map bid rs)) (sym best)
                      (top-IsOneOf s.0 rs asked))
            ]),
        subst
            (λ (b : DecisionKind × ℕ).
              All (λ r. intrinsic_weight (kind_of r.verdict) ≤ intrinsic_weight b.0) rs)
            same (All-le_weight (intrinsic_weight s.0) rs (summary_heaviest h t)),
        subst (λ (b : DecisionKind × ℕ). All (λ r. asks b.0 r.verdict ≡ true → r.priority ≤ b.1) rs)
            same (All-le_top s.0 s.1 rs (ground (arith, summary_attained h t, top-pass rs))),
      )

  carry :
      (b : Buckets D) (p : ℕ) (v : RuleVerdict D) (vs : List (Violation D))
      → (sort_report b p v).all_violations ++ vs
        ≡ b.all_violations
          ++ (elim (violation v) as (λ _. List (Violation D)) [ none ↦ vs | some w ↦ w ∷ vs ])
  unfolding sort_report violation
  carry b p RuleVerdict.pass vs = refl
  carry b p RuleVerdict.skip vs = refl
  carry b p (RuleVerdict.warn v) vs = append_assoc b.all_violations (v ∷ []) vs
  carry b p (RuleVerdict.fail v) vs = append_assoc b.all_violations (v ∷ []) vs
  carry b p (RuleVerdict.soft_fail v) vs = append_assoc b.all_violations (v ∷ []) vs
  carry b p (RuleVerdict.liquidate v) vs = append_assoc b.all_violations (v ∷ []) vs
  carry b p (RuleVerdict.target_hit v) vs = append_assoc b.all_violations (v ∷ []) vs
  carry b p (RuleVerdict.emergency v) vs = append_assoc b.all_violations (v ∷ []) vs
  carry b p (RuleVerdict.early_warning v) vs = append_assoc b.all_violations (v ∷ []) vs
  carry b p (RuleVerdict.gap_flagged v) vs = append_assoc b.all_violations (v ∷ []) vs

  all_violations-sort_reports :
      (b : Buckets D) (rs : List (RuleReport D))
      → (sort_reports b rs).all_violations ≡ b.all_violations ++ violations_in rs
  unfolding sort_reports sort_report violations_in
  all_violations-sort_reports b [] = sym (append-nil _)
  all_violations-sort_reports b (r ∷ rs) =
      all_violations-sort_reports (sort_report b r.priority r.verdict) rs
      ∙ carry b r.priority r.verdict (violations_in rs)

  -- A decision carries every violation of the reports, each once and in their order.
  pub all_violations-from_reports :
      (rs : List (RuleReport D)) → (from_reports rs).all_violations ≡ violations_in rs
  unfolding from_reports decide_buckets
  all_violations-from_reports rs = ground (arith, all_violations-sort_reports no_buckets rs)

  -- A permutation of the reports asks for the same kinds, with the same greatest priorities.
  perm-has : {rs qs : List (RuleReport D)} → Permᴰ rs qs → (k : DecisionKind) → has k rs ≡ has k qs
  unfolding has
  perm-has Permᴰ.nil k = refl
  perm-has (Permᴰ.cons {a = a} {b = b} {l₁ = rs} e p) k =
      ap (λ r. has k (r ∷ rs)) e ∙ ap (λ h. asks k b.verdict || h) (perm-has p k)
  perm-has (Permᴰ.swap {a = a} {b = b} {a' = a'} {b' = b'} {l = l} e f) k =
      ap₂ (λ r q. has k (r ∷ q ∷ l)) e f ∙ or_swap (asks k b'.verdict) (asks k a'.verdict) (has k l)
  perm-has (Permᴰ.trans p q) k = perm-has p k ∙ perm-has q k

  perm-top : {rs qs : List (RuleReport D)} → Permᴰ rs qs → (k : DecisionKind) → top k rs ≡ top k qs
  unfolding top
  perm-top Permᴰ.nil k = refl
  perm-top (Permᴰ.cons {a = a} {b = b} {l₁ = rs} e p) k =
      ap (λ r. top k (r ∷ rs)) e
      ∙ ap (λ n. if asks k b.verdict then max b.priority n else n) (perm-top p k)
  perm-top (Permᴰ.swap {a = a} {b = b} {a' = a'} {b' = b'} {l = l} e f) k =
      ap₂ (λ r q. top k (r ∷ q ∷ l)) e f
      ∙ top_swap (asks k b'.verdict) (asks k a'.verdict) b'.priority a'.priority (top k l)
  perm-top (Permᴰ.trans p q) k = perm-top p k ∙ perm-top q k

  -- The kind and the winning priority of a decision do not depend on the order of the reports.
  pub from_reports-perm :
      (rs qs : List (RuleReport D))
      → Perm rs qs
      → ((from_reports rs).kind ≡ (from_reports qs).kind)
        × ((from_reports rs).winning_priority ≡ (from_reports qs).winning_priority)
  from_reports-perm rs qs perm = ∥∥₁_elim perm (hlevel) λ p.
      let same : ((from_reports rs).kind, (from_reports rs).winning_priority)
          ≡ ((from_reports qs).kind, (from_reports qs).winning_priority) =
        from_reports-summary rs
        ∙ ap₂ summary (fun_ext λ k. perm-has p k) (fun_ext λ k. perm-top p k)
        ∙ sym (from_reports-summary qs) in
      (ap (λ s. s.0) same, ap (λ s. s.1) same)

  max_from_lower : (e : Entry D) (fs : List (Entry D)) → All (λ x. x.0 < e.0) fs → max_from e fs ≡ e
  unfolding max_from
  max_from_lower e [] h = refl
  max_from_lower e (x ∷ fs) (h, hs) = ground (arith, h, max_from_lower e fs hs)

  max_from_last :
      (best : Entry D) (es : List (Entry D)) (e : Entry D) (fs : List (Entry D))
      → best.0 ≤ e.0
      → All (λ x. x.0 ≤ e.0) es
      → All (λ x. x.0 < e.0) fs
      → max_from best (es ++ e ∷ fs) ≡ e
  unfolding max_from
  max_from_last best [] e fs h k l = ground (arith, h, max_from_lower e fs l)
  max_from_last best (x ∷ xs) e fs h (k, ks) l =
      max_from_last (if ltb x.0 best.0 then best else x) xs e fs (ground (arith, h, k)) ks l

  -- Wherever an entry stands among the entries of a category, it is the winner if no entry before
  -- it has a greater priority and every entry after it has a smaller one: the last of those with the
  -- greatest priority wins.
  pub pick_winner_last :
      (es fs : List (Entry D)) (e : Entry D)
      → All (λ x. x.0 ≤ e.0) es
      → All (λ x. x.0 < e.0) fs
      → pick_winner (es ++ e ∷ fs) ≡ some e
  unfolding pick_winner max_from
  pick_winner_last [] fs e k l = ap some (max_from_lower e fs l)
  pick_winner_last (x ∷ xs) fs e (k, ks) l = ap some (max_from_last x xs e fs k ks l)
