-- ===== src/Rules/Defaults/Distinct.antt =====
-- Registries of rules with different ids: their rules, and what leaving some of them out changes.
use propfirm_engine.Base.{
  String, Bool, true, false, not, ◌||◌, List, [], ◌∷◌, ◌++◌, ◌≡◌, refl, sym, ap, ◌∙◌, subst, arith,
  any, keep, map, All, ◌==◌, Bool-cases, inl, inr, ok,
}
use propfirm_engine.Core.Ids.{Uuid}
use propfirm_engine.Rules.Context.{RuleContext}
use propfirm_engine.Rules.Registry.{Rule, RuleRegistry, empty, register, evaluate, run_rules}
use propfirm_engine.Rules.Registry.Index.{
  IsIndexed, AreDistinct, has_id, put, register_parts, get-register, index_of,
}
use propfirm_engine.Rules.Defaults.{register_all}
use propfirm_engine.Rules.Defaults.Names.{keeps_apart}

pub empty-IsIndexed : (D : Type 0) → IsIndexed (empty {D = D})
unfolding IsIndexed AreDistinct empty index_of
empty-IsIndexed D = (tt, λ id. refl)

pub of_not : (b : Bool) → not b ≡ false → b ≡ true
of_not b h = ground arith

module _ {D : Type 0} where
  put_new :
      (rule : Rule D) (rs : List (Rule D))
      → any (has_id rule.id) rs ≡ false
      → put rule rs ≡ rs ++ rule ∷ []
  unfolding put
  put_new rule [] h = refl
  put_new rule (r ∷ rs) h = ground (arith, put_new rule rs, h)

  any-append :
      (p : Rule D → Bool) (rs qs : List (Rule D)) → any p (rs ++ qs) ≡ (any p rs || any p qs)
  any-append p [] qs = refl
  any-append p (r ∷ rs) qs = ground (arith, any-append p rs qs)

  new_in :
      (rs : List (Rule D)) (rule : Rule D) (qs : List (Rule D))
      → AreDistinct (rs ++ rule ∷ qs)
      → any (has_id rule.id) rs ≡ false
  unfolding AreDistinct
  new_in [] rule qs h = refl
  new_in (r ∷ rs) rule qs (h, hs) =
      ground (arith, new_in rs rule qs hs, any-append (has_id r.id) rs (rule ∷ qs), h)

  append_one :
      (rs : List (Rule D)) (rule : Rule D) (qs : List (Rule D))
      → (rs ++ rule ∷ []) ++ qs ≡ rs ++ rule ∷ qs
  append_one [] rule qs = refl
  append_one (r ∷ rs) rule qs = ap (◌∷◌ r) (append_one rs rule qs)

  append_nil : (rs : List (Rule D)) → rs ++ [] ≡ rs
  append_nil [] = refl
  append_nil (r ∷ rs) = ap (◌∷◌ r) (append_nil rs)

  -- Rules of new and different ids are added at the end, in order.
  pub rules-register_all :
      (reg : RuleRegistry D) (qs : List (Rule D))
      → IsIndexed reg
      → AreDistinct (reg.rules ++ qs)
      → ((register_all reg qs).rules ≡ reg.rules ++ qs) × IsIndexed (register_all reg qs)
  unfolding register_all
  rules-register_all reg [] i h = (sym (append_nil reg.rules), i)
  rules-register_all reg (rule ∷ qs) i h =
      let same : (register reg rule).rules ≡ reg.rules ++ rule ∷ [] =
        (register_parts reg rule i).0 ∙ put_new rule reg.rules (new_in reg.rules rule qs h) in
      let all : (register reg rule).rules ++ qs ≡ reg.rules ++ rule ∷ qs =
        ap (λ l. l ++ qs) same ∙ append_one reg.rules rule qs in
      let (rest, j) =
        rules-register_all (register reg rule) qs (get-register reg rule i).0
          (subst AreDistinct (sym all) h) in
      (rest ∙ all, j)

  any-keep_none :
      (q p : Rule D → Bool) (rs : List (Rule D)) → any q rs ≡ false → any q (keep p rs) ≡ false
  any-keep_none q p [] h = refl
  any-keep_none q p (r ∷ rs) h = ground (arith, any-keep_none q p rs)

  pub AreDistinct-keep :
      (p : Rule D → Bool) (rs : List (Rule D)) → AreDistinct rs → AreDistinct (keep p rs)
  unfolding AreDistinct
  AreDistinct-keep p [] h = h
  AreDistinct-keep p (r ∷ rs) (h, hs) = elim (Bool-cases (p r)) [
    | inl e ↦ rw e (any-keep_none (has_id r.id) p rs h, AreDistinct-keep p rs hs)
    | inr e ↦ rw e (AreDistinct-keep p rs hs)
  ]

  any-ids :
      (named : String → Uuid) (s : String) (rs : List (Rule D)) (names : List String)
      → map (λ r. r.id) rs ≡ map named names
      → any (λ t. named s == named t) names ≡ false
      → any (has_id (named s)) rs ≡ false
  any-ids named s [] names e h = refl
  any-ids named s (r ∷ rs) [] e h = absurd (ground (arith, e))
  any-ids named s (r ∷ rs) (t ∷ names) e h = ground (arith, any-ids named s rs names, e, h)

  pub AreDistinct-named :
      (named : String → Uuid) (rs : List (Rule D)) (names : List String)
      → map (λ r. r.id) rs ≡ map named names
      → keeps_apart named names ≡ true
      → AreDistinct rs
  unfolding AreDistinct
  AreDistinct-named named [] names e h = tt
  AreDistinct-named named (r ∷ rs) [] e h = absurd (ground (arith, e))
  AreDistinct-named named (r ∷ rs) (s ∷ names) e h =
      let same : r.id ≡ named s = ground (arith, e) in
      (
        rw same (any-ids named s rs names (ground (arith, e)) (ground (arith, h))),
        AreDistinct-named named rs names (ground (arith, e)) (ground (arith, h)),
      )

  -- To leave out rules that are disabled does not change the reports.
  run_rules-keep :
      (fresh : Uuid → Uuid) (ctx : RuleContext D) (p : Rule D → Bool) (rs : List (Rule D))
      → All (λ r. p r ≡ false → r.is_enabled ctx ≡ false) rs
      → run_rules fresh ctx (keep p rs) ≡ run_rules fresh ctx rs
  unfolding run_rules
  run_rules-keep fresh ctx p [] h = refl
  run_rules-keep fresh ctx p (r ∷ rs) (h, hs) = ground (arith, run_rules-keep fresh ctx p rs hs, h)

  pub evaluate-keep :
      (fresh : Uuid → Uuid) (ctx : RuleContext D) (p : Rule D → Bool) (rs : List (Rule D))
      → AreDistinct rs
      → All (λ r. p r ≡ false → r.is_enabled ctx ≡ false) rs
      → evaluate fresh (register_all empty (keep p rs)) ctx
        ≡ evaluate fresh (register_all empty rs) ctx
  unfolding evaluate empty
  evaluate-keep fresh ctx p rs distinct off =
      let (kept, _) =
        rules-register_all empty (keep p rs) (empty-IsIndexed D) (AreDistinct-keep p rs distinct) in
      let (every, _) = rules-register_all empty rs (empty-IsIndexed D) distinct in
      ap ok (
        ap (run_rules fresh ctx) kept
        ∙ run_rules-keep fresh ctx p rs off
        ∙ sym (ap (run_rules fresh ctx) every))
