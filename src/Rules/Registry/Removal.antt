-- ===== src/Rules/Registry/Removal.antt =====
-- Unregistering a rule: the list without it, and the index built anew.
use propfirm_engine.Base.{
  ℕ, zero, suc, ◌+◌, ◌≡◌, refl, sym, ap, ◌∙◌, subst, false, not, List, [], ◌∷◌, Option, none, some,
  arith, if◌then◌else◌, ◌==◌, keep, any, Option-cases, inl, inr,
}
use propfirm_engine.Core.Ids.{Uuid}
use propfirm_engine.Rules.Registry.{
  Rule, RuleRegistry, lookup, insert, remove_at, unregister, reindex, get,
}
use propfirm_engine.Rules.Registry.Index.{
  has_id, index_of, AreDistinct, IsIndexed, lookup-insert, rule_of, get_lem,
}

module _ {D : Type 0} where
  -- The rules that do not have an id.
  abbrev others : Uuid → List (Rule D) → List (Rule D)
  others id rs = keep (λ r. not (has_id id r)) rs

  others_none : (id : Uuid) (rs : List (Rule D)) → any (has_id id) rs ≡ false → others id rs ≡ rs
  others_none id [] h = refl
  others_none id (r ∷ rs) h = ground (arith, others_none id rs)

  remove_at-others :
      (id : Uuid) (rs : List (Rule D)) (i : ℕ)
      → AreDistinct rs
      → index_of id rs ≡ some i
      → remove_at rs i ≡ others id rs
  unfolding index_of AreDistinct
  remove_at-others id [] i d h = ground arith
  remove_at-others id (r ∷ rs) zero d h = elim (Option-cases (index_of id rs)) [
    | inl e ↦ ground (arith, e, others_none id rs)
    | inr (j, e) ↦ ground (arith, e, others_none id rs)
  ]
  remove_at-others id (r ∷ rs) (suc i) d h = elim (Option-cases (index_of id rs)) [
    | inl e ↦ ground (arith, e)
    | inr (j, e) ↦ ground (arith, e, remove_at-others id rs i)
  ]

  find-others :
      (id k : Uuid) (rs : List (Rule D))
      → rule_of k (others id rs) ≡ (if id == k then none else rule_of k rs)
  find-others id k [] = ground arith
  find-others id k (r ∷ rs) = ground (arith, find-others id k rs)

  any-others :
      (id k : Uuid) (rs : List (Rule D))
      → any (has_id k) rs ≡ false
      → any (has_id k) (others id rs) ≡ false
  any-others id k [] h = refl
  any-others id k (r ∷ rs) h = ground (arith, any-others id k rs)

  AreDistinct-others :
      (id : Uuid) (rs : List (Rule D)) → AreDistinct rs → AreDistinct (others id rs)
  unfolding AreDistinct
  AreDistinct-others id [] h = tt
  AreDistinct-others id (r ∷ rs) h = ground (arith, AreDistinct-others id rs, any-others id r.id rs)

  index_of-none :
      (id : Uuid) (rs : List (Rule D)) → any (has_id id) rs ≡ false → index_of id rs ≡ none
  unfolding index_of
  index_of-none id [] h = refl
  index_of-none id (r ∷ rs) h = ground (arith, index_of-none id rs)

  not_found : (id : Uuid) (rs : List (Rule D)) → index_of id rs ≡ none → any (has_id id) rs ≡ false
  unfolding index_of
  not_found id [] h = refl
  not_found id (r ∷ rs) h = elim (Option-cases (index_of id rs)) [
    | inl e ↦ ground (arith, e, not_found id rs)
    | inr (j, e) ↦ ground (arith, e)
  ]

  lookup-reindex :
      (id : Uuid) (i : ℕ) (rs : List (Rule D)) (m : List (Uuid × ℕ))
      → AreDistinct rs
      → lookup id (reindex i rs m)
        ≡ (elim (index_of id rs) as (λ _. Option ℕ) [ none ↦ lookup id m | some k ↦ some (i + k) ])
  unfolding reindex index_of AreDistinct
  lookup-reindex id i [] m h = refl
  lookup-reindex id i (r ∷ rs) m h = elim (Option-cases (index_of id rs)) [
    | inl e ↦
        ground (arith, e, lookup-reindex id (suc i) rs (insert r.id i m), lookup-insert id r.id i m)
    | inr (j, e) ↦ ground (
      arith,
      e,
      lookup-reindex id (suc i) rs (insert r.id i m),
      lookup-insert id r.id i m,
      index_of-none id rs,
    )
  ]

  lookup-rebuilt :
      (id : Uuid) (rs : List (Rule D))
      → AreDistinct rs
      → lookup id (reindex 0 rs []) ≡ index_of id rs
  lookup-rebuilt id rs h = elim (Option-cases (index_of id rs)) [
    | inl e ↦ ground (arith, e, lookup-reindex id 0 rs [] h)
    | inr (j, e) ↦ ground (arith, e, lookup-reindex id 0 rs [] h)
  ]

  unregister_parts :
      (reg : RuleRegistry D) (id : Uuid)
      → IsIndexed reg
      → ((unregister reg id).rules ≡ others id reg.rules) × IsIndexed (unregister reg id)
  unfolding unregister IsIndexed
  unregister_parts reg id (distinct, index) = elim (Option-cases (index_of id reg.rules)) [
    | inl e ↦ (
      ground (arith, e, index id, others_none id reg.rules, not_found id reg.rules e),
      ground (arith, e, index id),
    )
    | inr (i, e) ↦
        let removed = remove_at-others id reg.rules i distinct e in
        let fewer : AreDistinct (remove_at reg.rules i) =
          subst AreDistinct (sym removed) (AreDistinct-others id reg.rules distinct) in
        let rules = remove_at reg.rules i in
        let rebuilt : RuleRegistry D = record { rules = rules; by_id = reindex 0 rules [] } in
        let same : unregister reg id ≡ rebuilt = ground (arith, e, index id) in
        let indexed : IsIndexed rebuilt = (fewer, λ k. lookup-rebuilt k rules fewer) in
        (ap (λ r. r.rules) same ∙ removed, subst IsIndexed (sym same) indexed)
  ]

  -- Unregistering from an indexed registry keeps it indexed, and a lookup then finds nothing under
  -- that id and what it found before under any other.
  pub get-unregister :
      (reg : RuleRegistry D) (id : Uuid)
      → IsIndexed reg
      → IsIndexed (unregister reg id)
        × ((k : Uuid) → get (unregister reg id) k ≡ (if id == k then none else get reg k))
  get-unregister reg id h =
      let (same, still) = unregister_parts reg id h in
      (
        still,
        λ k. ground (
          arith,
          same,
          get_lem (unregister reg id) k still,
          get_lem reg k h,
          find-others id k reg.rules,
        ),
      )
