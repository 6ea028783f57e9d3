-- ===== src/Rules/Registry/Index.antt =====
-- The index of a registry: what registering and unregistering do to lookups.
use propfirm_engine.Base.{
  subst, ℕ, zero, suc, ◌≡◌, refl, sym, ap, ◌∙◌, Bool, false, not, List, [], ◌∷◌, ◌++◌, Option, none,
  some, arith, if◌then◌else◌, ◌==◌, length, get_elem?, keep, any, find, ◌||◌, Option-cases, inl,
  inr,
}
use propfirm_engine.Core.Ids.{Uuid}
use propfirm_engine.Rules.Registry.{Rule, RuleRegistry, lookup, insert, set_at, register, get}

lookup-keep :
    (id k : Uuid) (m : List (Uuid × ℕ))
    → lookup id (keep (λ e. not (e.0 == k)) m) ≡ (if k == id then none else lookup id m)
lookup-keep id k [] = ground arith
lookup-keep id k ((j, i) ∷ m) = ground (arith, lookup-keep id k m)

pub lookup-insert :
    (id k : Uuid) (i : ℕ) (m : List (Uuid × ℕ))
    → lookup id (insert k i m) ≡ (if k == id then some i else lookup id m)
lookup-insert id k i m = ground (arith, lookup-keep id k m)

module _ {D : Type 0} where
  abbrev pub has_id : Uuid → Rule D → Bool
  has_id id r = r.id == id

  -- The position of the first rule with an id.
  unfoldable pub index_of : Uuid → List (Rule D) → Option ℕ
  index_of id [] = none
  index_of id (r ∷ rs) =
      let rest = index_of id rs in
      if has_id id r then some 0 else elim rest [ none ↦ none | some i ↦ some (suc i) ]

  unfoldable pub AreDistinct : List (Rule D) → Type 0
  AreDistinct [] = Unit {0}
  AreDistinct (r ∷ rs) = (any (has_id r.id) rs ≡ false) × AreDistinct rs

  -- No two rules have one id, and the index gives each id its position.
  unfoldable pub IsIndexed : RuleRegistry D → Type 0
  IsIndexed reg =
      AreDistinct reg.rules × ((id : Uuid) → lookup id reg.by_id ≡ index_of id reg.rules)

  -- The first rule with an id.
  abbrev pub rule_of : Uuid → List (Rule D) → Option (Rule D)
  rule_of id rs = find (has_id id) rs

  index_of_get :
      (id : Uuid) (rs : List (Rule D))
      → (elim (index_of id rs) as (λ _. Option (Rule D)) [ none ↦ none | some i ↦ get_elem? rs i ])
        ≡ rule_of id rs
  unfolding index_of
  index_of_get id [] = refl
  index_of_get id (r ∷ rs) = elim (Option-cases (index_of id rs)) [
    | inl e ↦ ground (arith, e, index_of_get id rs)
    | inr (i, e) ↦ ground (arith, e, index_of_get id rs)
  ]

  -- What registering does to the list of rules.
  unfoldable pub put : Rule D → List (Rule D) → List (Rule D)
  put rule [] = rule ∷ []
  put rule (r ∷ rs) = let rest = put rule rs in if has_id rule.id r then rule ∷ rs else r ∷ rest

  set_at-put :
      (rule : Rule D) (rs : List (Rule D)) (i : ℕ)
      → index_of rule.id rs ≡ some i
      → set_at rs i rule ≡ put rule rs
  unfolding index_of put
  set_at-put rule [] i h = ground arith
  set_at-put rule (r ∷ rs) zero h = elim (Option-cases (index_of rule.id rs)) [
    | inl e ↦ ground (arith, e)
    | inr (i, e) ↦ ground (arith, e)
  ]
  set_at-put rule (r ∷ rs) (suc i) h = elim (Option-cases (index_of rule.id rs)) [
    | inl e ↦ ground (arith, e)
    | inr (j, e) ↦ ground (arith, e, set_at-put rule rs i)
  ]

  append_put :
      (rule : Rule D) (rs : List (Rule D))
      → index_of rule.id rs ≡ none
      → rs ++ rule ∷ [] ≡ put rule rs
  unfolding index_of put
  append_put rule [] h = refl
  append_put rule (r ∷ rs) h = elim (Option-cases (index_of rule.id rs)) [
    | inl e ↦ ground (arith, e, append_put rule rs e)
    | inr (j, e) ↦ ground (arith, e)
  ]

  find-put :
      (rule : Rule D) (rs : List (Rule D)) (id : Uuid)
      → rule_of id (put rule rs) ≡ (if rule.id == id then some rule else rule_of id rs)
  unfolding put
  find-put rule [] id = ground arith
  find-put rule (r ∷ rs) id = ground (arith, find-put rule rs id)

  any-put :
      (rule : Rule D) (rs : List (Rule D)) (id : Uuid)
      → any (has_id id) (put rule rs) ≡ (rule.id == id || any (has_id id) rs)
  unfolding put
  any-put rule [] id = ground arith
  any-put rule (r ∷ rs) id = ground (arith, any-put rule rs id)

  AreDistinct-put :
      (rule : Rule D) (rs : List (Rule D)) → AreDistinct rs → AreDistinct (put rule rs)
  unfolding put AreDistinct
  AreDistinct-put rule [] h = ground arith
  AreDistinct-put rule (r ∷ rs) h = ground (arith, AreDistinct-put rule rs, any-put rule rs r.id)

  -- Registering an id that is present keeps every position, and otherwise adds one at the end.
  index_of-put :
      (rule : Rule D) (rs : List (Rule D)) (id : Uuid)
      → index_of id (put rule rs) ≡ (
          if rule.id == id
          then elim (index_of id rs) as (λ _. Option ℕ) [
            | none ↦ some (length rs)
            | some i ↦ some i
          ]
          else index_of id rs)
  unfolding index_of put
  index_of-put rule [] id = ground arith
  index_of-put rule (r ∷ rs) id = elim (Option-cases (index_of id rs)) [
    | inl e ↦ ground (arith, e, index_of-put rule rs id)
    | inr (j, e) ↦ ground (arith, e, index_of-put rule rs id)
  ]

  -- In an indexed registry a lookup finds the first rule with the id, which is the only one.
  pub get_lem :
      (reg : RuleRegistry D) (id : Uuid) → IsIndexed reg → get reg id ≡ rule_of id reg.rules
  unfolding get IsIndexed
  get_lem reg id (distinct, index) = elim (Option-cases (index_of id reg.rules)) [
    | inl e ↦ ground (arith, e, index id, index_of_get id reg.rules)
    | inr (i, e) ↦ ground (arith, e, index id, index_of_get id reg.rules)
  ]

  pub register_parts :
      (reg : RuleRegistry D) (rule : Rule D)
      → IsIndexed reg
      → ((register reg rule).rules ≡ put rule reg.rules)
        × ((id : Uuid) → lookup id (register reg rule).by_id ≡ index_of id (put rule reg.rules))
  unfolding register IsIndexed
  register_parts reg rule (distinct, index) = elim (Option-cases (index_of rule.id reg.rules)) [
    | inl e ↦ (
      ground (arith, e, index rule.id, append_put rule reg.rules e),
      λ id. ground (
        arith,
        e,
        index rule.id,
        index id,
        index_of-put rule reg.rules id,
        lookup-insert id rule.id (length reg.rules) reg.by_id,
      ),
    )
    | inr (i, e) ↦ (
      ground (arith, e, index rule.id, set_at-put rule reg.rules i e),
      λ id. ground (arith, e, index rule.id, index id, index_of-put rule reg.rules id),
    )
  ]

  register-IsIndexed :
      (reg : RuleRegistry D) (rule : Rule D) → IsIndexed reg → IsIndexed (register reg rule)
  unfolding IsIndexed
  register-IsIndexed reg rule h =
      let (same, index) = register_parts reg rule h in
      (
        subst AreDistinct (sym same) (AreDistinct-put rule reg.rules h.0),
        λ id. index id ∙ ap (index_of id) (sym same),
      )

  -- Registering in an indexed registry keeps it indexed, and sets what a lookup of the rule's id
  -- finds and nothing else.
  pub get-register :
      (reg : RuleRegistry D) (rule : Rule D)
      → IsIndexed reg
      → IsIndexed (register reg rule)
        × ((id : Uuid)
            → get (register reg rule) id ≡ (if rule.id == id then some rule else get reg id))
  get-register reg rule h =
      let (same, _) = register_parts reg rule h in
      let still = register-IsIndexed reg rule h in
      (
        still,
        λ id. ground (
          arith,
          same,
          get_lem (register reg rule) id still,
          get_lem reg id h,
          find-put rule reg.rules id,
        ),
      )
