-- ===== src/Api/Idempotency/Origins.antt =====
-- Where replayed responses come from.
use propfirm_engine.Base.{
  ℕ, Bool, true, false, not, List, [], ◌∷◌, ◌++◌, Option, none, some, ◌≡◌, ◌⊎◌, All, inl, inr, refl,
  sym, ◌∙◌, subst, arith, is_some, Bool-cases, Option-cases, length, ltb, keep,
}
use propfirm_engine.Api.Idempotency.{
  Text, same_text, Entry, replay, Environment, Request, get, remove, hash_body, key_of, entry_of,
  answer, is_expired, new, check,
}
use propfirm_engine.Api.Idempotency.Keys.{has_nul, IsDisplay, composite_key_injective}
use propfirm_engine.Api.Idempotency.Map.{eq_of_same_text}
use propfirm_engine.Api.Idempotency.Queue.{Queue, live, newest, enqueue}
use propfirm_engine.Api.Idempotency.Refines.{
  Call, to_check, to_remember, to_check_and_remember, run, step, queue_run, queue_step,
  queue_settle, answer-step,
}

abbrev pub AnyOf : (Call → Type 0) → List Call → Type 0
AnyOf P [] = ⊥
AnyOf P (c ∷ cs) = P c ⊎ AnyOf P cs

-- What a call hands in to be remembered.
abbrev handed : Call → Option (Request × Text)
handed (to_check now q) = none
handed (to_remember now q response) = some (q, response)
handed (to_check_and_remember now q response) = some (q, response)

-- A property of the key, the hash and the response of each entry.
abbrev Holds : (Text → Text → Text → Type 0) → Queue → Type 0
Holds P = All (λ x. P x.0 x.1.body_hash x.1.response)

module _ (P : Text → Text → Text → Type 0) where
  Holds-keep : (p : Text × Entry → Bool) (q : Queue) → Holds P q → Holds P (keep p q)
  Holds-keep p [] h = tt
  Holds-keep p (x ∷ q) (h, hs) = elim (Bool-cases (p x)) [
    | inl e ↦ rw e (h, Holds-keep p q hs)
    | inr e ↦ rw e (Holds-keep p q hs)
  ]

  Holds-newest : (n : ℕ) (q : Queue) → Holds P q → Holds P (newest n q)
  unfolding newest
  Holds-newest n [] h = tt
  Holds-newest n (x ∷ q) (h, hs) = elim (Bool-cases (ltb n (length (x ∷ q)))) [
    | inl e ↦ rw e (Holds-newest n q hs)
    | inr e ↦ rw e (h, hs)
  ]

  Holds-append :
      (q : Queue) (x : Text × Entry)
      → Holds P q
      → P x.0 x.1.body_hash x.1.response
      → Holds P (q ++ x ∷ [])
  Holds-append [] x h k = (k, tt)
  Holds-append (y ∷ q) x (h, hs) k = (h, Holds-append q x hs k)

  Holds-enqueue :
      (n : ℕ) (k : Text) (e : Entry) (q : Queue)
      → Holds P q
      → P k e.body_hash e.response
      → Holds P (enqueue n k e q)
  unfolding enqueue remove
  Holds-enqueue n k e q h new =
      Holds-newest n (remove k q ++ (k, e) ∷ [])
        (Holds-append (remove k q) (k, e) (Holds-keep (λ x. not (same_text x.0 k)) q h) new)

  Holds-get :
      (k : Text) (q : Queue) (e : Entry) → Holds P q → get k q ≡ some e → P k e.body_hash e.response
  unfolding get
  Holds-get k [] e h g = absurd (ground (arith, g))
  Holds-get k (x ∷ q) e (h, hs) g = elim (Bool-cases (same_text x.0 k)) [
    | inl s ↦
        (let same : x.1 ≡ e = ground (arith, g, s) in
          subst (λ j. P j e.body_hash e.response) (eq_of_same_text x.0 k s)
            (subst (λ y. P x.0 y.body_hash y.response) same h))
    | inr s ↦ Holds-get k q e hs (ground (arith, g, s))
  ]

module _ (env : Environment) where
  -- That a call hands in a response under this key and this hash of the body.
  abbrev pub Hands : Text → Text → Text → Call → Type 0
  Hands k hash response c = elim (handed c) [
    | none ↦ ⊥
    | some (q, r) ↦ (key_of env q ≡ k) × (hash_body env q.body ≡ hash) × (r ≡ response)
  ]

  module _ (P : Text → Text → Text → Type 0) (capacity ttl : ℕ) where
    Holds-settle :
        (now : ℕ) (l : Queue) (q : Request) (response : Text) (o : Option Entry)
        → Holds P l
        → P (key_of env q) (hash_body env q.body) response
        → Holds P (queue_settle env capacity ttl now l q response o).0
    unfolding queue_settle entry_of
    Holds-settle now l q response (some e) h new = h
    Holds-settle now l q response none h new =
        Holds-enqueue P capacity (key_of env q) (entry_of env now q response) l h new

    Holds-queue_step :
        (l : Queue) (c : Call)
        → Holds P l
        → ((k hash response : Text) → Hands k hash response c → P k hash response)
        → Holds P (queue_step env capacity ttl l c).0
    unfolding queue_step live entry_of
    Holds-queue_step l (to_check now q) h new = Holds-keep P (λ x. not (is_expired now ttl x.1)) l h
    Holds-queue_step l (to_remember now q response) h new =
        Holds-enqueue P capacity (key_of env q) (entry_of env now q response) l h
          (new (key_of env q) (hash_body env q.body) response (refl, refl, refl))
    Holds-queue_step l (to_check_and_remember now q response) h new =
        Holds-settle now (live now ttl l) q response (get (key_of env q) (live now ttl l))
          (Holds-keep P (λ x. not (is_expired now ttl x.1)) l h)
          (new (key_of env q) (hash_body env q.body) response (refl, refl, refl))

    Holds-queue_run :
        (l : Queue) (calls : List Call)
        → Holds P l
        → ((k hash response : Text) → AnyOf (Hands k hash response) calls → P k hash response)
        → Holds P (queue_run env capacity ttl l calls).0
    unfolding queue_run
    Holds-queue_run l [] h new = h
    Holds-queue_run l (c ∷ calls) h new =
        Holds-queue_run (queue_step env capacity ttl l c).0 calls
          (Holds-queue_step l c h (λ k hash response here. new k hash response (inl here)))
          (λ k hash response there. new k hash response (inr there))

  answer-replay :
      (P : Text → Text → Text → Type 0) (k hash response : Text) (l : Queue)
      → Holds P l
      → answer hash (get k l) ≡ replay response
      → P k hash response
  unfolding answer
  answer-replay P k hash response l h e = elim (Option-cases (get k l)) [
    | inl absent ↦ absurd (ground (arith, e, absent))
    | inr (x, found) ↦
        (let same : (x.body_hash ≡ hash) × (x.response ≡ response) =
            ground (arith, e, found, eq_of_same_text x.body_hash hash) in
          subst (λ b. P k b response) same.0
            (subst (λ r. P k x.body_hash r) same.1 (Holds-get P k l x h found)))
  ]

  answer_of :
      (capacity ttl : ℕ) (calls : List Call) (now : ℕ) (q : Request)
      → (check env now (run env (new capacity ttl) calls).0 q).1
        ≡ answer
            (hash_body env q.body)
            (get (key_of env q) (live now ttl (queue_run env capacity ttl [] calls).0))
  unfolding step queue_step
  answer_of capacity ttl calls now q = answer-step env capacity ttl calls (to_check now q)

  -- A response that the store replays after any run of calls from empty was handed in, in this run,
  -- for a request with the same composite key and the same hash of its body.
  replay-handed :
      (capacity ttl : ℕ) (calls : List Call) (now : ℕ) (q : Request) (response : Text)
      → (check env now (run env (new capacity ttl) calls).0 q).1 ≡ replay response
      → AnyOf (Hands (key_of env q) (hash_body env q.body) response) calls
  unfolding check live
  replay-handed capacity ttl calls now q response e =
      let P : Text → Text → Text → Type 0 = λ k h r. AnyOf (Hands k h r) calls in
      let l = (queue_run env capacity ttl [] calls).0 in
      let held = Holds-queue_run P capacity ttl [] calls tt (λ k h r here. here) in
      answer-replay P (key_of env q) (hash_body env q.body) response (live now ttl l)
        (Holds-keep P (λ x. not (is_expired now ttl x.1)) l held)
        (sym (answer_of capacity ttl calls now q) ∙ e)

-- A request of a tenant, to an endpoint whose name has no byte zero.
abbrev pub IsPlain : Request → Type 0
IsPlain q = (is_some q.tenant_id ≡ true) × (has_nul q.endpoint ≡ false)

abbrev pub IsPlainCall : Call → Type 0
IsPlainCall (to_check now q) = IsPlain q
IsPlainCall (to_remember now q response) = IsPlain q
IsPlainCall (to_check_and_remember now q response) = IsPlain q

-- That a call hands in a response for the same tenant, endpoint and idempotency key, and the same
-- hash of the body.
abbrev pub Answers : Environment → Request → Text → Call → Type 0
Answers env q response c = elim (handed c) [
  | none ↦ ⊥
  | some (p, r) ↦
      (p.tenant_id ≡ q.tenant_id)
      × (p.endpoint ≡ q.endpoint)
      × (p.key ≡ q.key)
      × (hash_body env p.body ≡ hash_body env q.body)
      × (r ≡ response)
]

module _ (env : Environment) (d : IsDisplay env) where
  same_request :
      (p q : Request)
      → IsPlain p
      → IsPlain q
      → key_of env p ≡ key_of env q
      → (p.tenant_id ≡ q.tenant_id) × (p.endpoint ≡ q.endpoint) × (p.key ≡ q.key)
  unfolding key_of
  same_request p q (t, h) (u, k) e = elim (Option-cases p.tenant_id) [
    | inl x ↦ absurd (ground (arith, t, x))
    | inr (a, x) ↦ elim (Option-cases q.tenant_id) [
      | inl y ↦ absurd (ground (arith, u, y))
      | inr (b, y) ↦
          (let same =
              (composite_key_injective env a b p.endpoint q.endpoint p.key q.key d h k).0
                (ground (arith, e, x, y)) in
            ground (arith, same, x, y))
    ]
  ]

  Answers-Hands :
      (q : Request) (response : Text) (c : Call)
      → IsPlain q
      → IsPlainCall c
      → Hands env (key_of env q) (hash_body env q.body) response c
      → Answers env q response c
  Answers-Hands q response (to_check now p) plain h e = e
  Answers-Hands q response (to_remember now p r) plain h (e, hash, same) =
      let parts = same_request p q h plain e in (parts.0, parts.1, parts.2, hash, same)
  Answers-Hands q response (to_check_and_remember now p r) plain h (e, hash, same) =
      let parts = same_request p q h plain e in (parts.0, parts.1, parts.2, hash, same)

  AnyOf-Answers :
      (q : Request) (response : Text) (calls : List Call)
      → IsPlain q
      → All IsPlainCall calls
      → AnyOf (Hands env (key_of env q) (hash_body env q.body) response) calls
      → AnyOf (Answers env q response) calls
  AnyOf-Answers q response [] plain h e = elim e [ ]
  AnyOf-Answers q response (c ∷ calls) plain (h, hs) (inl e) =
      inl (Answers-Hands q response c plain h e)
  AnyOf-Answers q response (c ∷ calls) plain (h, hs) (inr e) =
      inr (AnyOf-Answers q response calls plain hs e)

  -- Tenants are isolated. After any run of calls from an empty store, a response that is replayed
  -- to a request was handed in during the run for the same tenant, endpoint and idempotency key
  -- and for a body of the same hash. The requests are of tenants, to endpoints whose names have no
  -- byte zero, and the texts of UUIDs are distinct and have none either.
  pub replay-isolated :
      (capacity ttl : ℕ) (calls : List Call) (now : ℕ) (q : Request) (response : Text)
      → IsPlain q
      → All IsPlainCall calls
      → (check env now (run env (new capacity ttl) calls).0 q).1 ≡ replay response
      → AnyOf (Answers env q response) calls
  replay-isolated capacity ttl calls now q response plain h e =
      AnyOf-Answers q response calls plain h (replay-handed env capacity ttl calls now q response e)
