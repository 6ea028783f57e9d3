-- ===== src/Api/Idempotency/Replays.antt =====
-- A retry within the time to live is answered from the store.
use propfirm_engine.Base.{
  ℕ, suc, ◌+◌, ◌≤◌, ◌<◌, Bool, false, not, List, [], ◌∷◌, ◌++◌, some, ◌≡◌, ◌⊎◌, All, inl, inr, refl,
  sym, ap, ◌∙◌, arith, Bool-cases, Option-cases, length, ltb, keep, if◌then◌else◌,
}
use propfirm_engine.Api.Idempotency.{
  Text, same_text, Entry, IdempotencyOutcome, fresh, replay, conflict, Environment, Request, get,
  remove, hash_body, key_of, entry_of, answer, is_expired, new, check_and_remember,
}
use propfirm_engine.Api.Idempotency.Map.{same_text_refl, eq_of_same_text}
use propfirm_engine.Api.Idempotency.Queue.{Queue, live, newest, enqueue}
use propfirm_engine.Api.Idempotency.Refines.{
  Call, to_check, to_remember, to_check_and_remember, run, step, queue_run, queue_step,
  queue_settle, answer-step,
}

module _ (k : Text) (e : Entry) where
  -- The queue holds the entry under the key, and at most `n` entries come after it.
  Within : ℕ → Queue → Type 0
  Within n [] = ⊥
  Within n (x ∷ q) =
      ((x.0 ≡ k) × (x.1 ≡ e) × (length q ≤ n)) ⊎ ((same_text x.0 k ≡ false) × Within n q)

  get-Within : (n : ℕ) (q : Queue) → Within n q → get k q ≡ some e
  unfolding Within get
  get-Within n [] w = elim w [ ]
  get-Within n (x ∷ q) (inl here) = ground (arith, here, same_text_refl k)
  get-Within n (x ∷ q) (inr (other, w)) = ground (arith, other, get-Within n q w)

  length-keep : (p : Text × Entry → Bool) (q : Queue) → length (keep p q) ≤ length q
  length-keep p [] = omega arith
  length-keep p (x ∷ q) = ground (arith, length-keep p q)

  Within-live :
      (now ttl n : ℕ) (q : Queue)
      → is_expired now ttl e ≡ false
      → Within n q
      → Within n (live now ttl q)
  unfolding Within live
  Within-live now ttl n [] young w = w
  Within-live now ttl n (x ∷ q) young (inl (a, b, c)) =
      let kept : is_expired now ttl x.1 ≡ false = rw b young in
      rw kept (inl (a, b, omega (arith, c, length-keep (λ x. not (is_expired now ttl x.1)) q)))
  Within-live now ttl n (x ∷ q) young (inr (other, w)) =
      let rest = Within-live now ttl n q young w in
      elim (Bool-cases (is_expired now ttl x.1)) [
        | inl old ↦ rw old rest
        | inr kept ↦ rw kept (inr (other, rest))
      ]

  length-append_le : (q : Queue) (x : Text × Entry) → length (q ++ x ∷ []) ≤ length q + 1
  length-append_le [] x = omega arith
  length-append_le (y ∷ q) x = omega (arith, length-append_le q x)

  Within-append :
      (j : Text) (f : Entry) (n : ℕ) (q : Queue)
      → same_text j k ≡ false
      → Within n q
      → Within (n + 1) (remove j q ++ (j, f) ∷ [])
  unfolding Within remove
  Within-append j f n [] other w = elim w [ ]
  Within-append j f n (x ∷ q) other (inl (a, b, c)) =
      let stays : same_text x.0 j ≡ false =
        ground (arith, eq_of_same_text x.0 j, other, a, same_text_refl j) in
      rw stays (
        inl (
          a,
          b,
          omega (
            arith,
            c,
            length-append_le (keep (λ y. not (same_text y.0 j)) q) (j, f),
            length-keep (λ y. not (same_text y.0 j)) q,
          ),
        ))
  Within-append j f n (x ∷ q) other (inr (differs, w)) =
      let rest = Within-append j f n q other w in
      elim (Bool-cases (same_text x.0 j)) [
        | inl same ↦ rw same rest
        | inr kept ↦ rw kept (inr (differs, rest))
      ]

  Within-last : (q : Queue) → Within 0 (remove k q ++ (k, e) ∷ [])
  unfolding Within remove
  Within-last [] = inl (refl, refl, omega arith)
  Within-last (x ∷ q) = elim (Bool-cases (same_text x.0 k)) [
    | inl same ↦ rw same (Within-last q)
    | inr other ↦ rw other (inr (other, Within-last q))
  ]

  Within-newest :
      (capacity n : ℕ) (q : Queue) → n < capacity → Within n q → Within n (newest capacity q)
  unfolding Within newest
  Within-newest capacity n [] h w = w
  Within-newest capacity n (x ∷ q) h (inl (a, b, c)) =
      let stays : ltb capacity (length (x ∷ q)) ≡ false = ground (arith, c, h) in
      rw stays (inl (a, b, c))
  Within-newest capacity n (x ∷ q) h (inr (other, w)) =
      let rest = Within-newest capacity n q h w in
      elim (Bool-cases (ltb capacity (length (x ∷ q)))) [
        | inl full ↦ rw full rest
        | inr room ↦ rw room (inr (other, w))
      ]

  Within-more : (n m : ℕ) (q : Queue) → n ≤ m → Within n q → Within m q
  unfolding Within
  Within-more n m [] h w = w
  Within-more n m (x ∷ q) h (inl (a, b, c)) = inl (a, b, omega arith)
  Within-more n m (x ∷ q) h (inr (other, w)) = inr (other, Within-more n m q h w)

module _ (env : Environment) (capacity ttl : ℕ) where
  -- A call that leaves an entry of this key alone while it is young: every call but `remember` of
  -- the same key, at a time at which the entry has not expired.
  abbrev pub Spares : Text → ℕ → Call → Type 0
  Spares k t (to_check now q) = now ≤ t + ttl
  Spares k t (to_remember now q response) = same_text (key_of env q) k ≡ false
  Spares k t (to_check_and_remember now q response) = now ≤ t + ttl

  module _ (k : Text) (e : Entry) where
    young : (now : ℕ) → now ≤ e.inserted_at + ttl → is_expired now ttl e ≡ false
    unfolding is_expired
    young now h = ground arith

    Within-settle :
        (now n : ℕ) (l : Queue) (q : Request) (response : Text)
        → n + 1 < capacity
        → Within k e n l
        → Within k e
            (n + 1)
            (queue_settle env capacity ttl now l q response (get (key_of env q) l)).0
    unfolding queue_settle enqueue
    Within-settle now n l q response h w = elim (Bool-cases (same_text (key_of env q) k)) [
      | inl same ↦
          (let found : get (key_of env q) l ≡ some e =
              ground (arith, get-Within k e n l w, eq_of_same_text (key_of env q) k same) in
            rw found (Within-more k e n (n + 1) l (omega arith) w))
      | inr other ↦ elim (Option-cases (get (key_of env q) l)) [
        | inl absent ↦ rw absent (
            Within-newest k e capacity (n + 1)
              (remove (key_of env q) l ++ (key_of env q, entry_of env now q response) ∷ []) h
              (Within-append k e (key_of env q) (entry_of env now q response) n l other w))
        | inr (x, found) ↦ rw found (Within-more k e n (n + 1) l (omega arith) w)
      ]
    ]

    Within-queue_step :
        (n : ℕ) (l : Queue) (c : Call)
        → n + 1 < capacity
        → Spares k e.inserted_at c
        → Within k e n l
        → Within k e (n + 1) (queue_step env capacity ttl l c).0
    unfolding queue_step enqueue
    Within-queue_step n l (to_check now q) h spares w =
        Within-more k e n (n + 1) (live now ttl l) (omega arith)
          (Within-live k e now ttl n l (young now spares) w)
    Within-queue_step n l (to_remember now q response) h spares w =
        Within-newest k e capacity (n + 1)
          (remove (key_of env q) l ++ (key_of env q, entry_of env now q response) ∷ []) h
          (Within-append k e (key_of env q) (entry_of env now q response) n l spares w)
    Within-queue_step n l (to_check_and_remember now q response) h spares w =
        Within-settle now n (live now ttl l) q response h
          (Within-live k e now ttl n l (young now spares) w)

    Within-queue_run :
        (n : ℕ) (l : Queue) (calls : List Call)
        → n + length calls < capacity
        → All (Spares k e.inserted_at) calls
        → Within k e n l
        → Within k e (n + length calls) (queue_run env capacity ttl l calls).0
    unfolding queue_run
    Within-queue_run n l [] h spares w = Within-more k e n (n + 0) l (omega arith) w
    Within-queue_run n l (c ∷ calls) h (spare, spares) w =
        Within-more k e (n + 1 + length calls) (n + suc (length calls)) _ (omega arith) (
          Within-queue_run (n + 1) (queue_step env capacity ttl l c).0 calls (omega arith) spares
            (Within-queue_step n l c (omega arith) spare w))

  queue_run-append :
      (l : Queue) (xs ys : List Call)
      → (queue_run env capacity ttl l (xs ++ ys)).0
        ≡ (queue_run env capacity ttl (queue_run env capacity ttl l xs).0 ys).0
  unfolding queue_run
  queue_run-append l [] ys = refl
  queue_run-append l (c ∷ xs) ys = queue_run-append (queue_step env capacity ttl l c).0 xs ys

  -- The answer to a retry of a request, by whether the hashes of the two bodies are the same.
  abbrev pub retried : Request → Text → Request → IdempotencyOutcome
  retried q response again =
      if same_text (hash_body env q.body) (hash_body env again.body)
      then replay response
      else conflict

  fresh_enqueues :
      (l : Queue) (now : ℕ) (q : Request) (response : Text)
      → 0 < capacity
      → (queue_step env capacity ttl l (to_check_and_remember now q response)).1 ≡ fresh
      → Within
          (key_of env q)
          (entry_of env now q response)
          0
          (queue_step env capacity ttl l (to_check_and_remember now q response)).0
  unfolding queue_step queue_settle enqueue answer
  fresh_enqueues l now q response h e = elim (Option-cases (get (key_of env q) (live now ttl l))) [
    | inl absent ↦ rw absent (
        Within-newest (key_of env q) (entry_of env now q response) capacity 0
          (remove (key_of env q) (live now ttl l)
            ++ (key_of env q, entry_of env now q response) ∷ [])
          h (Within-last (key_of env q) (entry_of env now q response) (live now ttl l)))
    | inr (x, found) ↦ absurd (ground (arith, e, found))
  ]

  settled :
      (now : ℕ) (l : Queue) (q again : Request) (e : Entry) (response other : Text)
      → e.body_hash ≡ hash_body env q.body
      → e.response ≡ response
      → get (key_of env again) l ≡ some e
      → (queue_settle env capacity ttl now l again other (get (key_of env again) l)).1
        ≡ retried q response again
  unfolding queue_settle answer
  settled now l q again e response other hash same found = ground (arith, found, hash, same)

  module _ (before between : List Call) (at now : ℕ) (q again : Request) (response other : Text)
      (h : length between < capacity) where
    entry_kept :
        (queue_step env capacity ttl
            (queue_run env capacity ttl [] before).0
            (to_check_and_remember at q response)).1
          ≡ fresh
        → All (Spares (key_of env q) at) between
        → Within
            (key_of env q)
            (entry_of env at q response)
            (length between)
            (queue_run env capacity ttl []
              (before ++ to_check_and_remember at q response ∷ between)).0
    unfolding queue_run entry_of
    entry_kept e spares =
        let l = (queue_run env capacity ttl [] before).0 in
        let first = to_check_and_remember at q response in
        let end = queue_step env capacity ttl l first in
        rw (queue_run-append [] before (first ∷ between)) (
          Within-more (key_of env q) (entry_of env at q response) (0 + length between)
            (length between) (queue_run env capacity ttl end.0 between).0 (omega arith)
            (Within-queue_run (key_of env q) (entry_of env at q response) 0 end.0 between
              (omega arith) spares (fresh_enqueues l at q response (omega arith) e)))

    retry_answer :
        (step env (run env (new capacity ttl) before).0 (to_check_and_remember at q response)).1
          ≡ fresh
        → key_of env again ≡ key_of env q
        → All (Spares (key_of env q) at) between
        → now ≤ at + ttl
        → (step env
            (run env (new capacity ttl) (before ++ to_check_and_remember at q response ∷ between)).0
            (to_check_and_remember now again other)).1
          ≡ retried q response again
    unfolding queue_step entry_of
    retry_answer e same spares soon =
        let calls = before ++ to_check_and_remember at q response ∷ between in
        let k = key_of env q in
        let x = entry_of env at q response in
        let l = (queue_run env capacity ttl [] calls).0 in
        let first : (queue_step env capacity ttl (queue_run env capacity ttl [] before).0
              (to_check_and_remember at q response)).1
            ≡ fresh =
          sym (answer-step env capacity ttl before (to_check_and_remember at q response)) ∙ e in
        let held =
          Within-live k x now ttl (length between) l (young k x now soon)
            (entry_kept first spares) in
        answer-step env capacity ttl calls (to_check_and_remember now again other)
        ∙ settled now (live now ttl l) q again x response other refl refl (
            ap (λ j. get j (live now ttl l)) same
            ∙ get-Within k x (length between) (live now ttl l) held)

  -- No request is taken as fresh twice. A request that is answered as fresh has its response
  -- replayed to every retry with a body of the same hash, and every retry with another hash is a
  -- conflict: until the time to live has passed, if fewer than `capacity` calls come between, none
  -- of which remembers the same key outright.
  pub retry-replays :
      (before between : List Call) (at now : ℕ) (q again : Request) (response other : Text)
      → (check_and_remember env at (run env (new capacity ttl) before).0 q response).1 ≡ fresh
      → key_of env again ≡ key_of env q
      → All (Spares (key_of env q) at) between
      → length between < capacity
      → now ≤ at + ttl
      → (check_and_remember env now
          (run env (new capacity ttl) (before ++ to_check_and_remember at q response ∷ between)).0
          again
          other).1
        ≡ retried q response again
  unfolding step
  retry-replays before between at now q again response other e same spares h soon =
      retry_answer before between at now q again response other h e same spares soon
