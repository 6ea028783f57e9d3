-- ===== src/Api/Idempotency/Refines.antt =====
-- The store refines the queue: every run of calls gets the answers of the queue.
use propfirm_engine.Base.{
  ℕ, ◌≤◌, List, [], ◌∷◌, ◌++◌, Option, none, some, ◌≡◌, refl, subst, ◌∙◌, arith, length, ap,
}
use propfirm_engine.Api.Idempotency.{
  Text, Entry, Inner, get, remove, IdempotencyStore, IdempotencyOutcome, fresh, Environment,
  Request, hash_body, key_of, entry_of, answer, check, remember, check_and_remember, settle, prune,
  store, new,
}
use propfirm_engine.Api.Idempotency.Queue.{
  Queue, length-map, live, newest, enqueue, Represents, Represents-prune, Represents-store,
}

-- A call with the time that it reads, and the response to remember.
pub data Call : Type 0 where
  to_check : ℕ → Request → Call
  to_remember to_check_and_remember : ℕ → Request → Text → Call

module _ (env : Environment) where
  unfoldable pub step : IdempotencyStore → Call → IdempotencyStore × IdempotencyOutcome
  unfolding check remember check_and_remember
  step s (to_check now q) = check env now s q
  step s (to_remember now q response) = remember env now s q response
  step s (to_check_and_remember now q response) = check_and_remember env now s q response

  -- The store and the answers after a run of calls.
  unfoldable pub run : IdempotencyStore → List Call → IdempotencyStore × List IdempotencyOutcome
  unfolding step
  run s [] = (s, [])
  run s (c ∷ calls) = let (t, given) = step s c in let (u, rest) = run t calls in (u, given ∷ rest)

  module _ (capacity ttl : ℕ) where
    unfoldable pub queue_settle :
        ℕ → Queue → Request → Text → Option Entry → Queue × IdempotencyOutcome
    queue_settle now l q response (some e) = (l, answer (hash_body env q.body) (some e))
    queue_settle now l q response none =
        (enqueue capacity (key_of env q) (entry_of env now q response) l, fresh)

    -- The same calls on a queue of at most `capacity` entries.
    unfoldable pub queue_step : Queue → Call → Queue × IdempotencyOutcome
    unfolding queue_settle
    queue_step l (to_check now q) =
        (live now ttl l, answer (hash_body env q.body) (get (key_of env q) (live now ttl l)))
    queue_step l (to_remember now q response) =
        (enqueue capacity (key_of env q) (entry_of env now q response) l, fresh)
    queue_step l (to_check_and_remember now q response) =
        queue_settle now (live now ttl l) q response (get (key_of env q) (live now ttl l))

    unfoldable pub queue_run : Queue → List Call → Queue × List IdempotencyOutcome
    queue_run l [] = (l, [])
    queue_run l (c ∷ calls) =
        let (l', given) = queue_step l c in
        let (l'', rest) = queue_run l' calls in (l'', given ∷ rest)

    record Simulates (s : IdempotencyStore) (l : Queue) : Type 0 where
      pub held : Represents s.inner l
      pub bound : s.capacity ≡ capacity
      pub time : s.ttl ≡ ttl

    module _ (s : IdempotencyStore) (l : Queue) (r : Simulates s l) where
      pruned : (now : ℕ) → Represents (prune now s.ttl s.inner) (live now ttl l)
      pruned now =
          subst (λ t. Represents (prune now s.ttl s.inner) (live now t l)) r.time
            (Represents-prune now s.ttl s.inner l r.held)

      stored :
          (k : Text) (e : Entry) (inner : Inner) (l' : Queue)
          → Represents inner l'
          → Represents (store s.capacity k e inner) (enqueue capacity k e l')
      stored k e inner l' h =
          subst (λ n. Represents (store s.capacity k e inner) (enqueue n k e l')) r.bound
            (Represents-store s.capacity k e inner l' h)

      with_inner :
          (inner : Inner) (l' : Queue)
          → Represents inner l'
          → Simulates (record s { inner = inner }) l'
      with_inner inner l' h = record { held = h; bound = r.bound; time = r.time }

      settle-Simulates :
          (now : ℕ) (q : Request) (response : Text) (o : Option Entry)
          → ((settle env now s q response o).1 ≡ (queue_settle now l q response o).1)
            × Simulates (settle env now s q response o).0 (queue_settle now l q response o).0
      unfolding settle queue_settle
      settle-Simulates now q response (some e) = (refl, r)
      settle-Simulates now q response none = (
        refl,
        with_inner (store s.capacity (key_of env q) (entry_of env now q response) s.inner)
            (enqueue capacity (key_of env q) (entry_of env now q response) l)
            (stored (key_of env q) (entry_of env now q response) s.inner l r.held),
      )

    step-Simulates :
        (s : IdempotencyStore) (l : Queue) (c : Call)
        → Simulates s l
        → ((step s c).1 ≡ (queue_step l c).1) × Simulates (step s c).0 (queue_step l c).0
    unfolding step queue_step check remember check_and_remember
    step-Simulates s l (to_check now q) r = (
      ap (answer (hash_body env q.body)) ((pruned s l r now).agree (key_of env q)),
      with_inner s l r _ _ (pruned s l r now),
    )
    step-Simulates s l (to_remember now q response) r = (
      refl,
      with_inner s l r _ _
          (stored s l r (key_of env q) (entry_of env now q response) s.inner l r.held),
    )
    step-Simulates s l (to_check_and_remember now q response) r =
        let held = pruned s l r now in
        rw (held.agree (key_of env q)) (
          settle-Simulates (record s { inner = prune now s.ttl s.inner }) (live now ttl l)
            (with_inner s l r (prune now s.ttl s.inner) (live now ttl l) held) now q response
            (get (key_of env q) (live now ttl l)))

    run-Simulates :
        (s : IdempotencyStore) (l : Queue) (calls : List Call)
        → Simulates s l
        → ((run s calls).1 ≡ (queue_run l calls).1)
          × Simulates (run s calls).0 (queue_run l calls).0
    unfolding run queue_run
    run-Simulates s l [] r = (refl, r)
    run-Simulates s l (c ∷ calls) r =
        let (given, next) = step-Simulates s l c r in
        let (rest, last) = run-Simulates (step s c).0 (queue_step l c).0 calls next in
        (ground (arith, given, rest), last)

    new-Simulates : Simulates (new capacity ttl) []
    unfolding new
    new-Simulates = record {
      held = record {
        ordered = refl;
        agree = λ k. refl;
        distinct = tt;
        unique = tt;
        counted = refl;
      };
      bound = refl;
      time = refl;
    }

    -- The answer to one more call is the answer of the queue.
    pub answer-step :
        (calls : List Call) (c : Call)
        → (step (run (new capacity ttl) calls).0 c).1 ≡ (queue_step (queue_run [] calls).0 c).1
    answer-step calls c =
        let end = (run-Simulates (new capacity ttl) [] calls new-Simulates).1 in
        (step-Simulates (run (new capacity ttl) calls).0 (queue_run [] calls).0 c end).0

    -- From an empty store, every run of calls gets exactly the answers that a queue of entries
    -- gives which drops what has expired, moves a remembered entry to its end and keeps only the
    -- newest `capacity` ones. In the end the store holds the entries of that queue, in its order.
    pub run-refines :
        (calls : List Call)
        → ((run (new capacity ttl) calls).1 ≡ (queue_run [] calls).1)
          × Represents (run (new capacity ttl) calls).0.inner (queue_run [] calls).0
    run-refines calls =
        let (given, end) = run-Simulates (new capacity ttl) [] calls new-Simulates in
        (given, end.held)

    length-newest : (n : ℕ) (q : Queue) → length (newest n q) ≤ n
    unfolding newest
    length-newest n [] = omega arith
    length-newest n (x ∷ q) = ground (arith, length-newest n q)

    length-live : (now : ℕ) (q : Queue) → length (live now ttl q) ≤ length q
    unfolding live
    length-live now [] = omega arith
    length-live now (x ∷ q) = ground (arith, length-live now q)

    length-queue_step :
        (l : Queue) (c : Call) → length l ≤ capacity → length (queue_step l c).0 ≤ capacity
    unfolding queue_step queue_settle enqueue
    length-queue_step l (to_check now q) h = ground (arith, length-live now l)
    length-queue_step l (to_remember now q response) h = ground (
      arith,
      length-newest capacity
          (remove (key_of env q) l ++ (key_of env q, entry_of env now q response) ∷ []),
    )
    length-queue_step l (to_check_and_remember now q response) h = ground (
      arith,
      length-live now l,
      length-newest capacity (
          remove (key_of env q) (live now ttl l)
          ++ (key_of env q, entry_of env now q response) ∷ []),
    )

    length-queue_run :
        (l : Queue) (calls : List Call)
        → length l ≤ capacity
        → length (queue_run l calls).0 ≤ capacity
    unfolding queue_run
    length-queue_run l [] h = h
    length-queue_run l (c ∷ calls) h =
        length-queue_run (queue_step l c).0 calls (length-queue_step l c h)

    -- After every run of calls from an empty store, the map and the order list have the same
    -- length, which is at most the capacity.
    pub length-run :
        (calls : List Call)
        → let inner = (run (new capacity ttl) calls).0.inner in
          (length inner.entries ≡ length inner.order) × (length inner.order ≤ capacity)
    length-run calls =
        let (_, r) = run-refines calls in
        let short = length-queue_run [] calls (omega arith) in
        let n = ap length r.ordered ∙ length-map (queue_run [] calls).0 in
        ground (arith, short, n, r.counted)
