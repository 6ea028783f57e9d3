-- ===== src/Api/Idempotency.antt =====
-- api/idempotency.rs: the bounded store that answers retried requests, with the digest of
-- sha256_helper.rs. A text is its list of UTF-8 bytes. Each operation runs under the lock of the
-- store, so it is a step of one state; the time that it reads is an argument, in nanoseconds. The
-- map of the entries is an association list.
pub mod Map
pub mod Queue
pub mod Refines
pub mod Keys
pub mod Replays
pub mod Origins
mod Examples
use propfirm_engine.Base.{
  ℕ, ◌-◌, ◌*◌, ◌/◌, ◌%◌, Bool, true, false, not, ◌&&◌, List, [], ◌∷◌, ◌++◌, map, Option, none, some,
  if◌then◌else◌, ◌==◌, ltb, length, keep, get_elem?, unwrap_or,
}
use propfirm_engine.Core.Ids.{Uuid, nanos_per_day}

abbrev pub Text : Type 0
Text = List ℕ

-- `==` on strings.
unfoldable pub same_text : Text → Text → Bool
same_text [] [] = true
same_text [] (_ ∷ _) = false
same_text (_ ∷ _) [] = false
same_text (a ∷ s) (b ∷ t) = a == b && same_text s t

pub data IdempotencyOutcome : Type 0 where
  fresh : IdempotencyOutcome
  replay : Text → IdempotencyOutcome
  conflict : IdempotencyOutcome
  error : IdempotencyOutcome

pub record Entry : Type 0 where
  pub body_hash : Text
  pub response : Text
  pub inserted_at : ℕ

pub record Inner : Type 0 where
  pub entries : List (Text × Entry)
  pub order : List Text

pub record IdempotencyStore : Type 0 where
  pub inner : Inner
  pub capacity : ℕ
  pub ttl : ℕ

unfoldable pub new : ℕ → ℕ → IdempotencyStore
new capacity ttl = record {
  inner = record { entries = []; order = [] };
  capacity = capacity;
  ttl = ttl;
}

unfoldable pub with_defaults : IdempotencyStore
unfolding new
with_defaults = new 10_000 nanos_per_day

-- The map's `get`, `remove` and `insert`.
unfoldable pub get : Text → List (Text × Entry) → Option Entry
get k [] = none
get k ((j, e) ∷ m) = let rest = get k m in if same_text j k then some e else rest

unfoldable pub remove : Text → List (Text × Entry) → List (Text × Entry)
remove k = keep (λ x. not (same_text x.0 k))

unfoldable pub insert : Text → Entry → List (Text × Entry) → List (Text × Entry)
unfolding remove
insert k e m = (k, e) ∷ remove k m

-- `order.retain(|o| o != k)`
unfoldable pub retain_ne : Text → List Text → List Text
retain_ne k = keep (λ o. not (same_text o k))

-- `duration_since` stops at zero.
unfoldable pub is_expired : ℕ → ℕ → Entry → Bool
is_expired now ttl e = ltb ttl (now - e.inserted_at)

unfoldable pub expired : ℕ → ℕ → List (Text × Entry) → List Text
unfolding is_expired
expired now ttl m = map (λ x. x.0) (keep (λ x. is_expired now ttl x.1) m)

unfoldable pub drop_all : List Text → Inner → Inner
unfolding remove retain_ne
drop_all [] inner = inner
drop_all (k ∷ ks) inner =
    drop_all ks (record { entries = remove k inner.entries; order = retain_ne k inner.order })

unfoldable pub prune : ℕ → ℕ → Inner → Inner
unfolding drop_all expired
prune now ttl inner = drop_all (expired now ttl inner.entries) inner

-- `while order.len() > capacity { entries.remove(&order.remove(0)) }`
unfoldable pub evict : ℕ → List (Text × Entry) → List Text → Inner
unfolding remove
evict capacity m [] = record { entries = m; order = [] }
evict capacity m (k ∷ ks) =
    let rest = evict capacity (remove k m) ks in
    if ltb capacity (length (k ∷ ks)) then rest else record { entries = m; order = k ∷ ks }

-- The common end of `remember` and of `check_and_remember`.
unfoldable pub store : ℕ → Text → Entry → Inner → Inner
unfolding evict insert retain_ne
store capacity k e inner =
    evict capacity (insert k e inner.entries) (retain_ne k inner.order ++ k ∷ [])

unfoldable pub answer : Text → Option Entry → IdempotencyOutcome
answer hash none = fresh
answer hash (some e) = if same_text e.body_hash hash then replay e.response else conflict

-- What the code calls of other crates: the text of a UUID and the 32 bytes of a SHA-256 digest.
pub record Environment : Type 0 where
  pub show_uuid : Uuid → Text
  pub sha256 : List ℕ → List ℕ

-- b"0123456789abcdef"
abbrev pub hex_digits : List ℕ
hex_digits = 48 ∷ 49 ∷ 50 ∷ 51 ∷ 52 ∷ 53 ∷ 54 ∷ 55 ∷ 56 ∷ 57 ∷ 97 ∷ 98 ∷ 99 ∷ 100 ∷ 101 ∷ 102 ∷ []

-- The index is at most 15.
unfoldable pub hex_digit : ℕ → ℕ
hex_digit n = unwrap_or (get_elem? hex_digits n) 0

unfoldable pub hex : List ℕ → Text
unfolding hex_digit
hex [] = []
hex (b ∷ bs) = hex_digit (b / 16) ∷ hex_digit (b % 16) ∷ hex bs

-- `finalize_hex` of a digest: the prefix `sha256:` and two digits for each byte.
unfoldable pub finalize_hex : List ℕ → Text
unfolding hex
finalize_hex digest = 115 ∷ 104 ∷ 97 ∷ 50 ∷ 53 ∷ 54 ∷ 58 ∷ hex digest

-- A request as the store sees it.
pub record Request : Type 0 where
  pub tenant_id : Option Uuid
  pub endpoint : Text
  pub key : Text
  pub body : Text

module _ (env : Environment) where
  unfoldable pub composite_key : Option Uuid → Text → Text → Text
  composite_key none endpoint key = endpoint ++ 0 ∷ key
  composite_key (some t) endpoint key = env.show_uuid t ++ (0 ∷ (endpoint ++ 0 ∷ key))

  -- `str` feeds its bytes and then 0xff to the hasher.
  unfoldable pub hash_body : Text → Text
  unfolding finalize_hex
  hash_body body = finalize_hex (env.sha256 (body ++ 255 ∷ []))

  unfoldable pub key_of : Request → Text
  unfolding composite_key
  key_of q = composite_key q.tenant_id q.endpoint q.key

  unfoldable pub entry_of : ℕ → Request → Text → Entry
  unfolding hash_body
  entry_of now q response = record {
    body_hash = hash_body q.body;
    response = response;
    inserted_at = now;
  }

  -- `check`, and `check_now` for a request without a tenant.
  unfoldable pub check : ℕ → IdempotencyStore → Request → IdempotencyStore × IdempotencyOutcome
  unfolding prune get answer hash_body key_of
  check now s q =
      let inner = prune now s.ttl s.inner in
      (record s { inner = inner }, answer (hash_body q.body) (get (key_of q) inner.entries))

  -- `remember`, and `remember_now` for a request without a tenant.
  unfoldable pub remember :
      ℕ → IdempotencyStore → Request → Text → IdempotencyStore × IdempotencyOutcome
  unfolding store entry_of key_of
  remember now s q response =
      (record s { inner = store s.capacity (key_of q) (entry_of now q response) s.inner }, fresh)

  -- The `match` of `check_and_remember`, after the store has been pruned.
  unfoldable pub settle :
      ℕ → IdempotencyStore → Request → Text → Option Entry → IdempotencyStore × IdempotencyOutcome
  unfolding answer hash_body store entry_of key_of
  settle now s q response (some e) = (s, answer (hash_body q.body) (some e))
  settle now s q response none =
      (record s { inner = store s.capacity (key_of q) (entry_of now q response) s.inner }, fresh)

  unfoldable pub check_and_remember :
      ℕ → IdempotencyStore → Request → Text → IdempotencyStore × IdempotencyOutcome
  unfolding prune get settle key_of
  check_and_remember now s q response =
      let inner = prune now s.ttl s.inner in
      settle now (record s { inner = inner }) q response (get (key_of q) inner.entries)

-- `len` and `is_empty`, which prune first.
unfoldable pub len : ℕ → IdempotencyStore → IdempotencyStore × ℕ
unfolding prune
len now s =
    let inner = prune now s.ttl s.inner in (record s { inner = inner }, length inner.entries)

unfoldable pub is_empty : ℕ → IdempotencyStore → IdempotencyStore × Bool
unfolding len
is_empty now s = let (t, n) = len now s in (t, n == 0)
