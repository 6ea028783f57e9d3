-- ===== src/Api/Idempotency/Queue.antt =====
-- What the store promises: a queue of entries, the oldest first, and the store as such a queue.
use propfirm_engine.Base.{
  ℕ, suc, ◌+◌, Bool, true, false, not, ◌||◌, List, [], ◌∷◌, ◌++◌, map, Option, none, some, is_some,
  ◌≡◌, refl, sym, subst, Bool-cases, inl, inr, ap, ◌∙◌, arith, keep, any, length, ltb,
  if◌then◌else◌,
}
use propfirm_engine.Api.Idempotency.{
  Text, same_text, Entry, Inner, get, remove, insert, retain_ne, is_expired, expired, drop_all,
  prune, evict, store,
}
use propfirm_engine.Api.Idempotency.Map.{same_text_refl, eq_of_same_text, get-remove, get-insert}

-- A key with its entry; no key occurs twice.
abbrev pub Queue : Type 0
Queue = List (Text × Entry)

-- The entries that have not expired.
unfoldable pub live : ℕ → ℕ → Queue → Queue
live now ttl = keep (λ x. not (is_expired now ttl x.1))

-- The newest `n` entries.
unfoldable pub newest : ℕ → Queue → Queue
newest n [] = []
newest n (x ∷ q) = let rest = newest n q in if ltb n (length (x ∷ q)) then rest else x ∷ q

-- An entry goes to the end, in place of an older one of its key, and pushes the oldest out.
unfoldable pub enqueue : ℕ → Text → Entry → Queue → Queue
unfolding newest
enqueue capacity k e q = newest capacity (remove k q ++ (k, e) ∷ [])

abbrev pub AreDistinct : Queue → Type 0
AreDistinct [] = Unit
AreDistinct (x ∷ q) = (get x.0 q ≡ none) × AreDistinct q

-- The state of the store holds the entries of the queue, in its order.
pub record Represents (inner : Inner) (q : Queue) : Type 0 where
  pub ordered : inner.order ≡ map (λ x. x.0) q
  pub agree : (k : Text) → get k inner.entries ≡ get k q
  pub distinct : AreDistinct q
  pub unique : AreDistinct inner.entries
  pub counted : length inner.entries ≡ length q

AreDistinct-remove : (k : Text) (q : Queue) → AreDistinct q → AreDistinct (remove k q)
unfolding remove
AreDistinct-remove k [] h = tt
AreDistinct-remove k (x ∷ q) (h, hs) = ground (arith, get-remove k x.0 q, AreDistinct-remove k q hs)

length-remove :
    (k : Text) (q : Queue)
    → AreDistinct q
    → length (remove k q) + (if is_some (get k q) then 1 else 0) ≡ length q
unfolding remove get
length-remove k [] h = refl
length-remove k (x ∷ q) (h, hs) = ground (arith, length-remove k q hs, eq_of_same_text x.0 k, h)

map-remove : (k : Text) (q : Queue) → map (λ x. x.0) (remove k q) ≡ retain_ne k (map (λ x. x.0) q)
unfolding remove retain_ne
map-remove k [] = refl
map-remove k (x ∷ q) = ground (arith, map-remove k q)

Represents-remove :
    (k : Text) (inner : Inner) (q : Queue)
    → Represents inner q
    → Represents
        (record { entries = remove k inner.entries; order = retain_ne k inner.order })
        (remove k q)
Represents-remove k inner q r = record {
  ordered = rw r.ordered (sym (map-remove k q));
  agree = λ j. ground (arith, get-remove k j inner.entries, get-remove k j q, r.agree j);
  distinct = AreDistinct-remove k q r.distinct;
  unique = AreDistinct-remove k inner.entries r.unique;
  counted = ground (
    arith,
    length-remove k q r.distinct,
    length-remove k inner.entries r.unique,
    r.agree k,
    r.counted,
  );
}

remove_all : List Text → Queue → Queue
remove_all [] q = q
remove_all (k ∷ ks) q = remove_all ks (remove k q)

Represents-drop_all :
    (ks : List Text) (inner : Inner) (q : Queue)
    → Represents inner q
    → Represents (drop_all ks inner) (remove_all ks q)
unfolding drop_all remove_all
Represents-drop_all [] inner q r = r
Represents-drop_all (k ∷ ks) inner q r =
    Represents-drop_all ks _ (remove k q) (Represents-remove k inner q r)

keep-remove :
    (p : Text × Entry → Bool) (k : Text) (q : Queue)
    → keep p (remove k q) ≡ keep (λ x. not (same_text x.0 k || not (p x))) q
unfolding remove
keep-remove p k [] = refl
keep-remove p k (x ∷ q) = ground (arith, keep-remove p k q)

keep_all : (q : Queue) → keep (λ x. true) q ≡ q
keep_all [] = refl
keep_all (x ∷ q) = ap (◌∷◌ x) (keep_all q)

keep_ext :
    (p p' : Text × Entry → Bool) (q : Queue)
    → AreDistinct q
    → ((x : Text × Entry) → get x.0 q ≡ some x.1 → p x ≡ p' x)
    → keep p q ≡ keep p' q
unfolding get
keep_ext p p' [] d h = refl
keep_ext p p' (y ∷ q) (d, ds) h =
    let tail : keep p q ≡ keep p' q =
      keep_ext p p' q ds (λ (x : Text × Entry) (e : get x.0 q ≡ some x.1).
        h x (ground (arith, e, d, eq_of_same_text y.0 x.0))) in
    ground (arith, tail, h y, same_text_refl y.0)

keep_congr :
    (p p' : Text × Entry → Bool) (q : Queue)
    → ((x : Text × Entry) → p x ≡ p' x)
    → keep p q ≡ keep p' q
keep_congr p p' [] h = refl
keep_congr p p' (x ∷ q) h = ground (arith, keep_congr p p' q h, h x)

remove_all-keep :
    (ks : List Text) (q : Queue) → remove_all ks q ≡ keep (λ x. not (any (same_text x.0) ks)) q
unfolding remove_all
remove_all-keep [] q = sym (keep_all q)
remove_all-keep (k ∷ ks) q =
    remove_all-keep ks (remove k q)
    ∙ keep-remove (λ x. not (any (same_text x.0) ks)) k q
    ∙ keep_congr _ _ q (λ (x : Text × Entry). ground arith)

abbrev expires : ℕ → ℕ → Option Entry → Bool
expires now ttl none = false
expires now ttl (some e) = is_expired now ttl e

any-expired :
    (now ttl : ℕ) (k : Text) (m : Queue)
    → AreDistinct m
    → any (same_text k) (expired now ttl m) ≡ expires now ttl (get k m)
unfolding expired get
any-expired now ttl k [] d = refl
any-expired now ttl k (x ∷ m) (d, ds) = ground (
  arith,
  any-expired now ttl k m ds,
  d,
  eq_of_same_text x.0 k,
  eq_of_same_text k x.0,
  same_text_refl k,
)

-- To prune the store is to drop what has expired from the queue.
pub Represents-prune :
    (now ttl : ℕ) (inner : Inner) (q : Queue)
    → Represents inner q
    → Represents (prune now ttl inner) (live now ttl q)
unfolding prune live
Represents-prune now ttl inner q r =
    let ks = expired now ttl inner.entries in
    let same : remove_all ks q ≡ keep (λ x. not (is_expired now ttl x.1)) q =
      remove_all-keep ks q
      ∙ keep_ext _ _ q r.distinct (λ (x : Text × Entry) (e : get x.0 q ≡ some x.1).
        ground (arith, e, any-expired now ttl x.0 inner.entries r.unique, r.agree x.0)) in
    subst (Represents (prune now ttl inner)) same (Represents-drop_all ks inner q r)

Represents-tail :
    (k : Text) (ks : List Text) (m : Queue) (x : Text × Entry) (q : Queue)
    → Represents (record { entries = m; order = k ∷ ks }) (x ∷ q)
    → Represents (record { entries = remove k m; order = ks }) q
unfolding get
Represents-tail k ks m x q r =
    let e : k ≡ x.0 = ground (arith, r.ordered) in
    record {
      ordered = ground (arith, r.ordered);
      agree = λ j. ground (
        arith,
        get-remove k j m,
        r.agree j,
        r.distinct.0,
        eq_of_same_text k j,
        same_text_refl k,
        e,
      );
      distinct = r.distinct.1;
      unique = AreDistinct-remove k m r.unique;
      counted =
          ground (arith, length-remove k m r.unique, r.agree k, r.counted, e, same_text_refl k);
    }

pub length-map : (q : Queue) → length (map (λ x. x.0) q) ≡ length q
length-map [] = refl
length-map (x ∷ q) = ap suc (length-map q)

Represents-evict :
    (capacity : ℕ) (m : Queue) (order : List Text) (q : Queue)
    → Represents (record { entries = m; order = order }) q
    → Represents (evict capacity m order) (newest capacity q)
unfolding evict newest
Represents-evict capacity m [] [] r = r
Represents-evict capacity m [] (x ∷ q) r = absurd (ground (arith, r.ordered))
Represents-evict capacity m (k ∷ ks) [] r = absurd (ground (arith, r.ordered))
Represents-evict capacity m (k ∷ ks) (x ∷ q) r =
    let same : length (k ∷ ks) ≡ length (x ∷ q) = ap length r.ordered ∙ length-map (x ∷ q) in
    let rest = Represents-evict capacity (remove k m) ks q (Represents-tail k ks m x q r) in
    elim (Bool-cases (ltb capacity (length (x ∷ q)))) [
      | inl e ↦ rw (same, e) rest
      | inr e ↦ rw (same, e) r
    ]

get-append :
    (k j : Text) (e : Entry) (q : Queue)
    → get j (remove k q ++ (k, e) ∷ []) ≡ (if same_text k j then some e else get j q)
unfolding get remove
get-append k j e [] = ground arith
get-append k j e (x ∷ q) = ground (
  arith,
  get-append k j e q,
  eq_of_same_text x.0 k,
  eq_of_same_text x.0 j,
  eq_of_same_text k j,
  same_text_refl k,
)

AreDistinct-append :
    (k : Text) (e : Entry) (q : Queue) → AreDistinct q → AreDistinct (remove k q ++ (k, e) ∷ [])
unfolding remove get
AreDistinct-append k e [] h = (refl, tt)
AreDistinct-append k e (x ∷ q) (h, hs) = ground (
  arith,
  AreDistinct-append k e q hs,
  get-append k x.0 e q,
  eq_of_same_text x.0 k,
  eq_of_same_text k x.0,
  same_text_refl k,
)

map-append :
    (k : Text) (e : Entry) (q : Queue)
    → map (λ x. x.0) (remove k q ++ (k, e) ∷ []) ≡ retain_ne k (map (λ x. x.0) q) ++ k ∷ []
unfolding remove retain_ne
map-append k e [] = refl
map-append k e (x ∷ q) = ground (arith, map-append k e q)

length-append : (q : Queue) (x : Text × Entry) → length (q ++ x ∷ []) ≡ length q + 1
length-append [] x = refl
length-append (y ∷ q) x = omega (arith, length-append q x)

-- To store an entry is to enqueue it.
pub Represents-store :
    (capacity : ℕ) (k : Text) (e : Entry) (inner : Inner) (q : Queue)
    → Represents inner q
    → Represents (store capacity k e inner) (enqueue capacity k e q)
unfolding store enqueue insert
Represents-store capacity k e inner q r =
    Represents-evict capacity (insert k e inner.entries) (retain_ne k inner.order ++ k ∷ [])
      (remove k q ++ (k, e) ∷ [])
      (record {
        ordered = rw r.ordered (sym (map-append k e q));
        agree = λ j. ground (arith, get-insert k e j inner.entries, get-append k j e q, r.agree j);
        distinct = AreDistinct-append k e q r.distinct;
        unique = (
          ground (arith, get-remove k k inner.entries, same_text_refl k),
          AreDistinct-remove k inner.entries r.unique,
        );
        counted = ground (
          arith,
          length-append (remove k q) (k, e),
          length-remove k q r.distinct,
          r.agree k,
          length-remove k inner.entries r.unique,
          r.counted,
        );
      })
