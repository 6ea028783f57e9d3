-- ===== src/Api/Idempotency/Map.antt =====
-- Laws of the map and of the equality of texts.
use propfirm_engine.Base.{true, List, [], ◌∷◌, none, some, ◌≡◌, refl, arith, if◌then◌else◌}
use propfirm_engine.Api.Idempotency.{Text, same_text, Entry, get, remove, insert}

pub same_text_refl : (s : Text) → same_text s s ≡ true
unfolding same_text
same_text_refl [] = refl
same_text_refl (a ∷ s) = ground (arith, same_text_refl s)

pub eq_of_same_text : (s t : Text) → same_text s t ≡ true → s ≡ t
unfolding same_text
eq_of_same_text [] [] h = refl
eq_of_same_text [] (b ∷ t) h = absurd (ground arith)
eq_of_same_text (a ∷ s) [] h = absurd (ground arith)
eq_of_same_text (a ∷ s) (b ∷ t) h = ground (arith, eq_of_same_text s t)

pub get-remove :
    (k j : Text) (m : List (Text × Entry))
    → get j (remove k m) ≡ (if same_text k j then none else get j m)
unfolding get remove
get-remove k j [] = ground arith
get-remove k j ((i, e) ∷ m) = ground (
  arith,
  get-remove k j m,
  eq_of_same_text i k,
  eq_of_same_text i j,
  same_text_refl i,
  eq_of_same_text k j,
)

pub get-insert :
    (k : Text) (e : Entry) (j : Text) (m : List (Text × Entry))
    → get j (insert k e m) ≡ (if same_text k j then some e else get j m)
unfolding get insert
get-insert k e j m = ground (arith, get-remove k j m)
