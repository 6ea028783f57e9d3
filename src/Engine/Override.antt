-- ===== src/Engine/Override.antt =====
-- override_engine.rs. A text is the list of its code points.
use propfirm_engine.Base.{
  ℕ, Bool, not, ◌&&◌, ◌||◌, List, Result, ok, invalid_state, refuse_if, ◌>>◌, leb, ◌==◌, any,
}
use propfirm_engine.Core.Ids.{Uuid, Timestamp}

pub record Override : Type 0 where
  pub id : Uuid
  pub account_id : Uuid
  pub clears_violation_id : Uuid
  pub reason : List ℕ
  pub actor_id : List ℕ
  pub at : Timestamp

-- `char::is_whitespace`: the code points with the Unicode property White_Space.
is_whitespace : ℕ → Bool
is_whitespace c =
    (leb 0x09 c && leb c 0x0d)
    || c == 0x20
    || c == 0x85
    || c == 0xa0
    || c == 0x1680
    || (leb 0x2000 c && leb c 0x200a)
    || (leb 0x2028 c && leb c 0x2029)
    || c == 0x202f
    || c == 0x205f
    || c == 0x3000

-- `trim().is_empty()`
is_blank : List ℕ → Bool
unfolding is_whitespace
is_blank s = not (any (λ c. not (is_whitespace c)) s)

unfoldable pub validate : Override → Result (Unit {0})
unfolding is_blank
validate o = do
  refuse_if (is_blank o.reason) invalid_state
  refuse_if (is_blank o.actor_id) invalid_state
  ok tt
