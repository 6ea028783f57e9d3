-- ===== src/Engine/State/Status.antt =====
-- The status of an account under stops, overrides, targets, payouts and phase changes.
use propfirm_engine.Base.{
  Bool, false, inl, inr, Bool-cases, Option-cases, ◌≡◌, true, none, some, is_some, is_ok, ok, arith,
  ◌⊎◌,
}
use propfirm_engine.Core.Ids.{Timestamp}
use propfirm_engine.Core.Account.{
  Account, AccountStatus, is_breach_terminal, target_hit_pending, active,
}
use propfirm_engine.Engine.State.{emergency_stop, clear_breach, mark_target_reached}

abbrev is_waiting : AccountStatus → Bool
is_waiting active = true
is_waiting _ = false

module _ {D : Type 0} where
  -- Clearing an emergency stop gives back exactly the account before the stop, if no breach was on
  -- record then, also after the stop was repeated.
  pub clear_breach-emergency_stop :
      (a : Account D)
      → a.status_before_breach ≡ none
      → (clear_breach (emergency_stop a) ≡ ok a)
        × (clear_breach (emergency_stop (emergency_stop a)) ≡ ok a)
  unfolding clear_breach emergency_stop
  clear_breach-emergency_stop a h = ground arith

  -- A breach can be cleared exactly when the account is failed or stopped.
  pub is_ok-clear_breach : (a : Account D) → is_ok (clear_breach a) ≡ is_breach_terminal a.status
  unfolding clear_breach is_breach_terminal
  is_ok-clear_breach a = ground arith

  -- Once the target is on record, no later call changes anything; the first call records its time
  -- and day, and moves an active account, and no other, to the pending state.
  pub mark_target_reached_sticky :
      (a : Account D) (at later : Timestamp)
      → let b = mark_target_reached a at in
        (mark_target_reached b later ≡ b)
        × (is_some b.target_reached_at ≡ true)
        × ((b ≡ a)
            ⊎ ((b.target_reached_at ≡ some at)
                × (b.target_reached_on_day ≡ some a.trading_day_index)))
        × ((b.status ≡ a.status) ⊎ ((a.status ≡ active) × (b.status ≡ target_hit_pending)))
  unfolding mark_target_reached
  mark_target_reached_sticky a at later = elim (Option-cases a.target_reached_at) [
    | inl e ↦ (
      ground (arith, e),
      ground (arith, e),
      inr (ground (arith, e)),
      elim (Bool-cases (is_waiting a.status)) [
        | inl w ↦ inr (ground (arith, e))
        | inr w ↦ inl (ground (arith, e))
      ],
    )
    | inr (t, e) ↦
        (ground (arith, e), ground (arith, e), inl (ground (arith, e)), inl (ground (arith, e)))
  ]
