-- ===== src/Engine/Pipeline/Process/Fills.antt =====
-- What a processed fill leaves on the account.
use propfirm_engine.Base.{
  ◌≡◌, refl, Bool, false, not, List, some, arith, ok, inl, inr, any, find, ◌==◌, Option-cases,
  any-keep, find-some, bind-ok,
}
use propfirm_engine.Decimal.{Decimal}
use propfirm_engine.Core.Ids.{Uuid, Timestamp}
use propfirm_engine.Core.Calendar.{Calendar}
use propfirm_engine.Core.Account.{Account}
use propfirm_engine.Core.Trading.{Trade, TradeExit, exit, Position, is_open}
use propfirm_engine.Engine.State.{apply_realized_pnl, mark_active_trading_day}
use propfirm_engine.Engine.Pipeline.Applied.{apply_decision_keeps}
use propfirm_engine.Engine.Pipeline.Events.{
  AppliedEvent, apply_event, trade_filled, position_of_fill, realized,
}
use propfirm_engine.Engine.Pipeline.Process.{Services, PipelineResult, process, consume_fill}
use propfirm_engine.Engine.Pipeline.Process.Stages.{stages}
use propfirm_engine.Engine.Pipeline.Process.Results.{mark_tick_keeps}

abbrev pub has_position : {D : Type 0} → Uuid → List (Position D) → Bool
has_position id = any (λ p. p.id == id)

module _ {D : Type 0} ⦃d : Decimal D⦄ where
  -- The position that an exit gives is closed, under the id that the exit names.
  exit_position :
      (fresh : Uuid) (trade : Trade D) (info : TradeExit D) (ps : List (Position D))
      (p : Position D)
      → trade.trade_side ≡ exit
      → trade.exit_info ≡ some info
      → position_of_fill fresh trade ps ≡ ok p
      → (p.id ≡ info.position_id) × (is_open p ≡ false)
  unfolding position_of_fill is_open
  exit_position fresh trade info ps p side e h =
      elim (Option-cases (find (λ q. q.id == info.position_id) ps)) [
        | inl missing ↦ ground (arith, missing)
        | inr (q, found) ↦
            ground (arith, found, find-some (λ r. r.id == info.position_id) ps q found)
      ]

  consume_closed :
      (a : Account D) (trade : Trade D) (p : Position D)
      → is_open p ≡ false
      → has_position p.id (consume_fill (some (trade, p)) a).open_positions ≡ false
  unfolding consume_fill
  consume_closed a trade p closed = ground (
    arith,
    any-keep (λ q. not (q.id == p.id)) (λ q. q.id == p.id) a.open_positions
        (λ q e. ground (arith, e)),
  )

  module _ ⦃c : Calendar⦄ where
    apply_event_fill :
        (a : Account D) (trade : Trade D) (now : Timestamp) (f : Uuid) (x : AppliedEvent D)
        → apply_event a (trade_filled trade) now f ≡ ok x
        → (p : Position D) × (x.trade_fill ≡ some (trade, p))
          × (position_of_fill f trade a.open_positions ≡ ok p)
          × (x.state.balance
              ≡ d.add a.balance
                  (d.sub (d.sub (realized trade.exit_info) trade.commission) trade.swap))
    unfolding apply_event apply_realized_pnl mark_active_trading_day
    apply_event_fill a trade now f x h =
        let (p, e, rest) = bind-ok (position_of_fill f trade a.open_positions) _ x h in
        (p, ground arith, e, ground arith)

  consume_money :
      (a : Account D) (trade : Trade D) (p : Position D)
      → (consume_fill (some (trade, p)) a).balance ≡ a.balance
  unfolding consume_fill
  consume_money a trade p = refl

module _ {D : Type 0} ⦃d : Decimal D⦄ ⦃c : Calendar⦄ (services : Services D) where
  -- A fill that is processed changes the balance by its realized profit, which is nothing unless it
  -- has exit data, less commission and swap.
  pub process-trade_filled :
      (a : Account D) (trade : Trade D) (now : Timestamp) (f g : Uuid) (r : PipelineResult D)
      → process services a (trade_filled trade) now f g ≡ ok r
      → r.account.balance
        ≡ d.add a.balance (d.sub (d.sub (realized trade.exit_info) trade.commission) trade.swap)
  process-trade_filled a trade now f g r h =
      let ev = trade_filled trade in
      let (rolled, applied, ended, decided, same, e1, e2, e3, _, _, _) =
        stages services a ev now f g r h in
      let (_, balance_kept, _, _, _, _, _, _) = same in
      let (p, filled, position, money) = apply_event_fill rolled trade now f applied e1 in
      let fed = consume_fill applied.trade_fill applied.state in
      ground (
        arith,
        e3,
        balance_kept,
        money,
        filled,
        apply_decision_keeps fed ended r.decision g now _ decided e2,
        mark_tick_keeps ended ev,
        consume_money applied.state trade p,
      )

  -- After an exit that is processed, the account holds no position under the id that the exit names,
  -- whatever the quantity of the trade and of the position.
  pub process_exit :
      (a : Account D) (trade : Trade D) (info : TradeExit D) (now : Timestamp) (f g : Uuid)
      (r : PipelineResult D)
      → trade.trade_side ≡ exit
      → trade.exit_info ≡ some info
      → process services a (trade_filled trade) now f g ≡ ok r
      → has_position info.position_id r.account.open_positions ≡ false
  process_exit a trade info now f g r side e h =
      let ev = trade_filled trade in
      let (rolled, applied, ended, decided, _, e1, e2, e3, _, _, _) =
        stages services a ev now f g r h in
      let (p, filled, position, _) = apply_event_fill rolled trade now f applied e1 in
      let fed = consume_fill applied.trade_fill applied.state in
      let (same_id, closed) = exit_position f trade info rolled.open_positions p side e position in
      ground (
        arith,
        e3,
        filled,
        same_id,
        apply_decision_keeps fed ended r.decision g now _ decided e2,
        mark_tick_keeps ended ev,
        consume_closed applied.state trade p closed,
      )
