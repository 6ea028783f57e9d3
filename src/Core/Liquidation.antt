-- ===== src/Core/Liquidation.antt =====
-- liquidation.rs, and the instrument specification of core/instrument.rs that values positions.
use propfirm_engine.Base.{List, [], ◌∷◌, Option, String, map, keep}
use propfirm_engine.Base.Int.{pos}
use propfirm_engine.Decimal.{Decimal}
use propfirm_engine.Core.Ids.{Uuid, Timestamp}
use propfirm_engine.Core.Violation.{ViolationKind}
use propfirm_engine.Core.Trading.{Position, PositionSide, is_open}

pub record LiquidationPosition (D : Type 0) : Type 0 where
  pub position_id : Uuid
  pub symbol : String
  pub side : PositionSide
  pub open_quantity : D
  pub avg_entry_price : D

pub data LiquidationReason : Type 0 where
  rule_breach : ViolationKind → LiquidationReason
  emergency_stop manual : LiquidationReason

pub record LiquidationInstruction (D : Type 0) : Type 0 where
  pub id : Uuid
  pub account_id : Uuid
  pub tenant_id : Uuid
  pub positions : List (LiquidationPosition D)
  pub reason : LiquidationReason
  pub triggered_by_violation_id : Option Uuid
  pub estimated_notional : D
  pub issued_at : Timestamp
  pub actor_id : String

abbrev pub from_position : {D : Type 0} → Position D → LiquidationPosition D
from_position p = record {
  position_id = p.id;
  symbol = p.symbol;
  side = p.side;
  open_quantity = p.open_quantity;
  avg_entry_price = p.avg_entry_price;
}

module _ {D : Type 0} ⦃d : Decimal D⦄ where
  open d use {nought, add, mul, div, abs}

  -- `units_to_lots` and `notional` of a specification with this contract size.
  unfoldable pub units_to_lots : D → D → D
  units_to_lots contract_size units = div units contract_size

  unfoldable pub notional : D → D → D → D
  notional contract_size lots price = mul (mul lots contract_size) price

  -- `InstrumentSpec::default`. The registry that `new` reads is empty, so every symbol has it.
  abbrev default_contract_size : D
  default_contract_size = d.new (pos 1) 0

  position_notional : LiquidationPosition D → D
  unfolding units_to_lots notional
  position_notional p = abs (
      notional default_contract_size (units_to_lots default_contract_size p.open_quantity)
        p.avg_entry_price)

  sum : D → List D → D
  sum acc [] = acc
  sum acc (x ∷ xs) = sum (add acc x) xs

  -- `LiquidationInstruction::new`, with the fresh id of the instruction.
  unfoldable pub new :
      Uuid
      → Uuid
      → Uuid
      → List (Position D)
      → LiquidationReason
      → Option Uuid
      → String
      → Timestamp
      → LiquidationInstruction D
  unfolding position_notional sum
  new id account_id tenant_id positions reason triggered_by_violation_id actor_id issued_at =
      let liq_positions = map from_position (keep is_open positions) in
      record {
        id = id;
        account_id = account_id;
        tenant_id = tenant_id;
        positions = liq_positions;
        reason = reason;
        triggered_by_violation_id = triggered_by_violation_id;
        estimated_notional = sum nought (map position_notional liq_positions);
        issued_at = issued_at;
        actor_id = actor_id;
      }
