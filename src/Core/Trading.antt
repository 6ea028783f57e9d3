-- ===== src/Core/Trading.antt =====
-- core/order.rs (the side), core/trade.rs, core/position.rs and core/tick.rs.
use propfirm_engine.Base.{ℕ, String, Bool, true, false, not, ◌&&◌, Option, none, if◌then◌else◌}
use propfirm_engine.Decimal.{Decimal}
use propfirm_engine.Core.Ids.{Uuid, Timestamp}

pub data OrderSide : Type 0 where
  buy sell : OrderSide

pub data TradeSide : Type 0 where
  entry exit reverse : TradeSide

pub data PositionSide : Type 0 where
  long short : PositionSide

pub data PositionStatus : Type 0 where
  opened closed liquidated : PositionStatus

pub record TradeExit (D : Type 0) : Type 0 where
  pub position_id : Uuid
  pub realized_pnl : D
  pub closed_quantity : D
  pub entry_price : D
  pub exit_price : D

pub record Trade (D : Type 0) : Type 0 where
  pub id : Uuid
  pub order_id : Uuid
  pub account_id : Uuid
  pub symbol : String
  pub side : OrderSide
  pub trade_side : TradeSide
  pub price : D
  pub quantity : D
  pub commission : D
  pub swap : D
  pub executed_at : Timestamp
  pub exit_info : Option (TradeExit D)
  pub comment : Option String

pub record Position (D : Type 0) : Type 0 where
  pub id : Uuid
  pub account_id : Uuid
  pub symbol : String
  pub side : PositionSide
  pub opened_at : Timestamp
  pub closed_at : Option Timestamp
  pub status : PositionStatus
  pub avg_entry_price : D
  pub opened_quantity : D
  pub open_quantity : D
  pub realized_pnl : D
  pub commission : D
  pub swap : D
  pub stop_loss : Option D
  pub take_profit : Option D
  pub magic : Option ℕ
  pub comment : Option String

pub record Quote (D : Type 0) : Type 0 where
  pub bid : D
  pub ask : D
  pub ts : Timestamp

pub record Tick (D : Type 0) : Type 0 where
  pub symbol : String
  pub quote : Quote D
  pub last : Option D
  pub bid_volume : Option D
  pub ask_volume : Option D

abbrev pub from_order : OrderSide → PositionSide
from_order buy = long
from_order sell = short

abbrev pub is_opened : PositionStatus → Bool
is_opened opened = true
is_opened _ = false

module _ {D : Type 0} ⦃d : Decimal D⦄ where
  open d use {nought, sub, mul, is_zero, is_sign_positive}

  -- `Quantity::is_positive`
  abbrev pub is_positive : D → Bool
  is_positive q = is_sign_positive q && not (is_zero q)

  unfoldable pub is_open : Position D → Bool
  is_open p = is_opened p.status && is_positive p.open_quantity

  price_diff : PositionSide → D → D → D
  price_diff long entry_price current = sub current entry_price
  price_diff short entry_price current = sub entry_price current

  -- The free function `unrealized_pnl`.
  unfoldable pub side_pnl : D → D → D → PositionSide → D
  unfolding price_diff
  side_pnl entry_price current quantity side = mul (price_diff side entry_price current) quantity

  closing_price : PositionSide → Quote D → D
  closing_price long q = q.bid
  closing_price short q = q.ask

  -- `Position::unrealized_pnl`
  unfoldable pub unrealized_pnl : Position D → Quote D → D
  unfolding is_open side_pnl closing_price
  unrealized_pnl p q =
      if not (is_open p)
      then nought
      else side_pnl p.avg_entry_price (closing_price p.side q) p.open_quantity p.side

  -- `Position::open` for a fill: no stop loss, no take profit, no magic number.
  unfoldable pub open_fill : Uuid → Trade D → Position D
  open_fill id trade = record {
    id = id;
    account_id = trade.account_id;
    symbol = trade.symbol;
    side = from_order trade.side;
    opened_at = trade.executed_at;
    closed_at = none;
    status = opened;
    avg_entry_price = trade.price;
    opened_quantity = trade.quantity;
    open_quantity = trade.quantity;
    realized_pnl = nought;
    commission = trade.commission;
    swap = nought;
    stop_loss = none;
    take_profit = none;
    magic = none;
    comment = trade.comment;
  }
