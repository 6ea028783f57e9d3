-- ===== src/Core/Order.antt =====
-- core/order.rs
use propfirm_engine.Base.{String, Option}
use propfirm_engine.Core.Ids.{Uuid, Timestamp}
use propfirm_engine.Core.Trading.{OrderSide}

pub data OrderType (D : Type 0) : Type 0 where
  market : OrderType D
  limit stop : D → OrderType D
  stop_limit : D → D → OrderType D

pub data TimeInForce : Type 0 where
  gtc ioc fok day : TimeInForce

pub data OrderKind (D : Type 0) : Type 0 where
  open_position : OrderKind D
  close_position : Uuid → Option D → OrderKind D
  reverse_position : OrderKind D

pub data OrderStatus : Type 0 where
  pending accepted partially_filled filled cancelled rejected expired : OrderStatus

pub record Order (D : Type 0) : Type 0 where
  pub id : Uuid
  pub account_id : Uuid
  pub symbol : String
  pub side : OrderSide
  pub kind : OrderKind D
  pub order_type : OrderType D
  pub quantity : D
  pub tif : TimeInForce
  pub stop_loss : Option D
  pub take_profit : Option D
  pub comment : Option String
  pub submitted_at : Timestamp
  pub status : OrderStatus
  pub filled_quantity : D
  pub avg_fill_price : Option D
