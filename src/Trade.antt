-- ===== src/Trade.antt =====
-- The trade event on the wire (rustapps/crypto-data/proto/trade_event.proto, `schema::TradeEvent` of
-- the batcher) and the key under which rows are compared. The program only copies the two `f64`
-- fields, so they are kept as their bit patterns.
use crypto_lakehouse.Prelude.{
  Bool, Eq, String, arith, as_i64, eq_iff, int_beq, int_beq_iff, str_eq, true, ℕ, ℤ, ◌&&◌, ◌↔◌, ◌≡◌,
}

pub record TradeEvent : Type 0 where
  pub event_time : ℕ
  pub symbol : String
  pub exchange : String
  pub trade_id : ℕ
  pub price : ℕ
  pub quantity : ℕ
  pub trade_time : ℕ
  pub is_buyer_maker : Bool
  pub is_best_price_match : Bool

-- `(exchange, symbol, trade_id)`.
pub record Key : Type 0 where
  pub exchange : String
  pub symbol : String
  pub trade_id : ℤ

abbrev pub key_beq : Key → Key → Bool
key_beq a b =
    str_eq a.exchange b.exchange && str_eq a.symbol b.symbol && int_beq a.trade_id b.trade_id

pub key_beq_iff : (a b : Key) → (key_beq a b ≡ true) ↔ (a ≡ b)
key_beq_iff a b = ground (
  arith,
  eq_iff a.exchange b.exchange,
  eq_iff a.symbol b.symbol,
  int_beq_iff a.trade_id b.trade_id,
)

instance abbrev pub key_eq : Eq Key
key_eq = record { equals = key_beq; decides = key_beq_iff }

unfoldable pub key_of : TradeEvent → Key
key_of e = record { exchange = e.exchange; symbol = e.symbol; trade_id = as_i64 e.trade_id }
