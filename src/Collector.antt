-- ===== src/Collector.antt =====
-- The collector: `Exchange` of rustapps/crypto-data/src/data/mod.rs, the Binance events of
-- rustapps/crypto-data/src/data/binance_web_socket.rs, and the reconnect loop of
-- rustapps/crypto-collector/src/main.rs. The JSON parser, the protobuf encoder, the socket and the publisher
-- are parameters.
pub mod Stream
pub mod Reconnect
use crypto_lakehouse.Prelude.{
  Bool, List, Option, String, [], false, if◌then◌else◌, ltb, min, none, some, true, ℕ, ◌*◌, ◌∷◌,
}
use crypto_lakehouse.Result.{Result, ok, err, Error, message, panicked}
use crypto_lakehouse.Action.{Action}
use crypto_lakehouse.Trade.{TradeEvent}

-- The two `f64` fields as their bit patterns.
pub record TradeEventBinance : Type 0 where
  pub event_type : String
  pub event_time : ℕ
  pub symbol : String
  pub trade_id : ℕ
  pub price : ℕ
  pub quantity : ℕ
  pub trade_time : ℕ
  pub is_buyer_maker : Bool
  pub is_best_price_match : Bool

pub record BinanceStreamPayload : Type 0 where
  pub stream : String
  pub event : TradeEventBinance

-- `From<TradeEventBinance> for TradeEventProto`.
unfoldable pub from_event : TradeEventBinance → TradeEvent
from_event event = record {
  event_time = event.event_time;
  symbol = event.symbol;
  exchange = "BINANCE";
  trade_id = event.trade_id;
  price = event.price;
  quantity = event.quantity;
  trade_time = event.trade_time;
  is_buyer_maker = event.is_buyer_maker;
  is_best_price_match = event.is_best_price_match;
}

-- `From<BinanceStreamPayload> for TradeEventProto`.
unfoldable pub from_payload : BinanceStreamPayload → TradeEvent
unfolding from_event
from_payload payload = from_event payload.event

-- `format!("exchange.{}", self.name())` of the one exchange.
abbrev pub subject : String
subject = "exchange.BINANCE"

-- A frame of the socket.
pub data Frame : Type 0 where
  text : String → Frame
  other : Frame

-- What the `select!` of the loop delivers: a new reader or none from the manager, or the next item of the
-- socket, which is at its end, or an error.
pub data Event : Type 0 where
  new_reader manager_died end_of_stream socket_error : Event
  frame : Frame → Event

module _ {P : Type 0} (parse : String → Option BinanceStreamPayload) (encode : TradeEvent → List ℕ)
    (publish_trade : String → List ℕ → P → Result (Unit {0}) × P) where
  -- A failed publish is only logged.
  unfoldable pub publish : Option BinanceStreamPayload → Action P (Unit {0})
  unfolding from_payload
  publish none p = (err (panicked "called `Result::unwrap()` on an `Err` value"), p)
  publish (some payload) p = (ok tt, (publish_trade subject (encode (from_payload payload)) p).1)

  -- A payload that does not parse panics, as `unwrap` does.
  unfoldable pub handle_message : String → Action P (Unit {0})
  unfolding publish
  handle_message txt p = publish (parse txt) p

  -- The rest of the loop after a message.
  abbrev pub after_text : Result (Unit {0}) × P → (P → Result Bool × P) → Result Bool × P
  after_text (ok u, p) rest = rest p
  after_text (err e, p) rest = (err e, p)

  -- The loop over a schedule: whether it broke off, and the publisher.
  unfoldable pub run_loop : List Event → P → Result Bool × P
  unfolding handle_message
  run_loop [] p = (ok false, p)
  run_loop (new_reader ∷ events) p = run_loop events p
  run_loop (manager_died ∷ events) p = (ok true, p)
  run_loop (end_of_stream ∷ events) p = (ok true, p)
  run_loop (socket_error ∷ events) p = (ok true, p)
  run_loop (frame (text txt) ∷ events) p = after_text (handle_message txt p) (run_loop events)
  run_loop (frame other ∷ events) p = run_loop events p

  -- `the_big_loop`: the first reader, and then the loop.
  unfoldable pub the_big_loop : Bool → List Event → P → Result Bool × P
  unfolding run_loop
  the_big_loop has_reader events p =
      if has_reader then run_loop events p else (err (message "Could not init reader"), p)

abbrev pub second : ℕ
second = 1000000000

-- One turn of the reconnect loop, durations in nanoseconds: the pause, and the next backoff.
unfoldable pub reconnect : ℕ → ℕ → ℕ × ℕ
reconnect backoff elapsed =
    let pause = if ltb (60 * second) elapsed then second else backoff in
    (pause, min (pause * 2) (60 * second))

-- The pauses, given how long each connection lasted.
unfoldable pub pauses_from : ℕ → List ℕ → List ℕ
unfolding reconnect
pauses_from backoff [] = []
pauses_from backoff (elapsed ∷ rest) =
    let (pause, next) = reconnect backoff elapsed in pause ∷ pauses_from next rest

unfoldable pub pauses : List ℕ → List ℕ
unfolding pauses_from
pauses = pauses_from second
