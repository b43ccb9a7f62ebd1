-- ===== src/Tests.antt =====
-- Concrete values for the modules of tests: trades, and a lake that is a list of rows.
pub mod Pipeline
pub mod Lakes
pub mod Streams
pub mod Catalogs
pub mod Exchange
pub mod Environment
pub mod Tools
mod Starts
use crypto_lakehouse.Prelude.{Bool, List, [], nat_beq, not, true, ℕ, ◌%◌, ◌+◌, ◌∷◌}
use crypto_lakehouse.Result.{Result, ok, err, message}
use crypto_lakehouse.Trade.{TradeEvent}
use crypto_lakehouse.Source.Ack.{Message, Ack, nats, Envelope, Acks}

abbrev pub trade : ℕ → ℕ → TradeEvent
trade id at = record {
  event_time = at + 5;
  symbol = "BTCUSDT";
  exchange = "BINANCE";
  trade_id = id;
  price = 4676829883349860352;
  quantity = 4607182418800017408;
  trade_time = at;
  is_buyer_maker = true;
  is_best_price_match = true;
}

abbrev pub two_trades : List TradeEvent
two_trades = trade 1 1700000000000 ∷ trade 2 1700000001000 ∷ []

abbrev pub two_pairs : Message
two_pairs = record { sequence = 1; payload = 1 ∷ 2 ∷ [] }

abbrev pub no_acks : Acks ℕ
no_acks = record { server = 0; counters = λ c. 0; log = [] }

-- A server that counts the acknowledgements, and refuses every third.
abbrev pub counting : ℕ → Message → Bool × ℕ
counting n msg = (not (nat_beq (n % 3) 2), n + 1)

abbrev pub message_of : ℕ → Message
message_of id = record { sequence = id; payload = id ∷ [] }

abbrev pub envelope : ℕ → Envelope
envelope id = record { event = trade id 1700000000000; bytes = 10; ack = nats (message_of id) }
