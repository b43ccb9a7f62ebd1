-- ===== src/Tests/Streams.antt =====
-- Tests of the source.
use crypto_lakehouse.Prelude.{
  Bool, List, Option, [], ap, arith, false, if◌then◌else◌, length, ltb, negsuc, none, pos, refl,
  some, true, ℕ, ◌++◌, ◌+◌, ◌∷◌, ◌≡◌, ◌≤◌,
}
use crypto_lakehouse.Result.{ok, ok-injective}
use crypto_lakehouse.Action.Ends.{Ends}
use crypto_lakehouse.Trade.{TradeEvent}
use crypto_lakehouse.Batcher.Accumulator.{BatchConfig}
use crypto_lakehouse.Source.Ack.{Message, Envelope}
use crypto_lakehouse.Source.Pull.{Source, pull_loop}
use crypto_lakehouse.Source.Pull.Accounts.{ChannelLaws, Accounted, fetched, pull_loop-Accounted}
use crypto_lakehouse.Source.Consumer.{
  NatsConfig, ConsumerConfig, Server, max_ack_pending_of, ensure_consumer, max_ack_pending-headroom,
}
use crypto_lakehouse.Source.Consumer.Drift.{ServerLaws, Wanted, ensure_consumer-Wanted}
use crypto_lakehouse.Tests.{trade, no_acks, counting, message_of}

-- One number is a trade id; anything else does not decode.
abbrev decode_id : List ℕ → Option TradeEvent
decode_id (id ∷ []) = some (trade id 1700000000000)
decode_id _ = none

-- A channel that is closed after two envelopes.
abbrev send_two : List Envelope → Envelope → Bool × List Envelope
send_two es e = if ltb (length es) 2 then (true, es ++ e ∷ []) else (false, es)

send_two-ok :
    (es : List Envelope) (e : Envelope)
    → (send_two es e).0 ≡ true
    → (send_two es e).1 ≡ es ++ e ∷ []
send_two-ok es e h = ground (arith, h)

send_two-refused :
    (es : List Envelope) (e : Envelope) → (send_two es e).0 ≡ false → (send_two es e).1 ≡ es
send_two-refused es e h = ground (arith, h)

send_two_laws : ChannelLaws send_two
send_two_laws = record { sent = λ es. es; sent-ok = send_two-ok; sent-refused = send_two-refused }

abbrev start : Source ℕ (List Envelope)
start = record { acks = no_acks; channel = []; slept = 0 }

abbrev fetches : List (Option (List (Option Message)))
fetches =
    some (some (message_of 1) ∷ some (record { sequence = 2; payload = [] }) ∷ none ∷ [])
    ∷ none
    ∷ some []
    ∷ some (some (message_of 3) ∷ some (message_of 4) ∷ [])
    ∷ []

pull_loop_slept : (pull_loop counting decode_id send_two fetches start).1.slept ≡ 1050
unfolding pull_loop
pull_loop_slept = refl

pull_loop-Accounted_example :
    Accounted counting decode_id send_two send_two_laws
      (fetched fetches)
      (pull_loop counting decode_id send_two fetches start).0
      start
      (pull_loop counting decode_id send_two fetches start).1
pull_loop-Accounted_example =
    pull_loop-Accounted counting decode_id send_two send_two_laws fetches start

max_ack_pending_example :
    (n : ℕ) × (max_ack_pending_of 50000 2000 ≡ pos n) × (50000 + 50000 ≤ n) × (2000 + 2000 ≤ n)
max_ack_pending_example = max_ack_pending-headroom 50000 2000 (omega arith) (omega arith)

-- A server with one consumer.
abbrev pub one_consumer : Server
one_consumer = record {
  State = ConsumerConfig;
  Consumer = Unit {0};
  get_or_create_consumer = λ n c s. (ok tt, s);
  consumer_info = λ n s. (ok s, s);
  update_consumer = λ c s. (ok tt, c);
  get_consumer = λ n s. (ok tt, s);
}

one_consumer_laws : ServerLaws one_consumer
one_consumer_laws = record {
  config = λ s n. some s;
  info_ok = λ n s c h. ap some (ok-injective h);
  info_reads = λ n s. refl;
  get_reads = λ n s. refl;
  update_sets = λ c s u h. refl;
}

abbrev nats_config : NatsConfig
nats_config = record {
  url = "nats://127.0.0.1:4222";
  stream = "tradesstream";
  subject_filter = "exchange.*";
  consumer = "iceberg-batcher";
  ack_wait = 300000000000;
  fetch_batch = 2000;
  fetch_expires = 2000000000;
}

abbrev batch_config : BatchConfig
batch_config = record {
  max_records = 50000;
  max_bytes = 33554432;
  flush_interval = 30000000000;
  dedup = true;
}

-- Created long ago with other settings.
abbrev pub stale : ConsumerConfig
stale = record {
  name = "iceberg-batcher";
  durable_name = "iceberg-batcher";
  filter_subject = "exchange.binance";
  ack_wait = 30000000000;
  max_deliver = negsuc 0;
  max_ack_pending = pos 1000;
}

ensure_consumer-Wanted_example :
    Ends
      (λ _. Wanted one_consumer one_consumer_laws nats_config batch_config)
      (λ _. Unit {0})
      (ensure_consumer one_consumer nats_config batch_config stale)
ensure_consumer-Wanted_example =
    ensure_consumer-Wanted one_consumer one_consumer_laws nats_config batch_config stale (λ t. refl)
