-- ===== src/Batcher/Run.antt =====
-- `run` of batcher.rs: the loop. What `tokio::select!` delivers is the environment's choice, so the
-- loop runs over a schedule, a list of outcomes with the clock readings of the round.
pub mod Groups
pub mod Settle
pub mod Refinement
pub mod Delivery
pub mod Bounds
use crypto_lakehouse.Prelude.{
  Bool, List, Option, [], false, if◌then◌else◌, none, some, true, ℕ, ◌∷◌,
}
use crypto_lakehouse.Result.{Result, ok, err}
use crypto_lakehouse.Trade.{TradeEvent}
use crypto_lakehouse.Source.Ack.{Message, Acks, Envelope}
use crypto_lakehouse.Sink.Stats.{WriteStats}
use crypto_lakehouse.Batcher.Accumulator.{
  Accumulator, BatchConfig, FlushTrigger, bytes, interval, shutdown, new, push, trigger_now,
  time_to_flush,
}
use crypto_lakehouse.Batcher.Flush.{Batcher, no_stats, flush}

-- `row none` is the closed channel.
pub data Step : Type 0 where
  row : Option Envelope → Step
  due : Step
  stop : Step

-- One round: what came, and the readings of the clock before the wait, in `push` (two), and for the
-- trigger.
pub record Round : Type 0 where
  pub outcome : Step
  pub waits_at : ℕ
  pub seen_at : ℕ
  pub due_at : ℕ
  pub trigger_at : ℕ

abbrev or_bytes : Option FlushTrigger → FlushTrigger
or_bytes none = bytes
or_bytes (some t) = t

module _ {S N : Type 0} (write_batch : S → List TradeEvent → Result WriteStats × S)
    (nats_ack : N → Message → Bool × N) where
  -- A row is buffered; the batch is flushed if it is due.
  unfoldable pub on_row : Batcher S N → Round → Envelope → Batcher S N
  unfolding push
  on_row b r e =
      let (acc, full) = push b.acc e r.seen_at r.due_at in
      if full
      then (flush write_batch nats_ack (or_bytes (trigger_now acc r.trigger_at))
          (record b { acc = acc })).1
      else record b { acc = acc }

  -- The timer's branch is disabled while nothing is buffered: then the loop goes on waiting.
  unfoldable pub on_due : Batcher S N → Round → Batcher S N
  on_due b r = elim (time_to_flush b.acc r.waits_at) [
    | none ↦ b
    | some until_flush ↦ (flush write_batch nats_ack interval b).1
  ]

  -- One round of the loop: whether it returned, and the state.
  unfoldable pub turn : Batcher S N → Round → Step → Bool × Batcher S N
  unfolding on_row on_due
  turn b r (row (some e)) = (false, on_row b r e)
  turn b r (row none) = (true, (flush write_batch nats_ack shutdown b).1)
  turn b r stop = (true, (flush write_batch nats_ack shutdown b).1)
  turn b r due = (false, on_due b r)

  -- The loop over a schedule: it returns at the first round that ends it, and is still running when
  -- the schedule is over.
  unfoldable pub run_from : Batcher S N → List Round → Bool × Batcher S N
  run_from b [] = (false, b)
  run_from b (r ∷ rs) =
      let (ended, b') = turn b r r.outcome in
      let rest = run_from b' rs in if ended then (true, b') else rest

  unfoldable pub run : BatchConfig → S → Acks N → List Round → Bool × Batcher S N
  unfolding run_from new
  run policy sink acks rs =
      run_from (record { acc = new policy; sink = sink; stats = no_stats; acks = acks }) rs
