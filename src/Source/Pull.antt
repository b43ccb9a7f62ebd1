-- ===== src/Source/Pull.antt =====
-- `process_message`, `drain_batch` and the pull loop of `spawn_nats_source` in
-- rustapps/crypto-batcher/src/source.rs. The decoder of the payloads, the channel to the batcher and the
-- server are parameters.
pub mod Accounts
use crypto_lakehouse.Prelude.{
  Bool, List, Option, [], false, if◌then◌else◌, length, none, some, true, ℕ, ◌+◌, ◌∷◌,
}
use crypto_lakehouse.Trade.{TradeEvent}
use crypto_lakehouse.Source.Ack.{Message, Ack, nats, Envelope, Acks, ack}

pub data BatchOutcome : Type 0 where
  empty drained stopped : BatchOutcome

-- What the loop changes: the acks, the channel, and the milliseconds slept.
pub record Source (N C : Type 0) : Type 0 where
  pub acks : Acks N
  pub channel : C
  pub slept : ℕ

module _ {N C : Type 0} (nats_ack : N → Message → Bool × N) (decode : List ℕ → Option TradeEvent)
    (send : C → Envelope → Bool × C) where
  abbrev pub envelope_of : Message → TradeEvent → Envelope
  envelope_of msg event = record { event = event; bytes = length msg.payload; ack = nats msg }

  -- A payload that does not decode is acked here; a failed ack is only logged.
  unfoldable pub processed : Message → Option TradeEvent → Acks N → Option Envelope × Acks N
  unfolding ack
  processed msg (some event) acks = (some (envelope_of msg event), acks)
  processed msg none acks = (none, (ack nats_ack (nats msg) acks).1)

  unfoldable pub process_message : Message → Acks N → Option Envelope × Acks N
  unfolding processed
  process_message msg acks = processed msg (decode msg.payload) acks

  -- The end of a drained batch.
  abbrev pub outcome_of : Bool → BatchOutcome
  outcome_of pulled = if pulled then drained else empty

  -- What becomes of a message; `rest` is the remainder of the batch.
  unfoldable pub forward :
      Option Envelope
      → (Source N C → BatchOutcome × Source N C)
      → Source N C
      → BatchOutcome × Source N C
  forward none rest s = rest s
  forward (some envelope) rest s =
      let (sent, channel) = send s.channel envelope in
      let after = rest (record s { channel = channel }) in
      if sent then after else (stopped, record s { channel = channel })

  -- The stream of a fetched batch: its messages, and an error as `none`.
  unfoldable pub drain_from : Bool → List (Option Message) → Source N C → BatchOutcome × Source N C
  unfolding process_message forward
  drain_from pulled [] s = (outcome_of pulled, s)
  drain_from pulled (none ∷ rest) s = (outcome_of pulled, s)
  drain_from pulled (some msg ∷ rest) s =
      let (envelope, acks) = process_message msg s.acks in
      forward envelope (drain_from true rest) (record s { acks = acks })

  abbrev pub drain_batch : List (Option Message) → Source N C → BatchOutcome × Source N C
  drain_batch = drain_from false

  abbrev pub pause : ℕ → Source N C → Source N C
  pause ms s = record s { slept = s.slept + ms }

  -- After a batch: whether the loop has returned.
  unfoldable pub after_batch :
      BatchOutcome → (Source N C → Bool × Source N C) → Source N C → Bool × Source N C
  after_batch empty again s = again (pause 50 s)
  after_batch drained again s = again s
  after_batch stopped again s = (true, s)

  -- The loop over what the fetches answer, an error as `none`.
  unfoldable pub pull_loop : List (Option (List (Option Message))) → Source N C → Bool × Source N C
  unfolding after_batch drain_from
  pull_loop [] s = (false, s)
  pull_loop (none ∷ fetches) s = pull_loop fetches (pause 1000 s)
  pull_loop (some batch ∷ fetches) s =
      let (outcome, s') = drain_batch batch s in after_batch outcome (pull_loop fetches) s'
