-- ===== src/Batcher/Accumulator.antt =====
-- `Accumulator`, `MicroBatch` and `FlushTrigger` of batcher.rs, and `BatchConfig` of config.rs.
-- An `Instant` and a `Duration` are numbers of nanoseconds, and each reading of the clock is an
-- argument. `usize` sums wrap.
pub mod Buffer
pub mod Triggers
use crypto_lakehouse.Prelude.{
  Bool, List, Option, [], add_u64, contains, false, if◌then◌else◌, int_eq, is_nil, leb, length, max,
  nat_beq, nat_eq, none, some, string_eq, true, ℕ, ◌++◌, ◌-◌, ◌∷◌,
}
use mathlib.Core.Option
use crypto_lakehouse.Trade.{TradeEvent, Key, key_of, key_eq}
use crypto_lakehouse.Source.Ack.{Ack, Envelope}

pub record BatchConfig : Type 0 where
  pub max_records : ℕ
  pub max_bytes : ℕ
  pub flush_interval : ℕ
  pub dedup : Bool

pub data FlushTrigger : Type 0 where
  count bytes interval shutdown : FlushTrigger

pub record MicroBatch : Type 0 where
  pub rows : List TradeEvent
  pub acks : List Ack
  pub trigger : FlushTrigger
  pub duplicates_dropped : ℕ
  pub buffered_bytes : ℕ

-- `seen_keys` is a set: its members in the order of insertion.
pub record Accumulator : Type 0 where
  pub policy : BatchConfig
  pub rows : List TradeEvent
  pub acks : List Ack
  pub seen_keys : List Key
  pub bytes : ℕ
  pub duplicates : ℕ
  pub first_seen : Option ℕ

unfoldable pub new : BatchConfig → Accumulator
new policy = record {
  policy = policy;
  rows = [];
  acks = [];
  seen_keys = [];
  bytes = 0;
  duplicates = 0;
  first_seen = none;
}

unfoldable pub is_empty : Accumulator → Bool
is_empty acc = is_nil acc.rows

unfoldable pub len : Accumulator → ℕ
len acc = length acc.rows

-- `saturating_duration_since` and `saturating_sub` stop at 0, as `-` does.
unfoldable pub time_to_flush : Accumulator → ℕ → Option ℕ
time_to_flush acc now =
    Option.map (λ t. let elapsed = now - t in acc.policy.flush_interval - elapsed) acc.first_seen

unfoldable pub age_exceeded : Accumulator → ℕ → Bool
unfolding time_to_flush
age_exceeded acc now = elim (time_to_flush acc now) [ none ↦ false | some left ↦ nat_beq left 0 ]

unfoldable pub trigger_now : Accumulator → ℕ → Option FlushTrigger
unfolding is_empty age_exceeded
trigger_now acc now =
    if is_empty acc
    then none
    else if leb acc.policy.max_records (length acc.rows)
    then some count
    else if leb acc.policy.max_bytes acc.bytes
    then some bytes
    else if age_exceeded acc now
    then some interval
    else none

unfoldable pub due : Accumulator → ℕ → Bool
unfolding trigger_now
due acc now = elim (trigger_now acc now) [ none ↦ false | some t ↦ true ]

-- The row is buffered. `seen_at` is the clock when the buffer was empty.
unfoldable pub push_row : Accumulator → Envelope → ℕ → Accumulator
push_row acc e seen_at = record acc {
  first_seen = if is_nil acc.rows then some seen_at else acc.first_seen;
  bytes = add_u64 acc.bytes (max e.bytes 1);
  rows = acc.rows ++ e.event ∷ [];
  acks = acc.acks ++ e.ack ∷ [];
}

-- The row is a duplicate of this batch: dropped, and still acknowledged with the batch.
unfoldable pub drop_row : Accumulator → Envelope → Accumulator
drop_row acc e = record acc { duplicates = add_u64 acc.duplicates 1; acks = acc.acks ++ e.ack ∷ [] }

-- `seen_keys.insert(key)` answers whether the key was new.
unfoldable pub store : Accumulator → Envelope → ℕ → Accumulator
unfolding push_row drop_row
store acc e seen_at =
    if acc.policy.dedup
    then (if contains acc.seen_keys (key_of e.event)
        then drop_row acc e
        else push_row (record acc { seen_keys = acc.seen_keys ++ key_of e.event ∷ [] }) e seen_at)
    else push_row acc e seen_at

-- `push`: the new accumulator, and whether to flush now. `due_at` is the second clock reading.
unfoldable pub push : Accumulator → Envelope → ℕ → ℕ → Accumulator × Bool
unfolding store due
push acc e seen_at due_at = let acc' = store acc e seen_at in (acc', due acc' due_at)

unfoldable pub take : Accumulator → FlushTrigger → MicroBatch × Accumulator
take acc trigger = (
  record {
    rows = acc.rows;
    acks = acc.acks;
    trigger = trigger;
    duplicates_dropped = acc.duplicates;
    buffered_bytes = acc.bytes;
  },
  record acc { first_seen = none; seen_keys = []; rows = []; acks = []; duplicates = 0; bytes = 0 },
)
