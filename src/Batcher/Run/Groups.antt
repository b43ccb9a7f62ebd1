-- ===== src/Batcher/Run/Groups.antt =====
-- The loop against its specification: it cuts the stream of envelopes into consecutive groups, writes
-- the kept rows of each group as one batch, and acknowledges exactly the groups whose write succeeded.
use crypto_lakehouse.Prelude.{
  Bool, List, [], append-nil, append_assoc, length, map, none, refl, some, u64_mod, ℕ, ◌%◌, ◌++◌,
  ◌+◌, ◌∷◌, ◌≡◌, ◌≤◌,
}
use crypto_lakehouse.Result.{Result, ok, err}
use crypto_lakehouse.Trade.{TradeEvent}
use crypto_lakehouse.Source.Ack.{Message, Acks, Envelope, ack_all}
use crypto_lakehouse.Sink.Stats.{WriteStats}
use crypto_lakehouse.Batcher.Accumulator.{BatchConfig}
use crypto_lakehouse.Batcher.Accumulator.Buffer.{Buffers, kept}
use crypto_lakehouse.Batcher.Flush.{Batcher}
use crypto_lakehouse.Batcher.Run.{Round, Step, row, due, stop}

-- What the specification keeps: the sink, the acks, and how many groups were written and failed.
pub record Ledger (S N : Type 0) : Type 0 where
  pub sink : S
  pub acks : Acks N
  pub written : ℕ
  pub failed : ℕ

abbrev pub concat {ℓ} : {A : Type ℓ} → List (List A) → List A
concat [] = []
concat (xs ∷ xss) = xs ++ concat xss

pub concat-snoc {ℓ} :
    {A : Type ℓ} (xss : List (List A)) (xs : List A) → concat (xss ++ xs ∷ []) ≡ concat xss ++ xs
concat-snoc [] xs = append-nil xs
concat-snoc (ys ∷ xss) xs = rw (concat-snoc xss xs, append_assoc ys (concat xss) xs)

-- The envelopes that a schedule brings before it ends the loop.
abbrev pub brought : Step → List Envelope → List Envelope
brought (row (some e)) later = e ∷ later
brought (row none) later = []
brought due later = later
brought stop later = []

abbrev pub received : List Round → List Envelope
received [] = []
received (r ∷ rs) = brought r.outcome (received rs)

module _ {S N : Type 0} (write_batch : S → List TradeEvent → Result WriteStats × S)
    (nats_ack : N → Message → Bool × N) where
  abbrev pub settled : List Envelope → Result WriteStats × S → Ledger S N → Ledger S N
  settled g (ok stats, sink) l = record {
    sink = sink;
    acks = (ack_all nats_ack (map (λ e. e.ack) g) l.acks).1;
    written = l.written + 1;
    failed = l.failed;
  }
  settled g (err e, sink) l = record l { sink = sink; failed = l.failed + 1 }

  abbrev pub settle_group : Bool → List Envelope → Ledger S N → Ledger S N
  settle_group dedup g l = settled g (write_batch l.sink (map (λ e. e.event) (kept dedup g))) l

  abbrev pub settle_groups : Bool → List (List Envelope) → Ledger S N → Ledger S N
  settle_groups dedup [] l = l
  settle_groups dedup (g ∷ gs) l = settle_groups dedup gs (settle_group dedup g l)

  pub settle_groups-snoc :
      (d : Bool) (gs : List (List Envelope)) (g : List Envelope) (l : Ledger S N)
      → settle_groups d (gs ++ g ∷ []) l ≡ settle_group d g (settle_groups d gs l)
  settle_groups-snoc d [] g l = refl
  settle_groups-snoc d (h ∷ gs) g l = settle_groups-snoc d gs g (settle_group d h l)

  -- The batcher has settled the groups, one batch each, and holds the pending envelopes.
  pub record Refines (policy : BatchConfig) (start : Ledger S N) (groups : List (List Envelope))
      (pending : List Envelope) (b : Batcher S N) : Type 0 where
    pub policy_kept : b.acc.policy ≡ policy
    pub buffer : Buffers b.acc pending
    pub sink : b.sink ≡ (settle_groups policy.dedup groups start).sink
    pub acks : b.acks ≡ (settle_groups policy.dedup groups start).acks
    pub batches : b.stats.batches ≡ (settle_groups policy.dedup groups start).written % u64_mod
    pub failed_commits :
        b.stats.failed_commits ≡ (settle_groups policy.dedup groups start).failed % u64_mod
    -- no group is empty, so there are no more than envelopes
    pub sizes : length groups ≤ length (concat groups)
