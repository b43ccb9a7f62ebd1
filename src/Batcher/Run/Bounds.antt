-- ===== src/Batcher/Run/Bounds.antt =====
-- The buffer stays within the policy's limits between the rounds of the loop.
use crypto_lakehouse.Prelude.{
  Bool, List, Option, Option-cases, [], ap, arith, false, if_cases, inl, inr, is_nil, length, none,
  refl, some, ℕ, ◌<◌, ◌∙◌, ◌∷◌, ◌≡◌, ◌⊎◌,
}
use crypto_lakehouse.Result.{Result, ok, err}
use crypto_lakehouse.Trade.{TradeEvent}
use crypto_lakehouse.Source.Ack.{Message, Acks}
use crypto_lakehouse.Sink.Stats.{WriteStats}
use crypto_lakehouse.Batcher.Accumulator.{
  Accumulator, BatchConfig, FlushTrigger, interval, shutdown, new, push, time_to_flush, take, due,
  MicroBatch,
}
use crypto_lakehouse.Batcher.Accumulator.Buffer.{take-new}
use crypto_lakehouse.Batcher.Flush.{Batcher, flush, settle}
use crypto_lakehouse.Batcher.Run.{Round, Step, row, stop, on_due, turn, run_from, run}

-- Empty, or under both limits.
abbrev pub WithinLimits : Accumulator → Type 0
WithinLimits acc =
    (acc.rows ≡ [])
    ⊎ ((length acc.rows < acc.policy.max_records) × (acc.bytes < acc.policy.max_bytes))

-- A buffer that is not due is within the limits.
not_due-WithinLimits : (acc : Accumulator) (now : ℕ) → due acc now ≡ false → WithinLimits acc
unfolding due
not_due-WithinLimits acc now h = ground arith

rows-new : (policy : BatchConfig) → (new policy).rows ≡ []
unfolding new
rows-new policy = refl

module _ {S N : Type 0} (write_batch : S → List TradeEvent → Result WriteStats × S)
    (nats_ack : N → Message → Bool × N) where
  acc-settle :
      (batch : MicroBatch) (r : Result WriteStats × S) (b : Batcher S N)
      → (settle write_batch nats_ack batch r b).1.acc ≡ b.acc
  unfolding settle
  acc-settle batch (ok w, sink) b = refl
  acc-settle batch (err e, sink) b = refl

  acc-flush :
      (t : FlushTrigger) (b : Batcher S N)
      → (flush write_batch nats_ack t b).1.acc ≡ (take b.acc t).1
  unfolding flush
  acc-flush t b =
      if_cases (λ (r : Option WriteStats × Batcher S N). r.1.acc ≡ (take b.acc t).1)
        (is_nil b.acc.rows) _ _ (λ nothing. refl) (λ some_rows. acc-settle (take b.acc t).0 _ _)

  flush-WithinLimits :
      (t : FlushTrigger) (b : Batcher S N) → WithinLimits (flush write_batch nats_ack t b).1.acc
  flush-WithinLimits t b =
      inl (ap (λ a. a.rows) (acc-flush t b ∙ take-new b.acc t) ∙ rows-new b.acc.policy)

  turn-WithinLimits :
      (b : Batcher S N) (r : Round) (o : Step)
      → WithinLimits b.acc
      → WithinLimits (turn write_batch nats_ack b r o).1.acc
  unfolding turn push
  turn-WithinLimits b r (row (some e)) h =
      if_cases (λ (b' : Batcher S N). WithinLimits b'.acc) (push b.acc e r.seen_at r.due_at).1 _ _
        (λ full. flush-WithinLimits _ _)
        (λ more. not_due-WithinLimits (push b.acc e r.seen_at r.due_at).0 r.due_at more)
  turn-WithinLimits b r (row none) h = flush-WithinLimits shutdown b
  turn-WithinLimits b r stop h = flush-WithinLimits shutdown b
  turn-WithinLimits b r Step.due h = elim (Option-cases (time_to_flush b.acc r.waits_at)) [
    | inl idle ↦ rw (idle, on_due) h
    | inr (left, e) ↦ rw (e, on_due) (flush-WithinLimits interval b)
  ]

  run_from-WithinLimits :
      (b : Batcher S N) (rs : List Round)
      → WithinLimits b.acc
      → WithinLimits (run_from write_batch nats_ack b rs).1.acc
  unfolding run_from
  run_from-WithinLimits b [] h = h
  run_from-WithinLimits b (r ∷ rs) h =
      let next = turn-WithinLimits b r r.outcome h in
      if_cases (λ (x : Bool × Batcher S N). WithinLimits x.1.acc)
        (turn write_batch nats_ack b r r.outcome).0 _ _ (λ ended. next)
        (λ on. run_from-WithinLimits (turn write_batch nats_ack b r r.outcome).1 rs next)

  -- Whatever comes and whenever, between two rounds no row is buffered, or the rows buffered are fewer
  -- than the record limit and their bytes below the byte limit of the policy. The acks of dropped
  -- duplicates, which are held with the batch, are not bounded by them.
  pub run-WithinLimits :
      (policy : BatchConfig) (sink : S) (acks : Acks N) (rs : List Round)
      → WithinLimits (run write_batch nats_ack policy sink acks rs).1.acc
  unfolding run
  run-WithinLimits policy sink acks rs = run_from-WithinLimits _ rs (inl (rows-new policy))
