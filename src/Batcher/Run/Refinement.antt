-- ===== src/Batcher/Run/Refinement.antt =====
-- The loop refines its specification.
use crypto_lakehouse.Prelude.{
  Bool, List, Option-cases, [], ap, append-nil, append_assoc, arith, false, if_cases, if◌then◌else◌,
  inl, inr, none, refl, some, sym, true, ℕ, ◌++◌, ◌∙◌, ◌∷◌, ◌≡◌,
}
use crypto_lakehouse.Result.{Result}
use crypto_lakehouse.Trade.{TradeEvent}
use crypto_lakehouse.Source.Ack.{Message, Acks, Envelope}
use crypto_lakehouse.Sink.Stats.{WriteStats}
use crypto_lakehouse.Batcher.Accumulator.{
  BatchConfig, FlushTrigger, shutdown, new, push, time_to_flush, interval,
}
use crypto_lakehouse.Batcher.Accumulator.Buffer.{Buffers-new}
use crypto_lakehouse.Batcher.Flush.{Batcher, flush}
use crypto_lakehouse.Batcher.Run.{Round, Step, row, due, stop, on_row, on_due, turn, run_from, run}
use crypto_lakehouse.Batcher.Run.Groups.{Ledger, concat, brought, received, Refines}
use crypto_lakehouse.Batcher.Run.Settle.{flush-Refines, push-Refines}

module _ {S N : Type 0} (write_batch : S → List TradeEvent → Result WriteStats × S)
    (nats_ack : N → Message → Bool × N) where
  -- The state of the loop after a schedule that brought `es`: some groups are settled and the rest
  -- is pending; nothing is once the loop has returned.
  abbrev pub Holds : BatchConfig → Ledger S N → List Envelope → Bool × Batcher S N → Type 0
  Holds policy start es (ended, b) =
      (groups : List (List Envelope)) × (pending : List Envelope) × (concat groups ++ pending ≡ es)
      × (ended ≡ true → pending ≡ [])
      × Refines write_batch nats_ack policy start groups pending b

  flush-Holds :
      (policy : BatchConfig) (start : Ledger S N) (es : List Envelope) (ended : Bool)
      (b : Batcher S N) (t : FlushTrigger)
      → Holds policy start es (false, b)
      → Holds policy start es (ended, (flush write_batch nats_ack t b).1)
  flush-Holds policy start es ended b t (groups, pending, cut, _, h) =
      let (groups', cut', h') =
        flush-Refines write_batch nats_ack policy start groups pending b t h in
      (groups', [], append-nil (concat groups') ∙ cut' ∙ cut, (λ _. refl), h')

  push-Holds :
      (policy : BatchConfig) (start : Ledger S N) (es : List Envelope) (b : Batcher S N)
      (e : Envelope) (seen_at due_at : ℕ)
      → Holds policy start es (false, b)
      → Holds policy start
          (es ++ e ∷ [])
          (false, record b { acc = (push b.acc e seen_at due_at).0 })
  push-Holds policy start es b e seen_at due_at (groups, pending, cut, _, h) = (
    groups,
    pending ++ e ∷ [],
    sym (append_assoc (concat groups) pending (e ∷ [])) ∙ ap (λ xs. xs ++ e ∷ []) cut,
    (λ f. cc),
    push-Refines write_batch nats_ack policy start groups pending b e seen_at due_at h,
  )

  on_row-Holds :
      (policy : BatchConfig) (start : Ledger S N) (es : List Envelope) (b : Batcher S N) (r : Round)
      (e : Envelope)
      → Holds policy start es (false, b)
      → Holds policy start (es ++ e ∷ []) (false, on_row write_batch nats_ack b r e)
  unfolding on_row
  on_row-Holds policy start es b r e h =
      let pushed = push-Holds policy start es b e r.seen_at r.due_at h in
      if_cases (λ b'. Holds policy start (es ++ e ∷ []) (false, b'))
        (push b.acc e r.seen_at r.due_at).1 _ _
        (λ full. flush-Holds policy start (es ++ e ∷ []) false _ _ pushed) (λ more. pushed)

  on_due-Holds :
      (policy : BatchConfig) (start : Ledger S N) (es : List Envelope) (b : Batcher S N) (r : Round)
      → Holds policy start es (false, b)
      → Holds policy start es (false, on_due write_batch nats_ack b r)
  unfolding on_due
  on_due-Holds policy start es b r h = elim (Option-cases (time_to_flush b.acc r.waits_at)) [
    | inl idle ↦ rw (idle, on_due) h
    | inr (left, e) ↦ rw (e, on_due) (flush-Holds policy start es false b interval h)
  ]

  turn-Holds :
      (policy : BatchConfig) (start : Ledger S N) (es : List Envelope) (b : Batcher S N) (r : Round)
      (rs : List Round) (o : Step)
      → Holds policy start es (false, b)
      → ((es' : List Envelope) (b' : Batcher S N)
          → Holds policy start es' (false, b')
          → Holds policy start (es' ++ received rs) (run_from write_batch nats_ack b' rs))
      → Holds policy start (es ++ brought o (received rs)) (
          let (ended, b') = turn write_batch nats_ack b r o in
          if ended then (true, b') else run_from write_batch nats_ack b' rs)
  unfolding turn
  turn-Holds policy start es b r rs (row (some e)) h ih =
      rw (← append_assoc es (e ∷ []) (received rs)) (ih _ _ (on_row-Holds policy start es b r e h))
  turn-Holds policy start es b r rs (row none) h ih =
      rw append-nil (flush-Holds policy start es true b shutdown h)
  turn-Holds policy start es b r rs due h ih = ih _ _ (on_due-Holds policy start es b r h)
  turn-Holds policy start es b r rs stop h ih =
      rw append-nil (flush-Holds policy start es true b shutdown h)

  run_from-Holds :
      (policy : BatchConfig) (start : Ledger S N) (es : List Envelope) (b : Batcher S N)
      (rs : List Round)
      → Holds policy start es (false, b)
      → Holds policy start (es ++ received rs) (run_from write_batch nats_ack b rs)
  unfolding run_from
  run_from-Holds policy start es b [] h = rw append-nil h
  run_from-Holds policy start es b (r ∷ rs) h =
      turn-Holds policy start es b r rs r.outcome h
        (λ es' b' h'. run_from-Holds policy start es' b' rs h')

  -- From a new accumulator, whatever the environment chooses, the loop settles consecutive groups of
  -- the envelopes it received: it writes the kept rows of each group as one batch, in order, and
  -- acknowledges every envelope of exactly the groups whose write succeeded. What is not yet settled
  -- is in the buffer, and nothing is once the loop has returned.
  pub run-refines :
      (policy : BatchConfig) (sink : S) (acks : Acks N) (rs : List Round)
      → Holds policy
          (record { sink = sink; acks = acks; written = 0; failed = 0 })
          (received rs)
          (run write_batch nats_ack policy sink acks rs)
  unfolding run new
  run-refines policy sink acks rs = run_from-Holds policy _ [] _ rs (
    [],
    [],
    refl,
    (λ f. refl),
    record {
      policy_kept = refl;
      buffer = Buffers-new policy;
      sink = refl;
      acks = refl;
      batches = refl;
      failed_commits = refl;
      sizes = omega arith;
    },
  )
