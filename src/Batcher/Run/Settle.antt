-- ===== src/Batcher/Run/Settle.antt =====
-- One flush against the specification: it settles what is pending as one more group.
use crypto_lakehouse.Prelude.{
  Bool, List, Option, [], add_u64, ap, append-nil, arith, false, if_cases, is_nil, is_nil_iff,
  length, length-append, refl, subst, sym, ℕ, ◌++◌, ◌∙◌, ◌∷◌, ◌≡◌, ◌≤◌,
}
use crypto_lakehouse.Result.{Result, ok, err}
use crypto_lakehouse.Trade.{TradeEvent}
use crypto_lakehouse.Source.Ack.{Message, Envelope}
use crypto_lakehouse.Sink.Stats.{WriteStats}
use crypto_lakehouse.Batcher.Accumulator.{BatchConfig, FlushTrigger, push, take}
use crypto_lakehouse.Batcher.Accumulator.Buffer.{
  Buffers, Buffers-new, push-Buffers, policy-push, take-new, is_nil-rows,
}
use crypto_lakehouse.Batcher.Flush.{Batcher, flush, settle, count_written}
use crypto_lakehouse.Batcher.Run.Groups.{
  Ledger, concat, concat-snoc, settled, settle_groups, settle_groups-snoc, Refines,
}

sizes-snoc :
    (groups : List (List Envelope)) (g : List Envelope)
    → is_nil g ≡ false
    → length groups ≤ length (concat groups)
    → length (groups ++ g ∷ []) ≤ length (concat (groups ++ g ∷ []))
sizes-snoc groups [] full h = cc
sizes-snoc groups (e ∷ es) full h = omega (
  arith,
  h,
  length-append groups ((e ∷ es) ∷ []),
  ap length (concat-snoc groups (e ∷ es)),
  length-append (concat groups) (e ∷ es),
)

module _ {S N : Type 0} (write_batch : S → List TradeEvent → Result WriteStats × S)
    (nats_ack : N → Message → Bool × N) where
  -- A flush settles what is pending as one more group, if anything is.
  abbrev pub Flushed :
      BatchConfig → Ledger S N → List (List Envelope) → List Envelope → Batcher S N → Type 0
  Flushed policy start groups pending b =
      (groups' : List (List Envelope)) × (concat groups' ≡ concat groups ++ pending)
      × Refines write_batch nats_ack policy start groups' [] b

  settle_groups-step :
      (policy : BatchConfig) (start : Ledger S N) (groups : List (List Envelope))
      (g : List Envelope) (b : Batcher S N)
      → Refines write_batch nats_ack policy start groups g b
      → settle_groups write_batch nats_ack policy.dedup (groups ++ g ∷ []) start
        ≡ settled write_batch nats_ack g
            (write_batch b.sink b.acc.rows)
            (settle_groups write_batch nats_ack policy.dedup groups start)
  settle_groups-step policy start groups g b h =
      settle_groups-snoc write_batch nats_ack policy.dedup groups g start
      ∙ rw (h.sink, h.buffer.rows, h.policy_kept) refl

  settle-Refines :
      (policy : BatchConfig) (start : Ledger S N) (groups : List (List Envelope))
      (g : List Envelope) (b : Batcher S N) (t : FlushTrigger) (r : Result WriteStats × S)
      (dropped : ℕ)
      → Refines write_batch nats_ack policy start groups g b
      → is_nil g ≡ false
      → settle_groups write_batch nats_ack policy.dedup (groups ++ g ∷ []) start
        ≡ settled write_batch nats_ack g r
            (settle_groups write_batch nats_ack policy.dedup groups start)
      → Refines write_batch nats_ack policy start
          (groups ++ g ∷ [])
          []
          (settle write_batch nats_ack (take b.acc t).0 r (record b {
            acc = (take b.acc t).1;
            stats = record b.stats { duplicates_dropped = dropped };
          })).1
  unfolding settle take count_written add_u64
  settle-Refines policy start groups g b t (ok w, sink) dropped h full e = record {
    policy_kept = h.policy_kept;
    buffer = subst (λ a. Buffers a []) (sym (take-new b.acc t)) (Buffers-new b.acc.policy);
    sink = rw e refl;
    acks = rw (e, h.acks, h.buffer.acks) refl;
    batches = rw e (omega (arith, h.batches));
    failed_commits = rw e h.failed_commits;
    sizes = sizes-snoc groups g full h.sizes;
  }
  settle-Refines policy start groups g b t (err w, sink) dropped h full e = record {
    policy_kept = h.policy_kept;
    buffer = subst (λ a. Buffers a []) (sym (take-new b.acc t)) (Buffers-new b.acc.policy);
    sink = rw e refl;
    acks = rw e h.acks;
    batches = rw e h.batches;
    failed_commits = rw e (omega (arith, h.failed_commits));
    sizes = sizes-snoc groups g full h.sizes;
  }

  take-Refines :
      (policy : BatchConfig) (start : Ledger S N) (groups : List (List Envelope)) (b : Batcher S N)
      (t : FlushTrigger)
      → Refines write_batch nats_ack policy start groups [] b
      → Refines write_batch nats_ack policy start groups [] (record b { acc = (take b.acc t).1 })
  unfolding take
  take-Refines policy start groups b t h = record {
    policy_kept = h.policy_kept;
    buffer = subst (λ a. Buffers a []) (sym (take-new b.acc t)) (Buffers-new b.acc.policy);
    sink = h.sink;
    acks = h.acks;
    batches = h.batches;
    failed_commits = h.failed_commits;
    sizes = h.sizes;
  }

  pub flush-Refines :
      (policy : BatchConfig) (start : Ledger S N) (groups : List (List Envelope))
      (pending : List Envelope) (b : Batcher S N) (t : FlushTrigger)
      → Refines write_batch nats_ack policy start groups pending b
      → Flushed policy start groups pending (flush write_batch nats_ack t b).1
  unfolding flush
  flush-Refines policy start groups pending b t h =
      if_cases (λ (r : Option WriteStats × Batcher S N). Flushed policy start groups pending r.1)
        (is_nil b.acc.rows) _ _
        (λ nothing.
          let e = (is_nil_iff pending).0 (sym (is_nil-rows b.acc pending h.buffer) ∙ nothing) in
          (
            groups,
            rw (e, append-nil) refl,
            take-Refines policy start groups b t
                (subst (λ es. Refines write_batch nats_ack policy start groups es b) e h),
          ))
        (λ some_rows. (
          groups ++ pending ∷ [],
          concat-snoc groups pending,
          settle-Refines policy start groups pending b t (write_batch b.sink b.acc.rows) _ h
              (sym (is_nil-rows b.acc pending h.buffer) ∙ some_rows)
              (settle_groups-step policy start groups pending b h),
        ))

  pub push-Refines :
      (policy : BatchConfig) (start : Ledger S N) (groups : List (List Envelope))
      (pending : List Envelope) (b : Batcher S N) (e : Envelope) (seen_at due_at : ℕ)
      → Refines write_batch nats_ack policy start groups pending b
      → Refines write_batch nats_ack policy start groups
          (pending ++ e ∷ [])
          (record b { acc = (push b.acc e seen_at due_at).0 })
  push-Refines policy start groups pending b e seen_at due_at h = record {
    policy_kept = policy-push b.acc e seen_at due_at ∙ h.policy_kept;
    buffer = push-Buffers b.acc pending e seen_at due_at h.buffer;
    sink = h.sink;
    acks = h.acks;
    batches = h.batches;
    failed_commits = h.failed_commits;
    sizes = h.sizes;
  }
