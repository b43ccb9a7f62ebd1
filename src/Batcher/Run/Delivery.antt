-- ===== src/Batcher/Run/Delivery.antt =====
-- What is acknowledged, as consequences of the refinement.
use crypto_lakehouse.Prelude.{
  Bool, List, [], ap, append-nil, append_assoc, arith, false, if◌then◌else◌, length, map,
  map-append, refl, sym, true, u64_mod, ◌++◌, ◌+◌, ◌<◌, ◌∙◌, ◌∷◌, ◌≡◌, ◌≤◌,
}
use crypto_lakehouse.Result.{Result, ok, err, is_ok}
use crypto_lakehouse.Trade.{TradeEvent}
use crypto_lakehouse.Source.Ack.{Message, Ack, Acks, Envelope, ack, ack_all}
use crypto_lakehouse.Sink.Stats.{WriteStats}
use crypto_lakehouse.Batcher.Accumulator.{BatchConfig}
use crypto_lakehouse.Batcher.Accumulator.Buffer.{kept}
use crypto_lakehouse.Batcher.Run.{Round, run}
use crypto_lakehouse.Batcher.Run.Refinement.{run-refines}
use crypto_lakehouse.Batcher.Run.Groups.{
  received, Ledger, settled, settle_group, settle_groups, concat,
}

module _ {S N : Type 0} (write_batch : S → List TradeEvent → Result WriteStats × S)
    (nats_ack : N → Message → Bool × N) where
  log-ack : (a : Ack) (s : Acks N) → (ack nats_ack a s).1.log ≡ s.log ++ a ∷ []
  unfolding ack
  log-ack (Ack.nats m) s = refl
  log-ack (Ack.counter c) s = refl
  log-ack Ack.none s = refl

  -- Every ack of a batch is sent, in order, whatever the others answered.
  pub log-ack_all : (as' : List Ack) (s : Acks N) → (ack_all nats_ack as' s).1.log ≡ s.log ++ as'
  unfolding ack_all
  log-ack_all [] s = sym (append-nil s.log)
  log-ack_all (a ∷ rest) s =
      log-ack_all rest (ack nats_ack a s).1 ∙ rw log-ack (append_assoc s.log (a ∷ []) rest)

  pub log-settled_ok :
      (g : List Envelope) (r : Result WriteStats × S) (l : Ledger S N)
      → is_ok r.0 ≡ true
      → (settled write_batch nats_ack g r l).acks.log ≡ l.acks.log ++ map (λ e. e.ack) g
  log-settled_ok g (ok w, s) l h = log-ack_all (map (λ e. e.ack) g) l.acks
  log-settled_ok g (err e, s) l h = cc

  pub log-settled_err :
      (g : List Envelope) (r : Result WriteStats × S) (l : Ledger S N)
      → is_ok r.0 ≡ false
      → (settled write_batch nats_ack g r l).acks ≡ l.acks
  log-settled_err g (ok w, s) l h = cc
  log-settled_err g (err e, s) l h = refl

  failed-settled :
      (g : List Envelope) (r : Result WriteStats × S) (l : Ledger S N)
      → (settled write_batch nats_ack g r l).failed ≡ l.failed + (if is_ok r.0 then 0 else 1)
  failed-settled g (ok w, s) l = omega arith
  failed-settled g (err e, s) l = refl

  -- A group fails at most once.
  failed-settle_groups :
      (d : Bool) (gs : List (List Envelope)) (l : Ledger S N)
      → (l.failed ≤ (settle_groups write_batch nats_ack d gs l).failed)
        × ((settle_groups write_batch nats_ack d gs l).failed ≤ l.failed + length gs)
  failed-settle_groups d [] l = (omega arith, omega arith)
  failed-settle_groups d (g ∷ gs) l =
      let r = write_batch l.sink (map (λ e. e.event) (kept d g)) in
      let (above, below) = failed-settle_groups d gs (settle_group write_batch nats_ack d g l) in
      (ground (arith, above, failed-settled g r l), ground (arith, below, failed-settled g r l))

  -- Without a failure every group is acknowledged.
  log-settle_groups :
      (d : Bool) (gs : List (List Envelope)) (l : Ledger S N)
      → (settle_groups write_batch nats_ack d gs l).failed ≡ l.failed
      → (settle_groups write_batch nats_ack d gs l).acks.log
        ≡ l.acks.log ++ map (λ e. e.ack) (concat gs)
  log-settle_groups d [] l h = sym (append-nil l.acks.log)
  log-settle_groups d (g ∷ gs) l h =
      let r = write_batch l.sink (map (λ e. e.event) (kept d g)) in
      let next = settle_group write_batch nats_ack d g l in
      let above = (failed-settle_groups d gs next).0 in
      let fine : is_ok r.0 ≡ true = ground (arith, h, above, failed-settled g r l) in
      log-settle_groups d gs next (ground (arith, h, fine, failed-settled g r l))
      ∙ rw (log-settled_ok g r l fine, map-append)
          (append_assoc l.acks.log (map (λ e. e.ack) g) (map (λ e. e.ack) (concat gs)))

  -- A shutdown loses nothing: when the loop has returned, fewer than 2 ^ 64 envelopes were received, and the
  -- counter of failed commits is 0, then the acks sent are those of all the envelopes received, in their
  -- order, duplicates included.
  pub run-acks_all :
      (policy : BatchConfig) (sink : S) (acks : Acks N) (rs : List Round)
      → length (received rs) < u64_mod
      → (run write_batch nats_ack policy sink acks rs).0 ≡ true
      → (run write_batch nats_ack policy sink acks rs).1.stats.failed_commits ≡ 0
      → (run write_batch nats_ack policy sink acks rs).1.acks.log
        ≡ acks.log ++ map (λ e. e.ack) (received rs)
  run-acks_all policy sink acks rs few ended none_failed =
      let (groups, pending, cut, drained, h) =
        run-refines write_batch nats_ack policy sink acks rs in
      let whole : concat groups ≡ received rs =
        sym (append-nil (concat groups))
        ∙ ap (λ p. concat groups ++ p) (sym (drained ended))
        ∙ cut in
      let start : Ledger S N = record { sink = sink; acks = acks; written = 0; failed = 0 } in
      let bound = (failed-settle_groups policy.dedup groups start).1 in
      let fine : (settle_groups write_batch nats_ack policy.dedup groups start).failed ≡ 0 =
        omega (arith, few, none_failed, h.failed_commits, bound, h.sizes, ap length whole) in
      ap (λ a. a.log) h.acks
      ∙ log-settle_groups policy.dedup groups start fine
      ∙ ap (λ es. acks.log ++ map (λ e. e.ack) es) whole
