-- ===== src/Pipeline/Stalled.antt =====
-- The batch loop with the program's own sink, once a probe has failed.
use crypto_lakehouse.Prelude.{
  Bool, List, [], ap, false, firsts, int_eq, nat_eq, none, refl, some, string_eq, true, ◌∙◌, ◌∷◌,
  ◌≡◌,
}
use crypto_lakehouse.Result.{is_ok}
use crypto_lakehouse.Action.Ends.{Ends-err, Ends-never}
use crypto_lakehouse.Trade.{TradeEvent}
use crypto_lakehouse.Table.{Row}
use crypto_lakehouse.Source.Ack.{Message, Acks, Envelope, ack_all}
use crypto_lakehouse.Sink.Lake.{Lake, Laws}
use crypto_lakehouse.Sink.State.{Sink}
use crypto_lakehouse.Sink.Dedup.{deduped_batch}
use crypto_lakehouse.Sink.Dedup.Session.{Deduped, Left, deduped_batch-Ends}
use crypto_lakehouse.Sink.Write.{write_batch}
use crypto_lakehouse.Sink.Write.Stuck.{Stuck, write_batch-Stuck}
use crypto_lakehouse.Batcher.Accumulator.{BatchConfig}
use crypto_lakehouse.Batcher.Run.{Round, run}
use crypto_lakehouse.Batcher.Run.Groups.{Ledger, settled, settle_group, settle_groups}
use crypto_lakehouse.Batcher.Run.Refinement.{run-refines}
use crypto_lakehouse.Batcher.Run.Delivery.{log-settled_err}
use crypto_lakehouse.Pipeline.{write, sink-settled}

module _ {W N : Type 0} (L : Lake W) (laws : Laws L) (nats_ack : N → Message → Bool × N)
    (old : List Row) where
  open laws use {committed, registered}

  -- The ledger is as it was, but for the number of failed batches.
  abbrev pub Stalled : Ledger (Sink L) N → Ledger (Sink L) N → Type 0
  Stalled before l =
      (l.acks ≡ before.acks)
      × (committed l.sink.world ≡ committed before.sink.world)
      × (registered l.sink.ctx "incoming" ≡ some old)

  failed-Stalled :
      (g : List Envelope) (row : TradeEvent) (rest : List TradeEvent) (l : Ledger (Sink L) N)
      → registered l.sink.ctx "incoming" ≡ some old
      → Stalled l
          (settled (write L laws nats_ack) nats_ack g (write L laws nats_ack l.sink (row ∷ rest)) l)
  failed-Stalled g row rest l taken =
      let r = write L laws nats_ack l.sink (row ∷ rest) in
      let stuck =
        Ends-never (Stuck L laws old l.sink) r
          (write_batch-Stuck L laws old row rest l.sink taken) in
      (
        log-settled_err (write L laws nats_ack) nats_ack g r l stuck.0,
        ap (λ s. committed s.world) (sink-settled L laws nats_ack g r l) ∙ stuck.1.0,
        ap (λ s. registered s.ctx "incoming") (sink-settled L laws nats_ack g r l) ∙ stuck.1.1,
      )

  group-Stalled :
      (d : Bool) (g : List Envelope) (l : Ledger (Sink L) N)
      → registered l.sink.ctx "incoming" ≡ some old
      → Stalled l (settle_group (write L laws nats_ack) nats_ack d g l)
  unfolding ack_all write_batch firsts
  group-Stalled true [] l taken = (refl, refl, taken)
  group-Stalled false [] l taken = (refl, refl, taken)
  group-Stalled true (e ∷ es) l taken = failed-Stalled (e ∷ es) e.event _ l taken
  group-Stalled false (e ∷ es) l taken = failed-Stalled (e ∷ es) e.event _ l taken

  groups-Stalled :
      (d : Bool) (gs : List (List Envelope)) (l : Ledger (Sink L) N)
      → registered l.sink.ctx "incoming" ≡ some old
      → Stalled l (settle_groups (write L laws nats_ack) nats_ack d gs l)
  groups-Stalled d [] l taken = (refl, refl, taken)
  groups-Stalled d (g ∷ gs) l taken =
      let (acks, rows, still) = group-Stalled d g l taken in
      let (acks', rows', still') =
        groups-Stalled d gs (settle_group (write L laws nats_ack) nats_ack d g l) still in
      (acks' ∙ acks, rows' ∙ rows, still')

-- A batch leaves the session only by `deregister_table`, which a failed probe does not reach. Once the probe of a
-- batch failed, for whatever passing reason, in a session in which no batch was registered before, the
-- batch loop goes on for as long as the process lives without a commit and without an ack, whatever it
-- receives: every later write meets the rows that the probe left in the session.
pub run-stalled :
    {W N : Type 0} (L : Lake W) (laws : Laws L) (nats_ack : N → Message → Bool × N)
    (rows : List Row) (schema : L.Schema) (s : Sink L) (policy : BatchConfig) (acks : Acks N)
    (rs : List Round)
    → laws.registered s.ctx "incoming" ≡ none
    → is_ok (deduped_batch L rows schema s).0 ≡ false
    → let b =
        (run (write L laws nats_ack) nats_ack policy (deduped_batch L rows schema s).1 acks rs).1 in
      (b.acks ≡ acks)
      × (laws.committed b.sink.world ≡ laws.committed s.world)
      × (laws.registered b.sink.ctx "incoming" ≡ some rows)
run-stalled L laws nats_ack rows schema s policy acks rs free failed =
    let left =
      Ends-err (Deduped L laws rows schema s) (Left L laws rows s) (deduped_batch L rows schema s)
        failed (deduped_batch-Ends L laws rows schema s free) in
    let (groups, pending, cut, drained, h) =
      run-refines (write L laws nats_ack) nats_ack policy (deduped_batch L rows schema s).1 acks
        rs in
    let (same, unchanged, still) =
      groups-Stalled L laws nats_ack rows policy.dedup groups
        (record { sink = (deduped_batch L rows schema s).1; acks = acks; written = 0; failed = 0 })
        left.1 in
    (
      h.acks ∙ same,
      ap (λ x. laws.committed x.world) h.sink ∙ unchanged ∙ left.0,
      ap (λ x. laws.registered x.ctx "incoming") h.sink ∙ still,
    )
