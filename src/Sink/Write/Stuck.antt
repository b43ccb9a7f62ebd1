-- ===== src/Sink/Write/Stuck.antt =====
-- A batch that a failed probe left in the session makes the later writes fail.
use crypto_lakehouse.Prelude.{List, ap, arith, false, none, refl, some, ◌∙◌, ◌∷◌, ◌≡◌}
use crypto_lakehouse.Result.{is_ok}
use crypto_lakehouse.Action.{under}
use crypto_lakehouse.Action.Ends.{Ends, Ends-step, Ends-resume, Ends-err, Ends-never, Ends-weaken}
use crypto_lakehouse.Trade.{TradeEvent}
use crypto_lakehouse.Table.{Row}
use crypto_lakehouse.Schema.{to_record_batch}
use crypto_lakehouse.Sink.Lake.{Lake, Laws}
use crypto_lakehouse.Sink.State.{Sink}
use crypto_lakehouse.Sink.Dedup.{deduped_batch}
use crypto_lakehouse.Sink.Dedup.Session.{Deduped, Left, deduped_batch-Ends}
use crypto_lakehouse.Sink.Write.{arrow_schema, write_files, write_batch}

module _ {W : Type 0} (L : Lake W) (laws : Laws L) (old : List Row) where
  open laws use {committed, registered}

  -- The rows are still in the session, and nothing is committed.
  abbrev pub Stuck : Sink L → Sink L → Type 0
  Stuck before s =
      (committed s.world ≡ committed before.world) × (registered s.ctx "incoming" ≡ some old)

  deduped_batch-Stuck :
      (rows : List Row) (schema : L.Schema) (s : Sink L)
      → registered s.ctx "incoming" ≡ some old
      → Ends (λ _ _. ⊥) (Stuck s) (deduped_batch L rows schema s)
  unfolding deduped_batch
  deduped_batch-Stuck rows schema s taken =
      let no = laws.register_batch_taken "incoming" rows old s.ctx taken in
      Ends-step (λ _ _. ⊥) (Stuck s) (L.register_batch "incoming" rows s.ctx).0 _ _
        (λ _. (refl, ap (λ c. registered c "incoming") no.1 ∙ taken))
        (λ a e. absurd (ground (arith, e, no.0)))

  write_files-Stuck :
      (rows : List TradeEvent) (s : Sink L)
      → registered s.ctx "incoming" ≡ some old
      → Ends (λ _ _. ⊥) (Stuck s) (write_files L rows s)
  unfolding write_files arrow_schema
  write_files-Stuck rows s taken =
      Ends-step (λ _ _. ⊥) (Stuck s) (under _ (L.schema_to_arrow_schema s.table)) s _
        (λ _. (refl, taken))
        (λ schema seen.
          Ends-step (λ _ _. ⊥) (Stuck s) (under _ (L.try_new schema (to_record_batch rows))) s _
            (λ _. (refl, taken))
            (λ batch made.
              Ends-resume (λ _ _. ⊥) (Stuck s) (λ _ _. ⊥) (deduped_batch L batch schema s) _
                (deduped_batch-Stuck batch schema s taken) (λ a s' e. absurd e)))

  pub write_batch-Stuck :
      (row : TradeEvent) (rest : List TradeEvent) (s : Sink L)
      → registered s.ctx "incoming" ≡ some old
      → Ends (λ _ _. ⊥) (Stuck s) (write_batch L (row ∷ rest) s)
  unfolding write_batch
  write_batch-Stuck row rest s taken =
      Ends-resume (λ _ _. ⊥) (Stuck s) (λ _ _. ⊥)
        (write_files L (row ∷ rest) (record s { world = (L.now s.world).1 })) _
        (Ends-weaken (write_files L (row ∷ rest) (record s { world = (L.now s.world).1 }))
          (λ _ _ e. e) (λ s' h. (h.0 ∙ laws.committed-now s.world, h.1))
          (write_files-Stuck (row ∷ rest) (record s { world = (L.now s.world).1 }) taken))
        (λ a s' e. absurd e)

-- A batch leaves the session only by `deregister_table`, which a failed probe does not reach. Once the
-- probe of a batch failed, for whatever passing reason, in a session in which no batch was registered
-- before, the next write of any trades fails, commits nothing, and leaves the batch of the probe in the
-- session, so that the write after it meets the same.
pub failed_probe_blocks :
    {W : Type 0} (L : Lake W) (laws : Laws L) (rows : List Row) (schema : L.Schema) (s : Sink L)
    (row : TradeEvent) (rest : List TradeEvent)
    → laws.registered s.ctx "incoming" ≡ none
    → is_ok (deduped_batch L rows schema s).0 ≡ false
    → (is_ok (write_batch L (row ∷ rest) (deduped_batch L rows schema s).1).0 ≡ false)
      × (laws.committed (write_batch L (row ∷ rest) (deduped_batch L rows schema s).1).1.world
          ≡ laws.committed s.world)
      × (laws.registered
            (write_batch L (row ∷ rest) (deduped_batch L rows schema s).1).1.ctx
            "incoming"
          ≡ some rows)
failed_probe_blocks L laws rows schema s row rest free failed =
    let left =
      Ends-err (Deduped L laws rows schema s) (Left L laws rows s) (deduped_batch L rows schema s)
        failed (deduped_batch-Ends L laws rows schema s free) in
    let stuck =
      Ends-never (Stuck L laws rows (deduped_batch L rows schema s).1)
        (write_batch L (row ∷ rest) (deduped_batch L rows schema s).1)
        (write_batch-Stuck L laws rows row rest (deduped_batch L rows schema s).1 left.1) in
    (stuck.0, stuck.1.0 ∙ left.0, stuck.1.1)
