-- ===== src/Sink/Write/Batch.antt =====
-- `write_batch` on every branch: which rows are committed, and what stays in the session.
use crypto_lakehouse.Prelude.{Bool, List, ap, filter, map, none, not, refl, ℕ, ◌++◌, ◌∙◌, ◌∷◌, ◌≡◌}
use crypto_lakehouse.Result.{Result, ok, err}
use crypto_lakehouse.Action.{Action, ◌>>=◌, lift, pure, under}
use crypto_lakehouse.Action.Ends.{Ends, Ends-step, Ends-resume, under-ok, Ends-weaken}
use crypto_lakehouse.Trade.{TradeEvent}
use crypto_lakehouse.Table.{Row}
use crypto_lakehouse.Schema.{to_record_batch}
use crypto_lakehouse.Sink.Lake.{Lake, Laws, count, concat_rows, matched}
use crypto_lakehouse.Sink.State.{Sink}
use crypto_lakehouse.Sink.Pruning.{Expr, build_pruning_expr}
use crypto_lakehouse.Sink.Stats.{ProbeStats}
use crypto_lakehouse.Sink.Dedup.{deduped_batch}
use crypto_lakehouse.Sink.Dedup.Session.{Same, Deduped, deduped_batch-Ends}
use crypto_lakehouse.Sink.Commit.{commit}
use crypto_lakehouse.Sink.Commit.Atomic.{Appends, commit-Appends, ctx-commit}
use crypto_lakehouse.Sink.Write.{arrow_schema, write_records, write_files, write_batch}
use crypto_lakehouse.Sink.Write.Records.{Files, write_records-Ends}

module _ {W : Type 0} (L : Lake W) (laws : Laws L) where
  open laws use {committed, contents, registered}

  -- A schema of the table, as the writer and the probe see it.
  abbrev pub HasSchema : L.Schema → Type 0
  HasSchema schema = (t : L.Table) × (L.schema_to_arrow_schema t ≡ ok schema)

  -- The rows to commit are those of the batch that join with no committed row of the probe's predicate.
  abbrev pub NewRows : List TradeEvent → List Row → ((Row → Bool) → ℕ) → Type 0
  NewRows rows before added =
      (schema : L.Schema) × HasSchema schema
      × (p : Expr) × (build_pruning_expr L.walk (L.trade_ts_type schema) (to_record_batch rows)
          ≡ ok p)
      × ((q : Row → Bool)
          → added q
            ≡ count q (
                filter (λ r. not (matched laws.evaluator.holds p before r)) (to_record_batch rows)))

  -- The files hold the rows to commit, which are not committed yet.
  abbrev Written : List TradeEvent → Sink L → List L.DataFile × ProbeStats → Sink L → Type 0
  Written rows before found s =
      NewRows rows (committed before.world) (λ q. count q (concat_rows (map contents found.0)))
      × (committed s.world ≡ committed before.world)
      × (registered s.ctx "incoming" ≡ none)

  -- What follows the conversion of the batch.
  abbrev write_deduped : List Row → L.Schema → Action (Sink L) (List L.DataFile × ProbeStats)
  write_deduped batch schema = do
    found ← deduped_batch L batch schema
    deduped ← lift (L.concat_batches schema found.0)
    data_files ← write_records L deduped
    pure (data_files, found.1)

  abbrev pub Unchanged : Sink L → Sink L → Type 0
  Unchanged before s = committed s.world ≡ committed before.world

  write_deduped-Ends :
      (rows : List TradeEvent) (schema : L.Schema) (s : Sink L)
      → HasSchema schema
      → registered s.ctx "incoming" ≡ none
      → Ends (Written rows s) (Unchanged s) (write_deduped (to_record_batch rows) schema s)
  write_deduped-Ends rows schema s has free =
      Ends-resume (Written rows s) (Unchanged s) (Deduped L laws (to_record_batch rows) schema s)
        (deduped_batch L (to_record_batch rows) schema s) _
        (Ends-weaken (deduped_batch L (to_record_batch rows) schema s) (λ _ _ h. h) (λ _ h. h.0)
          (deduped_batch-Ends L laws (to_record_batch rows) schema s free))
        (λ found s1 d.
          Ends-step (Written rows s) (Unchanged s) (L.concat_batches schema found.0) s1 _ (λ _. d.3)
            (λ deduped joined.
              Ends-resume (Written rows s) (Unchanged s)
                (λ fs s2. Files L laws deduped fs × Same L laws s1 s2) (write_records L deduped s1)
                _
                (Ends-weaken (write_records L deduped s1) (λ _ _ h. h) (λ _ h. h.0 ∙ d.3)
                  (write_records-Ends L laws deduped s1))
                (λ fs s2 h. (
                  (
                    schema,
                    has,
                    d.0,
                    d.1,
                    λ q.
                        h.0 q
                        ∙ ap (count q) (laws.concat_batches_ok schema found.0 deduped joined)
                        ∙ d.2 q,
                  ),
                  h.1.0 ∙ d.3,
                  ap (λ c. registered c "incoming") h.1.1 ∙ d.4,
                ))))

  write_files-Ends :
      (rows : List TradeEvent) (s : Sink L)
      → registered s.ctx "incoming" ≡ none
      → Ends (Written rows s) (Unchanged s) (write_files L rows s)
  unfolding write_files arrow_schema
  write_files-Ends rows s free =
      Ends-step (Written rows s) (Unchanged s) (under _ (L.schema_to_arrow_schema s.table)) s _
        (λ _. refl)
        (λ schema seen.
          Ends-step (Written rows s) (Unchanged s)
            (under _ (L.try_new schema (to_record_batch rows))) s
            (λ batch. write_deduped batch schema) (λ _. refl)
            (λ batch made.
              rw (laws.try_new_ok schema (to_record_batch rows) batch (under-ok _ _ made))
                (write_deduped-Ends rows schema s (s.table, under-ok _ _ seen) free)))

  -- The new rows of the batch are committed besides, and no batch is left in the session.
  abbrev pub Adds : List TradeEvent → Sink L → Sink L → Type 0
  Adds rows before s =
      (new : List Row) × NewRows rows (committed before.world) (λ q. count q new)
      × (committed s.world ≡ committed before.world ++ new)
      × (registered s.ctx "incoming" ≡ none)

  -- The end of a commit.
  abbrev Committed : List Row → L.Ctx → Unit {0} → Sink L → Type 0
  Committed rows c u s = (committed s.world ≡ rows) × (s.ctx ≡ c)

  Appends-Ends :
      (before added : List Row) (c : L.Ctx) (r : Result (Unit {0}) × Sink L)
      → Appends r.0 before added (committed r.1.world)
      → r.1.ctx ≡ c
      → Ends (Committed (before ++ added) c) (λ s. committed s.world ≡ before) r
  Appends-Ends before added c (ok u, s) h k = (h, k)
  Appends-Ends before added c (err e, s) h k = h

  -- A batch of trades, when no batch is registered in the session. If the write succeeds, what is
  -- committed grows by the rows of the batch that join, on exchange, symbol and trade id, with no
  -- committed row that the batch's predicate selects, each as often as it is in the batch, and no batch is
  -- left in the session. If it fails, wherever it does, what is committed is unchanged.
  pub write_batch-Ends :
      (row : TradeEvent) (rest : List TradeEvent) (s : Sink L)
      → registered s.ctx "incoming" ≡ none
      → Ends (λ _. Adds (row ∷ rest) s) (Unchanged s) (write_batch L (row ∷ rest) s)
  unfolding write_batch
  write_batch-Ends row rest s free =
      Ends-resume (λ _. Adds (row ∷ rest) s) (Unchanged s) (Written (row ∷ rest) s1)
        (write_files L (row ∷ rest) s1) _
        (Ends-weaken (write_files L (row ∷ rest) s1) (λ _ _ h. h)
          (λ _ h. h ∙ laws.committed-now s.world) (write_files-Ends (row ∷ rest) s1 free))
        (λ found s2 w.
          Ends-resume (λ _. Adds (row ∷ rest) s) (Unchanged s)
            (Committed (committed s.world ++ concat_rows (map contents found.0)) s2.ctx)
            (commit L found.0 (twice s2)) _
            (Appends-Ends (committed s.world) _ s2.ctx (commit L found.0 (twice s2))
              (rw (clock s2 ∙ w.1 ∙ laws.committed-now s.world) at
                (commit-Appends L laws found.0 (twice s2)))
              (ctx-commit L laws found.0 (twice s2)))
            (λ u s4 h. (
              concat_rows (map contents found.0),
              rw (laws.committed-now s.world) at w.0,
              laws.committed-now s4.world ∙ h.0,
              ap (λ c. registered c "incoming") h.1 ∙ w.2,
            )))
    where
      s1 : Sink L
      s1 = record s { world = (L.now s.world).1 }

      twice : Sink L → Sink L
      twice x = record x { world = (L.now (L.now x.world).1).1 }

      clock : (x : Sink L) → committed (twice x).world ≡ committed x.world
      clock x = laws.committed-now (L.now x.world).1 ∙ laws.committed-now x.world
