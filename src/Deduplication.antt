-- ===== src/Deduplication.antt =====
-- rustapps/crypto-iceberg-query/src/bin/dedup.rs: the audit and the rewrite of a table over a range of
-- `trade_ts`. A query is the function from the rows of the table to its result; `start` and `end_` are the
-- instants of the two literals.
pub mod Kept
pub mod Runs
use crypto_lakehouse.Prelude.{
  Bool, List, Option, String, [], filter, if◌then◌else◌, length, ltb, map, nat_beq, none, some, ℕ,
  ℤ, ◌∷◌,
}
use crypto_lakehouse.Result.{Result, ok, err, or_fail}
use crypto_lakehouse.Action.{Action, ◌>>=◌, ◌>>◌, pure, lift, gets, with_context, under, resume}
use crypto_lakehouse.Table.{Row}
use crypto_lakehouse.Config.Text.{Float}
use crypto_lakehouse.Query.{Column, count_from, checked_qualified_name}
use crypto_lakehouse.Query.Session.{EngineOptions, default, iceberg_session}
use crypto_lakehouse.Query.Visible.{ensure_visible}
use crypto_lakehouse.Query.Engine.{Batch, Engine}
use crypto_lakehouse.Query.Answers.{first_batch, read_back}
use crypto_lakehouse.Append.Through.{through}
use crypto_lakehouse.Ranking.{Numbered, numbered, in_range}
use crypto_lakehouse.Sink.Dedup.{codes}
use crypto_lakehouse.Sink.Lake.{Lake}
use crypto_lakehouse.Sink.State.{Sink}
use crypto_lakehouse.Sink.Connect.{Connector}
use crypto_lakehouse.Append.{stream_into}
use crypto_lakehouse.Append.Open.{open_sink}

pub record Args : Type 0 where
  pub table : String
  pub start : ℤ
  pub end_ : ℤ
  pub insert_into : Option String
  pub chunk_rows : ℕ
  pub memory_mb : ℕ
  pub temp_dir : String
  pub target_partitions : ℕ
  pub explain : Bool

-- The table expression `ranked`.
unfoldable pub ranked : ℤ → ℤ → List Row → List Numbered
unfolding numbered in_range
ranked start end_ source = numbered (filter (in_range start end_) source)

-- The columns of the one row of `audit_sql`.
unfoldable pub audit : List Numbered → List (String × ℕ)
audit ns =
    ("rows_in_range", length ns)
    ∷ ("duplicate_rows", length (filter (λ (n : Numbered). ltb 1 n.rn) ns))
    ∷ []

-- The rows of `rewrite_sql`, with all columns of the table.
unfoldable pub rewrite : List Numbered → List Row
rewrite ns = map (λ (n : Numbered). n.row) (filter (λ (n : Numbered). nat_beq n.rn 1) ns)

-- The options that `main` takes from the command line.
unfoldable pub options_of : Args → EngineOptions
unfolding default
options_of args = record default { memory_mb = args.memory_mb; temp_dir = some args.temp_dir }

-- What the tool prints.
pub data Report : Type 0 where
  planned : Report
  audited : ℕ → ℕ → Report
  rewrote : ℕ → ℕ → Report

module _ (f : Float) (env : String → Option String) {W : Type 0} (X : Connector W)
    (E : Engine W) where
  -- Without a table to insert into.
  unfoldable pub run_audit : E.libraries.Context → Args → Action W Report
  unfolding ranked audit count_from
  run_audit ctx args = do
    with_context "failed to plan dedup audit" (λ w. (E.plan ctx w, w))
    if args.explain
        then (do with_context "failed to show plan" (λ w. (E.show_plan ctx w, w)); pure planned)
        else (do
          batches ← with_context "failed to run dedup audit" (λ w.
              (E.collect ctx (audit (ranked args.start args.end_ (E.scan ctx args.table w))) w, w))
          batch ← lift (or_fail (first_batch batches) "dedup audit returned no rows")
          total ← lift (count_from (batch "rows_in_range"))
          duplicates ← lift (count_from (batch "duplicate_rows"))
          pure (audited total duplicates))

  -- With one.
  unfoldable pub run_rewrite : E.libraries.Context → Args → String → Action W Report
  unfolding ranked rewrite stream_into ensure_visible open_sink
  run_rewrite ctx args into = do
    if args.explain
        then (do
          with_context "failed to plan dedup rewrite" (λ w. (E.plan ctx w, w))
          with_context "failed to show plan" (λ w. (E.show_plan ctx w, w))
          pure planned)
        else (do
          opened ← open_sink f env X into
          written ← (λ w.
              through (X.lake opened.0) opened.1
                (stream_into (X.lake opened.0)
                  (E.execute_stream ctx
                    (rewrite (ranked args.start args.end_ (E.scan ctx args.table w))) w)
                  args.chunk_rows)
                w)
          visible ← (λ w. (ensure_visible (read_back E ctx into args.start args.end_ w) written, w))
          pure (rewrote written visible))

  unfoldable pub checked_target : Option String → Result (Unit {0})
  unfolding checked_qualified_name
  checked_target none = ok tt
  checked_target (some into) = checked (checked_qualified_name (codes into))
    where
      checked : Result (List ℕ) → Result (Unit {0})
      checked (ok name) = ok tt
      checked (err e) = err e

  unfoldable pub dispatch : E.libraries.Context → Args → Option String → Action W Report
  unfolding run_audit run_rewrite
  dispatch ctx args none = run_audit ctx args
  dispatch ctx args (some into) = run_rewrite ctx args into

  unfoldable pub main : Args → Action W Report
  unfolding iceberg_session options_of checked_qualified_name
  main args = do
    lift (checked_qualified_name (codes args.table))
    lift (checked_target args.insert_into)
    ctx ← lift (iceberg_session E.libraries env (options_of args))
    dispatch ctx args args.insert_into
