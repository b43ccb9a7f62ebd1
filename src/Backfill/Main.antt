-- ===== src/Backfill/Main.antt =====
-- `main` and `run` of rustapps/crypto-iceberg-query/src/bin/backfill.rs.
pub mod Ends
use crypto_lakehouse.Prelude.{Bool, List, Option, String, [], if◌then◌else◌, none, some, ℕ, ℤ, ◌∷◌}
use crypto_lakehouse.Result.{Result, ok, err, or_fail}
use crypto_lakehouse.Action.{Action, ◌>>=◌, ◌>>◌, pure, lift, gets, with_context, under, resume}
use crypto_lakehouse.Table.{Row}
use crypto_lakehouse.Config.Text.{Float}
use crypto_lakehouse.Query.{Column, count_from, checked_qualified_name}
use crypto_lakehouse.Query.Session.{EngineOptions, default, iceberg_session}
use crypto_lakehouse.Query.Visible.{ensure_visible}
use crypto_lakehouse.Query.Engine.{Batch, Engine}
use crypto_lakehouse.Query.Answers.{first_batch, read_back}
use crypto_lakehouse.Sink.Dedup.{codes}
use crypto_lakehouse.Sink.Lake.{Lake}
use crypto_lakehouse.Sink.State.{Sink}
use crypto_lakehouse.Sink.Connect.{Connector}
use crypto_lakehouse.Append.{stream_into}
use crypto_lakehouse.Append.Open.{open_sink}
use crypto_lakehouse.Append.Through.{through}
use crypto_lakehouse.Backfill.{Ranked, src_ranked, target_keys, missing, candidates, audit}

pub record Args : Type 0 where
  pub from : String
  pub into : String
  pub start : ℤ
  pub end_ : ℤ
  pub target_margin_days : ℤ
  pub execute : Bool
  pub chunk_rows : ℕ
  pub memory_mb : ℕ
  pub temp_dir : String
  pub target_partitions : ℕ
  pub explain : Bool

unfoldable pub options_of : Args → EngineOptions
unfolding default
options_of args = record default {
  memory_mb = args.memory_mb;
  temp_dir = some args.temp_dir;
  target_partitions = args.target_partitions;
}

-- What the tool prints: for an audit each of the six columns.
pub data Report : Type 0 where
  planned : Report
  audited : List (String × ℕ) → Report
  appended : ℕ → ℕ → Report

abbrev pub audit_columns : List String
audit_columns =
    "rows_in_window" ∷ "distinct_keys" ∷ "duplicate_rows" ∷ "maker_nulls" ∷ "rows_skipped_null"
    ∷ "rows_to_append" ∷ []

-- The loop over the columns.
unfoldable pub report_columns : Batch → List String → Action Unit (List (String × ℕ))
unfolding count_from
report_columns batch [] = pure []
report_columns batch (column ∷ columns) = do
  n ← lift (count_from (batch column))
  rest ← report_columns batch columns
  pure ((column, n) ∷ rest)

unfoldable pub print_columns : List Batch → Result (List (String × ℕ))
unfolding report_columns
print_columns [] = or_fail none "audit returned no rows"
print_columns (batch ∷ rest) = (report_columns batch audit_columns tt).0

module _ (f : Float) (env : String → Option String) {W : Type 0} (X : Connector W)
    (E : Engine W) where
  -- The rows of `candidate_sql`, and the counts of `audit_sql`.
  unfoldable pub source_rows : E.libraries.Context → Args → W → List Ranked
  unfolding src_ranked
  source_rows ctx args w = src_ranked args.start args.end_ (E.scan ctx args.from w)

  unfoldable pub append_list : E.libraries.Context → Args → W → List Row
  unfolding source_rows target_keys missing
  append_list ctx args w =
      missing (source_rows ctx args w)
        (target_keys args.start args.end_ args.target_margin_days (E.scan ctx args.into w))

  -- `run`, for the audit.
  unfoldable pub run_audit : E.libraries.Context → Args → Action W Report
  unfolding append_list audit print_columns
  run_audit ctx args = do
    with_context "failed to plan backfill query" (λ w. (E.plan ctx w, w))
    if args.explain then (do (λ w. (E.show_plan ctx w, w)); pure planned) else (do
      batches ←
          with_context "failed to run backfill query"
            (λ w. (E.collect ctx (audit (source_rows ctx args w) (append_list ctx args w)) w, w))
      columns ← lift (print_columns batches)
      pure (audited columns))

  -- With `--execute`.
  unfoldable pub run_append : E.libraries.Context → Args → Action W Report
  unfolding append_list candidates stream_into ensure_visible open_sink
  run_append ctx args = do
    if args.explain
        then (do
          with_context "failed to plan backfill query" (λ w. (E.plan ctx w, w))
          (λ w. (E.show_plan ctx w, w))
          pure planned)
        else (do
          opened ← open_sink f env X args.into
          written ← (λ w.
              through (X.lake opened.0) opened.1
                (stream_into (X.lake opened.0)
                  (E.execute_stream ctx (candidates (append_list ctx args w)) w) args.chunk_rows)
                w)
          visible ←
              (λ w. (ensure_visible (read_back E ctx args.into args.start args.end_ w) written, w))
          pure (appended written visible))

  unfoldable pub main : Args → Action W Report
  unfolding iceberg_session options_of checked_qualified_name run_audit run_append
  main args = do
    lift (checked_qualified_name (codes args.from))
    lift (checked_qualified_name (codes args.into))
    ctx ← lift (iceberg_session E.libraries env (options_of args))
    if args.execute then run_append ctx args else run_audit ctx args
