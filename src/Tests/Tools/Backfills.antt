-- ===== src/Tests/Tools/Backfills.antt =====
-- The backfill of the lake in memory from the archive.
use crypto_lakehouse.Schema.{table_schema}
use crypto_lakehouse.Schema.Fields.{Fits, columns}
use crypto_lakehouse.Backfill.Projection.{restored, candidates-Fits}
use crypto_lakehouse.Prelude.{
  All, Bool, [], false, filter, length, map, not, pos, refl, some, ◌++◌, ◌-◌, ◌∷◌, ◌≡◌,
}
use crypto_lakehouse.Result.{ok}
use crypto_lakehouse.Action.Ends.{Ends}
use crypto_lakehouse.Table.{Row}
use crypto_lakehouse.Ranking.{within}
use crypto_lakehouse.Ranking.Firsts.{row_winners}
use crypto_lakehouse.Backfill.{
  src_ranked, target_keys, missing, candidates, audit, is_some, is_complete,
}
use crypto_lakehouse.Backfill.Rows.{Appendable, missing-Appendable}
use crypto_lakehouse.Backfill.Audit.{audit-right}
use crypto_lakehouse.Backfill.Main.{Args, audited, main, print_columns}
use crypto_lakehouse.Tests.Lakes.{Storage}
use crypto_lakehouse.Tests.Tools.{
  scanned, connector, engine, numbers, env, archive, archived, a_day,
}

abbrev args : Bool → Args
args execute = record {
  from = "trades.archive";
  into = "trades.trades";
  start = pos 0;
  end_ = a_day;
  target_margin_days = pos 1;
  execute = execute;
  chunk_rows = 1000000;
  memory_mb = 8192;
  temp_dir = "/tmp/crypto-backfill";
  target_partitions = 8;
  explain = false;
}

-- Trade 3 is there already.
abbrev partly : Storage
partly = record { rows = archived 3 50 45 (some 8) ∷ []; broken = false }

abbrev filled : Storage
filled = record {
  rows = partly.rows ++ record (archived 1 20 10 (some 7)) { is_buyer_maker = some false } ∷ [];
  broken = false;
}

audit_runs :
    (main numbers env connector engine (args false) partly).0
    ≡ ok (
        audited (
          ("rows_in_window", 4)
          ∷ ("distinct_keys", 3)
          ∷ ("duplicate_rows", 1)
          ∷ ("maker_nulls", 3)
          ∷ ("rows_skipped_null", 1)
          ∷ ("rows_to_append", 1)
          ∷ []))
unfolding scanned main print_columns numbers
audit_runs = refl

missing-Appendable_example :
    Appendable
      (pos 0)
      a_day
      (pos 1)
      archive
      partly.rows
      (missing (src_ranked (pos 0) a_day archive) (target_keys (pos 0) a_day (pos 1) partly.rows))
missing-Appendable_example = missing-Appendable (pos 0) a_day (pos 1) archive partly.rows

audit-right_example :
    audit
      (src_ranked (pos 0) a_day archive)
      (missing (src_ranked (pos 0) a_day archive) (target_keys (pos 0) a_day (pos 1) partly.rows))
    ≡ ("rows_in_window", length (within (pos 0) a_day archive))
      ∷ ("distinct_keys", length (row_winners (within (pos 0) a_day archive)))
      ∷ (
        "duplicate_rows",
        length (within (pos 0) a_day archive) - length (row_winners (within (pos 0) a_day archive)),
      )
      ∷ (
        "maker_nulls",
        length (
            filter
              (λ (r : Row). not (is_some r.is_buyer_maker))
              (row_winners (within (pos 0) a_day archive))),
      )
      ∷ (
        "rows_skipped_null",
        length (
            filter (λ (r : Row). not (is_complete r)) (row_winners (within (pos 0) a_day archive))),
      )
      ∷ (
        "rows_to_append",
        length (
            candidates (
              missing
                (src_ranked (pos 0) a_day archive)
                (target_keys (pos 0) a_day (pos 1) partly.rows))),
      )
      ∷ []
audit-right_example = audit-right (pos 0) a_day (pos 1) archive partly.rows

candidates-Fits_example :
    let rows =
      missing (src_ranked (pos 0) a_day archive) (target_keys (pos 0) a_day (pos 1) partly.rows) in
    All (λ r. Fits table_schema.fields (columns r)) (candidates rows)
    × (candidates rows ≡ map restored rows)
candidates-Fits_example = candidates-Fits (pos 0) a_day (pos 1) archive partly.rows
