-- ===== src/Tests/Tools/Rewrites.antt =====
-- The deduplication tool over the archive.
use crypto_lakehouse.Prelude.{
  Option, String, [], add_u64, arith, false, length, none, pos, refl, some, true, u64_mod, ◌*◌,
  ◌++◌, ◌+◌, ◌<◌, ◌∷◌, ◌≡◌,
}
use crypto_lakehouse.Result.{ok}
use crypto_lakehouse.Deduplication.{
  Args, audited, rewrote, ranked, rewrite, main, run_rewrite, dispatch, checked_target,
}
use crypto_lakehouse.Tests.Lakes.{Storage}
use crypto_lakehouse.Query.Answers.{read_back}
use crypto_lakehouse.Sink.Write.{arrow_schema, append_records}
use crypto_lakehouse.Sink.Commit.{commit}
use crypto_lakehouse.Action.Ends.{Ends}
use crypto_lakehouse.Sink.Lake.{count}
use crypto_lakehouse.Deduplication.Kept.{KeepsFirsts, rewrite-KeepsFirsts}
use crypto_lakehouse.Deduplication.Runs.{kept, rerun-doubles}
use crypto_lakehouse.Append.Open.{split_once}
use crypto_lakehouse.Tests.Tools.{
  scanned, laws, trades, connector, connector_laws, engine, engine_laws, numbers, env, empty,
  archive, archived, a_day,
}

abbrev args : Option String → Args
args into = record {
  table = "trades.archive";
  start = pos 0;
  end_ = a_day;
  insert_into = into;
  chunk_rows = 2;
  memory_mb = 2048;
  temp_dir = "/tmp/crypto-dedup";
  target_partitions = 8;
  explain = false;
}

rewrite_runs :
    rewrite (ranked (pos 0) a_day archive)
    ≡ archived 1 20 10 (some 7) ∷ archived 2 40 35 none ∷ archived 3 50 45 (some 8) ∷ []
unfolding scanned rewrite ranked
rewrite_runs = refl

audit_runs : (main numbers env connector engine (args none) empty).0 ≡ ok (audited 4 1)
unfolding scanned main dispatch checked_target read_back numbers
audit_runs = refl

main_runs :
    (main numbers env connector engine (args (some "trades.trades")) empty).0 ≡ ok (rewrote 3 3)
unfolding scanned main dispatch checked_target read_back numbers arrow_schema add_u64 append_records
    commit
main_runs = refl

rewrite-KeepsFirsts_example :
    KeepsFirsts (pos 0) a_day archive (rewrite (ranked (pos 0) a_day archive))
rewrite-KeepsFirsts_example = rewrite-KeepsFirsts (pos 0) a_day archive

abbrev into_trades : Args
into_trades = args (some "trades.trades")

few_kept :
    (c : Unit {0})
    → length (kept numbers env connector laws connector_laws engine engine_laws c into_trades empty)
      < u64_mod
unfolding scanned rewrite ranked
few_kept c = omega arith

abbrev once : Storage
once = record {
  rows = archived 1 20 10 (some 7) ∷ archived 2 40 35 none ∷ archived 3 50 45 (some 8) ∷ [];
  broken = false;
}

abbrev twice : Storage
twice = record { rows = once.rows ++ once.rows; broken = false }

first_run :
    run_rewrite numbers env connector engine tt into_trades "trades.trades" empty
    ≡ (ok (rewrote 3 3), once)
unfolding scanned run_rewrite read_back numbers arrow_schema add_u64 append_records commit
first_run = refl

second_run :
    run_rewrite numbers env connector engine tt into_trades "trades.trades" once
    ≡ (ok (rewrote 3 6), twice)
unfolding scanned run_rewrite read_back numbers arrow_schema add_u64 append_records commit
second_run = refl

rerun-doubles_example :
    count (λ r. true) ((laws trades).committed twice)
    ≡ count (λ r. true) ((laws trades).committed empty)
      + 2
        * count
            (λ r. true)
            (kept numbers env connector laws connector_laws engine engine_laws tt into_trades empty)
unfolding scanned split_once
rerun-doubles_example =
    rerun-doubles numbers env connector laws connector_laws engine engine_laws tt into_trades
      "trades.trades" trades empty once twice 3 3 3 6 (few_kept tt) refl refl first_run second_run
      (λ r. true)
