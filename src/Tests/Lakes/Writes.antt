-- ===== src/Tests/Lakes/Writes.antt =====
-- Tests of the writes of the sink, and of the appends of a query.
use crypto_lakehouse.Prelude.{
  List, [], add_u64, all, any, arith, false, inl, inr, length, map, max, nat_beq_iff, none, pos,
  refl, some, true, ◌+◌, ◌∷◌, ◌≡◌,
}
use crypto_lakehouse.Result.{Result, ok, err, message, is_ok}
use crypto_lakehouse.Action.Ends.{Ends}
use crypto_lakehouse.Table.{Row, sql_key}
use crypto_lakehouse.Schema.{to_row, to_record_batch}
use crypto_lakehouse.Sink.Lake.{joins}
use crypto_lakehouse.Sink.State.{Sink}
use crypto_lakehouse.Sink.Pruning.{
  Expr, microsecond, build_pruning_expr, and_, eq, col, lit, utf8, gt_eq, time, lt_eq,
}
use crypto_lakehouse.Sink.Pruning.Filter.{Within, pruning-covers, pruning-Within}
use crypto_lakehouse.Sink.Dedup.{deduped_batch}
use crypto_lakehouse.Sink.Commit.{commit, commit_loop}
use crypto_lakehouse.Sink.Commit.Retries.{Fresh, commit-rounds, commit_succeeds}
use crypto_lakehouse.Sink.Write.{arrow_schema, write_batch, append_records}
use crypto_lakehouse.Sink.Write.Batch.{Adds, Unchanged, write_batch-Ends}
use crypto_lakehouse.Sink.Write.Redelivery.{write_batch_complete, write_batch-again}
use crypto_lakehouse.Append.{stream_into}
use crypto_lakehouse.Append.Complete.{stream_into-Whole}
use crypto_lakehouse.Pipeline.{write}
use crypto_lakehouse.Pipeline.Stalled.{run-stalled}
use crypto_lakehouse.Batcher.Run.{run}
use crypto_lakehouse.Tests.{no_acks, counting}
use crypto_lakehouse.Tests.Lakes.Loop.{policy, schedule}
use crypto_lakehouse.Append.Chunks.{WroteAll, WroteSome, stream_rows}
use crypto_lakehouse.Tests.{trade, two_trades}
use crypto_lakehouse.Tests.Lakes.{held_laws, memory, memory_laws, evaluator}

-- One trade of the batch is committed already, and the sink's table is one commit behind.
abbrev sink : Sink memory
sink = record {
  ctx = none;
  world = record { rows = to_row (trade 1 1700000000000) ∷ []; broken = false };
  table = 0;
  commit_retries = 5;
}

abbrev broken_sink : Sink memory
broken_sink = record sink { world = record sink.world { broken = true } }

abbrev one_file : List (List Row)
one_file = (to_row (trade 3 1700000002000) ∷ []) ∷ []

write_batch-Ends_example :
    Ends
      (λ _. Adds memory memory_laws two_trades sink)
      (Unchanged memory memory_laws sink)
      (write_batch memory two_trades sink)
unfolding held_laws
write_batch-Ends_example =
    write_batch-Ends memory memory_laws (trade 1 1700000000000) (trade 2 1700000001000 ∷ []) sink
      refl

write_batch-again_example :
    memory_laws.committed
      (write_batch memory two_trades (write_batch memory two_trades sink).1).1.world
    ≡ memory_laws.committed (write_batch memory two_trades sink).1.world
unfolding held_laws write_batch build_pruning_expr to_record_batch commit
write_batch-again_example =
    write_batch-again memory memory_laws two_trades sink refl (λ schema has. refl) refl

write_batch_complete_example :
    any
      (λ c. joins (sql_key c) (sql_key (to_row (trade 2 1700000001000))))
      (memory_laws.committed (write_batch memory two_trades sink).1.world)
    ≡ true
unfolding held_laws write_batch build_pruning_expr to_record_batch commit
write_batch_complete_example =
    write_batch_complete memory memory_laws two_trades sink (trade 2 1700000001000) refl refl
      (inr (inl refl))

-- The predicate of the two trades.
abbrev probe : Expr
probe =
    and_
      (and_ (eq (col "exchange") (lit (utf8 "BINANCE")))
        (gt_eq (col "trade_ts") (lit (time microsecond (pos 1700000000000000)))))
      (lt_eq (col "trade_ts") (lit (time microsecond (pos 1700000001000000))))

pruning-covers_example : evaluator.holds probe (to_row (trade 9 1700000000000)) ≡ true
unfolding build_pruning_expr to_row evaluator
pruning-covers_example =
    pruning-covers evaluator (λ gs. gs) (map to_row two_trades) probe
      (to_row (trade 1 1700000000000)) (to_row (trade 9 1700000000000)) "BINANCE"
      (pos 1700000000000000) (record { any-iter = λ q gs. refl }) refl (inl refl)
      ("BTCUSDT", refl, refl, refl) refl refl

pruning-Within_example : Within (map to_row two_trades) (to_row (trade 9 1700000000500))
unfolding build_pruning_expr to_row evaluator
pruning-Within_example =
    pruning-Within evaluator (λ gs. gs) (map to_row two_trades) probe
      (to_row (trade 9 1700000000500)) (record { any-iter = λ q gs. refl })
      ((refl, tt), ((refl, tt), tt)) refl refl

run-stalled_example :
    let b =
      (run
        (write memory memory_laws counting)
        counting
        policy
        (deduped_batch memory (map to_row two_trades) tt broken_sink).1
        no_acks
        schedule).1 in
    (b.acks ≡ no_acks)
    × (memory_laws.committed b.sink.world ≡ memory_laws.committed broken_sink.world)
    × (memory_laws.registered b.sink.ctx "incoming" ≡ some (map to_row two_trades))
unfolding held_laws deduped_batch build_pruning_expr to_row
run-stalled_example =
    run-stalled memory memory_laws counting (map to_row two_trades) tt broken_sink policy no_acks
      schedule refl refl

commit-rounds_example :
    commit_loop memory (3 + max 5 1) 0 one_file sink ≡ commit memory one_file sink
commit-rounds_example = commit-rounds memory 3 one_file sink (λ e. cc)

length_rows_fresh : Fresh memory
length_rows_fresh w = (
  length w.rows,
  refl,
  λ fs. ground (arith, (nat_beq_iff (length w.rows) (length w.rows)).1 refl),
)

commit_succeeds_example : is_ok (commit memory one_file sink).0 ≡ true
commit_succeeds_example = commit_succeeds memory one_file sink length_rows_fresh (omega arith)

-- A query that yields three rows and then fails.
abbrev stream : List (Result (List Row))
stream =
    ok (map to_row two_trades)
    ∷ ok (to_row (trade 4 1700000003000) ∷ [])
    ∷ err (message "connection reset")
    ∷ []

stream_into-Whole_example :
    Ends
      (λ n s'.
        (all is_ok stream ≡ true) × WroteAll memory memory_laws (stream_rows stream) 0 sink n s')
      (WroteSome memory memory_laws (stream_rows stream) sink)
      (stream_into memory (ok stream) 2 sink)
stream_into-Whole_example = stream_into-Whole memory memory_laws stream 2 sink (omega arith)

stream_into_fails :
    length (memory_laws.committed (stream_into memory (ok stream) 2 sink).1.world) ≡ 3
unfolding held_laws stream_into arrow_schema add_u64 append_records commit
stream_into_fails = refl
