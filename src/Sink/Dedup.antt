-- ===== src/Sink/Dedup.antt =====
-- The dedup probe of rustapps/crypto-batcher/src/sink.rs: `probe_stats`, `dedup_probe`,
-- `deduped_batch`, with `partition_dirs` and `total_data_files`.
pub mod Session
use crypto_lakehouse.Prelude.{
  Bool, List, String, [], contains, count_distinct, false, filter, if◌then◌else◌, int_eq, length,
  map, nat_beq, nat_eq, none, some, string_eq, sum_of, true, u64_mod, ℕ, ◌%◌, ◌&&◌, ◌++◌, ◌∷◌,
}
use Prim.Native.Char.{Char, code}
use crypto_lakehouse.Result.{Result, ok, err}
use crypto_lakehouse.Action.{Action, ◌>>=◌, ◌>>◌, pure, lift, gets, with_context, under}
use crypto_lakehouse.Table.{Row}
use crypto_lakehouse.Sink.Stats.{ProbeStats}
use crypto_lakehouse.Sink.Pruning.{Expr, build_pruning_expr}
use crypto_lakehouse.Sink.Lake.{Lake, FileTask}
use crypto_lakehouse.Sink.State.{Sink, outside, in_session}

abbrev pub codes : String → List ℕ
codes String.[] = []
codes (String.◌∷◌ c s) = code c ∷ codes s

abbrev pub same_codes : List ℕ → List ℕ → Bool
same_codes [] [] = true
same_codes (x ∷ xs) (y ∷ ys) = nat_beq x y && same_codes xs ys
same_codes _ _ = false

unfoldable pub prepend : ℕ → List (List ℕ) → List (List ℕ)
prepend x [] = (x ∷ []) ∷ []
prepend x (s ∷ ss) = (x ∷ s) ∷ ss

-- `str::split` by one character: the segments, of which there is always one.
unfoldable pub split_by : ℕ → List ℕ → List (List ℕ)
unfolding prepend
split_by sep [] = [] ∷ []
split_by sep (c ∷ cs) =
    let rest = split_by sep cs in if nat_beq c sep then [] ∷ rest else prepend c rest

-- `join("/")`.
join_by : ℕ → List (List ℕ) → List ℕ
join_by sep [] = []
join_by sep (s ∷ []) = s
join_by sep (s ∷ (t ∷ ts)) = s ++ (sep ∷ join_by sep (t ∷ ts))

-- The segments of a path that contain `=`, joined again: its partition directories. 47 and 61 are the
-- codes of `/` and `=`.
unfoldable pub partition_dirs : List ℕ → List ℕ
unfolding split_by join_by
partition_dirs path = join_by 47 (filter (λ s. contains s 61) (split_by 47 path))

module _ {W : Type 0} (L : Lake W) where
  -- The property of the current snapshot, parsed; 0 where it is missing or no number.
  unfoldable pub total_data_files : L.Table → ℕ
  total_data_files table = elim (L.total_data_files_property table) [
    | none ↦ 0
    | some text ↦ elim (L.parse_usize text) [ none ↦ 0 | some n ↦ n ]
  ]

  abbrev file_dirs : FileTask → List ℕ
  file_dirs task = partition_dirs (codes task.data_file_path)

  unfoldable pub probe_stats : Expr → Action (Sink L) ProbeStats
  unfolding total_data_files
  probe_stats pruning = do
    table ← with_context "failed to load table for probe statistics" (outside L L.load_table)
    tasks ← outside L (λ w. L.plan_files w table pruning)
    pure (record {
      files_opened = length tasks;
      partitions_opened = count_distinct same_codes (map file_dirs tasks);
      bytes_opened = sum_of (λ (t : FileTask). t.file_size_in_bytes) tasks % u64_mod;
      data_files = total_data_files table;
    })

  -- The restriction of the committed rows, and its cost.
  unfoldable pub dedup_probe : List Row → L.Schema → Action (Sink L) (Expr × ProbeStats)
  unfolding probe_stats
  dedup_probe incoming schema = do
    pruning ← lift (build_pruning_expr L.walk (L.trade_ts_type schema) incoming)
    probe ← probe_stats pruning
    c ← gets (λ s. s.ctx)
    outside L (λ w. L.filter_table c w pruning)
    pure (pruning, probe)

  -- The join of the batch that is registered as `incoming`.
  abbrev pub anti_join : Expr → Action (Sink L) (List (List Row))
  anti_join cand = do c ← gets (λ s. s.ctx); outside L (L.left_anti_join "incoming" cand c)

  unfoldable pub deduped_batch :
      List Row → L.Schema → Action (Sink L) (List (List Row) × ProbeStats)
  unfolding dedup_probe
  deduped_batch incoming schema = do
    in_session L (L.register_batch "incoming" incoming)
    found ← dedup_probe incoming schema
    out ← anti_join found.0
    in_session L (L.deregister_table "incoming")
    pure (out, found.1)
