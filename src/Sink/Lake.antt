-- ===== src/Sink/Lake.antt =====
-- What the sink calls and does not implement: the Iceberg catalog, the object store behind its writers,
-- the DataFusion session, the arrow library and the clock. `Lake` has the operations, `Laws` the
-- documented behaviour that theorems rely on.
use crypto_lakehouse.Prelude.{
  Bool, List, Option, String, [], any, false, filter, int_eq, length, map, nat_eq, none, not, some,
  string_eq, ℕ, ◌&&◌, ◌++◌, ◌+◌, ◌==◌, ◌∷◌, ◌≡◌,
}
use crypto_lakehouse.Result.{Result, ok, is_ok}
use crypto_lakehouse.Trade.{Key, key_eq}
use crypto_lakehouse.Table.{Row, sql_key}
use crypto_lakehouse.Sink.Pruning.{DataType, Expr, Group}
use crypto_lakehouse.Sink.Pruning.Filter.{Evaluator, Walks}

pub record FileTask : Type 0 where
  pub data_file_path : String
  pub file_size_in_bytes : ℕ

pub record Lake (World : Type 0) : Type 1 where
  -- a DataFusion session, the outside world, a loaded table, an arrow schema
  pub Ctx : Type 0
  pub Table : Type 0
  pub Schema : Type 0
  -- the writers
  pub Splitter : Type 0
  pub Location : Type 0
  pub Writer : Type 0
  pub PartitionKey : Type 0
  pub DataFile : Type 0
  pub same_partition : PartitionKey → PartitionKey → Bool
  pub partition : DataFile → PartitionKey
  pub file_size_in_bytes : DataFile → ℕ
  -- the clock
  pub now : World → ℕ × World
  pub sleep : ℕ → World → World
  -- the catalog, for the sink's table
  pub load_table : World → Result Table × World
  pub apply_fast_append : Table → List DataFile → Result (Unit {0})
  pub fast_append : World → Table → List DataFile → Result Table × World
  pub plan_files : World → Table → Expr → Result (List FileTask) × World
  pub total_data_files_property : Table → Option String
  pub parse_usize : String → Option ℕ
  -- arrow
  pub schema_to_arrow_schema : Table → Result Schema
  pub trade_ts_type : Schema → Option DataType
  pub try_new : Schema → List Row → Result (List Row)
  pub concat_batches : Schema → List (List Row) → Result (List Row)
  -- DataFusion
  pub register_batch : String → List Row → Ctx → Result (Unit {0}) × Ctx
  pub deregister_table : String → Ctx → Result (Unit {0}) × Ctx
  pub filter_table : Ctx → World → Expr → Result (Unit {0}) × World
  pub left_anti_join : String → Expr → Ctx → World → Result (List (List Row)) × World
  pub walk : List Group → List Group
  -- writing
  pub try_new_splitter : Table → Result Splitter
  pub split : Splitter → List Row → Result (List (PartitionKey × List Row))
  pub location_generator : Table → Result Location
  pub new_writer : Table → Location → Writer
  pub write : PartitionKey → List Row → Writer → World → Result Writer × World
  pub close : Writer → World → Result (List DataFile) × World

-- Two keys join.
abbrev pub joins : Option Key → Option Key → Bool
joins (some a) (some b) = a == b
joins _ _ = false

-- A committed row on the probe side joins with the row.
abbrev pub matched : (Expr → Row → Bool) → Expr → List Row → Row → Bool
matched holds p committed r = any (λ c. holds p c && joins (sql_key c) (sql_key r)) committed

abbrev pub concat_rows : List (List Row) → List Row
concat_rows [] = []
concat_rows (b ∷ bs) = b ++ concat_rows bs

-- How many rows pass the test.
abbrev pub count : (Row → Bool) → List Row → ℕ
count q rows = length (filter q rows)

abbrev pub part_rows : {K : Type 0} → List (K × List Row) → List Row
part_rows [] = []
part_rows ((k, rs) ∷ ps) = rs ++ part_rows ps

-- The documented behaviour of the catalog and the writers: the rows of the table's current snapshot
-- change by a fast append that succeeds, which adds the rows of its data files, and by nothing else.
pub record Laws {W : Type 0} (L : Lake W) : Type 0 where
  pub committed : W → List Row
  pub contents : L.DataFile → List Row
  pub committed-now : (w : W) → committed (L.now w).1 ≡ committed w
  pub committed-sleep : (n : ℕ) (w : W) → committed (L.sleep n w) ≡ committed w
  pub committed-load_table : (w : W) → committed (L.load_table w).1 ≡ committed w
  pub committed-plan_files :
      (w : W) (t : L.Table) (p : Expr) → committed (L.plan_files w t p).1 ≡ committed w
  pub committed-filter_table :
      (c : L.Ctx) (w : W) (p : Expr) → committed (L.filter_table c w p).1 ≡ committed w
  pub committed-left_anti_join :
      (n : String) (p : Expr) (c : L.Ctx) (w : W)
      → committed (L.left_anti_join n p c w).1 ≡ committed w
  pub committed-write :
      (k : L.PartitionKey) (rs : List Row) (x : L.Writer) (w : W)
      → committed (L.write k rs x w).1 ≡ committed w
  pub committed-close : (x : L.Writer) (w : W) → committed (L.close x w).1 ≡ committed w
  pub fast_append_ok :
      (w : W) (t t' : L.Table) (fs : List L.DataFile)
      → (L.fast_append w t fs).0 ≡ ok t'
      → committed (L.fast_append w t fs).1 ≡ committed w ++ concat_rows (map contents fs)
  pub fast_append_err :
      (w : W) (t : L.Table) (fs : List L.DataFile)
      → is_ok (L.fast_append w t fs).0 ≡ false
      → committed (L.fast_append w t fs).1 ≡ committed w
  -- arrow: a batch is checked against the schema, or batches are put together
  pub try_new_ok : (c : L.Schema) (rs out : List Row) → L.try_new c rs ≡ ok out → out ≡ rs
  pub concat_batches_ok :
      (c : L.Schema) (bs : List (List Row)) (out : List Row)
      → L.concat_batches c bs ≡ ok out
      → out ≡ concat_rows bs
  -- a session holds a batch under each name; a name that is taken is refused
  pub registered : L.Ctx → String → Option (List Row)
  pub register_batch_free :
      (n : String) (rs : List Row) (c : L.Ctx)
      → registered c n ≡ none
      → ((L.register_batch n rs c).0 ≡ ok tt) × (registered (L.register_batch n rs c).1 n ≡ some rs)
  pub register_batch_taken :
      (n : String) (rs old : List Row) (c : L.Ctx)
      → registered c n ≡ some old
      → (is_ok (L.register_batch n rs c).0 ≡ false) × ((L.register_batch n rs c).1 ≡ c)
  pub deregister_table_ok :
      (n : String) (rs : List Row) (c : L.Ctx)
      → registered c n ≡ some rs
      → ((L.deregister_table n c).0 ≡ ok tt) × (registered (L.deregister_table n c).1 n ≡ none)
  -- the probe: the expressions, the walk over a hash map, the anti-join with what is committed
  pub evaluator : Evaluator
  pub walks : Walks L.walk
  pub left_anti_join_ok :
      (n : String) (p : Expr) (c : L.Ctx) (w : W) (rs : List Row) (out : List (List Row))
      → registered c n ≡ some rs
      → (L.left_anti_join n p c w).0 ≡ ok out
      → (q : Row → Bool)
      → count q (concat_rows out)
        ≡ count q (filter (λ r. not (matched evaluator.holds p (committed w) r)) rs)
  -- a writer holds rows until it is closed; a split puts each row in one part
  pub pending : L.Writer → List Row
  pub split_ok :
      (x : L.Splitter) (rs : List Row) (ps : List (L.PartitionKey × List Row))
      → L.split x rs ≡ ok ps
      → (q : Row → Bool) → count q (part_rows ps) ≡ count q rs
  pub pending-new_writer :
      (t : L.Table) (l : L.Location) (q : Row → Bool) → count q (pending (L.new_writer t l)) ≡ 0
  pub write_ok :
      (k : L.PartitionKey) (rs : List Row) (x x' : L.Writer) (w : W)
      → (L.write k rs x w).0 ≡ ok x'
      → (q : Row → Bool) → count q (pending x') ≡ count q (pending x) + count q rs
  pub close_ok :
      (x : L.Writer) (w : W) (fs : List L.DataFile)
      → (L.close x w).0 ≡ ok fs
      → (q : Row → Bool) → count q (concat_rows (map contents fs)) ≡ count q (pending x)
