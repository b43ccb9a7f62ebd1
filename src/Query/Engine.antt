-- ===== src/Query/Engine.antt =====
-- What the tools of rustapps/crypto-iceberg-query/src/bin call to run a query: DataFusion over the catalog. A
-- query is given by its result, which the tool's own text determines; the engine yields it in batches,
-- or breaks off.
use crypto_lakehouse.Prelude.{
  All, Bool, Distinct, List, Option, String, [], all, int_eq, map, nat_eq, pos, some, string_eq,
  true, ℕ, ◌++◌, ◌∷◌, ◌≡◌, ◌⊎◌,
}
use crypto_lakehouse.Result.{Result, ok, is_ok}
use crypto_lakehouse.Table.{Row}
use crypto_lakehouse.Query.{Column, uint64, int64}
use crypto_lakehouse.Query.Session.{Libraries}
use crypto_lakehouse.Sink.Lake.{Laws, count}
use crypto_lakehouse.Sink.Connect.{Connector}
use crypto_lakehouse.Sink.Open.{TableIdent}
use crypto_lakehouse.Append.Open.{Names}
use crypto_lakehouse.Append.Chunks.{stream_rows}

-- A batch by the names of its columns.
abbrev pub Batch : Type 0
Batch = String → Option Column

pub record Engine (W : Type 0) : Type 1 where
  pub libraries : Libraries
  -- the rows of a table, in the order of a scan
  pub scan : libraries.Context → String → W → List Row
  -- `ctx.sql(..)` and `execute_stream()`, for a query with these rows
  pub execute_stream : libraries.Context → List Row → W → Result (List (Result (List Row)))
  -- `collect()` on what `ctx.sql(..)` made, for a query with one row of these counts
  pub collect : libraries.Context → List (String × ℕ) → W → Result (List Batch)
  -- `ctx.sql(..)` alone, and `explain` on what it made
  pub plan : libraries.Context → W → Result (Unit {0})
  pub show_plan : libraries.Context → W → Result (Unit {0})

-- A count in either type that DataFusion gives it.
abbrev pub Counts : Option Column → ℕ → Type 0
Counts column n = (column ≡ some (uint64 (n ∷ []))) ⊎ (column ≡ some (int64 (pos n ∷ [])))

-- A stream of the rows: all of them, or the first ones up to an error.
abbrev pub Streams : List Row → List (Result (List Row)) → Type 0
Streams rows stream =
    (rest : List Row) × (rows ≡ stream_rows stream ++ rest) × (all is_ok stream ≡ true → rest ≡ [])

-- The documented behaviour, while no other process commits: a scan of a table yields its committed rows in some
-- order.
pub record EngineLaws {W : Type 0} (X : Connector W) (laws : (i : TableIdent) → Laws (X.lake i))
    (E : Engine W) : Type 0 where
  pub scan_unchanged :
      (c : E.libraries.Context) (t : String) (w w' : W)
      → ((j : TableIdent) → (laws j).committed w' ≡ (laws j).committed w)
      → E.scan c t w' ≡ E.scan c t w
  pub scan_named :
      (c : E.libraries.Context) (t : String) (i : TableIdent) (w : W)
      → Names t i
      → (q : Row → Bool) → count q (E.scan c t w) ≡ count q ((laws i).committed w)
  pub execute_stream_ok :
      (c : E.libraries.Context) (rows : List Row) (w : W) (stream : List (Result (List Row)))
      → E.execute_stream c rows w ≡ ok stream
      → Streams rows stream
  pub collect_ok :
      (c : E.libraries.Context) (counts : List (String × ℕ)) (w : W) (batches : List Batch)
      → Distinct (map (λ (n : String × ℕ). n.0) counts)
      → E.collect c counts w ≡ ok batches
      → (batch : Batch) × (batches ≡ batch ∷ [])
        × All (λ (n : String × ℕ). Counts (batch n.0) n.1) counts
