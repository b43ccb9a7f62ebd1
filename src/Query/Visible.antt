-- ===== src/Query/Visible.antt =====
-- `ensure_visible` of rustapps/crypto-iceberg-query/src/append.rs.
use crypto_lakehouse.Prelude.{List, Option, [], leb, none, some, ℕ, ◌∷◌}
use crypto_lakehouse.Result.{Result, ok, ◌>>=◌, ◌>>◌, with_context, or_fail, ensure}
use crypto_lakehouse.Query.{Column, count_from}

abbrev pub first : List (Option Column) → Option (Option Column)
first [] = none
first (batch ∷ rest) = some batch

-- The count read back, given as the answer of the query: the column `visible` of each batch. A count below
-- what was written is refused.
unfoldable pub ensure_visible : Result (List (Option Column)) → ℕ → Result ℕ
unfolding count_from
ensure_visible query written = do
  batches ← with_context "failed to read the range back" query
  column ← or_fail (first batches) "verification read returned no rows"
  visible ← count_from column
  ensure (leb written visible) "some written rows are not readable in the range"
  ok visible
