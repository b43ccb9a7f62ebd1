-- ===== src/Append.antt =====
-- `stream_into` and `flush` of rustapps/crypto-iceberg-query/src/append.rs. The query is a parameter: it
-- cannot be planned or started, or it yields a stream of batches, any of which may be an error.
pub mod Records
pub mod Open
pub mod Destination
pub mod Complete
pub mod Through
pub mod Chunks
use crypto_lakehouse.Prelude.{
  List, [], add_u64, if◌then◌else◌, leb, length, ltb, u64_mod, ℕ, ◌%◌, ◌++◌, ◌∷◌,
}
use crypto_lakehouse.Result.{Result, ok, err}
use crypto_lakehouse.Action.{Action, ◌>>=◌, ◌>>◌, pure, lift, gets, with_context, under, resume}
use crypto_lakehouse.Table.{Row}
use crypto_lakehouse.Sink.Lake.{Lake}
use crypto_lakehouse.Sink.State.{Sink}
use crypto_lakehouse.Sink.Write.{arrow_schema, append_records}

module _ {W : Type 0} (L : Lake W) where
  -- What is buffered, as one snapshot; the rows that were committed. All batches of the buffer have the
  -- schema. The counter of the chunks is only printed.
  unfoldable pub flush : L.Schema → List (List Row) → Action (Sink L) ℕ
  flush schema buffer = do
    batch ← lift (L.concat_batches schema buffer)
    stats ← append_records L batch
    pure (stats.rows % u64_mod)

  -- The loop over the stream, with the buffer, the number of rows in it, and the rows written so far.
  unfoldable pub stream_loop :
      L.Schema → ℕ → List (Result (List Row)) → List (List Row) → ℕ → ℕ → Action (Sink L) ℕ
  unfolding flush
  stream_loop schema chunk_rows [] buffer buffered written =
      if ltb 0 buffered
      then (do n ← flush schema buffer; pure (add_u64 written n))
      else pure written
  stream_loop schema chunk_rows (next ∷ stream) buffer buffered written = do
    columns ← with_context "append query failed" (lift next)
    batch ←
        with_context "query output does not match the destination schema"
          (lift (L.try_new schema columns))
    let buffer' = buffer ++ batch ∷ []
    let buffered' = add_u64 buffered (length columns)
    if leb chunk_rows buffered'
        then (do
          n ← flush schema buffer'
          stream_loop schema chunk_rows stream [] 0 (add_u64 written n))
        else stream_loop schema chunk_rows stream buffer' buffered' written

  unfoldable pub stream_into : Result (List (Result (List Row))) → ℕ → Action (Sink L) ℕ
  unfolding stream_loop
  stream_into query chunk_rows = do
    schema ← arrow_schema L
    stream ← with_context "failed to plan the append query" (lift query)
    stream_loop schema chunk_rows stream [] 0 0
