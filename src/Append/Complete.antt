-- ===== src/Append/Complete.antt =====
-- A streamed append that succeeds has seen the whole stream.
use crypto_lakehouse.Prelude.{
  List, [], add_u64, all, if_cases, leb, length, refl, true, u64_mod, ℕ, ◌++◌, ◌<◌, ◌∷◌, ◌≡◌,
}
use crypto_lakehouse.Result.{Result, ok, err, is_ok}
use crypto_lakehouse.Action.{Action, resume, under}
use crypto_lakehouse.Table.{Row}
use crypto_lakehouse.Sink.Lake.{Lake, Laws}
use crypto_lakehouse.Sink.State.{Sink}
use crypto_lakehouse.Sink.Write.{arrow_schema}
use crypto_lakehouse.Action.Ends.{Ends}
use crypto_lakehouse.Append.Chunks.{stream_rows, WroteAll, WroteSome, stream_into-Ends}
use crypto_lakehouse.Append.{flush, stream_loop, stream_into}

module _ {W : Type 0} (L : Lake W) where
  only_then :
      {A B : Type 0} (P : Type 0) (r : Result A × Sink L) (f : A → Action (Sink L) B)
      → ((a : A) (s : Sink L) → is_ok (f a s).0 ≡ true → P)
      → is_ok (resume f r).0 ≡ true
      → P
  only_then P (ok a, s) f k h = k a s h
  only_then P (err e, s) f k h = cc

  stream_loop_complete :
      (schema : L.Schema) (chunk_rows : ℕ) (stream : List (Result (List Row)))
      (buffer : List (List Row)) (buffered written : ℕ) (s : Sink L)
      → is_ok (stream_loop L schema chunk_rows stream buffer buffered written s).0 ≡ true
      → all is_ok stream ≡ true
  unfolding stream_loop
  stream_loop_complete schema chunk_rows [] buffer buffered written s h = refl
  stream_loop_complete schema chunk_rows (err e ∷ stream) buffer buffered written s h = cc
  stream_loop_complete schema chunk_rows (ok columns ∷ stream) buffer buffered written s h =
      only_then (all is_ok stream ≡ true) (under _ (L.try_new schema columns), s) _
        (λ batch s1 h1.
          if_cases (λ (m : Action (Sink L) ℕ). is_ok (m s1).0 ≡ true → all is_ok stream ≡ true)
            (leb chunk_rows (add_u64 buffered (length columns))) _ _
            (λ _ k.
              only_then (all is_ok stream ≡ true) (flush L schema (buffer ++ batch ∷ []) s1) _
                (λ n s2. stream_loop_complete schema chunk_rows stream [] 0 (add_u64 written n) s2)
                k)
            (λ _ k. stream_loop_complete schema chunk_rows stream _ _ written s1 k) h1)
        h

  pub stream_into_complete :
      (stream : List (Result (List Row))) (chunk_rows : ℕ) (s : Sink L)
      → is_ok (stream_into L (ok stream) chunk_rows s).0 ≡ true
      → all is_ok stream ≡ true
  unfolding stream_into arrow_schema
  stream_into_complete stream chunk_rows s h =
      only_then (all is_ok stream ≡ true) (under _ (L.schema_to_arrow_schema s.table), s) _
        (λ schema s1 k. stream_loop_complete schema chunk_rows stream [] 0 0 s1 k) h

module _ {W : Type 0} (L : Lake W) (laws : Laws L) where
  -- Of a query whose rows, fewer than 2 ^ 64, come as a stream of batches: a streamed append that returns has seen
  -- a stream without an error, has committed the rows of all its batches, once each, and returns their
  -- number, whatever the size of the chunks. One that fails, on an error of the stream or at any step of
  -- its own, has committed first rows of those before the stream's first error, and no other.
  pub stream_into-Whole :
      (stream : List (Result (List Row))) (chunk_rows : ℕ) (s : Sink L)
      → length (stream_rows stream) < u64_mod
      → Ends
          (λ n s'. (all is_ok stream ≡ true) × WroteAll L laws (stream_rows stream) 0 s n s')
          (WroteSome L laws (stream_rows stream) s)
          (stream_into L (ok stream) chunk_rows s)
  stream_into-Whole stream chunk_rows s fits =
      both (stream_into L (ok stream) chunk_rows s)
        (stream_into-Ends L laws stream chunk_rows s fits)
        (stream_into_complete L stream chunk_rows s)
    where
      both :
          (r : Result ℕ × Sink L)
          → Ends
              (WroteAll L laws (stream_rows stream) 0 s)
              (WroteSome L laws (stream_rows stream) s)
              r
          → (is_ok r.0 ≡ true → all is_ok stream ≡ true)
          → Ends
              (λ n s'. (all is_ok stream ≡ true) × WroteAll L laws (stream_rows stream) 0 s n s')
              (WroteSome L laws (stream_rows stream) s)
              r
      both (ok n, s') h whole = (whole refl, h)
      both (err e, s') h whole = h
