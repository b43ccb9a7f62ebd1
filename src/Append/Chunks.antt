-- ===== src/Append/Chunks.antt =====
-- What a streamed append commits.
use crypto_lakehouse.Prelude.{
  List, [], add_u64, ap, append-nil, append_assoc, arith, false, if_cases, leb, length,
  length-append, ltb, refl, sym, u64_mod, ℕ, ◌%◌, ◌++◌, ◌+◌, ◌<◌, ◌∙◌, ◌∷◌, ◌≡◌,
}
use crypto_lakehouse.Result.{Result, ok, err}
use crypto_lakehouse.Action.{Action, pure, under}
use crypto_lakehouse.Action.Ends.{Ends, Ends-step, Ends-resume, Ends-weaken, under-ok}
use crypto_lakehouse.Table.{Row}
use crypto_lakehouse.Sink.Lake.{Lake, Laws, count, concat_rows}
use crypto_lakehouse.Sink.State.{Sink}
use crypto_lakehouse.Sink.Write.{arrow_schema, append_records}
use crypto_lakehouse.Sink.Write.Records.{count-append}
use crypto_lakehouse.Sink.Write.Batch.{Unchanged}
use crypto_lakehouse.Append.{flush, stream_loop, stream_into}
use crypto_lakehouse.Append.Records.{Appended, AppendedStats, append_records-Ends}

-- The rows of the batches of a stream, up to an error.
abbrev pub stream_rows : List (Result (List Row)) → List Row
stream_rows [] = []
stream_rows (ok rows ∷ rest) = rows ++ stream_rows rest
stream_rows (err e ∷ rest) = []

module _ {W : Type 0} (L : Lake W) (laws : Laws L) where
  open laws use {committed, contents}

  -- A flush writes one snapshot, or nothing.
  abbrev Flushed : List Row → Sink L → ℕ → Sink L → Type 0
  Flushed rows before n s = (n ≡ length rows % u64_mod) × Appended L laws rows before s

  flush-Ends :
      (schema : L.Schema) (buffer : List (List Row)) (s : Sink L)
      → Ends (Flushed (concat_rows buffer) s) (Unchanged L laws s) (flush L schema buffer s)
  unfolding flush
  flush-Ends schema buffer s =
      Ends-step (Flushed (concat_rows buffer) s) (Unchanged L laws s)
        (L.concat_batches schema buffer) s _ (λ _. refl)
        (λ batch made.
          let same = laws.concat_batches_ok schema buffer batch made in
          Ends-resume (Flushed (concat_rows buffer) s) (Unchanged L laws s)
            (AppendedStats L laws batch s) (append_records L batch s) _
            (append_records-Ends L laws batch s)
            (λ stats s' h. (
              ap (λ n. n % u64_mod) (h.0 ∙ ap length same),
              (h.1.0, λ q. h.1.1 q ∙ ap (count q) same, h.1.2),
            )))

  Appended-trans :
      (xs ys : List Row) (s s1 s2 : Sink L)
      → Appended L laws xs s s1
      → Appended L laws ys s1 s2
      → Appended L laws (xs ++ ys) s s2
  Appended-trans xs ys s s1 s2 a b = (
    a.0 ++ b.0,
    λ q. omega (arith, a.1 q, b.1 q, count-append q a.0 b.0, count-append q xs ys),
    b.2 ∙ ap (λ zs. zs ++ b.0) a.2 ∙ append_assoc (committed s.world) a.0 b.0,
  )

  -- All the rows, and how many.
  abbrev pub WroteAll : List Row → ℕ → Sink L → ℕ → Sink L → Type 0
  WroteAll rows written before n s = (n ≡ written + length rows) × Appended L laws rows before s

  -- Some of them, in the order of the stream.
  abbrev pub WroteSome : List Row → Sink L → Sink L → Type 0
  WroteSome rows before s =
      (taken : List Row) × (left : List Row) × (rows ≡ taken ++ left)
      × Appended L laws taken before s

  WroteSome-none : (rows : List Row) (s s' : Sink L) → Unchanged L laws s s' → WroteSome rows s s'
  WroteSome-none rows s s' h =
      ([], rows, refl, ([], λ q. refl, h ∙ sym (append-nil (committed s.world))))

  concat_rows-snoc :
      (bs : List (List Row)) (b : List Row) → concat_rows (bs ++ b ∷ []) ≡ concat_rows bs ++ b
  concat_rows-snoc [] b = append-nil b
  concat_rows-snoc (x ∷ bs) b =
      ap (λ zs. x ++ zs) (concat_rows-snoc bs b) ∙ sym (append_assoc x (concat_rows bs) b)

  shift :
      (buffer : List (List Row)) (columns rest : List Row)
      → concat_rows (buffer ++ columns ∷ []) ++ rest ≡ concat_rows buffer ++ (columns ++ rest)
  shift buffer columns rest =
      ap (λ zs. zs ++ rest) (concat_rows-snoc buffer columns)
      ∙ append_assoc (concat_rows buffer) columns rest

  -- The chunks before, and then the rest of the stream.
  resumed :
      (xs ys all : List Row) (written n : ℕ) (s s1 : Sink L) (r : Result ℕ × Sink L)
      → xs ++ ys ≡ all
      → written + length all < u64_mod
      → Flushed xs s n s1
      → Ends (WroteAll ys (add_u64 written n) s1) (WroteSome ys s1) r
      → Ends (WroteAll all written s) (WroteSome all s) r
  unfolding add_u64
  resumed xs ys all written n s s1 r same fits flushed =
      Ends-weaken {S = Sink L} {A = ℕ} {P = WroteAll ys (add_u64 written n) s1}
        {P' = WroteAll all written s} {Q = WroteSome ys s1} {Q' = WroteSome all s} r
        (λ m s2 h. (
          omega (arith, h.0, flushed.0, fits, sizes),
          rw same at (Appended-trans xs ys s s1 s2 flushed.1 h.1),
        ))
        (λ s2 h. (
          xs ++ h.0,
          h.1,
          sym same ∙ ap (λ zs. xs ++ zs) h.2 ∙ sym (append_assoc xs h.0 h.1),
          Appended-trans xs h.0 s s1 s2 flushed.1 h.3,
        ))
    where
      sizes : length all ≡ length xs + length ys
      sizes = ap length (sym same) ∙ length-append xs ys

  flush-Some :
      (schema : L.Schema) (buffer : List (List Row)) (all : List Row) (s : Sink L)
      → Ends (Flushed (concat_rows buffer) s) (WroteSome all s) (flush L schema buffer s)
  flush-Some schema buffer all s =
      Ends-weaken {S = Sink L} {A = ℕ} {P = Flushed (concat_rows buffer) s}
        {P' = Flushed (concat_rows buffer) s} {Q = Unchanged L laws s} {Q' = WroteSome all s}
        (flush L schema buffer s) (λ _ _ h. h) (λ s' h. WroteSome-none all s s' h)
        (flush-Ends schema buffer s)

  empty_rows : (n : ℕ) (xs : List Row) → ltb 0 n ≡ false → n ≡ length xs → xs ≡ []
  empty_rows n [] h e = refl
  empty_rows n (x ∷ xs) h e = ground (arith, h, e)

  length-snoc :
      (buffer : List (List Row)) (columns : List Row)
      → length (concat_rows (buffer ++ columns ∷ [])) ≡ length (concat_rows buffer) + length columns
  length-snoc buffer columns =
      ap length (concat_rows-snoc buffer columns) ∙ length-append (concat_rows buffer) columns

  length-three :
      (xs ys zs : List Row) → length (xs ++ (ys ++ zs)) ≡ length xs + (length ys + length zs)
  length-three xs ys zs =
      length-append xs (ys ++ zs) ∙ ap (λ n. length xs + n) (length-append ys zs)

  no_rows_left :
      (rows : List Row) (written : ℕ) (s : Sink L)
      → rows ≡ []
      → Ends (WroteAll rows written s) (WroteSome rows s) (pure {S = Sink L} written s)
  no_rows_left rows written s e = (
    omega (arith, ap length e),
    ([], λ q. sym (ap (count q) e), sym (append-nil (committed s.world))),
  )

  stream_loop-Ends :
      (schema : L.Schema) (chunk_rows : ℕ) (stream : List (Result (List Row)))
      (buffer : List (List Row)) (buffered written : ℕ) (s : Sink L)
      → buffered ≡ length (concat_rows buffer)
      → written + length (concat_rows buffer ++ stream_rows stream) < u64_mod
      → Ends
          (WroteAll (concat_rows buffer ++ stream_rows stream) written s)
          (WroteSome (concat_rows buffer ++ stream_rows stream) s)
          (stream_loop L schema chunk_rows stream buffer buffered written s)
  unfolding stream_loop add_u64
  stream_loop-Ends schema chunk_rows [] buffer buffered written s size fits =
      if_cases (λ (m : Action (Sink L) ℕ). Ends (WroteAll all written s) (WroteSome all s) (m s))
        (ltb 0 buffered) _ _
        (λ _.
          Ends-resume (WroteAll all written s) (WroteSome all s) (Flushed (concat_rows buffer) s)
            (flush L schema buffer s) _ (flush-Some schema buffer all s)
            (λ n s1 flushed.
              resumed (concat_rows buffer) [] all written n s s1 (ok (add_u64 written n), s1) refl
                fits flushed (omega arith, ([], λ q. refl, sym (append-nil (committed s1.world))))))
        (λ none.
          no_rows_left all written s
            (ap (λ zs. zs ++ []) (empty_rows buffered (concat_rows buffer) none size)))
    where
      all : List Row
      all = concat_rows buffer ++ []
  stream_loop-Ends schema chunk_rows (err e ∷ stream) buffer buffered written s size fits =
      WroteSome-none _ s s refl
  stream_loop-Ends schema chunk_rows (ok columns ∷ stream) buffer buffered written s size fits =
      Ends-step (WroteAll all written s) (WroteSome all s) (under _ (L.try_new schema columns)) s _
        (λ _. WroteSome-none all s s refl)
        (λ batch made. rw (laws.try_new_ok schema columns batch (under-ok _ _ made)) (
          if_cases
            (λ (m : Action (Sink L) ℕ). Ends (WroteAll all written s) (WroteSome all s) (m s))
            (leb chunk_rows (add_u64 buffered (length columns))) _ _
            (λ _.
              Ends-resume (WroteAll all written s) (WroteSome all s)
                (Flushed (concat_rows (buffer ++ columns ∷ [])) s)
                (flush L schema (buffer ++ columns ∷ []) s) _
                (flush-Some schema (buffer ++ columns ∷ []) all s)
                (λ n s1 flushed.
                  resumed (concat_rows (buffer ++ columns ∷ [])) (stream_rows stream) all written n
                    s s1 _ (shift buffer columns (stream_rows stream)) fits flushed
                    (stream_loop-Ends schema chunk_rows stream [] 0 (add_u64 written n) s1 refl
                      (left_fits n flushed.0))))
            (λ _. rw (shift buffer columns (stream_rows stream)) at (
              stream_loop-Ends schema chunk_rows stream (buffer ++ columns ∷ [])
                (add_u64 buffered (length columns)) written s
                (omega (
                  arith,
                  size,
                  fits,
                  length-snoc buffer columns,
                  length-three (concat_rows buffer) columns (stream_rows stream),
                ))
                (rw (ap length (sym (shift buffer columns (stream_rows stream)))) at fits)))))
    where
      all : List Row
      all = concat_rows buffer ++ (columns ++ stream_rows stream)

      left_fits :
          (n : ℕ)
          → n ≡ length (concat_rows (buffer ++ columns ∷ [])) % u64_mod
          → add_u64 written n + length (stream_rows stream) < u64_mod
      left_fits n e = omega (
        arith,
        e,
        fits,
        length-snoc buffer columns,
        length-three (concat_rows buffer) columns (stream_rows stream),
      )

  -- A streamed append that returns has committed the rows up to the stream's first error, and one that fails first
  -- ones of them.
  pub stream_into-Ends :
      (stream : List (Result (List Row))) (chunk_rows : ℕ) (s : Sink L)
      → length (stream_rows stream) < u64_mod
      → Ends
          (WroteAll (stream_rows stream) 0 s)
          (WroteSome (stream_rows stream) s)
          (stream_into L (ok stream) chunk_rows s)
  unfolding stream_into arrow_schema
  stream_into-Ends stream chunk_rows s fits =
      Ends-step (WroteAll (stream_rows stream) 0 s) (WroteSome (stream_rows stream) s)
        (under _ (L.schema_to_arrow_schema s.table)) s _
        (λ _. WroteSome-none (stream_rows stream) s s refl)
        (λ schema _. stream_loop-Ends schema chunk_rows stream [] 0 0 s refl (omega (arith, fits)))
