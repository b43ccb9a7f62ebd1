-- ===== src/Append/Through.antt =====
-- A query's rows appended through a sink: what the tools of rustapps/crypto-iceberg-query/src/bin do.
use crypto_lakehouse.Prelude.{
  Bool, List, [], all, ap, append-nil, append_assoc, arith, length, length-append, refl, sym, true,
  u64_mod, ℕ, ◌++◌, ◌<◌, ◌∙◌, ◌≡◌,
}
use crypto_lakehouse.Result.{Result, ok, err, is_ok, Error}
use crypto_lakehouse.Action.{Action, under}
use crypto_lakehouse.Action.Ends.{Ends, Ends-step}
use crypto_lakehouse.Table.{Row}
use crypto_lakehouse.Query.Engine.{Streams}
use crypto_lakehouse.Sink.Lake.{Lake, Laws, count}
use crypto_lakehouse.Sink.State.{Sink}
use crypto_lakehouse.Sink.Write.{arrow_schema}
use crypto_lakehouse.Append.{stream_into}
use crypto_lakehouse.Append.Chunks.{stream_rows, stream_into-Ends, WroteAll, WroteSome}
use crypto_lakehouse.Append.Complete.{stream_into_complete}

-- A method of a sink, in the world as it is.
abbrev pub through :
    {W : Type 0} (L : Lake W) {A : Type 0} → Sink L → Action (Sink L) A → Action W A
through L sink m w = let (r, s) = m (record sink { world = w }) in (r, s.world)

module _ {W : Type 0} (L : Lake W) (laws : Laws L) where
  open laws use {committed}

  -- The table has those rows besides, in some order.
  abbrev pub Adds : List Row → W → W → Type 0
  Adds rows w w' =
      (new : List Row) × ((q : Row → Bool) → count q new ≡ count q rows)
      × (committed w' ≡ committed w ++ new)

  -- It has some of them, the first of the query.
  abbrev pub AddsSome : List Row → W → W → Type 0
  AddsSome rows w w' =
      (taken : List Row) × (left : List Row) × (rows ≡ taken ++ left) × Adds taken w w'

  pub AddsSome-none : (rows : List Row) (w w' : W) → committed w' ≡ committed w → AddsSome rows w w'
  AddsSome-none rows w w' same =
      ([], rows, refl, ([], λ q. refl, same ∙ sym (append-nil (committed w))))

  -- Reading changes nothing before.
  pub Adds-from :
      (rows : List Row) (w w1 : W)
      → committed w1 ≡ committed w
      → (r : Result ℕ × W) → Ends (λ n w'. (n ≡ length rows) × Adds rows w1 w') (AddsSome rows w1) r
      → Ends (λ n w'. (n ≡ length rows) × Adds rows w w') (AddsSome rows w) r
  Adds-from rows w w1 same (ok n, w') h =
      (h.0, (h.1.0, h.1.1, h.1.2 ∙ ap (λ before. before ++ h.1.0) same))
  Adds-from rows w w1 same (err e, w') h =
      (h.0, h.1, h.2, (h.3.0, h.3.1, h.3.2 ∙ ap (λ before. before ++ h.3.0) same))

  -- Where the query cannot be planned nothing is committed.
  stream_into-err :
      (e : Error) (chunk_rows : ℕ) (s : Sink L)
      → Ends
          (λ _ _. ⊥)
          (λ s'. committed s'.world ≡ committed s.world)
          (stream_into L (err e) chunk_rows s)
  unfolding stream_into arrow_schema
  stream_into-err e chunk_rows s =
      Ends-step (λ _ _. ⊥) (λ s'. committed s'.world ≡ committed s.world)
        (under _ (L.schema_to_arrow_schema s.table)) s _ (λ _. refl) (λ schema _. refl)

  pub through-Ends :
      (rows : List Row) (planned : Result (List (Result (List Row)))) (chunk_rows : ℕ)
      (sink : Sink L) (w : W)
      → ((stream : List (Result (List Row))) → planned ≡ ok stream → Streams rows stream)
      → length rows < u64_mod
      → Ends
          (λ n w'. (n ≡ length rows) × Adds rows w w')
          (AddsSome rows w)
          (through L sink (stream_into L planned chunk_rows) w)
  through-Ends rows (ok stream) chunk_rows sink w streams fits =
      settled (stream_into L (ok stream) chunk_rows start)
        (stream_into-Ends L laws stream chunk_rows start (
          omega (
            arith,
            fits,
            ap length (streams stream refl).1,
            length-append (stream_rows stream) (streams stream refl).0,
          )))
        (stream_into_complete L stream chunk_rows start)
    where
      start : Sink L
      start = record sink { world = w }

      whole : all is_ok stream ≡ true → rows ≡ stream_rows stream
      whole h =
          (streams stream refl).1
          ∙ ap (λ rest. stream_rows stream ++ rest) ((streams stream refl).2 h)
          ∙ append-nil (stream_rows stream)

      settled :
          (r : Result ℕ × Sink L)
          → Ends
              (WroteAll L laws (stream_rows stream) 0 start)
              (WroteSome L laws (stream_rows stream) start)
              r
          → (is_ok r.0 ≡ true → all is_ok stream ≡ true)
          → Ends (λ n w'. (n ≡ length rows) × Adds rows w w') (AddsSome rows w) (r.0, r.1.world)
      settled (ok n, s) h complete =
          let same = whole (complete refl) in
          (
            omega (arith, h.0, ap length same),
            (h.1.0, λ q. h.1.1 q ∙ ap (count q) (sym same), h.1.2),
          )
      settled (err e, s) h complete = (
        h.0,
        h.1 ++ (streams stream refl).0,
        (streams stream refl).1
            ∙ ap (λ xs. xs ++ (streams stream refl).0) h.2
            ∙ append_assoc h.0 h.1 (streams stream refl).0,
        (h.3.0, h.3.1, h.3.2),
      )
  through-Ends rows (err e) chunk_rows sink w streams fits =
      refused (stream_into L (err e) chunk_rows start) (stream_into-err e chunk_rows start)
    where
      start : Sink L
      start = record sink { world = w }

      refused :
          (r : Result ℕ × Sink L)
          → Ends (λ _ _. ⊥) (λ s'. committed s'.world ≡ committed w) r
          → Ends (λ n w'. (n ≡ length rows) × Adds rows w w') (AddsSome rows w) (r.0, r.1.world)
      refused (ok n, s) h = absurd h
      refused (err e', s) h = AddsSome-none rows w s.world h
