-- ===== src/Append/Records.antt =====
-- What `append_records` commits.
use crypto_lakehouse.Prelude.{
  Bool, List, [], ap, append-nil, length, map, refl, sym, ◌++◌, ◌∙◌, ◌∷◌, ◌≡◌,
}
use crypto_lakehouse.Result.{Result, ok, err}
use crypto_lakehouse.Action.{under}
use crypto_lakehouse.Action.Ends.{Ends, Ends-step, Ends-resume, Ends-weaken, under-ok}
use crypto_lakehouse.Table.{Row}
use crypto_lakehouse.Sink.Lake.{Lake, Laws, count, concat_rows}
use crypto_lakehouse.Sink.State.{Sink}
use crypto_lakehouse.Sink.Stats.{AppendStats}
use crypto_lakehouse.Sink.Commit.{commit}
use crypto_lakehouse.Sink.Commit.Atomic.{commit-Appends, Appends}
use crypto_lakehouse.Sink.Dedup.Session.{Same}
use crypto_lakehouse.Sink.Write.{arrow_schema, append_records, write_records}
use crypto_lakehouse.Sink.Write.Records.{Files, write_records-Ends}
use crypto_lakehouse.Sink.Write.Batch.{Unchanged}

module _ {W : Type 0} (L : Lake W) (laws : Laws L) where
  open laws use {committed, contents}

  -- The table has those rows besides, in some order.
  abbrev pub Appended : List Row → Sink L → Sink L → Type 0
  Appended rows before s =
      (new : List Row) × ((q : Row → Bool) → count q new ≡ count q rows)
      × (committed s.world ≡ committed before.world ++ new)

  commit-Ends :
      (fs : List L.DataFile) (before : List Row) (s : Sink L)
      → committed s.world ≡ before
      → Ends
          (λ _ s'. committed s'.world ≡ before ++ concat_rows (map contents fs))
          (λ s'. committed s'.world ≡ before)
          (commit L fs s)
  commit-Ends fs before s h = from_Appends (commit L fs s) (rw h at (commit-Appends L laws fs s))
    where
      from_Appends :
          (r : Result (Unit {0}) × Sink L)
          → Appends r.0 before (concat_rows (map contents fs)) (committed r.1.world)
          → Ends
              (λ _ s'. committed s'.world ≡ before ++ concat_rows (map contents fs))
              (λ s'. committed s'.world ≡ before)
              r
      from_Appends (ok u, s') k = k
      from_Appends (err e, s') k = k

  abbrev pub AppendedStats : List Row → Sink L → AppendStats → Sink L → Type 0
  AppendedStats rows before stats s = (stats.rows ≡ length rows) × Appended rows before s

  pub append_records-Ends :
      (rows : List Row) (s : Sink L)
      → Ends (AppendedStats rows s) (Unchanged L laws s) (append_records L rows s)
  unfolding append_records arrow_schema
  append_records-Ends [] s = (refl, ([], λ q. refl, sym (append-nil (committed s.world))))
  append_records-Ends (row ∷ rest) s =
      Ends-step (AppendedStats (row ∷ rest) s) (Unchanged L laws s)
        (under _ (L.schema_to_arrow_schema s.table)) s _ (λ _. refl)
        (λ schema _.
          Ends-step (AppendedStats (row ∷ rest) s) (Unchanged L laws s)
            (under _ (L.try_new schema (row ∷ rest))) s _ (λ _. refl)
            (λ batch made.
              Ends-resume (AppendedStats (row ∷ rest) s) (Unchanged L laws s)
                (λ fs s2. Files L laws batch fs × Same L laws s1 s2) (write_records L batch s1) _
                (Ends-weaken (write_records L batch s1) (λ _ _ h. h)
                  (λ _ h. h.0 ∙ laws.committed-now s.world) (write_records-Ends L laws batch s1))
                (λ fs s2 h.
                  Ends-resume (AppendedStats (row ∷ rest) s) (Unchanged L laws s)
                    (λ _ s4.
                      committed s4.world ≡ committed s.world ++ concat_rows (map contents fs))
                    (commit L fs (twice s2)) _
                    (commit-Ends fs (committed s.world) (twice s2)
                      (clock s2 ∙ h.1.0 ∙ laws.committed-now s.world))
                    (λ _ s4 k. (
                      refl,
                      (
                        concat_rows (map contents fs),
                        λ q.
                            h.0 q
                            ∙ ap (count q) (laws.try_new_ok schema _ batch (under-ok _ _ made)),
                        laws.committed-now s4.world ∙ k,
                      ),
                    )))))
    where
      s1 : Sink L
      s1 = record s { world = (L.now s.world).1 }

      twice : Sink L → Sink L
      twice x = record x { world = (L.now (L.now x.world).1).1 }

      clock : (x : Sink L) → committed (twice x).world ≡ committed x.world
      clock x = laws.committed-now (L.now x.world).1 ∙ laws.committed-now x.world
