-- ===== src/Sink/Write/Records.antt =====
-- `write_records`: the data files hold the rows of the batch, and nothing is committed.
use crypto_lakehouse.Prelude.{Bool, List, [], arith, map, refl, ◌++◌, ◌+◌, ◌∙◌, ◌∷◌, ◌≡◌}
use crypto_lakehouse.Result.{ok}
use crypto_lakehouse.Action.{under, with_context}
use crypto_lakehouse.Action.Ends.{Ends, Ends-step, Ends-resume, under-ok, Ends-weaken, Ends-last}
use crypto_lakehouse.Table.{Row}
use crypto_lakehouse.Sink.Lake.{Lake, Laws, count, concat_rows, part_rows}
use crypto_lakehouse.Sink.State.{Sink, outside}
use crypto_lakehouse.Sink.Dedup.Session.{Same}
use crypto_lakehouse.Sink.Write.{write_parts, write_records}

pub count-append :
    (q : Row → Bool) (xs ys : List Row) → count q (xs ++ ys) ≡ count q xs + count q ys
count-append q [] ys = omega arith
count-append q (x ∷ xs) ys = ground (arith, count-append q xs ys)

module _ {W : Type 0} (L : Lake W) (laws : Laws L) where
  open laws use {committed, contents, pending}

  -- The rows that the files hold are those.
  abbrev pub Files : List Row → List L.DataFile → Type 0
  Files rows fs = (q : Row → Bool) → count q (concat_rows (map contents fs)) ≡ count q rows

  -- The writer holds those rows besides what it held.
  abbrev Took : List Row → L.Writer → L.Writer → Type 0
  Took rows x x' = (q : Row → Bool) → count q (pending x') ≡ count q (pending x) + count q rows

  write_parts-Ends :
      (ps : List (L.PartitionKey × List Row)) (x : L.Writer) (s : Sink L)
      → Ends
          (λ x' s'. Took (part_rows ps) x x' × Same L laws s s')
          (Same L laws s)
          (write_parts L ps x s)
  unfolding write_parts
  write_parts-Ends [] x s = (λ q. omega arith, (refl, refl))
  write_parts-Ends ((k, rs) ∷ ps) x s =
      Ends-step _ _ (under _ (L.write k rs x s.world).0) _ _
        (λ _. (laws.committed-write k rs x s.world, refl))
        (λ x1 e.
          Ends-weaken (write_parts L ps x1 _)
            (λ x' s' h. (
              λ q. omega (
                arith,
                h.0 q,
                laws.write_ok k rs x x1 s.world (under-ok _ _ e) q,
                count-append q rs (part_rows ps),
              ),
              (h.1.0 ∙ laws.committed-write k rs x s.world, h.1.1),
            ))
            (λ s' h. (h.0 ∙ laws.committed-write k rs x s.world, h.1)) (write_parts-Ends ps x1 _))

  pub write_records-Ends :
      (batch : List Row) (s : Sink L)
      → Ends (λ fs s'. Files batch fs × Same L laws s s') (Same L laws s) (write_records L batch s)
  unfolding write_records
  write_records-Ends batch s =
      Ends-step _ _ (under _ (L.try_new_splitter s.table)) s _ (λ _. (refl, refl))
        (λ splitter _.
          Ends-step _ _ (under _ (L.split splitter batch)) s _ (λ _. (refl, refl))
            (λ parts cut.
              Ends-step _ _ (under _ (L.location_generator s.table)) s _ (λ _. (refl, refl))
                (λ location _.
                  Ends-resume _ _
                    (λ x' s'.
                      Took (part_rows parts) (L.new_writer s.table location) x' × Same L laws s s')
                    (write_parts L parts (L.new_writer s.table location) s) _
                    (write_parts-Ends parts _ s)
                    (λ x' s' h.
                      close_files splitter parts location (under-ok _ _ cut) x' s' h.0 h.1))))
    where
      close_files :
          (splitter : L.Splitter) (parts : List (L.PartitionKey × List Row)) (location : L.Location)
          → L.split splitter batch ≡ ok parts
          → (x : L.Writer) (s' : Sink L) → Took (part_rows parts) (L.new_writer s.table location) x
          → Same L laws s s'
          → Ends
              (λ fs s2. Files batch fs × Same L laws s s2)
              (Same L laws s)
              (with_context "failed to close parquet writer" (outside L (L.close x)) s')
      close_files splitter parts location cut x s' took same =
          Ends-last _ _ (under _ (L.close x s'.world).0) _
            (λ _. (laws.committed-close x s'.world ∙ same.0, same.1))
            (λ fs e. (
              λ q. omega (
                arith,
                laws.close_ok x s'.world fs (under-ok _ _ e) q,
                took q,
                laws.pending-new_writer s.table location q,
                laws.split_ok splitter batch parts cut q,
              ),
              (laws.committed-close x s'.world ∙ same.0, same.1),
            ))
