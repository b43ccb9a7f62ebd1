-- ===== src/Deduplication/Kept.antt =====
-- What the audit counts and the rewrite keeps.
use crypto_lakehouse.Prelude.{
  All, All-filter, All-map, Among, Bool, Distinct, Distinct-length, List, [], ap, arith, contains,
  filter, int_eq, length, length-map, ltb, map, nat_eq, refl, string_eq, sym, true, ℤ, ◌&&◌, ◌-◌,
  ◌==◌, ◌∙◌, ◌∷◌, ◌≡◌,
}
use crypto_lakehouse.Table.{Row}
use crypto_lakehouse.Sink.Lake.{count}
use crypto_lakehouse.Ranking.{
  within, Columns, columns_of, columns_eq, Numbered, leb_row, numbered, numbered_from, in_range,
}
use crypto_lakehouse.Ranking.Order.{leb_row-total, leb_row_trans}
use crypto_lakehouse.Ranking.Winners.{
  Distinct-winners, contains-winners, winners-unbeaten, winners-Distinct,
}
use crypto_lakehouse.Ranking.Firsts.{
  winners-All, contains-count, first_or_redundant, length-numbered_from, is_first, row_winners,
  first_rows-numbered,
}
use crypto_lakehouse.Ranking.Earliest.{
  SameKey, Ahead, InRange, OnePerKey, HasKey, columns-SameKey, unbeaten-Ahead, Distinct-OnePerKey,
  contains-HasKey, HasKey-contains, All-within, within-Among, All-self,
}
use crypto_lakehouse.Deduplication.{ranked, audit, rewrite}

-- The window function does what one pass does that keeps, of each partition, the first row in the order: the
-- same rows, in the order of the scan.
pub rewrite-winners :
    (start end_ : ℤ) (source : List Row)
    → rewrite (ranked start end_ source) ≡ row_winners (within start end_ source)
unfolding rewrite ranked
rewrite-winners start end_ source = first_rows-numbered (within start end_ source)

-- What it means to keep the rows `kept` of those of `source` in a range.
pub record KeepsFirsts (lo hi : ℤ) (source kept : List Row) : Type 0 where
  pub of_source : All (λ x. Among x source × InRange lo hi x) kept
  pub one_each : OnePerKey kept
  pub every_key : All (λ r. InRange lo hi r → HasKey kept r) source
  -- no row of the key in the range is ahead of it
  pub earliest : All (λ x. All (λ y. InRange lo hi y → SameKey y x → ¬ Ahead y x) source) kept

kept_one :
    (start end_ : ℤ) (source : List Row)
    → Distinct (map columns_of (rewrite (ranked start end_ source)))
kept_one start end_ source =
    rw (rewrite-winners start end_ source)
      (Distinct-winners columns_of leb_row (within start end_ source))

kept_keys :
    (start end_ : ℤ) (source : List Row) (k : Columns)
    → contains (map columns_of (rewrite (ranked start end_ source))) k
      ≡ contains (map columns_of (within start end_ source)) k
kept_keys start end_ source =
    rw (rewrite-winners start end_ source)
      (contains-winners columns_of leb_row (within start end_ source))

-- The rewrite keeps rows of the table that are in the range; exactly one for each exchange, symbol and trade id of
-- the range, NULL being like any other value; and no row of that key in the range has an earlier event
-- time, or the same and an earlier trade time, where NULL is later than every time.
pub rewrite-KeepsFirsts :
    (start end_ : ℤ) (source : List Row)
    → KeepsFirsts start end_ source (rewrite (ranked start end_ source))
rewrite-KeepsFirsts start end_ source = record {
  of_source = rw (rewrite-winners start end_ source) (
      winners-All (λ x. Among x source × InRange start end_ x) (within start end_ source)
        (within-Among start end_ source));
  one_each = Distinct-OnePerKey (rewrite (ranked start end_ source)) (kept_one start end_ source);
  every_key = All-within (HasKey (rewrite (ranked start end_ source))) start end_ source (
      All-map (within start end_ source)
        (λ r m. contains-HasKey (rewrite (ranked start end_ source)) r (
          kept_keys start end_ source (columns_of r)
          ∙ HasKey-contains (within start end_ source) r (r, m.0, columns-SameKey r r refl)))
        (All-self (within start end_ source)));
  earliest = rw (rewrite-winners start end_ source) (
      All-map (row_winners (within start end_ source))
        (λ x h.
          All-within (λ y. SameKey y x → ¬ Ahead y x) start end_ source
            (unbeaten-Ahead x (within start end_ source) h))
        (winners-unbeaten columns_of leb_row leb_row-total leb_row_trans
          (within start end_ source)));
}

-- The audit is right: the rows in the range, and those of them that the rewrite does not keep.
pub audit-rewrite :
    (start end_ : ℤ) (source : List Row)
    → audit (ranked start end_ source)
      ≡ ("rows_in_range", length (within start end_ source))
        ∷ (
          "duplicate_rows",
          length (within start end_ source) - length (rewrite (ranked start end_ source)),
        )
        ∷ []
unfolding audit ranked rewrite numbered
audit-rewrite start end_ source =
    λ i. ("rows_in_range", total i) ∷ ("duplicate_rows", redundant i) ∷ []
  where
    total : length (numbered_from [] (within start end_ source)) ≡ length (within start end_ source)
    total = length-numbered_from [] (within start end_ source)

    redundant :
        length (filter (λ (n : Numbered). ltb 1 n.rn) (numbered_from [] (within start end_ source)))
        ≡ length (within start end_ source)
          - length (
              map
                (λ (n : Numbered). n.row)
                (filter is_first (numbered_from [] (within start end_ source))))
    redundant = omega (
      arith,
      first_or_redundant [] (within start end_ source),
      length-map (λ (n : Numbered). n.row)
          (filter is_first (numbered_from [] (within start end_ source))),
    )

in_range-stays :
    (p : Row → Bool) (rows : List Row) → All (λ r. p r ≡ true) rows → filter p rows ≡ rows
in_range-stays p [] h = refl
in_range-stays p (x ∷ xs) h = ground (arith, h, in_range-stays p xs h.1)

-- Rewriting what was rewritten changes nothing.
pub rewrite-again :
    (start end_ : ℤ) (source : List Row)
    → rewrite (ranked start end_ (rewrite (ranked start end_ source)))
      ≡ rewrite (ranked start end_ source)
rewrite-again start end_ source =
    rewrite-winners start end_ (rewrite (ranked start end_ source))
    ∙ ap (λ kept. row_winners (within start end_ kept)) once
    ∙ ap row_winners stays
    ∙ winners-Distinct columns_of leb_row (row_winners range)
        (Distinct-winners columns_of leb_row range)
    ∙ sym once
  where
    range : List Row
    range = within start end_ source

    once : rewrite (ranked start end_ source) ≡ row_winners (within start end_ source)
    once = rewrite-winners start end_ source

    stays : within start end_ (row_winners range) ≡ row_winners range
    stays =
        in_range-stays (in_range start end_) (row_winners range)
          (winners-All _ range (All-filter (in_range start end_) source))

-- How many rows the rewrite keeps does not depend on the order of the scan, though which of two rows that tie
-- it keeps does: two scans of the same rows have the same number kept.
pub length-rewrite :
    (start end_ : ℤ) (source again : List Row)
    → ((q : Row → Bool) → count q source ≡ count q again)
    → length (rewrite (ranked start end_ source)) ≡ length (rewrite (ranked start end_ again))
length-rewrite start end_ source again same =
    sym (length-map columns_of (rewrite (ranked start end_ source)))
    ∙ Distinct-length (map columns_of (rewrite (ranked start end_ source)))
        (map columns_of (rewrite (ranked start end_ again))) (kept_one start end_ source)
        (kept_one start end_ again)
        (λ k.
          kept_keys start end_ source k
          ∙ contains-count (in_range start end_) k source
          ∙ ap (ltb 0) (same (λ r. in_range start end_ r && k == columns_of r))
          ∙ sym (contains-count (in_range start end_) k again)
          ∙ sym (kept_keys start end_ again k))
    ∙ length-map columns_of (rewrite (ranked start end_ again))
