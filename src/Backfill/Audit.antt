-- ===== src/Backfill/Audit.antt =====
-- The audit counts what the append writes.
use crypto_lakehouse.Prelude.{
  ==_self, ==_sym, All, All-map, Bool, Distinct, List, [], ap, arith, contains, false, filter,
  if_cases, int_eq, length, length-map, ltb, map, nat_beq, nat_eq, not, refl, string_eq, sym, true,
  ℤ, ◌&&◌, ◌-◌, ◌==◌, ◌∙◌, ◌∷◌, ◌≡◌,
}
use crypto_lakehouse.Table.{Row}
use crypto_lakehouse.Ranking.{Columns, columns_of, columns_eq, Numbered, leb_row, numbered, within}
use crypto_lakehouse.Ranking.Winners.{Distinct-winners}
use crypto_lakehouse.Ranking.Firsts.{
  is_first, row_winners, first_rows-numbered, first_or_redundant, length-numbered_from,
  count-first_rows,
}
use crypto_lakehouse.Backfill.{
  Joined, is_complete, is_some, ranked_of, src_ranked, target_keys, missing, candidates, audit,
  left_join, trade_id_of, project,
}
use crypto_lakehouse.Trade.{key_eq}
use crypto_lakehouse.Backfill.Missing.{absent, missing-absent}
use crypto_lakehouse.Backfill.Rows.{
  missing-Appendable, All-and, contains-filtered, Complete-is_complete, missing-Distinct,
}
use crypto_lakehouse.Backfill.Join.{found, found-contains, left_join-one}

length-filter-map :
    {A B : Type 0} (f : A → B) (p : B → Bool) (xs : List A)
    → length (filter p (map f xs)) ≡ length (filter (λ x. p (f x)) xs)
length-filter-map f p [] = refl
length-filter-map f p (x ∷ xs) = ground (arith, length-filter-map f p xs)

length-filter-cong :
    {A : Type 0} (p q : A → Bool) (xs : List A)
    → ((x : A) → p x ≡ q x)
    → length (filter p xs) ≡ length (filter q xs)
length-filter-cong p q [] h = refl
length-filter-cong p q (x ∷ xs) h = ground (arith, h x, length-filter-cong p q xs h)

apart :
    (x : Row) (ys : List Row)
    → contains (map columns_of ys) (columns_of x) ≡ false
    → All (λ r. (columns_of r == columns_of x) ≡ false) ys
apart x [] h = tt
apart x (y ∷ ys) h =
    (ground (arith, h, ==_sym (columns_of y) (columns_of x)), apart x ys (ground (arith, h)))

pub kept_exactly :
    (p : Row → Bool) (xs : List Row)
    → Distinct (map columns_of xs)
    → All (λ r. contains (map columns_of (filter p xs)) (columns_of r) ≡ p r) xs
kept_exactly p [] d = tt
kept_exactly p (x ∷ xs) d = (
  ground (arith, d, ==_self (columns_of x), contains-filtered p (columns_of x) xs d.0),
  All-map xs
      (λ r h.
        if_cases (λ ys. contains (map columns_of ys) (columns_of r) ≡ p r) (p x) _ _
          (λ _. ground (arith, h.0, h.1)) (λ _. h.0))
      (All-and _ _ xs (kept_exactly p xs d.1) (apart x xs d.0)),
)

pub length-filter-All :
    (p q : Row → Bool) (xs : List Row)
    → All (λ r. p r ≡ q r) xs
    → length (filter p xs) ≡ length (filter q xs)
length-filter-All p q [] h = refl
length-filter-All p q (x ∷ xs) h = ground (arith, h, length-filter-All p q xs h.1)

-- A count over the join is one over the numbered rows.
count-left_join :
    (p : Joined → Bool) (ns : List Numbered) (ms : List Row)
    → All (λ m. is_complete m ≡ true) ms
    → Distinct (map columns_of ms)
    → length (filter p (left_join (map ranked_of ns) ms))
      ≡ length (filter (λ (n : Numbered). p (record { s = ranked_of n; m = found ms n.row })) ns)
count-left_join p ns ms c d =
    ap (λ js. length (filter p js)) (left_join-one (map ranked_of ns) ms c d)
    ∙ length-filter-map _ p (map ranked_of ns)
    ∙ length-filter-map ranked_of _ ns

-- All six numbers of the audit are right: the rows of the window, its keys, the rows beyond one for each key;
-- of the earliest rows of the keys, those without a maker flag, and those that miss a required column;
-- and, as the number to append, the number of rows that the append yields.
pub audit-right :
    (start end_ margin : ℤ) (source target : List Row)
    → let range = within start end_ source in
      let rows = missing (src_ranked start end_ source) (target_keys start end_ margin target) in
      audit (src_ranked start end_ source) rows
      ≡ ("rows_in_window", length range)
        ∷ ("distinct_keys", length (row_winners range))
        ∷ ("duplicate_rows", length range - length (row_winners range))
        ∷ (
          "maker_nulls",
          length (filter (λ (r : Row). not (is_some r.is_buyer_maker)) (row_winners range)),
        )
        ∷ (
          "rows_skipped_null",
          length (filter (λ (r : Row). not (is_complete r)) (row_winners range)),
        )
        ∷ ("rows_to_append", length (candidates rows))
        ∷ []
unfolding audit candidates src_ranked numbered
audit-right start end_ margin source target = λ i.
    ("rows_in_window", all_rows i)
    ∷ ("distinct_keys", keys i)
    ∷ ("duplicate_rows", redundant i)
    ∷ ("maker_nulls", nulls i)
    ∷ ("rows_skipped_null", skipped i)
    ∷ ("rows_to_append", to_append i)
    ∷ []
  where
    range : List Row
    range = within start end_ source

    ns : List Numbered
    ns = numbered range

    held : List Columns
    held = target_keys start end_ margin target

    ms : List Row
    ms = missing (map ranked_of ns) held

    whole : All (λ m. is_complete m ≡ true) ms
    whole =
        All-map ms (λ m c. Complete-is_complete m c)
          (missing-Appendable start end_ margin source target).complete

    one_each : Distinct (map columns_of ms)
    one_each = missing-Distinct start end_ margin source target

    length_firsts : length (filter is_first ns) ≡ length (row_winners range)
    length_firsts =
        sym (length-map (λ (n : Numbered). n.row) (filter is_first ns))
        ∙ ap length (first_rows-numbered range)

    all_rows : length (left_join (map ranked_of ns) ms) ≡ length range
    all_rows =
        ap length (left_join-one (map ranked_of ns) ms whole one_each)
        ∙ length-map _ (map ranked_of ns)
        ∙ length-map ranked_of ns
        ∙ length-numbered_from [] range

    keys :
        length (filter (λ (j : Joined). nat_beq j.s.rn 1) (left_join (map ranked_of ns) ms))
        ≡ length (row_winners range)
    keys = count-left_join _ ns ms whole one_each ∙ length_firsts

    redundant :
        length (filter (λ (j : Joined). ltb 1 j.s.rn) (left_join (map ranked_of ns) ms))
        ≡ length range - length (row_winners range)
    redundant = omega (
      arith,
      count-left_join (λ (j : Joined). ltb 1 j.s.rn) ns ms whole one_each,
      first_or_redundant [] range,
      length_firsts,
    )

    of_winners :
        (g : Row → Bool)
        → length (filter (λ (n : Numbered). is_first n && g n.row) ns)
          ≡ length (filter g (row_winners range))
    of_winners g =
        count-first_rows g ns ∙ ap (λ rows. length (filter g rows)) (first_rows-numbered range)

    nulls :
        length (
          filter
            (λ (j : Joined). j.s.maker_was_null && nat_beq j.s.rn 1)
            (left_join (map ranked_of ns) ms))
        ≡ length (filter (λ (r : Row). not (is_some r.is_buyer_maker)) (row_winners range))
    nulls =
        count-left_join _ ns ms whole one_each
        ∙ length-filter-cong _ _ ns (λ n. ground arith)
        ∙ of_winners (λ (r : Row). not (is_some r.is_buyer_maker))

    skipped :
        length (
          filter
            (λ (j : Joined). nat_beq j.s.rn 1 && not j.s.complete)
            (left_join (map ranked_of ns) ms))
        ≡ length (filter (λ (r : Row). not (is_complete r)) (row_winners range))
    skipped = count-left_join _ ns ms whole one_each ∙ of_winners (λ (r : Row). not (is_complete r))

    to_append :
        length (
          filter
            (λ (j : Joined). nat_beq j.s.rn 1 && is_some (trade_id_of j.m))
            (left_join (map ranked_of ns) ms))
        ≡ length (candidates ms)
    to_append =
        count-left_join _ ns ms whole one_each
        ∙ length-filter-cong _ _ ns (λ n. ap (λ b. is_first n && b) (found-contains ms n.row whole))
        ∙ of_winners (λ r. contains (map columns_of ms) (columns_of r))
        ∙ ap
            (λ rows.
              length
                (filter (λ r. contains (map columns_of rows) (columns_of r)) (row_winners range)))
            (missing-absent start end_ margin source target)
        ∙ length-filter-All _ _ (row_winners range) (
            kept_exactly (absent start end_ margin target) (row_winners range)
              (Distinct-winners columns_of leb_row range))
        ∙ ap length (sym (missing-absent start end_ margin source target))
        ∙ sym (length-map project ms)
