-- ===== src/Ranking/Firsts.antt =====
-- The rows that are numbered 1 are the winners of one pass over the rows.
use crypto_lakehouse.Prelude.{
  All, Bool, List, [], any, any-append, ap, arith, contains, false, filter, if_cases, int_eq,
  length, ltb, map, nat_beq, nat_eq, not, refl, string_eq, suc, ◌&&◌, ◌++◌, ◌+◌, ◌==◌, ◌||◌, ◌∙◌,
  ◌∷◌, ◌≡◌,
}
use crypto_lakehouse.Table.{Row}
use crypto_lakehouse.Sink.Lake.{count}
use crypto_lakehouse.Ranking.{
  Columns, columns_of, columns_eq, Numbered, ahead_of, leb_row, numbered, numbered_from,
}
use crypto_lakehouse.Ranking.Order.{leb_row-total, leb_row_trans}
use crypto_lakehouse.Ranking.Winners.{
  overtakes, winners, filter-overtaken, filter-not_overtaken, any-winners, Distinct-winners,
}

abbrev pub is_first : Numbered → Bool
is_first n = nat_beq n.rn 1

abbrev pub first_rows : List Numbered → List Row
first_rows ns = map (λ (n : Numbered). n.row) (filter is_first ns)

-- One row per key, by one pass.
abbrev pub row_winners : List Row → List Row
row_winners rows = winners columns_of leb_row rows

-- A row of the list has the key of `y` and is not after it.
abbrev held_back : List Row → Row → Bool
held_back before y = any (λ b. columns_of b == columns_of y && leb_row b y) before

length-filter-zero :
    {A : Type 0} (p : A → Bool) (xs : List A) → nat_beq (length (filter p xs)) 0 ≡ not (any p xs)
length-filter-zero p [] = refl
length-filter-zero p (x ∷ xs) = ground (arith, length-filter-zero p xs)

rn-first :
    (x : Row) (before behind : List Row)
    → nat_beq (1 + ahead_of x before behind) 1
      ≡ not (held_back before x || any (overtakes columns_of leb_row x) behind)
unfolding ahead_of
rn-first x before behind = ground (
  arith,
  length-filter-zero (λ y. columns_of y == columns_of x && leb_row y x) before,
  length-filter-zero (overtakes columns_of leb_row x) behind,
)

held_back-snoc :
    (before : List Row) (x y : Row)
    → held_back (before ++ x ∷ []) y
      ≡ (held_back before y || (columns_of x == columns_of y && leb_row x y))
held_back-snoc before x y =
    ground (arith, any-append (λ b. columns_of b == columns_of y && leb_row b y) before (x ∷ []))

filter-same :
    {A : Type 0} (p q : A → Bool) (xs : List A) → ((x : A) → p x ≡ q x) → filter p xs ≡ filter q xs
filter-same p q [] h = refl
filter-same p q (x ∷ xs) h = ground (arith, h x, filter-same p q xs h)

pub first_rows-numbered_from :
    (before rows : List Row)
    → first_rows (numbered_from before rows)
      ≡ filter (λ y. not (held_back before y)) (row_winners rows)
unfolding numbered_from winners
first_rows-numbered_from before [] = refl
first_rows-numbered_from before (x ∷ xs) = ground (
  arith,
  first_rows-numbered_from (before ++ x ∷ []) xs,
  filter-same _ _ (row_winners xs) (λ y. ap not (held_back-snoc before x y)),
  rn-first x before xs,
  any-winners columns_of leb_row leb_row-total leb_row_trans x xs,
  filter-overtaken columns_of leb_row (held_back before) x (row_winners xs)
      (Distinct-winners columns_of leb_row xs),
  filter-not_overtaken columns_of leb_row leb_row-total leb_row_trans (held_back before) x
      (row_winners xs),
)

pub first_rows-numbered : (rows : List Row) → first_rows (numbered rows) ≡ row_winners rows
unfolding numbered
first_rows-numbered rows = first_rows-numbered_from [] rows ∙ filter-all (row_winners rows)
  where
    filter-all : (xs : List Row) → filter (λ y. not false) xs ≡ xs
    filter-all [] = refl
    filter-all (x ∷ xs) = ap (λ ys. x ∷ ys) (filter-all xs)

-- A number is at least 1, so a row is either the first or redundant.
pub first_or_redundant :
    (before rows : List Row)
    → length (filter (λ (n : Numbered). ltb 1 n.rn) (numbered_from before rows))
        + length (filter is_first (numbered_from before rows))
      ≡ length rows
unfolding numbered_from
first_or_redundant before [] = refl
first_or_redundant before (x ∷ xs) = ground (arith, first_or_redundant (before ++ x ∷ []) xs)

pub length-numbered_from :
    (before rows : List Row) → length (numbered_from before rows) ≡ length rows
unfolding numbered_from
length-numbered_from before [] = refl
length-numbered_from before (x ∷ xs) = ap suc (length-numbered_from (before ++ x ∷ []) xs)

-- A test of the rows that are numbered 1.
pub count-first_rows :
    (g : Row → Bool) (ns : List Numbered)
    → length (filter (λ (n : Numbered). is_first n && g n.row) ns)
      ≡ length (filter g (first_rows ns))
count-first_rows g [] = refl
count-first_rows g (n ∷ ns) = ground (arith, count-first_rows g ns)

-- What all rows have, the winners have.
pub winners-All : (P : Row → Type 0) (rows : List Row) → All P rows → All P (row_winners rows)
unfolding winners
winners-All P [] h = tt
winners-All P (x ∷ xs) h =
    if_cases (All P) (any (overtakes columns_of leb_row x) (row_winners xs)) _ _
      (λ _. winners-All P xs h.1)
      (λ _. (
        h.0,
        kept (λ y. not (columns_of y == columns_of x)) (row_winners xs) (winners-All P xs h.1),
      ))
  where
    kept : (p : Row → Bool) (ys : List Row) → All P ys → All P (filter p ys)
    kept p [] m = tt
    kept p (y ∷ ys) m = if_cases (All P) (p y) _ _ (λ _. (m.0, kept p ys m.1)) (λ _. kept p ys m.1)

-- A key is there if some row has it.
pub contains-count :
    (p : Row → Bool) (k : Columns) (rows : List Row)
    → contains (map columns_of (filter p rows)) k
      ≡ ltb 0 (count (λ r. p r && k == columns_of r) rows)
contains-count p k [] = refl
contains-count p k (x ∷ xs) = ground (arith, contains-count p k xs)
