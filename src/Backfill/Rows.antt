-- ===== src/Backfill/Rows.antt =====
-- What is true of the rows that the backfill appends.
use crypto_lakehouse.Prelude.{
  ==_iff, ==_self, All, All-filter, All-map, Among, Bool, Bool-cases, Distinct, List, Option, [],
  ap, arith, contains, false, filter, if_cases, inl, inr, int_eq, map, nat_eq, refl, some,
  string_eq, subst, sym, true, ℤ, ◌+ℤ◌, ◌-ℤ◌, ◌∙◌, ◌∷◌, ◌≡◌,
}
use crypto_lakehouse.Table.{Row}
use crypto_lakehouse.Ranking.{Columns, columns_of, columns_eq, leb_row, within}
use crypto_lakehouse.Ranking.Order.{leb_row-total, leb_row_trans}
use crypto_lakehouse.Ranking.Winners.{contains-winners, Distinct-winners, winners-unbeaten}
use crypto_lakehouse.Ranking.Firsts.{row_winners, winners-All}
use crypto_lakehouse.Ranking.Earliest.{
  SameKey, Ahead, InRange, OnePerKey, HasKey, columns-SameKey, SameKey-columns, unbeaten-Ahead,
  Distinct-OnePerKey, contains-HasKey, HasKey-contains, All-within, within-Among, All-self,
}
use crypto_lakehouse.Backfill.{is_complete, src_ranked, target_keys, missing, days}
use crypto_lakehouse.Backfill.Missing.{some_of, absent, missing-absent}

pub All-and :
    {A : Type 0} (P Q : A → Type 0) (xs : List A) → All P xs → All Q xs → All (λ x. P x × Q x) xs
All-and P Q [] h k = tt
All-and P Q (x ∷ xs) h k = ((h.0, k.0), All-and P Q xs h.1 k.1)

pub All-filtered :
    {A : Type 0} (P : A → Type 0) (p : A → Bool) (xs : List A) → All P xs → All P (filter p xs)
All-filtered P p [] h = tt
All-filtered P p (x ∷ xs) h =
    if_cases (All P) (p x) _ _ (λ _. (h.0, All-filtered P p xs h.1)) (λ _. All-filtered P p xs h.1)

pub All-at : {A : Type 0} (P : A → Type 0) (xs : List A) (x : A) → All P xs → Among x xs → P x
All-at P [] x h m = absurd m
All-at P (y ∷ ys) x h (inl here) = subst P (sym here) h.0
All-at P (y ∷ ys) x h (inr later) = All-at P ys x h.1 later

pub contains-filtered :
    (p : Row → Bool) (k : Columns) (xs : List Row)
    → contains (map columns_of xs) k ≡ false
    → contains (map columns_of (filter p xs)) k ≡ false
contains-filtered p k [] h = refl
contains-filtered p k (x ∷ xs) h = ground (arith, h, contains-filtered p k xs)

pub Distinct-filtered :
    (p : Row → Bool) (xs : List Row)
    → Distinct (map columns_of xs)
    → Distinct (map columns_of (filter p xs))
Distinct-filtered p [] d = tt
Distinct-filtered p (x ∷ xs) d =
    ground (arith, d, Distinct-filtered p xs, contains-filtered p (columns_of x) xs)

abbrev pub Given : {A : Type 0} → Option A → Type 0
Given {A = A} o = (a : A) × (o ≡ some a)

-- Nothing is NULL but perhaps the flags.
pub record Complete (r : Row) : Type 0 where
  pub event_time : Given r.event_time
  pub symbol : Given r.symbol
  pub exchange : Given r.exchange
  pub trade_id : Given r.trade_id
  pub price : Given r.price
  pub quantity : Given r.quantity
  pub trade_time : Given r.trade_time
  pub trade_ts : Given r.trade_ts
  pub event_ts : Given r.event_ts

pub is_complete-Complete : (r : Row) → is_complete r ≡ true → Complete r
unfolding is_complete
is_complete-Complete r h = record {
  event_time = some_of r.event_time (ground (arith, h));
  symbol = some_of r.symbol (ground (arith, h));
  exchange = some_of r.exchange (ground (arith, h));
  trade_id = some_of r.trade_id (ground (arith, h));
  price = some_of r.price (ground (arith, h));
  quantity = some_of r.quantity (ground (arith, h));
  trade_time = some_of r.trade_time (ground (arith, h));
  trade_ts = some_of r.trade_ts (ground (arith, h));
  event_ts = some_of r.event_ts (ground (arith, h));
}

pub Complete-is_complete : (r : Row) → Complete r → is_complete r ≡ true
unfolding is_complete
Complete-is_complete r c = ground (
  arith, c.event_time.1, c.symbol.1, c.exchange.1, c.trade_id.1, c.price.1, c.quantity.1,
  c.trade_time.1, c.trade_ts.1, c.event_ts.1,
)

-- No row of the range of the table has the key.
abbrev pub New : ℤ → ℤ → List Row → Row → Type 0
New lo hi target r = All (λ t. InRange lo hi t → ¬ SameKey t r) target

-- What it means to append `rows`, of those of `source` in a range, to a target, of which a wider range is looked
-- at.
pub record Appendable (start end_ margin : ℤ) (source target rows : List Row) : Type 0 where
  pub of_source : All (λ r. Among r source × InRange start end_ r) rows
  pub one_each : OnePerKey rows
  pub complete : All Complete rows
  pub is_new : All (New (start -ℤ days margin) (end_ +ℤ days margin) target) rows
  -- no row of the key in the range is ahead of it
  pub earliest : All (λ x. All (λ y. InRange start end_ y → SameKey y x → ¬ Ahead y x) source) rows
  -- a key is among them if all its rows of the range are complete, and it is new
  pub none_left :
      All
        (λ r.
          InRange start end_ r
          → ((y : Row) → Among y source → InRange start end_ y → SameKey y r → Complete y)
          → New (start -ℤ days margin) (end_ +ℤ days margin) target r
          → HasKey rows r)
        source

contains-weaken :
    (k : Columns) (x : Row) (xs : List Row)
    → contains (map columns_of xs) k ≡ true
    → contains (map columns_of (x ∷ xs)) k ≡ true
contains-weaken k x xs h = ground (arith, h)

kept-contains :
    (p : Row → Bool) (xs : List Row)
    → All (λ r. p r ≡ true → contains (map columns_of (filter p xs)) (columns_of r) ≡ true) xs
kept-contains p [] = tt
kept-contains p (x ∷ xs) = (
  λ h. ground (arith, h, ==_self (columns_of x)),
  All-map xs
      (λ r k h.
        if_cases (λ ys. contains (map columns_of ys) (columns_of r) ≡ true) (p x) _ _
          (λ _. contains-weaken (columns_of r) x (filter p xs) (k h)) (λ _. k h))
      (kept-contains p xs),
)

New-contains :
    (lo hi : ℤ) (target : List Row) (r : Row)
    → contains (map columns_of (within lo hi target)) (columns_of r) ≡ false
    → New lo hi target r
New-contains lo hi target r h =
    All-within (λ t. ¬ SameKey t r) lo hi target (none_of (within lo hi target) h)
  where
    none_of :
        (ts : List Row)
        → contains (map columns_of ts) (columns_of r) ≡ false
        → All (λ t. ¬ SameKey t r) ts
    none_of [] h = tt
    none_of (t ∷ ts) h = (
      λ same. absurd (
          ground
            (arith, h, (==_iff (columns_of r) (columns_of t)).1 (sym (SameKey-columns t r same)))),
      none_of ts (ground (arith, h)),
    )

contains-New :
    (lo hi : ℤ) (target : List Row) (r : Row)
    → New lo hi target r
    → contains (map columns_of (within lo hi target)) (columns_of r) ≡ false
contains-New lo hi target r new =
    elim (Bool-cases (contains (map columns_of (within lo hi target)) (columns_of r))) [
      | inr absent_key ↦ absent_key
      | inl held ↦
          let (k, m, same) = contains-HasKey (within lo hi target) r held in
          let (of_target, inside) =
            All-at (λ t. Among t target × InRange lo hi t) (within lo hi target) k
              (within-Among lo hi target) m in
          absurd (All-at (λ t. InRange lo hi t → ¬ SameKey t r) target k new of_target inside same)
    ]

pub missing-Distinct :
    (start end_ margin : ℤ) (source target : List Row)
    → Distinct (
        map columns_of
          (missing (src_ranked start end_ source) (target_keys start end_ margin target)))
missing-Distinct start end_ margin source target =
    rw (missing-absent start end_ margin source target) (
      Distinct-filtered (absent start end_ margin target) (row_winners (within start end_ source))
        (Distinct-winners columns_of leb_row (within start end_ source)))

-- The append list has rows of the source that are in the range; one for each key, with nothing NULL but perhaps
-- the flags, of a key that no row of the target in the wider range has, and such that no row of that key
-- in the range has an earlier event time, or the same and an earlier trade time. And it has a row of every
-- key of the range that is new to the target and whose rows of the range are all complete.
pub missing-Appendable :
    (start end_ margin : ℤ) (source target : List Row)
    → Appendable start end_ margin source target
        (missing (src_ranked start end_ source) (target_keys start end_ margin target))
missing-Appendable start end_ margin source target =
    rw (missing-absent start end_ margin source target) (record {
      of_source = All-filtered _ p rows (
          winners-All (λ x. Among x source × InRange start end_ x) range
            (within-Among start end_ source));
      one_each =
          Distinct-OnePerKey (filter p rows)
            (Distinct-filtered p rows (Distinct-winners columns_of leb_row range));
      complete =
          All-map (filter p rows) (λ r h. is_complete-Complete r (ground (arith, h)))
            (All-filter p rows);
      is_new =
          All-map (filter p rows)
            (λ r h.
              New-contains (start -ℤ days margin) (end_ +ℤ days margin) target r
                (ground (arith, h)))
            (All-filter p rows);
      earliest =
          All-map (filter p rows)
            (λ x h.
              All-within (λ y. SameKey y x → ¬ Ahead y x) start end_ source
                (unbeaten-Ahead x range h))
            (All-filtered _ p rows
              (winners-unbeaten columns_of leb_row leb_row-total leb_row_trans range));
      none_left =
          All-within _ start end_ source
            (All-map range (λ r m whole new. left r m.0 whole new) (All-self range));
    })
  where
    range : List Row
    range = within start end_ source

    rows : List Row
    rows = row_winners range

    p : Row → Bool
    p = absent start end_ margin target

    -- The row that is the first of the key is complete, so it is appended.
    left :
        (r : Row)
        → Among r range
        → ((y : Row) → Among y source → InRange start end_ y → SameKey y r → Complete y)
        → New (start -ℤ days margin) (end_ +ℤ days margin) target r
        → HasKey (filter p rows) r
    left r m whole new =
        let (k, found, same) = contains-HasKey rows r (
          contains-winners columns_of leb_row range (columns_of r)
          ∙ HasKey-contains range r (r, m, columns-SameKey r r refl)) in
        let (of_source, inside) =
          All-at (λ t. Among t source × InRange start end_ t) rows k
            (winners-All (λ x. Among x source × InRange start end_ x) range
              (within-Among start end_ source))
            found in
        let complete = Complete-is_complete k (whole k of_source inside same) in
        let fresh = contains-New (start -ℤ days margin) (end_ +ℤ days margin) target r new in
        contains-HasKey (filter p rows) r (
          ap (contains (map columns_of (filter p rows))) (sym (SameKey-columns k r same))
          ∙ All-at
              (λ r. p r ≡ true → contains (map columns_of (filter p rows)) (columns_of r) ≡ true)
              rows k (kept-contains p rows) found
              (ground (
                arith,
                complete,
                ap
                    (contains
                      (map columns_of (within (start -ℤ days margin) (end_ +ℤ days margin) target)))
                    (SameKey-columns k r same),
                fresh,
              )))
