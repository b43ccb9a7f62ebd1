-- ===== src/Ranking/Earliest.antt =====
-- What the rows of a partition's first number are, said without the window function: the key's three columns,
-- a range of `trade_ts`, and the order of the two timestamps.
use crypto_lakehouse.Prelude.{
  ==_iff, All, All-map, Among, Bool-cases, Distinct, List, Option, Option-cases, [], any, ap, arith,
  contains, false, inl, inr, int_eq, leb_ℤ, ltb_ℤ, map, nat_eq, none, refl, some, string_eq, sym,
  true, ℤ, ◌==◌, ◌∙◌, ◌∷◌, ◌≡◌, ◌⊎◌,
}
use crypto_lakehouse.Table.{Row}
use crypto_lakehouse.Ranking.{columns_of, columns_eq, in_range, leb_row, within}
use crypto_lakehouse.Ranking.Winners.{overtakes}

-- NULL in a key is like any other value.
pub record SameKey (y x : Row) : Type 0 where
  pub exchange : y.exchange ≡ x.exchange
  pub symbol : y.symbol ≡ x.symbol
  pub trade_id : y.trade_id ≡ x.trade_id

-- Strictly before; NULL is after every time.
abbrev pub Sooner : Option ℤ → Option ℤ → Type 0
Sooner none b = ⊥
Sooner (some a) none = Unit
Sooner (some a) (some b) = ltb_ℤ a b ≡ true

-- By the event time, and where that is the same by the time of the trade.
abbrev pub Ahead : Row → Row → Type 0
Ahead y x =
    Sooner y.event_ts x.event_ts ⊎ ((y.event_ts ≡ x.event_ts) × Sooner y.trade_ts x.trade_ts)

-- `trade_ts` is there, not before the start and before the end.
abbrev pub InRange : ℤ → ℤ → Row → Type 0
InRange lo hi r = (t : ℤ) × (r.trade_ts ≡ some t) × (leb_ℤ lo t ≡ true) × (ltb_ℤ t hi ≡ true)

-- No two rows of the list have a key in common.
abbrev pub OnePerKey : List Row → Type 0
OnePerKey [] = Unit
OnePerKey (x ∷ xs) = All (λ y. ¬ SameKey y x) xs × OnePerKey xs

-- Some row of the list has the key.
abbrev pub HasKey : List Row → Row → Type 0
HasKey rows r = (k : Row) × Among k rows × SameKey k r

pub SameKey-columns : (y x : Row) → SameKey y x → columns_of y ≡ columns_of x
SameKey-columns y x h =
    λ i. record { exchange = h.exchange i; symbol = h.symbol i; trade_id = h.trade_id i }

pub columns-SameKey : (y x : Row) → columns_of y ≡ columns_of x → SameKey y x
columns-SameKey y x h = record {
  exchange = ap (λ c. c.exchange) h;
  symbol = ap (λ c. c.symbol) h;
  trade_id = ap (λ c. c.trade_id) h;
}

Ahead-leb_row : (y x : Row) → Ahead y x → leb_row x y ≡ false
unfolding leb_row
Ahead-leb_row y x h = ground (arith, h)

pub unbeaten-Ahead :
    (x : Row) (rows : List Row)
    → any (overtakes columns_of leb_row x) rows ≡ false
    → All (λ y. SameKey y x → ¬ Ahead y x) rows
unbeaten-Ahead x [] h = tt
unbeaten-Ahead x (y ∷ ys) h = (
  λ same ahead. absurd (
      ground (
        arith,
        h,
        (==_iff (columns_of y) (columns_of x)).1 (SameKey-columns y x same),
        Ahead-leb_row y x ahead,
      )),
  unbeaten-Ahead x ys (ground (arith, h)),
)

pub Distinct-OnePerKey : (rows : List Row) → Distinct (map columns_of rows) → OnePerKey rows
Distinct-OnePerKey [] d = tt
Distinct-OnePerKey (x ∷ xs) d = (others xs d.0, Distinct-OnePerKey xs d.1)
  where
    others :
        (ys : List Row)
        → contains (map columns_of ys) (columns_of x) ≡ false
        → All (λ y. ¬ SameKey y x) ys
    others [] h = tt
    others (y ∷ ys) h = (
      λ same. absurd (
          ground
            (arith, h, (==_iff (columns_of x) (columns_of y)).1 (sym (SameKey-columns y x same)))),
      others ys (ground (arith, h)),
    )

pub contains-HasKey :
    (rows : List Row) (r : Row)
    → contains (map columns_of rows) (columns_of r) ≡ true
    → HasKey rows r
contains-HasKey [] r h = cc
contains-HasKey (x ∷ xs) r h = elim (Bool-cases (columns_of r == columns_of x)) [
  | inl same ↦
      (x, inl refl, columns-SameKey x r (sym ((==_iff (columns_of r) (columns_of x)).0 same)))
  | inr different ↦
      let (k, m, is) = contains-HasKey xs r (ground (arith, h, different)) in (k, inr m, is)
]

pub HasKey-contains :
    (rows : List Row) (r : Row)
    → HasKey rows r
    → contains (map columns_of rows) (columns_of r) ≡ true
HasKey-contains [] r h = absurd h.1
HasKey-contains (x ∷ xs) r (k, inl here, same) =
    let e : (columns_of r == columns_of x) ≡ true =
      (==_iff (columns_of r) (columns_of x)).1
        (sym (SameKey-columns k r same) ∙ ap columns_of here) in
    ground (arith, e)
HasKey-contains (x ∷ xs) r (k, inr later, same) =
    ground (arith, HasKey-contains xs r (k, later, same))

pub InRange-in_range : (lo hi : ℤ) (r : Row) → InRange lo hi r → in_range lo hi r ≡ true
unfolding in_range
InRange-in_range lo hi r (t, e, low, high) = rw (e, low, high) refl

pub in_range-InRange : (lo hi : ℤ) (r : Row) → in_range lo hi r ≡ true → InRange lo hi r
unfolding in_range
in_range-InRange lo hi r h = elim (Option-cases r.trade_ts) [
  | inl e ↦ absurd (ground (arith, h, e))
  | inr (t, e) ↦ (t, e, ground (arith, h, e), ground (arith, h, e))
]

-- What holds of the rows of a range, of the rows of the table.
pub All-within :
    (P : Row → Type 0) (lo hi : ℤ) (rows : List Row)
    → All P (within lo hi rows)
    → All (λ r. InRange lo hi r → P r) rows
All-within P lo hi [] h = tt
All-within P lo hi (x ∷ xs) h = elim (Bool-cases (in_range lo hi x)) [
  | inl inside ↦
      let both : All P (x ∷ within lo hi xs) = rw inside at h in
      ((λ _. both.0), All-within P lo hi xs both.1)
  | inr outside ↦
      let rest : All P (within lo hi xs) = rw outside at h in
      (
        (λ r. absurd (ground (arith, outside, InRange-in_range lo hi x r))),
        All-within P lo hi xs rest,
      )
]

-- Each row of a range is one of the table, in the range.
pub within-Among :
    (lo hi : ℤ) (rows : List Row) → All (λ r. Among r rows × InRange lo hi r) (within lo hi rows)
within-Among lo hi [] = tt
within-Among lo hi (x ∷ xs) = elim (Bool-cases (in_range lo hi x)) [
  | inl inside ↦ rw inside (
    (inl refl, in_range-InRange lo hi x inside),
    All-map (within lo hi xs) (λ r h. (inr h.0, h.1)) (within-Among lo hi xs),
  )
  | inr outside ↦
      rw outside (All-map (within lo hi xs) (λ r h. (inr h.0, h.1)) (within-Among lo hi xs))
]

pub All-self : (rows : List Row) → All (λ r. Among r rows × Unit {0}) rows
All-self [] = tt
All-self (x ∷ xs) = ((inl refl, tt), All-map xs (λ r h. (inr h.0, tt)) (All-self xs))
