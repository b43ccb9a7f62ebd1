-- ===== src/Sink/Pruning/Groups.antt =====
-- The groups of a batch: they cover the times of its rows, and each range runs from the time of one
-- row to that of another of its exchange and day.
use crypto_lakehouse.Prelude.{
  &&_iff, ==_iff, ==_self, All, Among, Bool, List, Option, String, [], any, arith, div_euclid,
  if_cases, inl, inr, int_eq, is_i64, leb_ℤ, max_ℤ, min_ℤ, nat_eq, none, refl, some, string_eq,
  subst, sym, true, ℤ, ◌&&◌, ◌==◌, ◌∷◌, ◌≡◌,
}
use crypto_lakehouse.Table.{Row}
use crypto_lakehouse.Sink.Pruning.{
  Group, widen, add_time, add_row, groups_from, micros_per_day, i64_max, i64_min,
}

abbrev to_list {ℓ} : {A : Type ℓ} → Option A → List A
to_list none = []
to_list (some a) = a ∷ []

-- The exchange and the time lie in the group's range.
abbrev pub in_range : String → ℤ → Group → Bool
in_range e t g = g.exchange == e && (leb_ℤ g.lo t && leb_ℤ t g.hi)

widen-in_range :
    (e : String) (t u : ℤ) (g : Group) → in_range e t g ≡ true → in_range e t (widen g u) ≡ true
widen-in_range e t u g h = ground arith

widen_self : (t : ℤ) (g : Group) → in_range g.exchange t (widen g t) ≡ true
widen_self t g = ground (arith, ==_self g.exchange)

add_time-grows :
    (e e' : String) (t t' : ℤ) (gs : List Group)
    → any (in_range e t) gs ≡ true
    → any (in_range e t) (add_time e' t' gs) ≡ true
unfolding add_time
add_time-grows e e' t t' [] h = cc
add_time-grows e e' t t' (g ∷ gs) h =
    ground (arith, widen-in_range e t t' g, add_time-grows e e' t t' gs)

add_time_self : (e : String) (t : ℤ) (gs : List Group) → any (in_range e t) (add_time e t gs) ≡ true
unfolding add_time
add_time_self e t [] = ground (arith, ==_self e)
add_time_self e t (g ∷ gs) =
    ground (arith, widen_self t g, ==_iff g.exchange e, add_time_self e t gs)

-- The row counts for the probe: none of the three columns is NULL.
abbrev pub Probes : Row → String → ℤ → Type 0
Probes r e t = (s : String) × (r.symbol ≡ some s) × (r.exchange ≡ some e) × (r.trade_ts ≡ some t)

add_row-grows :
    (e : String) (t : ℤ) (r : Row) (gs : List Group)
    → any (in_range e t) gs ≡ true
    → any (in_range e t) (add_row r.trade_ts r.exchange r.symbol gs) ≡ true
unfolding add_row
add_row-grows e t r gs h = go r.trade_ts r.exchange r.symbol
  where
    go : (x : Option ℤ) (y z : Option String) → any (in_range e t) (add_row x y z gs) ≡ true
    go (some u) (some e') (some s) = add_time-grows e e' t u gs h
    go _ _ _ = h

groups_from-grows :
    (e : String) (t : ℤ) (gs : List Group) (rs : List Row)
    → any (in_range e t) gs ≡ true
    → any (in_range e t) (groups_from gs rs) ≡ true
unfolding groups_from
groups_from-grows e t gs [] h = h
groups_from-grows e t gs (r ∷ rs) h =
    groups_from-grows e t (add_row r.trade_ts r.exchange r.symbol gs) rs (add_row-grows e t r gs h)

-- Every row that counts lies in one of the ranges.
pub groups_from-cover :
    (e : String) (t : ℤ) (r : Row) (gs : List Group) (rs : List Row)
    → Among r rs
    → Probes r e t
    → any (in_range e t) (groups_from gs rs) ≡ true
unfolding groups_from add_row
groups_from-cover e t r gs [] m p = absurd m
groups_from-cover e t r gs (x ∷ rs) (inl same) (s, symbol, ex, ts) =
    subst
      (λ y. any (in_range e t) (groups_from (add_row y.trade_ts y.exchange y.symbol gs) rs) ≡ true)
      same (groups_from-grows e t _ rs (rw (ts, ex, symbol) (add_time_self e t gs)))
groups_from-cover e t r gs (x ∷ rs) (inr m) p =
    groups_from-cover e t r (add_row x.trade_ts x.exchange x.symbol gs) rs m p

-- Some row of the batch has the exchange and the time.
abbrev pub Seen : List Row → String → ℤ → Type 0
Seen rows e t = (r : Row) × Among r rows × (r.exchange ≡ some e) × (r.trade_ts ≡ some t)

-- Both ends of the range are times of rows of the batch, on the group's day.
abbrev pub Tight : List Row → Group → Type 0
Tight rows g =
    Seen rows g.exchange g.lo
    × Seen rows g.exchange g.hi
    × (div_euclid g.lo micros_per_day ≡ g.day)
    × (div_euclid g.hi micros_per_day ≡ g.day)

widen-Tight :
    (rows : List Row) (g : Group) (t : ℤ)
    → Tight rows g
    → Seen rows g.exchange t
    → div_euclid t micros_per_day ≡ g.day
    → Tight rows (widen g t)
widen-Tight rows g t (lo, hi, dlo, dhi) s d = (
  if_cases (Seen rows g.exchange) (leb_ℤ g.lo t) g.lo t (λ _. lo) (λ _. s),
  if_cases (Seen rows g.exchange) (leb_ℤ g.hi t) t g.hi (λ _. s) (λ _. hi),
  if_cases (λ x. div_euclid x micros_per_day ≡ g.day) (leb_ℤ g.lo t) g.lo t (λ _. dlo) (λ _. d),
  if_cases (λ x. div_euclid x micros_per_day ≡ g.day) (leb_ℤ g.hi t) t g.hi (λ _. d) (λ _. dhi),
)

min-i64_max : (t : ℤ) → is_i64 t ≡ true → min_ℤ i64_max t ≡ t
min-i64_max t h = ground arith

max-i64_min : (t : ℤ) → is_i64 t ≡ true → max_ℤ i64_min t ≡ t
max-i64_min t h = ground arith

add_time-Tight :
    (rows : List Row) (e : String) (t : ℤ) (gs : List Group)
    → is_i64 t ≡ true
    → Seen rows e t
    → All (Tight rows) gs
    → All (Tight rows) (add_time e t gs)
unfolding add_time
add_time-Tight rows e t [] i s a = (
  (
    rw (min-i64_max t i) s,
    rw (max-i64_min t i) s,
    rw (min-i64_max t i) refl,
    rw (max-i64_min t i) refl,
  ),
  tt,
)
add_time-Tight rows e t (g ∷ gs) i s a =
    if_cases (All (Tight rows)) (g.exchange == e && g.day == div_euclid t micros_per_day) _ _
      (λ hit.
        let (he, hd) = (&&_iff _ _).0 hit in
        (
          widen-Tight rows g t a.0 (rw ((==_iff g.exchange e).0 he) s)
              (sym ((==_iff g.day _).0 hd)),
          a.1,
        ))
      (λ miss. (a.0, add_time-Tight rows e t gs i s a.1))

add_row-Tight :
    (rows : List Row) (x : Option ℤ) (y z : Option String) (gs : List Group)
    → All (λ t. is_i64 t ≡ true) (to_list x)
    → ((t : ℤ) (e : String) → x ≡ some t → y ≡ some e → Seen rows e t)
    → All (Tight rows) gs
    → All (Tight rows) (add_row x y z gs)
unfolding add_row
add_row-Tight rows (some t) (some e) (some s) gs i seen a =
    add_time-Tight rows e t gs i.0 (seen t e refl refl) a
add_row-Tight rows _ _ _ gs i seen a = a

-- The stored times are `i64` values.
abbrev pub TimesFit : List Row → Type 0
TimesFit rows = All (λ r. All (λ t. is_i64 t ≡ true) (to_list r.trade_ts)) rows

groups_from-Tight :
    (rows : List Row) (gs : List Group) (rs : List Row)
    → TimesFit rs
    → ((r : Row) → Among r rs → Among r rows)
    → All (Tight rows) gs
    → All (Tight rows) (groups_from gs rs)
unfolding groups_from
groups_from-Tight rows gs [] i sub a = a
groups_from-Tight rows gs (r ∷ rs) i sub a =
    groups_from-Tight rows (add_row r.trade_ts r.exchange r.symbol gs) rs i.1 (λ x m. sub x (inr m))
      (add_row-Tight rows r.trade_ts r.exchange r.symbol gs i.0
        (λ t e ts ex. (r, sub r (inl refl), ex, ts)) a)

-- Every range of a batch runs between the times of two of its rows, on one exchange and day.
pub groups-Tight : (rows : List Row) → TimesFit rows → All (Tight rows) (groups_from [] rows)
groups-Tight rows i = groups_from-Tight rows [] rows i (λ r m. m) tt
