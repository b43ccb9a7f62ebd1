-- ===== src/Sink/Pruning/Filter.antt =====
-- What the probe's predicate selects. How DataFusion evaluates an expression is a parameter with the
-- laws that the probe relies on: a filter keeps the rows where the predicate is true.
use crypto_lakehouse.Prelude.{
  &&_iff, ==_iff, All, Among, Bool, Bool-cases, List, Option, String, [], any, ap, arith,
  div_euclid, false, inl, inr, int_eq, leb_ℤ, leb_ℤ_iff, map, nat_eq, none, refl, some, string_eq,
  sym, true, ℤ, ◌&&◌, ◌==◌, ◌||◌, ◌∙◌, ◌∷◌, ◌≡◌, ◌≤ℤ◌,
}
use crypto_lakehouse.Result.{ok, ok-injective}
use crypto_lakehouse.Table.{Row}
use crypto_lakehouse.Sink.Pruning.{
  Expr, col, lit, eq, gt_eq, lt_eq, and_, or_, utf8, time, boolean, microsecond, timestamp, Group,
  group_exprs, reduce_or, any_of, build_pruning_expr, groups_from, micros_per_day,
}
use crypto_lakehouse.Sink.Pruning.Groups.{
  in_range, Probes, groups_from-cover, Seen, Tight, TimesFit, groups-Tight,
}

-- A test of a column; NULL passes none.
abbrev pub passes {ℓ} : {A : Type ℓ} → (A → Bool) → Option A → Bool
passes p none = false
passes p (some a) = p a

pub record Evaluator : Type 0 where
  pub holds : Expr → Row → Bool
  pub holds-or : (a b : Expr) (r : Row) → holds (or_ a b) r ≡ (holds a r || holds b r)
  pub holds-and : (a b : Expr) (r : Row) → holds (and_ a b) r ≡ (holds a r && holds b r)
  pub holds-false : (r : Row) → holds (lit (boolean false)) r ≡ false
  pub holds-exchange :
      (e : String) (r : Row)
      → holds (eq (col "exchange") (lit (utf8 e))) r ≡ passes (λ x. e == x) r.exchange
  pub holds-from :
      (t : ℤ) (r : Row)
      → holds (gt_eq (col "trade_ts") (lit (time microsecond t))) r
        ≡ passes (λ x. leb_ℤ t x) r.trade_ts
  pub holds-to :
      (t : ℤ) (r : Row)
      → holds (lt_eq (col "trade_ts") (lit (time microsecond t))) r
        ≡ passes (λ x. leb_ℤ x t) r.trade_ts

-- The row's exchange and time lie in the group's range.
abbrev pub selects : Row → Group → Bool
selects r g = passes (λ e. passes (λ t. in_range e t g) r.trade_ts) r.exchange

-- The hash map is walked in some order, which misses no entry and adds none.
pub record Walks (iter : List Group → List Group) : Type 0 where
  pub any-iter : (p : Group → Bool) (gs : List Group) → any p (iter gs) ≡ any p gs

-- Two rows of the batch of the row's exchange, on the row's day, with the row's time between theirs.
pub record Within (rows : List Row) (c : Row) : Type 0 where
  pub exchange : String
  pub at : ℤ
  pub lo : ℤ
  pub hi : ℤ
  pub has_exchange : c.exchange ≡ some exchange
  pub has_time : c.trade_ts ≡ some at
  pub first : Seen rows exchange lo
  pub last : Seen rows exchange hi
  pub after_first : lo ≤ℤ at
  pub before_last : at ≤ℤ hi
  pub day_of_first : div_euclid lo micros_per_day ≡ div_euclid at micros_per_day
  pub day_of_last : div_euclid hi micros_per_day ≡ div_euclid at micros_per_day

-- Between two times of one day lie only times of that day.
day_between :
    (a t b : ℤ)
    → a ≤ℤ t
    → t ≤ℤ b
    → div_euclid a micros_per_day ≡ div_euclid b micros_per_day
    → div_euclid a micros_per_day ≡ div_euclid t micros_per_day
day_between a t b h k e = ground arith

selects-Within :
    (rows : List Row) (c : Row) (g : Group)
    → Tight rows g
    → (e : Option String) (t : Option ℤ) → c.exchange ≡ e
    → c.trade_ts ≡ t
    → passes (λ x. passes (λ y. in_range x y g) t) e ≡ true
    → Within rows c
selects-Within rows c g w none t p q h = cc
selects-Within rows c g w (some e) none p q h = cc
selects-Within rows c g (lo, hi, dlo, dhi) (some e) (some t) p q h =
    let (same, bounds) = (&&_iff _ _).0 h in
    let (from, to) = (&&_iff _ _).0 bounds in
    let ex : g.exchange ≡ e = (==_iff g.exchange e).0 same in
    let from' : g.lo ≤ℤ t = (leb_ℤ_iff g.lo t).0 from in
    let to' : t ≤ℤ g.hi = (leb_ℤ_iff t g.hi).0 to in
    let day = day_between g.lo t g.hi from' to' (dlo ∙ sym dhi) in
    record {
      exchange = g.exchange;
      at = t;
      lo = g.lo;
      hi = g.hi;
      has_exchange = p ∙ ap some (sym ex);
      has_time = q;
      first = lo;
      last = hi;
      after_first = from';
      before_last = to';
      day_of_first = day;
      day_of_last = dhi ∙ sym dlo ∙ day;
    }

any-Within :
    (rows : List Row) (c : Row) (gs : List Group)
    → All (Tight rows) gs
    → any (selects c) gs ≡ true
    → Within rows c
any-Within rows c [] w h = cc
any-Within rows c (g ∷ gs) w h = elim (Bool-cases (selects c g)) [
  | inl hit ↦ selects-Within rows c g w.0 c.exchange c.trade_ts refl refl hit
  | inr miss ↦ any-Within rows c gs w.1 (rw miss at h)
]

module _ (ev : Evaluator) where
  open ev use {holds}

  holds-reduce_or :
      (acc : Expr) (es : List Expr) (r : Row)
      → holds (reduce_or acc es) r ≡ (holds acc r || any (λ e. holds e r) es)
  unfolding reduce_or
  holds-reduce_or acc [] r = ground arith
  holds-reduce_or acc (e ∷ es) r =
      ground (arith, holds-reduce_or (or_ acc e) es r, ev.holds-or acc e r)

  holds-any_of : (es : List Expr) (r : Row) → holds (any_of es) r ≡ any (λ e. holds e r) es
  holds-any_of [] r = ev.holds-false r
  holds-any_of (e ∷ es) r = holds-reduce_or e es r

  abbrev range_expr : Group → Expr
  range_expr g =
      and_
        (and_ (eq (col "exchange") (lit (utf8 g.exchange)))
          (gt_eq (col "trade_ts") (lit (time microsecond g.lo))))
        (lt_eq (col "trade_ts") (lit (time microsecond g.hi)))

  holds-range : (g : Group) (r : Row) → holds (range_expr g) r ≡ selects r g
  holds-range g r = ground (
    arith,
    ev.holds-and
        (and_ (eq (col "exchange") (lit (utf8 g.exchange)))
          (gt_eq (col "trade_ts") (lit (time microsecond g.lo))))
        (lt_eq (col "trade_ts") (lit (time microsecond g.hi))) r,
    ev.holds-and (eq (col "exchange") (lit (utf8 g.exchange)))
        (gt_eq (col "trade_ts") (lit (time microsecond g.lo))) r,
    ev.holds-exchange g.exchange r,
    ev.holds-from g.lo r,
    ev.holds-to g.hi r,
  )

  group_exprs-micros :
      (gs : List Group) → group_exprs (timestamp microsecond) gs ≡ ok (map range_expr gs)
  unfolding group_exprs
  group_exprs-micros [] = refl
  group_exprs-micros (g ∷ gs) = rw (group_exprs-micros gs) refl

  any-range :
      (gs : List Group) (r : Row) → any (λ e. holds e r) (map range_expr gs) ≡ any (selects r) gs
  any-range [] r = refl
  any-range (g ∷ gs) r = rw (holds-range g r, any-range gs r) refl

  -- Over a table with microsecond times the predicate is built without an error, and selects the rows
  -- whose exchange and time lie in the range of some exchange and day of the batch.
  build-selects :
      (iter : List Group → List Group) (rows : List Row)
      → Walks iter
      → (e : Expr) × (build_pruning_expr iter (some (timestamp microsecond)) rows ≡ ok e)
        × ((c : Row) → holds e c ≡ any (selects c) (groups_from [] rows))
  unfolding build_pruning_expr
  build-selects iter rows w = (
    any_of (map range_expr (iter (groups_from [] rows))),
    rw (group_exprs-micros (iter (groups_from [] rows))) refl,
    λ c.
        holds-any_of _ c
        ∙ any-range (iter (groups_from [] rows)) c
        ∙ w.any-iter (selects c) (groups_from [] rows),
  )

  selects-covered :
      (c : Row) (e : String) (t : ℤ) (gs : List Group)
      → c.exchange ≡ some e
      → c.trade_ts ≡ some t
      → any (in_range e t) gs ≡ any (selects c) gs
  selects-covered c e t [] p q = refl
  selects-covered c e t (g ∷ gs) p q =
      let first : in_range e t g ≡ selects c g = rw (p, q) refl in
      let rest = selects-covered c e t gs p q in λ i. first i || rest i

  -- The probe finds every redelivered row: whatever is committed with the exchange and the time of a row
  -- of the batch satisfies the predicate.
  pub pruning-covers :
      (iter : List Group → List Group) (rows : List Row) (p : Expr) (r c : Row) (e : String) (t : ℤ)
      → Walks iter
      → build_pruning_expr iter (some (timestamp microsecond)) rows ≡ ok p
      → Among r rows
      → Probes r e t
      → c.exchange ≡ some e
      → c.trade_ts ≡ some t
      → holds p c ≡ true
  pruning-covers iter rows p r c e t w built m probes ex ts =
      let (p', built', sel) = build-selects iter rows w in
      ap (λ x. holds x c) (ok-injective (sym built ∙ built'))
      ∙ sel c
      ∙ sym (selects-covered c e t _ ex ts)
      ∙ groups_from-cover e t r [] rows m probes

  -- The probe opens no other day: a row that satisfies the predicate has the exchange of two rows of the
  -- batch, lies between their times, and all three are on one day.
  pub pruning-Within :
      (iter : List Group → List Group) (rows : List Row) (p : Expr) (c : Row)
      → Walks iter
      → TimesFit rows
      → build_pruning_expr iter (some (timestamp microsecond)) rows ≡ ok p
      → holds p c ≡ true
      → Within rows c
  pruning-Within iter rows p c w fit built h =
      let (p', built', sel) = build-selects iter rows w in
      any-Within rows c (groups_from [] rows) (groups-Tight rows fit)
        (sym (sel c) ∙ ap (λ x. holds x c) (ok-injective (sym built' ∙ built)) ∙ h)
