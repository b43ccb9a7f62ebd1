-- ===== src/Ranking.antt =====
-- SQL's `row_number() OVER (PARTITION BY exchange, symbol, trade_id ORDER BY event_ts, trade_ts)`, which
-- rustapps/crypto-iceberg-query/src/bin/dedup.rs and bin/backfill.rs select by. The rows of a table are a
-- list in whatever order the scan yields them, and rows that tie are numbered in that order.
pub mod Winners
pub mod Order
pub mod Firsts
pub mod Earliest
use crypto_lakehouse.Prelude.{
  ==_iff, Bool, Eq, List, Option, String, [], arith, false, filter, int_eq, leb_ℤ, length, ltb_ℤ,
  nat_eq, none, not, some, string_eq, true, ℕ, ℤ, ◌&&◌, ◌++◌, ◌+◌, ◌==◌, ◌||◌, ◌↔◌, ◌∷◌, ◌≡◌,
}
use crypto_lakehouse.Table.{Row}

-- A partition's key has the columns as they are: in `PARTITION BY` NULL is equal to NULL.
pub record Columns : Type 0 where
  pub exchange : Option String
  pub symbol : Option String
  pub trade_id : Option ℤ

abbrev pub option_beq {ℓ} : {A : Type ℓ} ⦃e : Eq A⦄ → Option A → Option A → Bool
option_beq none none = true
option_beq (some a) (some b) = a == b
option_beq _ _ = false

abbrev pub columns_beq : Columns → Columns → Bool
columns_beq a b =
    option_beq a.exchange b.exchange
    && option_beq a.symbol b.symbol
    && option_beq a.trade_id b.trade_id

option_beq_iff {ℓ} : {A : Type ℓ} ⦃e : Eq A⦄ (a b : Option A) → (option_beq a b ≡ true) ↔ (a ≡ b)
option_beq_iff none none = ground arith
option_beq_iff none (some b) = ground arith
option_beq_iff (some a) none = ground arith
option_beq_iff (some a) (some b) = ground (arith, ==_iff a b)

pub columns_beq_iff : (a b : Columns) → (columns_beq a b ≡ true) ↔ (a ≡ b)
columns_beq_iff a b = ground (
  arith,
  option_beq_iff a.exchange b.exchange,
  option_beq_iff a.symbol b.symbol,
  option_beq_iff a.trade_id b.trade_id,
)

instance abbrev pub columns_eq : Eq Columns
columns_eq = record { equals = columns_beq; decides = columns_beq_iff }

abbrev pub columns_of : Row → Columns
columns_of r = record { exchange = r.exchange; symbol = r.symbol; trade_id = r.trade_id }

-- Ascending, and NULL last.
abbrev pub leb_column : Option ℤ → Option ℤ → Bool
leb_column a none = true
leb_column none (some b) = false
leb_column (some a) (some b) = leb_ℤ a b

-- `ORDER BY event_ts, trade_ts`: not after.
unfoldable pub leb_row : Row → Row → Bool
leb_row a b =
    leb_column a.event_ts b.event_ts
    && (not (leb_column b.event_ts a.event_ts) || leb_column a.trade_ts b.trade_ts)

pub record Numbered : Type 0 where
  pub row : Row
  pub rn : ℕ

-- The rows of the same partition that are numbered before `x`: those before it in the scan that are not
-- after it in the order, and those behind it in the scan that are before it in the order.
unfoldable pub ahead_of : Row → List Row → List Row → ℕ
unfolding leb_row
ahead_of x before behind =
    length (filter (λ y. columns_of y == columns_of x && leb_row y x) before)
    + length (filter (λ y. columns_of y == columns_of x && not (leb_row x y)) behind)

unfoldable pub numbered_from : List Row → List Row → List Numbered
unfolding ahead_of
numbered_from before [] = []
numbered_from before (x ∷ behind) =
    record { row = x; rn = 1 + ahead_of x before behind } ∷ numbered_from (before ++ x ∷ []) behind

unfoldable pub numbered : List Row → List Numbered
unfolding numbered_from
numbered rows = numbered_from [] rows

-- `WHERE trade_ts >= lo AND trade_ts < hi`; NULL is in no range.
unfoldable pub in_range : ℤ → ℤ → Row → Bool
in_range lo hi r = elim r.trade_ts [ none ↦ false | some t ↦ leb_ℤ lo t && ltb_ℤ t hi ]

abbrev pub within : ℤ → ℤ → List Row → List Row
within lo hi rows = filter (in_range lo hi) rows
