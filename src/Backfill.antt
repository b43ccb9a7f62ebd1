-- ===== src/Backfill.antt =====
-- rustapps/crypto-iceberg-query/src/bin/backfill.rs: the rows of a range that a sibling table lacks, and their
-- append. A query is the function from the rows of the tables to its result; `start` and `end_` are the
-- instants of the two literals.
pub mod Missing
pub mod Rows
pub mod Projection
pub mod Join
pub mod Audit
pub mod Again
pub mod Main
use crypto_lakehouse.Prelude.{
  Bool, List, Option, String, [], all, any, false, filter, firsts, int_eq, length, ltb, map,
  nat_beq, nat_eq, none, not, pos, scale_ℤ, some, string_eq, true, ℕ, ℤ, ◌&&◌, ◌++◌, ◌+ℤ◌, ◌-ℤ◌,
  ◌∷◌,
}
use crypto_lakehouse.Trade.{Key, key_eq}
use crypto_lakehouse.Table.{Row, key_of_columns, sql_key}
use crypto_lakehouse.Ranking.{Columns, columns_of, columns_eq, Numbered, numbered, in_range, within}
use crypto_lakehouse.Sink.Lake.{joins}

abbrev pub is_some {ℓ} : {A : Type ℓ} → Option A → Bool
is_some none = false
is_some (some a) = true

-- The columns, by what `IS NOT NULL` says of them.
abbrev pub must_not_be_null : List (String × (Row → Bool))
must_not_be_null =
    ("event_time", λ (r : Row). is_some r.event_time)
    ∷ ("symbol", λ (r : Row). is_some r.symbol)
    ∷ ("exchange", λ (r : Row). is_some r.exchange)
    ∷ ("trade_id", λ (r : Row). is_some r.trade_id)
    ∷ ("price", λ (r : Row). is_some r.price)
    ∷ ("quantity", λ (r : Row). is_some r.quantity)
    ∷ ("trade_time", λ (r : Row). is_some r.trade_time)
    ∷ ("trade_ts", λ (r : Row). is_some r.trade_ts)
    ∷ ("event_ts", λ (r : Row). is_some r.event_ts)
    ∷ []

unfoldable pub is_complete : Row → Bool
is_complete r = all (λ (c : String × (Row → Bool)). c.1 r) must_not_be_null

pub record Ranked : Type 0 where
  pub row : Row
  pub maker_was_null : Bool
  pub complete : Bool
  pub rn : ℕ

abbrev pub ranked_of : Numbered → Ranked
ranked_of n = record {
  row = n.row;
  maker_was_null = not (is_some n.row.is_buyer_maker);
  complete = is_complete n.row;
  rn = n.rn;
}

unfoldable pub src_ranked : ℤ → ℤ → List Row → List Ranked
unfolding numbered in_range is_complete
src_ranked start end_ source = map ranked_of (numbered (within start end_ source))

-- `INTERVAL '<n> days'` in microseconds.
abbrev pub days : ℤ → ℤ
days n = scale_ℤ 86400000000 n

-- `SELECT DISTINCT exchange, symbol, trade_id` of the target, in the wider range.
unfoldable pub target_keys : ℤ → ℤ → ℤ → List Row → List Columns
unfolding in_range firsts
target_keys start end_ margin target =
    firsts (λ (k : Columns). k) []
      (map columns_of (within (start -ℤ days margin) (end_ +ℤ days margin) target))

abbrev pub key_of_target : Columns → Option Key
key_of_target t = key_of_columns t.exchange t.symbol t.trade_id

-- The row joins one of the keys; one with a NULL in its key joins none.
abbrev pub joins_any : List Columns → Row → Bool
joins_any keys r = any (λ t. joins (key_of_target t) (sql_key r)) keys

-- The append list.
unfoldable pub missing : List Ranked → List Columns → List Row
missing src keys =
    map (λ (s : Ranked). s.row)
      (filter (λ (s : Ranked). not (joins_any keys s.row) && (nat_beq s.rn 1 && s.complete)) src)

abbrev pub coalesce {ℓ} : {A : Type ℓ} → Option A → A → A
coalesce none d = d
coalesce (some a) d = a

-- `CAST(coalesce(CAST(b AS INT), 0) AS BOOLEAN)`.
abbrev pub as_int : Option Bool → Option ℕ
as_int none = none
as_int (some true) = some 1
as_int (some false) = some 0

abbrev pub flag : Option Bool → Bool
flag b = not (nat_beq (coalesce (as_int b) 0) 0)

-- The projection; 0 is also the bit pattern of the `f64` 0.
unfoldable pub project : Row → Row
project r = record {
  event_time = some (coalesce r.event_time (pos 0));
  symbol = some (coalesce r.symbol "");
  exchange = some (coalesce r.exchange "");
  trade_id = some (coalesce r.trade_id (pos 0));
  price = some (coalesce r.price 0);
  quantity = some (coalesce r.quantity 0);
  trade_time = some (coalesce r.trade_time (pos 0));
  is_buyer_maker = some (flag r.is_buyer_maker);
  is_best_price_match = some (flag r.is_best_price_match);
  trade_ts = some (coalesce r.trade_ts (pos 0));
  event_ts = some (coalesce r.event_ts (pos 0));
}

-- `candidate_sql`.
unfoldable pub candidates : List Row → List Row
unfolding project
candidates rows = map project rows

-- A row of `src_ranked s LEFT JOIN missing m`.
pub record Joined : Type 0 where
  pub s : Ranked
  pub m : Option Row

abbrev pub paired : Ranked → List Row → List Joined
paired x [] = []
paired x (y ∷ ys) = record { s = x; m = some y } ∷ paired x ys

-- A row without a partner is there once, with NULLs.
abbrev pub outer : Ranked → List Row → List Joined
outer x [] = record { s = x; m = none } ∷ []
outer x (y ∷ ys) = paired x (y ∷ ys)

unfoldable pub left_join : List Ranked → List Row → List Joined
left_join [] ms = []
left_join (x ∷ xs) ms =
    outer x (filter (λ m. joins (sql_key m) (sql_key x.row)) ms) ++ left_join xs ms

abbrev pub trade_id_of : Option Row → Option ℤ
trade_id_of none = none
trade_id_of (some r) = r.trade_id

abbrev pub count_joined : (Joined → Bool) → List Joined → ℕ
count_joined p js = length (filter p js)

-- The columns of the one row of `audit_sql`.
unfoldable pub audit : List Ranked → List Row → List (String × ℕ)
unfolding left_join
audit src rows =
    let js = left_join src rows in
    ("rows_in_window", length js)
    ∷ ("distinct_keys", count_joined (λ (j : Joined). nat_beq j.s.rn 1) js)
    ∷ ("duplicate_rows", count_joined (λ (j : Joined). ltb 1 j.s.rn) js)
    ∷ ("maker_nulls", count_joined (λ (j : Joined). j.s.maker_was_null && nat_beq j.s.rn 1) js)
    ∷ ("rows_skipped_null", count_joined (λ (j : Joined). nat_beq j.s.rn 1 && not j.s.complete) js)
    ∷ (
      "rows_to_append",
      count_joined (λ (j : Joined). nat_beq j.s.rn 1 && is_some (trade_id_of j.m)) js,
    )
    ∷ []
