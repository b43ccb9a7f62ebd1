-- ===== src/Backfill/Projection.antt =====
-- rustapps/crypto-iceberg-query/src/bin/backfill.rs: what `CANDIDATE_PROJECTION` makes of the append list.
use crypto_lakehouse.Prelude.{
  All, All-map, Bool, List, Option, [], arith, false, map, none, pos, refl, some, true, ℤ, ◌∷◌, ◌≡◌,
}
use crypto_lakehouse.Table.{Row}
use crypto_lakehouse.Schema.{table_schema}
use crypto_lakehouse.Schema.Fields.{Fits, columns}
use crypto_lakehouse.Backfill.{
  candidates, coalesce, flag, is_complete, is_some, missing, project, src_ranked, target_keys,
}
use crypto_lakehouse.Backfill.Rows.{Complete-is_complete, missing-Appendable}

-- NULL is false, and what is given stays.
abbrev pub or_false : Option Bool → Bool
or_false none = false
or_false (some b) = b

flag-or_false : (b : Option Bool) → flag b ≡ or_false b
flag-or_false none = refl
flag-or_false (some true) = refl
flag-or_false (some false) = refl

-- The row with both flags.
abbrev pub restored : Row → Row
restored r = record r {
  is_buyer_maker = some (or_false r.is_buyer_maker);
  is_best_price_match = some (or_false r.is_best_price_match);
}

coalesced : {A : Type 0} (o : Option A) (d : A) → is_some o ≡ true → some (coalesce o d) ≡ o
coalesced none d h = cc
coalesced (some a) d h = refl

-- Of a complete row no default is used but that of the flags.
project-restored : (r : Row) → is_complete r ≡ true → project r ≡ restored r
unfolding is_complete project
project-restored r h =
    let e1 = coalesced r.event_time (pos 0) (ground (arith, h)) in
    let e2 = coalesced r.symbol "" (ground (arith, h)) in
    let e3 = coalesced r.exchange "" (ground (arith, h)) in
    let e4 = coalesced r.trade_id (pos 0) (ground (arith, h)) in
    let e5 = coalesced r.price 0 (ground (arith, h)) in
    let e6 = coalesced r.quantity 0 (ground (arith, h)) in
    let e7 = coalesced r.trade_time (pos 0) (ground (arith, h)) in
    let e8 = coalesced r.trade_ts (pos 0) (ground (arith, h)) in
    let e9 = coalesced r.event_ts (pos 0) (ground (arith, h)) in
    λ i. record {
      event_time = e1 i;
      symbol = e2 i;
      exchange = e3 i;
      trade_id = e4 i;
      price = e5 i;
      quantity = e6 i;
      trade_time = e7 i;
      is_buyer_maker = some (flag-or_false r.is_buyer_maker i);
      is_best_price_match = some (flag-or_false r.is_best_price_match i);
      trade_ts = e8 i;
      event_ts = e9 i;
    }

project-Fits : (r : Row) → Fits table_schema.fields (columns (project r))
unfolding project columns
project-Fits r = refl

projected :
    (rows : List Row)
    → All (λ r. is_complete r ≡ true) rows
    → All (λ r. Fits table_schema.fields (columns r)) (candidates rows)
      × (candidates rows ≡ map restored rows)
unfolding candidates
projected [] h = (tt, refl)
projected (r ∷ rows) h =
    let (fit, same) = projected rows h.1 in
    ((project-Fits r, fit), λ i. project-restored r h.0 i ∷ same i)

-- Every row that the backfill's projection makes of the append list has for each field of the table's schema,
-- in order, a value of the field's type that is not NULL, and it is the row of the source itself but for the
-- two flags, of which NULL has become false: no other column is replaced by its default.
pub candidates-Fits :
    (start end_ margin : ℤ) (source target : List Row)
    → let rows = missing (src_ranked start end_ source) (target_keys start end_ margin target) in
      All (λ r. Fits table_schema.fields (columns r)) (candidates rows)
      × (candidates rows ≡ map restored rows)
candidates-Fits start end_ margin source target =
    let rows = missing (src_ranked start end_ source) (target_keys start end_ margin target) in
    projected rows (
      All-map rows (λ r c. Complete-is_complete r c)
        (missing-Appendable start end_ margin source target).complete)
