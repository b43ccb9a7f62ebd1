-- ===== src/Ranking/Order.antt =====
-- The order in which the rows of a partition are numbered.
use crypto_lakehouse.Prelude.{Option, arith, false, true, ℤ, ◌≡◌}
use crypto_lakehouse.Table.{Row}
use crypto_lakehouse.Ranking.{leb_column, leb_row}

leb_column-total : (a b : Option ℤ) → leb_column a b ≡ false → leb_column b a ≡ true
leb_column-total a b h = ground arith

leb_column_trans :
    (a b c : Option ℤ) → leb_column a b ≡ true → leb_column b c ≡ true → leb_column a c ≡ true
leb_column_trans a b c h k = ground arith

pub leb_row-total : (a b : Row) → leb_row a b ≡ false → leb_row b a ≡ true
unfolding leb_row
leb_row-total a b h =
    ground (arith, leb_column-total a.event_ts b.event_ts, leb_column-total a.trade_ts b.trade_ts)

pub leb_row_trans : (a b c : Row) → leb_row a b ≡ true → leb_row b c ≡ true → leb_row a c ≡ true
unfolding leb_row
leb_row_trans a b c h k = ground (
  arith,
  leb_column_trans a.event_ts b.event_ts c.event_ts,
  leb_column_trans c.event_ts b.event_ts a.event_ts,
  leb_column_trans c.event_ts a.event_ts b.event_ts,
  leb_column_trans b.event_ts c.event_ts a.event_ts,
  leb_column_trans a.trade_ts b.trade_ts c.trade_ts,
)
