-- ===== src/Schema/Times.antt =====
-- What a stored row says of its trade: its key and its time.
use crypto_lakehouse.Prelude.{
  ap, arith, as_i64, as_i64-pos, is_i64, pos, refl, scale_ℤ, some, wrap_i64, wrap_i64-is_i64, ℕ, ℤ,
  ◌*◌, ◌↔◌, ◌≡◌, ◌≤◌,
}
use mathlib.Core.Option.{some-injective}
use crypto_lakehouse.Trade.{TradeEvent, key_of}
use crypto_lakehouse.Table.{sql_key}
use crypto_lakehouse.Schema.{to_row, micros_of}

-- The last millisecond whose microseconds are an `i64`.
abbrev pub last_milli : ℕ
last_milli = 9223372036854775

abbrev pub micros_per_day : ℕ
micros_per_day = 86400000000

-- The key of the row in the table is the key by which the accumulator drops duplicates.
pub sql_key-to_row : (e : TradeEvent) → sql_key (to_row e) ≡ some (key_of e)
unfolding to_row key_of
sql_key-to_row e = refl

micros_of-pos : (n : ℕ) → n ≤ last_milli → micros_of (pos n) ≡ pos (n * 1000)
unfolding wrap_i64
micros_of-pos n h = ground arith

stored-le : (z : ℤ) (n : ℕ) → micros_of z ≡ pos (n * 1000) → n ≤ last_milli
stored-le z n e = ground (arith, wrap_i64-is_i64 (scale_ℤ 1000 z), ap is_i64 e)

-- The row's `trade_ts` is a thousand times the milliseconds of the event exactly for times up to
-- `last_milli`; past it the product leaves the range of an `i64`.
pub trade_ts_iff :
    (e : TradeEvent)
    → ((to_row e).trade_ts ≡ some (pos (e.trade_time * 1000))) ↔ (e.trade_time ≤ last_milli)
unfolding to_row
trade_ts_iff e = (
  λ h. stored-le (as_i64 e.trade_time) e.trade_time (some-injective _ _ h),
  λ h. ap some (rw (as_i64-pos e.trade_time (omega arith)) (micros_of-pos e.trade_time h)),
)
