-- ===== src/Sink/Pruning.antt =====
-- `build_pruning_expr` of rustapps/crypto-batcher/src/sink.rs: the predicate of the dedup probe, one
-- `trade_ts` range for each exchange and day of the incoming batch. The set of symbols that the loop
-- also collects is not used there, and is left out.
pub mod Groups
pub mod Filter
use crypto_lakehouse.Prelude.{
  Bool, List, Option, String, [], div_euclid, false, if◌then◌else◌, int_eq, is_i64, max_ℤ, min_ℤ,
  nat_eq, negsuc, pos, scale_ℤ, some, string_eq, ℕ, ℤ, ◌&&◌, ◌-◌, ◌==◌, ◌^◌, ◌∷◌,
}
use crypto_lakehouse.Result.{
  Result, ok, err, message, context, panicked, ◌>>=◌, with_context, or_fail, Error,
}
use crypto_lakehouse.Table.{Row}

pub data TimeUnit : Type 0 where
  microsecond nanosecond millisecond second : TimeUnit

-- The type of the `trade_ts` column. The schema is the batcher's own, in which it is a timestamp; for any other
-- type the program panics, and that is outside of the model.
pub data DataType : Type 0 where
  timestamp : TimeUnit → DataType

pub data Scalar : Type 0 where
  utf8 : String → Scalar
  time : TimeUnit → ℤ → Scalar
  boolean : Bool → Scalar

-- The DataFusion expressions that the probe is built of.
pub data Expr : Type 0 where
  col : String → Expr
  lit : Scalar → Expr
  eq gt_eq lt_eq and_ or_ : Expr → Expr → Expr

-- A literal in the unit of the `trade_ts` column.
unfoldable pub ts_lit : DataType → ℤ → Result Expr
ts_lit (timestamp microsecond) v = ok (lit (time microsecond v))
ts_lit (timestamp nanosecond) v =
    if is_i64 (scale_ℤ 1000 v)
    then ok (lit (time nanosecond (scale_ℤ 1000 v)))
    else err (message "ns overflow")
ts_lit (timestamp millisecond) v = ok (lit (time millisecond (div_euclid v 1000)))
ts_lit (timestamp second) v = ok (lit (time second (div_euclid v 1000000)))

abbrev pub micros_per_day : ℕ
micros_per_day = 86400000000

abbrev pub i64_max : ℤ
i64_max = pos (2 ^ 63 - 1)

abbrev pub i64_min : ℤ
i64_min = negsuc (2 ^ 63 - 1)

-- The bounds of the times of one exchange on one day.
pub record Group : Type 0 where
  pub exchange : String
  pub day : ℤ
  pub lo : ℤ
  pub hi : ℤ

abbrev pub widen : Group → ℤ → Group
widen g t = record g { lo = min_ℤ g.lo t; hi = max_ℤ g.hi t }

-- The entry of a time, `or_insert` the empty range.
unfoldable pub add_time : String → ℤ → List Group → List Group
add_time e t [] =
    widen (record { exchange = e; day = div_euclid t micros_per_day; lo = i64_max; hi = i64_min }) t
    ∷ []
add_time e t (g ∷ gs) =
    if g.exchange == e && g.day == div_euclid t micros_per_day
    then widen g t ∷ gs
    else g ∷ add_time e t gs

-- A row with a NULL in one of the three columns is passed over.
unfoldable pub add_row : Option ℤ → Option String → Option String → List Group → List Group
unfolding add_time
add_row (some t) (some e) (some s) gs = add_time e t gs
add_row _ _ _ gs = gs

unfoldable pub groups_from : List Group → List Row → List Group
unfolding add_row
groups_from gs [] = gs
groups_from gs (r ∷ rs) = groups_from (add_row r.trade_ts r.exchange r.symbol gs) rs

unfoldable pub group_expr : DataType → Group → Result Expr
unfolding ts_lit
group_expr ts_dt g = do
  ll ← ts_lit ts_dt g.lo
  hh ← ts_lit ts_dt g.hi
  ok (
      and_ (and_ (eq (col "exchange") (lit (utf8 g.exchange))) (gt_eq (col "trade_ts") ll))
        (lt_eq (col "trade_ts") hh))

-- `collect::<Result<Vec<_>>>`: the first error ends it.
unfoldable pub group_exprs : DataType → List Group → Result (List Expr)
unfolding group_expr
group_exprs ts_dt [] = ok []
group_exprs ts_dt (g ∷ gs) = do e ← group_expr ts_dt g; es ← group_exprs ts_dt gs; ok (e ∷ es)

-- `reduce(Expr::or)`.
unfoldable pub reduce_or : Expr → List Expr → Expr
reduce_or acc [] = acc
reduce_or acc (e ∷ es) = reduce_or (or_ acc e) es

abbrev pub any_of : List Expr → Expr
any_of [] = lit (boolean false)
any_of (e ∷ es) = reduce_or e es

-- `iter` is the order in which the hash map of the groups is walked. The schema's `trade_ts` field, if
-- there is one, has the type `ts_dt`.
unfoldable pub build_pruning_expr :
    (List Group → List Group) → Option DataType → List Row → Result Expr
unfolding groups_from group_exprs reduce_or
build_pruning_expr iter ts_dt rows = do
  dt ← or_fail ts_dt "iceberg schema has no `trade_ts`"
  es ← group_exprs dt (iter (groups_from [] rows))
  ok (any_of es)
