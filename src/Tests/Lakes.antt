-- ===== src/Tests/Lakes.antt =====
-- A lake in memory: the table is a list of rows, a loaded table is the number of rows it had, and an
-- append on an older one is refused. The probe fails while the lake is broken.
mod Writes
pub mod Loop
use crypto_lakehouse.Prelude.{
  Bool, List, Option, [], ap, append-nil, arith, false, filter, if◌then◌else◌, int_eq, leb_ℤ,
  length, map, nat_beq, nat_eq, none, not, refl, some, string_eq, sym, true, ℕ, ◌&&◌, ◌*◌, ◌++◌,
  ◌+◌, ◌==◌, ◌||◌, ◌∙◌, ◌∷◌, ◌≡◌,
}
use crypto_lakehouse.Result.{Result, ok, err, message, is_ok, ok-injective}
use crypto_lakehouse.Table.{Row, sql_key}
use crypto_lakehouse.Sink.Lake.{Lake, Laws, FileTask, matched, concat_rows, part_rows, count}
use crypto_lakehouse.Sink.State.{Sink}
use crypto_lakehouse.Sink.Pruning.{
  Expr, col, lit, eq, gt_eq, lt_eq, and_, or_, Scalar, utf8, time, boolean, TimeUnit, microsecond,
  DataType, timestamp, Group,
}
use crypto_lakehouse.Sink.Pruning.Filter.{Evaluator, Walks, passes}

-- A filter keeps the rows where a predicate is true.
unfoldable pub evaluate : Expr → Row → Bool
evaluate (or_ a b) r = let x = evaluate a r in let y = evaluate b r in x || y
evaluate (and_ a b) r = let x = evaluate a r in let y = evaluate b r in x && y
evaluate (lit (boolean b)) r = b
evaluate (eq (col c) (lit (utf8 e))) r =
    if c == "exchange" then passes (λ x. e == x) r.exchange else false
evaluate (gt_eq (col c) (lit (time u t))) r =
    if c == "trade_ts" then passes (λ x. leb_ℤ t x) r.trade_ts else false
evaluate (lt_eq (col c) (lit (time u t))) r =
    if c == "trade_ts" then passes (λ x. leb_ℤ x t) r.trade_ts else false
evaluate e r = false

abbrev pub evaluator : Evaluator
unfolding evaluate
evaluator = record {
  holds = evaluate;
  holds-or = λ a b r. refl;
  holds-and = λ a b r. refl;
  holds-false = λ r. refl;
  holds-exchange = λ e r. refl;
  holds-from = λ t r. refl;
  holds-to = λ t r. refl;
}

pub record Storage : Type 0 where
  pub rows : List Row
  pub broken : Bool

abbrev append : Storage → ℕ → List (List Row) → Result ℕ × Storage
append w seen files =
    if nat_beq seen (length w.rows)
    then (
      ok (length (w.rows ++ concat_rows files)),
      record w { rows = w.rows ++ concat_rows files },
    )
    else (err (message "conflict"), w)

abbrev register : List Row → Option (List Row) → Result (Unit {0}) × Option (List Row)
register rows none = (ok tt, some rows)
register rows (some old) = (err (message "the table already exists"), some old)

abbrev deregister : Option (List Row) → Result (Unit {0}) × Option (List Row)
deregister none = (ok tt, none)
deregister (some old) = (ok tt, none)

abbrev anti_join : Expr → Option (List Row) → List Row → Result (List (List Row))
anti_join p none committed = err (message "no table")
anti_join p (some rows) committed =
    ok (filter (λ r. not (matched evaluate p committed r)) rows ∷ [])

-- The rows of a table: those of the one that grows, or of one that nobody can append to.
abbrev pub rows_of : Option (List Row) → Storage → List Row
rows_of none w = w.rows
rows_of (some rows) w = rows

abbrev append_to : Option (List Row) → Storage → ℕ → List (List Row) → Result ℕ × Storage
append_to none w seen files = append w seen files
append_to (some rows) w seen files = (err (message "read only"), w)

abbrev pub held : Option (List Row) → Lake Storage
held frozen = record {
  Ctx = Option (List Row);
  Table = ℕ;
  Schema = Unit {0};
  Splitter = Unit {0};
  Location = Unit {0};
  Writer = List Row;
  PartitionKey = Unit {0};
  DataFile = List Row;
  same_partition = λ a b. true;
  partition = λ f. tt;
  file_size_in_bytes = λ f. 100 * length f;
  now = λ w. (0, w);
  sleep = λ n w. w;
  load_table = λ w. (ok (length (rows_of frozen w)), w);
  apply_fast_append = λ t fs. ok tt;
  fast_append = append_to frozen;
  plan_files = λ w t p. (if w.broken then err (message "connection reset") else ok [], w);
  total_data_files_property = λ t. none;
  parse_usize = λ text. none;
  schema_to_arrow_schema = λ t. ok tt;
  trade_ts_type = λ c. some (timestamp microsecond);
  try_new = λ c rs. ok rs;
  concat_batches = λ c bs. ok (concat_rows bs);
  register_batch = λ n rs c. register rs c;
  deregister_table = λ n c. deregister c;
  filter_table = λ c w p. (ok tt, w);
  left_anti_join = λ n p c w. (anti_join p c (rows_of frozen w), w);
  walk = λ gs. gs;
  try_new_splitter = λ t. ok tt;
  split = λ x rs. ok ((tt, rs) ∷ []);
  location_generator = λ t. ok tt;
  new_writer = λ t l. [];
  write = λ k rs x w. (ok (x ++ rs), w);
  close = λ x w. (ok (x ∷ []), w);
}

abbrev pub memory : Lake Storage
memory = held none

map_same : (fs : List (List Row)) → map (λ f. f) fs ≡ fs
map_same [] = refl
map_same (f ∷ fs) = ap (λ gs. f ∷ gs) (map_same fs)

pub append_to_ok :
    (frozen : Option (List Row)) (w : Storage) (t t' : ℕ) (fs : List (List Row))
    → (append_to frozen w t fs).0 ≡ ok t'
    → rows_of frozen (append_to frozen w t fs).1 ≡ rows_of frozen w ++ concat_rows (map (λ f. f) fs)
append_to_ok none w t t' fs h = ground (arith, h, map_same fs)
append_to_ok (some rows) w t t' fs h = cc

pub append_to_err :
    (frozen : Option (List Row)) (w : Storage) (t : ℕ) (fs : List (List Row))
    → is_ok (append_to frozen w t fs).0 ≡ false
    → rows_of frozen (append_to frozen w t fs).1 ≡ rows_of frozen w
append_to_err none w t fs h = ground (arith, h)
append_to_err (some rows) w t fs h = refl

pub count-append :
    (q : Row → Bool) (xs ys : List Row) → count q (xs ++ ys) ≡ count q xs + count q ys
count-append q [] ys = omega arith
count-append q (x ∷ xs) ys = ground (arith, count-append q xs ys)

unfoldable pub held_laws : (frozen : Option (List Row)) → Laws (held frozen)
unfolding evaluate
held_laws frozen = record {
  committed = rows_of frozen;
  contents = λ f. f;
  committed-now = λ w. refl;
  committed-sleep = λ n w. refl;
  committed-load_table = λ w. refl;
  committed-plan_files = λ w t p. refl;
  committed-filter_table = λ c w p. refl;
  committed-left_anti_join = λ n p c w. refl;
  committed-write = λ k rs x w. refl;
  committed-close = λ x w. refl;
  fast_append_ok = append_to_ok frozen;
  fast_append_err = append_to_err frozen;
  try_new_ok = λ c rs out h. sym (ok-injective h);
  concat_batches_ok = λ c bs out h. sym (ok-injective h);
  registered = λ c n. c;
  register_batch_free = λ n rs c h. rw h (refl, refl);
  register_batch_taken = λ n rs old c h. rw h (refl, refl);
  deregister_table_ok = λ n rs c h. rw h (refl, refl);
  evaluator = evaluator;
  walks = record { any-iter = λ p gs. refl };
  left_anti_join_ok = λ n p c w rs out h k q.
      ap (λ o. count q (concat_rows o)) (sym (ok-injective (rw h at k)))
      ∙ ap (count q) (append-nil _);
  pending = λ x. x;
  split_ok = λ x rs ps h q.
      ap (λ o. count q (part_rows o)) (sym (ok-injective h)) ∙ ap (count q) (append-nil rs);
  pending-new_writer = λ t l q. refl;
  write_ok = λ k rs x x' w h q. ap (count q) (sym (ok-injective h)) ∙ count-append q x rs;
  close_ok = λ x w fs h q.
      ap (λ o. count q (concat_rows (map (λ f. f) o))) (sym (ok-injective h))
      ∙ ap (count q) (append-nil x);
}

abbrev pub memory_laws : Laws memory
memory_laws = held_laws none
