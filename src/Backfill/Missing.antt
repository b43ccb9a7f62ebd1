-- ===== src/Backfill/Missing.antt =====
-- Which rows the backfill appends.
use crypto_lakehouse.Prelude.{
  ==_sym, Bool, List, Option, String, [], ap, arith, contains, contains-firsts, filter, int_eq, map,
  nat_eq, none, not, refl, some, string_eq, sym, true, ℤ, ◌&&◌, ◌+ℤ◌, ◌-ℤ◌, ◌==◌, ◌∙◌, ◌∷◌, ◌≡◌,
}
use crypto_lakehouse.Table.{Row, key_of_columns, sql_key}
use crypto_lakehouse.Ranking.{Columns, columns_of, columns_eq, Numbered, numbered, within}
use crypto_lakehouse.Ranking.Firsts.{first_rows, row_winners, first_rows-numbered}
use crypto_lakehouse.Sink.Lake.{joins}
use crypto_lakehouse.Backfill.{
  is_complete, is_some, ranked_of, src_ranked, target_keys, key_of_target, joins_any, missing, days,
  Key,
}

-- A row that can be appended and is not there.
abbrev pub wanted : List Columns → Row → Bool
wanted keys r = not (joins_any keys r) && is_complete r

missing-first_rows :
    (keys : List Columns) (ns : List Numbered)
    → missing (map ranked_of ns) keys ≡ filter (wanted keys) (first_rows ns)
unfolding missing
missing-first_rows keys [] = refl
missing-first_rows keys (n ∷ ns) = ground (arith, missing-first_rows keys ns)

pub missing-winners :
    (start end_ : ℤ) (source : List Row) (keys : List Columns)
    → missing (src_ranked start end_ source) keys
      ≡ filter (wanted keys) (row_winners (within start end_ source))
unfolding src_ranked
missing-winners start end_ source keys =
    missing-first_rows keys (numbered (within start end_ source))
    ∙ ap (filter (wanted keys)) (first_rows-numbered (within start end_ source))

pub some_of : {A : Type 0} (o : Option A) → is_some o ≡ true → (a : A) × (o ≡ some a)
some_of none h = cc
some_of (some a) h = (a, refl)

-- The key of a row whose key's columns are these.
abbrev pub columns_of_key : Key → Columns
columns_of_key k = record {
  exchange = some k.exchange;
  symbol = some k.symbol;
  trade_id = some k.trade_id;
}

-- A complete row has a key.
pub complete-key :
    (r : Row)
    → is_complete r ≡ true
    → (k : Key) × (sql_key r ≡ some k) × (columns_of r ≡ columns_of_key k)
unfolding is_complete
complete-key r h =
    let (ex, e1) = some_of r.exchange (ground (arith, h)) in
    let (sy, e2) = some_of r.symbol (ground (arith, h)) in
    let (id, e3) = some_of r.trade_id (ground (arith, h)) in
    (
      record { exchange = ex; symbol = sy; trade_id = id },
      λ i. key_of_columns (e1 i) (e2 i) (e3 i),
      λ i. record { exchange = e1 i; symbol = e2 i; trade_id = e3 i },
    )

pub joins-key :
    (ex sy : Option String) (id : Option ℤ) (k : Key)
    → joins (key_of_columns ex sy id) (some k)
      ≡ (columns_of_key k == record { exchange = ex; symbol = sy; trade_id = id })
joins-key none sy id k = refl
joins-key (some ex) none id k = ground arith
joins-key (some ex) (some sy) none k = ground arith
joins-key (some ex) (some sy) (some id) k =
    ground (arith, ==_sym ex k.exchange, ==_sym sy k.symbol, ==_sym id k.trade_id)

-- With a complete row a key joins that is the same.
pub joins-columns :
    (t : Columns) (r : Row)
    → is_complete r ≡ true
    → joins (key_of_target t) (sql_key r) ≡ (columns_of r == t)
joins-columns t r h =
    let (k, keyed, columns) = complete-key r h in
    ap (joins (key_of_target t)) keyed
    ∙ joins-key t.exchange t.symbol t.trade_id k
    ∙ ap (λ c. c == t) (sym columns)

pub joins_any-columns :
    (keys : List Columns) (r : Row)
    → is_complete r ≡ true
    → joins_any keys r ≡ contains keys (columns_of r)
joins_any-columns [] r h = refl
joins_any-columns (t ∷ ts) r h = ground (arith, joins-columns t r h, joins_any-columns ts r h)

filter-same_test :
    {A : Type 0} (p q : A → Bool) (xs : List A) → ((x : A) → p x ≡ q x) → filter p xs ≡ filter q xs
filter-same_test p q [] h = refl
filter-same_test p q (x ∷ xs) h = ground (arith, h x, filter-same_test p q xs h)

-- A complete row that is not among the target's keys, NULL or not, in the wider range.
abbrev pub absent : ℤ → ℤ → ℤ → List Row → Row → Bool
absent start end_ margin target r =
    is_complete r
    && not (
        contains (map columns_of (within (start -ℤ days margin) (end_ +ℤ days margin) target))
          (columns_of r))

wanted-absent :
    (start end_ margin : ℤ) (target : List Row) (r : Row)
    → wanted (target_keys start end_ margin target) r ≡ absent start end_ margin target r
unfolding target_keys
wanted-absent start end_ margin target r = ground (
  arith,
  joins_any-columns (target_keys start end_ margin target) r,
  contains-map-same (target_keys start end_ margin target) (columns_of r),
  contains-firsts (λ (k : Columns). k)
      (map columns_of (within (start -ℤ days margin) (end_ +ℤ days margin) target)) (columns_of r),
  contains-map-same (map columns_of (within (start -ℤ days margin) (end_ +ℤ days margin) target))
      (columns_of r),
)
  where
    contains-map-same :
        (ks : List Columns) (k : Columns) → contains (map (λ (k : Columns). k) ks) k ≡ contains ks k
    contains-map-same [] k = refl
    contains-map-same (j ∷ js) k = ground (arith, contains-map-same js k)

-- What is missing are, of the earliest rows of each key of the range, the complete ones whose key the target has
-- not.
pub missing-absent :
    (start end_ margin : ℤ) (source target : List Row)
    → missing (src_ranked start end_ source) (target_keys start end_ margin target)
      ≡ filter (absent start end_ margin target) (row_winners (within start end_ source))
missing-absent start end_ margin source target =
    missing-winners start end_ source (target_keys start end_ margin target)
    ∙ filter-same_test _ _ (row_winners (within start end_ source))
        (wanted-absent start end_ margin target)
