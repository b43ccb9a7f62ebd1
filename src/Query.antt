-- ===== src/Query.antt =====
-- `checked_qualified_name` and `count_from` of rustapps/crypto-iceberg-query/src/lib.rs. A name is the
-- list of the codes of its characters.
pub mod Names
pub mod Visible
pub mod Session
pub mod Props
pub mod Engine
pub mod Answers
use crypto_lakehouse.Prelude.{
  Bool, List, Option, String, [], all, filter, is_nil, leb, length, nat_beq, none, not, pos_part,
  some, ℕ, ℤ, ◌&&◌, ◌||◌, ◌∷◌,
}
use crypto_lakehouse.Result.{Result, ok, err, message, ensure, ◌>>=◌, ◌>>◌, or_fail}
use crypto_lakehouse.Sink.Dedup.{split_by}

-- `.`
abbrev pub dot : ℕ
dot = 46

abbrev pub between : ℕ → ℕ → ℕ → Bool
between lo hi c = leb lo c && leb c hi

-- `is_ascii_alphanumeric`, or `_` (95), or `-` (45).
abbrev pub is_name_char : ℕ → Bool
is_name_char c =
    between 48 57 c || between 65 90 c || between 97 122 c || nat_beq c 95 || nat_beq c 45

-- A part of a name.
abbrev pub is_part : List ℕ → Bool
is_part part = not (is_nil part) && all is_name_char part

-- `table.matches('.').count()`.
abbrev pub dots : List ℕ → ℕ
dots name = length (filter (nat_beq dot) name)

abbrev pub is_qualified : List ℕ → Bool
unfolding split_by
is_qualified table =
    not (is_nil table) && nat_beq (dots table) 1 && all is_part (split_by dot table)

unfoldable pub checked_qualified_name : List ℕ → Result (List ℕ)
unfolding is_qualified
checked_qualified_name table = do ensure (is_qualified table) "invalid table reference"; ok table

-- A column of a result batch, by its type.
pub data Column : Type 0 where
  uint64 : List ℕ → Column
  int64 : List ℤ → Column
  other : Column

abbrev one_row : {A : Type 0} → List A → String → Result A
one_row (a ∷ []) e = ok a
one_row _ e = err (message e)

-- A count, whichever of the two types it has; a negative one counts as none.
unfoldable pub count_from : Option Column → Result ℕ
count_from none = err (message "no such column in result")
count_from (some (uint64 counts)) = one_row counts "expected one row"
count_from (some (int64 counts)) = do n ← one_row counts "expected one row"; ok (pos_part n)
count_from (some other) = err (message "expected a count")
