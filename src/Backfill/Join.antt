-- ===== src/Backfill/Join.antt =====
-- The join of the ranked rows back to the append list.
use crypto_lakehouse.Prelude.{
  ==_iff, ==_sym, All, Bool-cases, Distinct, List, Option, [], ap, arith, contains, false, filter,
  if◌then◌else◌, inl, inr, int_eq, map, nat_eq, none, refl, some, string_eq, sym, true, ◌==◌, ◌∙◌,
  ◌∷◌, ◌≡◌,
}
use crypto_lakehouse.Table.{Row, sql_key}
use crypto_lakehouse.Ranking.{columns_of, columns_eq}
use crypto_lakehouse.Sink.Lake.{joins}
use crypto_lakehouse.Backfill.{Ranked, is_complete, is_some, left_join, outer, trade_id_of}
use crypto_lakehouse.Trade.{Key, key_eq}
use crypto_lakehouse.Backfill.Missing.{complete-key, joins-key}

joins_comm : (a b : Option Key) → joins a b ≡ joins b a
joins_comm none none = refl
joins_comm none (some b) = refl
joins_comm (some a) none = refl
joins_comm (some a) (some b) = ==_sym a b

-- A complete row joins the rows with the same key.
joins_complete :
    (m r : Row)
    → is_complete m ≡ true
    → joins (sql_key m) (sql_key r) ≡ (columns_of m == columns_of r)
joins_complete m r h =
    let (k, keyed, columns) = complete-key m h in
    ap (λ x. joins x (sql_key r)) keyed
    ∙ joins_comm (some k) (sql_key r)
    ∙ joins-key r.exchange r.symbol r.trade_id k
    ∙ ap (λ c. c == columns_of r) (sym columns)

-- The row of the append list that has the key, if there is one.
pub found : List Row → Row → Option Row
found [] r = none
found (m ∷ ms) r = if columns_of m == columns_of r then some m else found ms r

no_partner :
    (ms : List Row) (r : Row)
    → All (λ m. is_complete m ≡ true) ms
    → contains (map columns_of ms) (columns_of r) ≡ false
    → filter (λ m. joins (sql_key m) (sql_key r)) ms ≡ []
no_partner [] r c h = refl
no_partner (m ∷ ms) r c h =
    ground
      (arith, h, joins_complete m r c.0, no_partner ms r c.1, ==_sym (columns_of r) (columns_of m))

-- A row has one partner at most, so the join does not multiply.
one_partner :
    (x : Ranked) (ms : List Row)
    → All (λ m. is_complete m ≡ true) ms
    → Distinct (map columns_of ms)
    → outer x (filter (λ m. joins (sql_key m) (sql_key x.row)) ms)
      ≡ record { s = x; m = found ms x.row } ∷ []
unfolding found
one_partner x [] c d = refl
one_partner x (m ∷ ms) c d = elim (Bool-cases (columns_of m == columns_of x.row)) [
  | inl same ↦
      let here : joins (sql_key m) (sql_key x.row) ≡ true = joins_complete m x.row c.0 ∙ same in
      let alone =
        no_partner ms x.row c.1
          (rw (sym ((==_iff (columns_of m) (columns_of x.row)).0 same)) d.0) in
      rw (here, same, alone) refl
  | inr differs ↦
      let apart : joins (sql_key m) (sql_key x.row) ≡ false =
        joins_complete m x.row c.0 ∙ differs in
      rw (apart, differs) (one_partner x ms c.1 d.1)
]

pub left_join-one :
    (src : List Ranked) (ms : List Row)
    → All (λ m. is_complete m ≡ true) ms
    → Distinct (map columns_of ms)
    → left_join src ms ≡ map (λ (x : Ranked). record { s = x; m = found ms x.row }) src
unfolding left_join
left_join-one [] ms c d = refl
left_join-one (x ∷ xs) ms c d =
    rw (one_partner x ms c d)
      (ap (λ js. record { s = x; m = found ms x.row } ∷ js) (left_join-one xs ms c d))

pub found-contains :
    (ms : List Row) (r : Row)
    → All (λ m. is_complete m ≡ true) ms
    → is_some (trade_id_of (found ms r)) ≡ contains (map columns_of ms) (columns_of r)
unfolding found is_complete
found-contains [] r c = refl
found-contains (m ∷ ms) r c =
    ground (arith, c, found-contains ms r c.1, ==_sym (columns_of r) (columns_of m))
