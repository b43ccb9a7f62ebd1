-- ===== src/Tests/Catalogs.antt =====
-- A catalog in memory with one namespace and one table.
use crypto_lakehouse.Prelude.{Bool, Option, false, if◌then◌else◌, none, refl, some, true, ◌≡◌}
use crypto_lakehouse.Result.{Result, ok, err, message}
use crypto_lakehouse.Action.Ends.{Ends}
use crypto_lakehouse.Sink.Open.{
  TableIdent, table_not_found, namespace_not_found, TableCreation, Load, loaded, failed, Catalog,
  creation_of, ensure_table,
}

record Shelf : Type 0 where
  has_namespace : Bool
  table : Option TableCreation

abbrev load : Shelf → Load TableCreation
load s = elim s.table [
  | none ↦
      failed (if s.has_namespace then table_not_found else namespace_not_found) (message "missing")
  | some t ↦ loaded t
]

abbrev create : TableCreation → Shelf → Result TableCreation × Shelf
create c s =
    if s.has_namespace
    then (ok c, record s { table = some c })
    else (err (message "no namespace"), s)

abbrev shelves : Catalog
shelves = record {
  State = Shelf;
  Table = λ i. TableCreation;
  load_table = λ i s. (load s, s);
  namespace_exists = λ n s. (ok s.has_namespace, s);
  create_namespace = λ n s. (ok tt, record s { has_namespace = true });
  create_table = λ n c s. create c s;
}

abbrev trades : TableIdent
trades = record { namespace = "trades"; name = "trades" }

abbrev bare : Shelf
bare = record { has_namespace = false; table = none }

ensure_table_creates : (ensure_table shelves trades "zstd" bare).0 ≡ ok (creation_of trades "zstd")
unfolding ensure_table
ensure_table_creates = refl
