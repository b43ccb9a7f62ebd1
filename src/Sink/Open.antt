-- ===== src/Sink/Open.antt =====
-- `ensure_table` of rustapps/crypto-batcher/src/sink.rs: the table is loaded, or created with its namespace.
-- The catalog is a parameter.
pub mod Created
use crypto_lakehouse.Prelude.{Bool, List, String, [], false, if◌then◌else◌, true, ◌∷◌}
use crypto_lakehouse.Result.{Result, ok, err, Error}
use crypto_lakehouse.Action.{Action, ◌>>=◌, ◌>>◌, pure, lift, with_context, under, resume}
use crypto_lakehouse.Schema.{IcebergSchema, PartitionField, table_schema, unbound_partition_spec}

pub record TableIdent : Type 0 where
  pub namespace : String
  pub name : String

pub data ErrorKind : Type 0 where
  table_not_found namespace_not_found unexpected : ErrorKind

pub record TableCreation : Type 0 where
  pub name : String
  pub schema : IcebergSchema
  pub partition_spec : List PartitionField
  pub properties : List (String × String)

-- What `load_table` answers.
pub data Load (T : Type 0) : Type 0 where
  loaded : T → Load T
  failed : ErrorKind → Error → Load T

pub record Catalog : Type 1 where
  pub State : Type 0
  -- the tables of a name
  pub Table : TableIdent → Type 0
  pub load_table : (i : TableIdent) → State → Load (Table i) × State
  pub namespace_exists : String → State → Result Bool × State
  pub create_namespace : String → State → Result (Unit {0}) × State
  pub create_table :
      (namespace : String) (c : TableCreation)
      → State
      → Result (Table (record { namespace = namespace; name = c.name })) × State

-- The kinds of error that mean that the table is missing.
unfoldable pub is_missing : ErrorKind → Bool
is_missing table_not_found = true
is_missing namespace_not_found = true
is_missing unexpected = false

-- The table to create, with the codec of the configuration.
abbrev pub creation_of : TableIdent → String → TableCreation
creation_of ident codec = record {
  name = ident.name;
  schema = table_schema;
  partition_spec = unbound_partition_spec;
  properties = ("write.parquet.compression-codec", codec) ∷ [];
}

module _ (C : Catalog) where
  unfoldable pub ensure_namespace : String → Action C.State (Unit {0})
  ensure_namespace namespace = do
    exists ← with_context "failed to check namespace existence" (C.namespace_exists namespace)
    if exists
        then pure tt
        else with_context "failed to create namespace" (C.create_namespace namespace)

  -- The arms of the match on the answer of the catalog.
  unfoldable pub after_load :
      (ident : TableIdent)
      → String
      → Load (C.Table ident) × C.State
      → Result (C.Table ident) × C.State
  unfolding is_missing ensure_namespace
  after_load ident codec (loaded table, s) = (ok table, s)
  after_load ident codec (failed kind e, s) =
      if is_missing kind
      then (ensure_namespace ident.namespace
            >> with_context "failed to create table"
                (C.create_table ident.namespace (creation_of ident codec)))
          s
      else (err (Error.context "failed to load table" e), s)

  unfoldable pub ensure_table : (ident : TableIdent) → String → Action C.State (C.Table ident)
  unfolding after_load
  ensure_table ident codec s = after_load ident codec (C.load_table ident s)
