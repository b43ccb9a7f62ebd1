-- ===== src/Sink/Connect.antt =====
-- `connect`, `with_catalog` and `probe_view_provider` of rustapps/crypto-batcher/src/sink.rs: how a sink comes
-- to be. The libraries' catalog, its view for DataFusion and a new session are parameters.
pub mod Ready
use crypto_lakehouse.Prelude.{Bool, List, Option, String}
use crypto_lakehouse.Result.{Result, ok, or_fail}
use crypto_lakehouse.Action.{Action, ◌>>=◌, ◌>>◌, pure, lift, gets, with_context, under, resume}
use crypto_lakehouse.Config.Settings.{IcebergConfig, PropNames, catalog_props}
use crypto_lakehouse.Sink.Lake.{Lake}
use crypto_lakehouse.Sink.State.{Sink}
use crypto_lakehouse.Sink.Open.{Catalog, Load, TableCreation, TableIdent, ensure_table}

-- `lake i` is what the sink of the table `i` calls, in the one world.
pub record Connector (W : Type 0) : Type 1 where
  pub lake : TableIdent → Lake W
  -- the views of a namespace and of a table
  pub Schema : String → Type 0
  pub Provider : TableIdent → Type 0
  pub prop_names : PropNames
  -- the REST catalog
  pub load : String → List (String × String) → W → Result (Unit {0}) × W
  pub load_table : (i : TableIdent) → W → Load (lake i).Table × W
  pub namespace_exists : String → W → Result Bool × W
  pub create_namespace : String → W → Result (Unit {0}) × W
  pub create_table :
      (namespace : String) (c : TableCreation)
      → W
      → Result (lake (record { namespace = namespace; name = c.name })).Table × W
  -- `IcebergCatalogProvider`
  pub try_new : W → Result (Unit {0}) × W
  pub schema : (namespace : String) → W → Option (Schema namespace)
  pub table :
      {namespace : String}
      → Schema namespace
      → (name : String) → W
      → Result (Option (Provider (record { namespace = namespace; name = name }))) × W
  -- the session
  pub new : (i : TableIdent) → (lake i).Ctx
  pub register_table : {i : TableIdent} → String → Provider i → (lake i).Ctx → Result (lake i).Ctx

-- The table of the configuration.
abbrev pub ident_of : IcebergConfig → TableIdent
ident_of cfg = record { namespace = cfg.namespace; name = cfg.table }

module _ {W : Type 0} (X : Connector W) where
  abbrev pub catalog : Catalog
  catalog = record {
    State = W;
    Table = λ i. (X.lake i).Table;
    load_table = X.load_table;
    namespace_exists = X.namespace_exists;
    create_namespace = X.create_namespace;
    create_table = X.create_table;
  }

  unfoldable pub probe_view_provider : (cfg : IcebergConfig) → Action W (X.Provider (ident_of cfg))
  probe_view_provider cfg = do
    with_context "failed to expose the iceberg catalog to datafusion" X.try_new
    found ← gets (X.schema cfg.namespace)
    schema ← lift (or_fail found "datafusion does not see the namespace")
    table ← X.table schema cfg.table
    lift (or_fail table "datafusion does not see the table")

  unfoldable pub with_catalog : (cfg : IcebergConfig) → Action W (Sink (X.lake (ident_of cfg)))
  unfolding probe_view_provider ensure_table
  with_catalog cfg = do
    table ← ensure_table catalog (ident_of cfg) cfg.parquet_compression
    provider ← probe_view_provider cfg
    ctx ← lift (X.register_table "icetbl" provider (X.new (ident_of cfg)))
    gets (λ w. record { ctx = ctx; world = w; table = table; commit_retries = cfg.commit_retries })

  unfoldable pub connect : (cfg : IcebergConfig) → Action W (Sink (X.lake (ident_of cfg)))
  unfolding with_catalog catalog_props
  connect cfg = do
    with_context "failed to load lakekeeper REST catalog"
        (X.load "lakekeeper" (catalog_props X.prop_names cfg))
    with_catalog cfg
