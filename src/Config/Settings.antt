-- ===== src/Config/Settings.antt =====
-- `IcebergConfig::from_env` and `Config::from_env` of rustapps/crypto-batcher/src/config.rs, and what sink.rs
-- makes of the settings: `catalog_props`, `parse_codec`.
use crypto_lakehouse.Prelude.{
  Bool, List, Option, String, [], false, if◌then◌else◌, none, some, true, ℕ, ◌*◌, ◌∷◌,
}
use crypto_lakehouse.Result.{Result, ok, ◌>>=◌}
use crypto_lakehouse.Sink.Dedup.{codes}
use crypto_lakehouse.Source.Consumer.{NatsConfig}
use crypto_lakehouse.Batcher.Accumulator.{BatchConfig}
use crypto_lakehouse.Config.{optional, required, string, usize_env, u32_env}
use crypto_lakehouse.Config.Text.{Float, seconds, bytes_env, bool_env, one_of, trimmed_lower}

pub record IcebergConfig : Type 0 where
  pub uri : String
  pub warehouse : String
  pub credential : Option String
  pub namespace : String
  pub table : String
  pub s3_endpoint : String
  pub s3_region : String
  pub s3_access_key_id : String
  pub s3_secret_access_key : String
  pub s3_path_style : Bool
  pub parquet_compression : String
  pub target_file_size : ℕ
  pub commit_retries : ℕ

pub record Config : Type 0 where
  pub nats : NatsConfig
  pub iceberg : IcebergConfig
  pub batch : BatchConfig

module _ (f : Float) (env : String → Option String) where
  unfoldable pub iceberg_from_env : Result IcebergConfig
  unfolding optional required string bool_env bytes_env u32_env
  iceberg_from_env = do
    access_key ← required env "GARAGE_ACCESS_KEY"
    secret_key ← required env "GARAGE_SECRET_KEY"
    ok (record {
      uri =
          string env "LAKEKEEPER_URI"
            "http://lakekeeper-lakekeeper.default.svc.cluster.local:8181/catalog";
      warehouse = string env "LAKEKEEPER_WAREHOUSE" "crypto_lakehouse";
      credential = optional env "LAKEKEEPER_CREDENTIAL";
      namespace = string env "ICEBERG_NAMESPACE" "trades";
      table = string env "ICEBERG_TABLE" "trades";
      s3_endpoint = string env "GARAGE_ENDPOINT" "http://garage-svc.garage.svc.cluster.local:3900";
      s3_region = string env "GARAGE_REGION" "eu-lambronx-1";
      s3_access_key_id = access_key;
      s3_secret_access_key = secret_key;
      s3_path_style = bool_env env "GARAGE_PATH_STYLE" true;
      parquet_compression = string env "ICEBERG_PARQUET_COMPRESSION" "zstd";
      target_file_size = bytes_env f env "ICEBERG_TARGET_FILE_SIZE" (128 * 1024 * 1024);
      commit_retries = u32_env env "COMMIT_RETRIES" 5;
    })

  unfoldable pub from_env : Result Config
  unfolding required string seconds usize_env bytes_env bool_env iceberg_from_env
  from_env = do
    url ← required env "NATS_URL"
    ack_wait ← seconds f env "BATCHER_ACK_WAIT_SECS" (f.of_ℕ 300)
    fetch_expires ← seconds f env "BATCHER_FETCH_EXPIRES_SECS" (f.of_ℕ 2)
    iceberg ← iceberg_from_env
    flush_interval ← seconds f env "BATCH_FLUSH_INTERVAL_SECS" (f.of_ℕ 30)
    ok (record {
      nats = record {
        url = url;
        stream = string env "TRADES_STREAM" "tradesstream";
        subject_filter = string env "TRADES_SUBJECT_FILTER" "exchange.*";
        consumer = string env "BATCHER_CONSUMER" "iceberg-batcher";
        ack_wait = ack_wait;
        fetch_batch = usize_env env "BATCHER_FETCH_BATCH" 2000;
        fetch_expires = fetch_expires;
      };
      iceberg = iceberg;
      batch = record {
        max_records = usize_env env "BATCH_MAX_RECORDS" 50000;
        max_bytes = bytes_env f env "BATCH_MAX_BYTES" (32 * 1024 * 1024);
        flush_interval = flush_interval;
        dedup = bool_env env "BATCH_DEDUP" true;
      };
    })

-- The names of the properties that the catalog's and the object store's libraries define.
pub record PropNames : Type 0 where
  pub rest_catalog_uri : String
  pub rest_catalog_warehouse : String
  pub s3_endpoint : String
  pub s3_region : String
  pub s3_access_key_id : String
  pub s3_secret_access_key : String
  pub s3_path_style_access : String

abbrev bool_text : Bool → String
bool_text true = "true"
bool_text false = "false"

abbrev credential_prop : Option String → List (String × String)
credential_prop none = []
credential_prop (some c) = ("credential", c) ∷ []

-- The properties in the order of their insertion.
unfoldable pub catalog_props : PropNames → IcebergConfig → List (String × String)
catalog_props names cfg =
    (names.rest_catalog_uri, cfg.uri)
    ∷ (names.rest_catalog_warehouse, cfg.warehouse)
    ∷ (names.s3_endpoint, cfg.s3_endpoint)
    ∷ (names.s3_region, cfg.s3_region)
    ∷ (names.s3_access_key_id, cfg.s3_access_key_id)
    ∷ (names.s3_secret_access_key, cfg.s3_secret_access_key)
    ∷ (names.s3_path_style_access, bool_text cfg.s3_path_style)
    ∷ credential_prop cfg.credential

pub data ParquetCompression (Level : Type 0) : Type 0 where
  uncompressed snappy gzip lz4_raw : ParquetCompression Level
  zstd : Level → ParquetCompression Level

-- `ZstdLevel` of the parquet library.
pub record ZstdLevels : Type 1 where
  pub Level : Type 0
  pub try_new : ℕ → Option Level
  pub default : Level

unfoldable pub parse_codec : (z : ZstdLevels) → String → ParquetCompression z.Level
parse_codec z codec =
    let name = trimmed_lower (codes codec) in
    if one_of ("" ∷ "none" ∷ "uncompressed" ∷ []) name
    then uncompressed
    else if one_of ("snappy" ∷ []) name
    then snappy
    else if one_of ("gzip" ∷ []) name
    then gzip
    else if one_of ("lz4" ∷ "lz4_raw" ∷ "lz4raw" ∷ []) name
    then lz4_raw
    else if one_of ("zstd" ∷ []) name
    then elim (z.try_new 3) [ none ↦ zstd z.default | some level ↦ zstd level ]
    else zstd z.default
