-- ===== src/Tests/Tools/Settings.antt =====
-- The settings, the sink that they open, and the session of the tools.
use crypto_lakehouse.Prelude.{none, refl, some, true, ◌↔◌, ◌≡◌}
use crypto_lakehouse.Result.{ok, is_ok}
use crypto_lakehouse.Config.{optional}
use crypto_lakehouse.Config.Text.{parse_bytes}
use crypto_lakehouse.Config.Settings.{IcebergConfig, iceberg_from_env, from_env, catalog_props}
use crypto_lakehouse.Config.Required.{Startable, from_env_iff}
use crypto_lakehouse.Query.Session.{session_props, peak_rss_mib}
use crypto_lakehouse.Query.Props.{session_props-catalog_props}
use crypto_lakehouse.Sink.Dedup.{codes}
use crypto_lakehouse.Tests.Tools.{numbers, env, names}

abbrev cfg : IcebergConfig
cfg = record {
  uri = "http://catalog";
  warehouse = "crypto_lakehouse";
  credential = none;
  namespace = "trades";
  table = "trades";
  s3_endpoint = "http://garage-svc.garage.svc.cluster.local:3900";
  s3_region = "eu-lambronx-1";
  s3_access_key_id = "id";
  s3_secret_access_key = "secret";
  s3_path_style = true;
  parquet_compression = "zstd";
  target_file_size = 134217728;
  commit_retries = 5;
}

reads_settings : iceberg_from_env numbers env ≡ ok cfg
unfolding iceberg_from_env
reads_settings = refl

session_props-catalog_props_example : session_props names env ≡ ok (catalog_props names cfg)
unfolding optional
session_props-catalog_props_example =
    session_props-catalog_props numbers names env cfg "http://catalog" reads_settings refl refl refl
      refl refl refl refl refl refl

from_env_iff_example : (is_ok (from_env numbers env) ≡ true) ↔ Startable numbers env
from_env_iff_example = from_env_iff numbers env

starts : is_ok (from_env numbers env) ≡ true
unfolding from_env numbers
starts = refl

sizes_run : parse_bytes numbers (codes " 128 MiB ") ≡ some 134217728
unfolding parse_bytes numbers
sizes_run = refl

rss_runs : peak_rss_mib (some (codes "VmHWM:     2048 kB")) ≡ 2
unfolding peak_rss_mib
rss_runs = refl
