-- ===== src/Query/Session.antt =====
-- `EngineOptions`, `iceberg_session` and `peak_rss_mib` of rustapps/crypto-iceberg-query/src/lib.rs: the session
-- that the tools run their queries in. Its parts are the libraries', and parameters here.
use crypto_lakehouse.Prelude.{
  Bool, List, Option, String, [], false, if◌then◌else◌, nat_beq, none, some, true, u64_mod, ℕ, ◌%◌,
  ◌&&◌, ◌*◌, ◌++◌, ◌/◌, ◌∷◌,
}
use crypto_lakehouse.Result.{Result, ok, or_fail, ◌>>=◌, ◌>>◌, with_context}
use crypto_lakehouse.Config.{is_whitespace, unsigned}
use crypto_lakehouse.Config.Settings.{PropNames}
use crypto_lakehouse.Sink.Dedup.{codes, split_by}

pub record EngineOptions : Type 0 where
  pub memory_mb : ℕ
  pub temp_dir : Option String
  pub max_temp_gib : ℕ
  pub target_partitions : ℕ

unfoldable pub default : EngineOptions
default = record { memory_mb = 2048; temp_dir = none; max_temp_gib = 64; target_partitions = 8 }

-- A bounded `RuntimeEnv` before it is built: what it limits, in bytes, and where it spills.
pub record Runtime : Type 0 where
  pub memory_limit : ℕ
  pub max_temp_directory_size : ℕ
  pub directories : Option String

pub record SessionConfig : Type 0 where
  pub batch_size : ℕ
  pub target_partitions : ℕ

-- The libraries: catalog, provider, file system, DataFusion.
pub record Libraries : Type 1 where
  pub prop_names : PropNames
  pub Catalog : Type 0
  pub Provider : Type 0
  pub Context : Type 0
  pub load : String → List (String × String) → Result Catalog
  pub try_new : Catalog → Result Provider
  pub create_dir_all : String → Result (Unit {0})
  pub build : SessionConfig → Runtime → Result Context
  pub register_catalog : String → Provider → Context → Context

-- `std::env::var(..).unwrap_or_else(..)`: a variable that is set is taken as it is, blank or not.
abbrev pub var_or : (String → Option String) → String → String → String
var_or env key default = elim (env key) [ none ↦ default | some v ↦ v ]

-- The properties of the catalog, in the order of their insertion.
unfoldable pub session_props :
    PropNames → (String → Option String) → Result (List (String × String))
session_props names env = do
  access_key ← or_fail (env "GARAGE_ACCESS_KEY") "GARAGE_ACCESS_KEY not set"
  secret_key ← or_fail (env "GARAGE_SECRET_KEY") "GARAGE_SECRET_KEY not set"
  ok (
      (names.rest_catalog_uri, var_or env "LAKEKEEPER_URI" "http://127.0.0.1:8181/catalog")
      ∷ (names.rest_catalog_warehouse, var_or env "LAKEKEEPER_WAREHOUSE" "crypto_lakehouse")
      ∷ (
        names.s3_endpoint,
        var_or env "GARAGE_ENDPOINT" "http://garage-svc.garage.svc.cluster.local:3900",
      )
      ∷ (names.s3_region, var_or env "GARAGE_REGION" "eu-lambronx-1")
      ∷ (names.s3_access_key_id, access_key)
      ∷ (names.s3_secret_access_key, secret_key)
      ∷ (names.s3_path_style_access, "true")
      ∷ [])

-- The products are in `usize` and `u64`; the release build wraps.
unfoldable pub runtime_of : EngineOptions → Runtime
runtime_of opts = record {
  memory_limit = opts.memory_mb * 1024 * 1024 % u64_mod;
  max_temp_directory_size = opts.max_temp_gib * 1024 * 1024 * 1024 % u64_mod;
  directories = opts.temp_dir;
}

module _ (lib : Libraries) where
  abbrev make_dir : Option String → Result (Unit {0})
  make_dir none = ok tt
  make_dir (some dir) = with_context "failed to create spill dir" (lib.create_dir_all dir)

  unfoldable pub iceberg_session : (String → Option String) → EngineOptions → Result lib.Context
  unfolding session_props runtime_of
  iceberg_session env opts = do
    props ← session_props lib.prop_names env
    catalog ← with_context "failed to load REST catalog" (lib.load "lk" props)
    provider ← with_context "failed to build Iceberg catalog provider" (lib.try_new catalog)
    make_dir opts.temp_dir
    context ← with_context "failed to build bounded RuntimeEnv" (
        lib.build (record { batch_size = 8192; target_partitions = opts.target_partitions })
          (runtime_of opts))
    ok (lib.register_catalog "lk" provider context)

-- `split_whitespace`: the words of a line.
unfoldable pub split_whitespace : List ℕ → List (List ℕ)
split_whitespace cs = words [] cs
  where
    word : List ℕ → List (List ℕ)
    word [] = []
    word (c ∷ w) = (c ∷ w) ∷ []

    words : List ℕ → List ℕ → List (List ℕ)
    words w [] = word w
    words w (c ∷ rest) =
        let apart = words [] rest in
        let on = words (w ++ c ∷ []) rest in if is_whitespace c then word w ++ apart else on

abbrev starts_with : List ℕ → List ℕ → Bool
starts_with [] line = true
starts_with (p ∷ ps) [] = false
starts_with (p ∷ ps) (c ∷ cs) = nat_beq p c && starts_with ps cs

abbrev find : (List ℕ → Bool) → List (List ℕ) → Option (List ℕ)
find p [] = none
find p (l ∷ ls) = if p l then some l else find p ls

abbrev second : List (List ℕ) → Option (List ℕ)
second (a ∷ (b ∷ rest)) = some b
second _ = none

abbrev and_then : {A B : Type 0} → Option A → (A → Option B) → Option B
and_then none f = none
and_then (some a) f = f a

abbrev kib_or_0 : Option ℕ → ℕ
kib_or_0 none = 0
kib_or_0 (some kib) = kib / 1024

-- The peak memory of the process, from the text of `/proc/self/status`. A line ends with 10.
unfoldable pub peak_rss_mib : Option (List ℕ) → ℕ
unfolding split_whitespace split_by unsigned
peak_rss_mib status = kib_or_0 (
    and_then status (λ text.
      and_then (find (starts_with (codes "VmHWM:")) (split_by 10 text))
        (λ line. and_then (second (split_whitespace line)) (unsigned u64_mod))))
