-- ===== src/Query/Props.antt =====
-- The tools reach the same catalog and object store as the batcher.
use crypto_lakehouse.Prelude.{
  List, Option, String, [], ap, arith, none, refl, some, sym, true, ◌∙◌, ◌∷◌, ◌≡◌,
}
use crypto_lakehouse.Result.{ok, is_ok, ok-injective, or_fail}
use crypto_lakehouse.Config.{optional, required, string}
use crypto_lakehouse.Config.Text.{Float}
use crypto_lakehouse.Config.Settings.{PropNames, IcebergConfig, iceberg_from_env, catalog_props}
use crypto_lakehouse.Config.Required.{iceberg_from_env-is_ok, required-Given}
use crypto_lakehouse.Query.Session.{session_props, var_or}

-- Not set to white space only.
abbrev pub Unblank : (String → Option String) → String → Type 0
Unblank env key = optional env key ≡ env key

-- A sink's properties with path-style addresses and no credential.
abbrev plain_props :
    PropNames → String → String → String → String → String → String → List (String × String)
plain_props names uri warehouse endpoint region access_key secret_key =
    (names.rest_catalog_uri, uri)
    ∷ (names.rest_catalog_warehouse, warehouse)
    ∷ (names.s3_endpoint, endpoint)
    ∷ (names.s3_region, region)
    ∷ (names.s3_access_key_id, access_key)
    ∷ (names.s3_secret_access_key, secret_key)
    ∷ (names.s3_path_style_access, "true")
    ∷ []

string-Unblank :
    (env : String → Option String) (key default : String)
    → Unblank env key
    → string env key default ≡ var_or env key default
unfolding string
string-Unblank env key default h = rw (string, h) refl

required-Unblank :
    (env : String → Option String) (key : String)
    → Unblank env key
    → required env key ≡ or_fail (env key) "not set"
unfolding required
required-Unblank env key h = rw (required, h) refl

catalog_props-plain :
    (names : PropNames) (cfg : IcebergConfig)
    → cfg.s3_path_style ≡ true
    → cfg.credential ≡ none
    → catalog_props names cfg
      ≡ plain_props names cfg.uri cfg.warehouse cfg.s3_endpoint cfg.s3_region cfg.s3_access_key_id
          cfg.s3_secret_access_key
unfolding catalog_props
catalog_props-plain names cfg path cred = rw (path, cred) refl

var_or-set :
    (env : String → Option String) (key v default : String)
    → env key ≡ some v
    → var_or env key default ≡ v
var_or-set env key v default h = rw (var_or, h) refl

-- With the catalog's address set, none of the variables blank, path-style addresses and no credential, the tools'
-- session has exactly the properties of the batcher's sink, from the same environment.
pub session_props-catalog_props :
    (f : Float) (names : PropNames) (env : String → Option String) (cfg : IcebergConfig)
    (uri : String)
    → iceberg_from_env f env ≡ ok cfg
    → env "LAKEKEEPER_URI" ≡ some uri
    → Unblank env "LAKEKEEPER_URI"
    → Unblank env "LAKEKEEPER_WAREHOUSE"
    → Unblank env "GARAGE_ENDPOINT"
    → Unblank env "GARAGE_REGION"
    → Unblank env "GARAGE_ACCESS_KEY"
    → Unblank env "GARAGE_SECRET_KEY"
    → cfg.s3_path_style ≡ true
    → cfg.credential ≡ none
    → session_props names env ≡ ok (catalog_props names cfg)
unfolding session_props iceberg_from_env
session_props-catalog_props f names env cfg uri read set u1 u2 u3 u4 u5 u6 path cred =
    let good : is_ok (iceberg_from_env f env) ≡ true = ap is_ok read in
    let keys = rw (iceberg_from_env-is_ok f env) at good in
    let (a, some_a, _) = (required-Given env "GARAGE_ACCESS_KEY").0 (ground (arith, keys)) in
    let (b, some_b, _) = (required-Given env "GARAGE_SECRET_KEY").0 (ground (arith, keys)) in
    let same = ok-injective (
      rw (required-Unblank env "GARAGE_ACCESS_KEY" u5, some_a) at
        (rw (required-Unblank env "GARAGE_SECRET_KEY" u6, some_b) at read)) in
    rw (catalog_props-plain names cfg path cred, some_a, some_b)
      (λ i. ok (
        plain_props names
          ((var_or-set env "LAKEKEEPER_URI" uri "http://127.0.0.1:8181/catalog" set
              ∙ sym (
                  var_or-set env "LAKEKEEPER_URI" uri
                    "http://lakekeeper-lakekeeper.default.svc.cluster.local:8181/catalog" set)
              ∙ sym (
                  string-Unblank env "LAKEKEEPER_URI"
                    "http://lakekeeper-lakekeeper.default.svc.cluster.local:8181/catalog" u1)
              ∙ ap (λ (c : IcebergConfig). c.uri) same)
            i)
          ((sym (string-Unblank env "LAKEKEEPER_WAREHOUSE" _ u2)
              ∙ ap (λ (c : IcebergConfig). c.warehouse) same)
            i)
          ((sym (string-Unblank env "GARAGE_ENDPOINT" _ u3)
              ∙ ap (λ (c : IcebergConfig). c.s3_endpoint) same)
            i)
          ((sym (string-Unblank env "GARAGE_REGION" _ u4)
              ∙ ap (λ (c : IcebergConfig). c.s3_region) same)
            i)
          (ap (λ (c : IcebergConfig). c.s3_access_key_id) same i)
          (ap (λ (c : IcebergConfig). c.s3_secret_access_key) same i)))
