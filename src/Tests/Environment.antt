-- ===== src/Tests/Environment.antt =====
-- Tests of the configuration.
use crypto_lakehouse.Prelude.{
  Option, String, if◌then◌else◌, int_eq, nat_eq, none, refl, some, string_eq, ◌==◌, ◌≡◌,
}
use crypto_lakehouse.Config.{usize_env, u32_env}

abbrev env : String → Option String
env key =
    if key == "BATCH_MAX_RECORDS"
    then some "20000"
    else if key == "COMMIT_RETRIES"
    then some "4294967296"
    else if key == "BATCHER_FETCH_BATCH"
    then some "  "
    else none

too_large : u32_env env "COMMIT_RETRIES" 5 ≡ 5
unfolding u32_env
too_large = refl

blank : usize_env env "BATCHER_FETCH_BATCH" 2000 ≡ 2000
unfolding usize_env
blank = refl
