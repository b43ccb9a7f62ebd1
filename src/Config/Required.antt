-- ===== src/Config/Required.antt =====
-- Which environments make a configuration.
use crypto_lakehouse.Prelude.{
  Bool, Option, Option-cases, String, arith, false, inl, inr, refl, some, sym, true, ℕ, ◌&&◌, ◌↔◌,
  ◌∙◌, ◌≡◌,
}
use crypto_lakehouse.Result.{Result, ok, err, is_ok, ◌>>=◌}
use crypto_lakehouse.Config.{is_blank, optional, required}
use crypto_lakehouse.Config.Text.{Float, seconds}
use crypto_lakehouse.Config.Settings.{iceberg_from_env, from_env}

-- The variable is set, and not blank.
abbrev pub Given : (String → Option String) → String → Type 0
Given env key = (v : String) × (env key ≡ some v) × (is_blank v ≡ false)

pub required-Given :
    (env : String → Option String) (key : String)
    → (is_ok (required env key) ≡ true) ↔ Given env key
unfolding required optional
required-Given env key = elim (Option-cases (env key)) [
  | inl e ↦ (λ h. absurd (ground (arith, h, e)), λ g. absurd (ground (arith, e, g.1)))
  | inr (v, e) ↦ (
    λ h. (v, e, ground (arith, h, e)),
    λ g. let same : some g.0 ≡ some v = sym g.1 ∙ e in ground (arith, e, g.2, same),
  )
]

-- A chain of steps succeeds if all of them do.
is_ok-step :
    {A B : Type 0} (r : Result A) (f : A → Result B) (b : Bool)
    → ((a : A) → is_ok (f a) ≡ b)
    → is_ok (r >>= f) ≡ (is_ok r && b)
is_ok-step (ok a) f b h = h a
is_ok-step (err e) f b h = refl

-- The duration is one: not negative, not too long, a number.
abbrev pub Lasts : (f : Float) → (String → Option String) → String → ℕ → Type 0
Lasts f env key default = is_ok (seconds f env key (f.of_ℕ default)) ≡ true

-- What the batcher cannot run without.
pub record Startable (f : Float) (env : String → Option String) : Type 0 where
  pub nats_url : Given env "NATS_URL"
  pub access_key : Given env "GARAGE_ACCESS_KEY"
  pub secret_key : Given env "GARAGE_SECRET_KEY"
  pub ack_wait : Lasts f env "BATCHER_ACK_WAIT_SECS" 300
  pub fetch_expires : Lasts f env "BATCHER_FETCH_EXPIRES_SECS" 2
  pub flush_interval : Lasts f env "BATCH_FLUSH_INTERVAL_SECS" 30

pub iceberg_from_env-is_ok :
    (f : Float) (env : String → Option String)
    → is_ok (iceberg_from_env f env) ≡ (
        is_ok (required env "GARAGE_ACCESS_KEY")
        && (is_ok (required env "GARAGE_SECRET_KEY") && true))
unfolding iceberg_from_env
iceberg_from_env-is_ok f env =
    is_ok-step (required env "GARAGE_ACCESS_KEY") _ _
      (λ a. is_ok-step (required env "GARAGE_SECRET_KEY") _ true (λ b. refl))

from_env-is_ok :
    (f : Float) (env : String → Option String)
    → is_ok (from_env f env) ≡ (
        is_ok (required env "NATS_URL")
        && (is_ok (seconds f env "BATCHER_ACK_WAIT_SECS" (f.of_ℕ 300))
            && (is_ok (seconds f env "BATCHER_FETCH_EXPIRES_SECS" (f.of_ℕ 2))
                && (is_ok (iceberg_from_env f env)
                    && (is_ok (seconds f env "BATCH_FLUSH_INTERVAL_SECS" (f.of_ℕ 30)) && true)))))
unfolding from_env
from_env-is_ok f env = is_ok-step (required env "NATS_URL") _ _ (λ a.
    is_ok-step (seconds f env "BATCHER_ACK_WAIT_SECS" (f.of_ℕ 300)) _ _ (λ b.
      is_ok-step (seconds f env "BATCHER_FETCH_EXPIRES_SECS" (f.of_ℕ 2)) _ _ (λ c.
        is_ok-step (iceberg_from_env f env) _ _ (λ d.
          is_ok-step (seconds f env "BATCH_FLUSH_INTERVAL_SECS" (f.of_ℕ 30)) _ true (λ e. refl)))))

-- The configuration can be read exactly if the address of the server and both keys of the object store
-- are set and not blank, and each of the three durations, or its default, can be a `Duration`: every other
-- variable may be missing or make no sense.
pub from_env_iff :
    (f : Float) (env : String → Option String) → (is_ok (from_env f env) ≡ true) ↔ Startable f env
from_env_iff f env = (
  λ h.
      let parts = rw (from_env-is_ok f env, iceberg_from_env-is_ok f env) at h in
      record {
        nats_url = (required-Given env _).0 (ground (arith, parts));
        access_key = (required-Given env _).0 (ground (arith, parts));
        secret_key = (required-Given env _).0 (ground (arith, parts));
        ack_wait = ground (arith, parts);
        fetch_expires = ground (arith, parts);
        flush_interval = ground (arith, parts);
      },
  λ s. ground (
    arith,
    from_env-is_ok f env,
    iceberg_from_env-is_ok f env,
    (required-Given env _).1 s.nats_url,
    (required-Given env _).1 s.access_key,
    (required-Given env _).1 s.secret_key,
    s.ack_wait,
    s.fetch_expires,
    s.flush_interval,
  ),
)
