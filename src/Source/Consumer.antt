-- ===== src/Source/Consumer.antt =====
-- `effective_ack_wait` and `ensure_consumer` of rustapps/crypto-batcher/src/source.rs, with `NatsConfig`
-- of rustapps/crypto-batcher/src/config.rs. A `Duration` is a number of nanoseconds.
pub mod Drift
use crypto_lakehouse.Prelude.{
  Bool, Option, String, ap, arith, as_i64, as_i64-pos, if_cases, if◌then◌else◌, int_eq, leb,
  leb_iff, ltb, max, nat_beq, nat_eq, negsuc, none, not, pos, refl, some, string_eq, u64_mod, ℕ, ℤ,
  ◌%◌, ◌*◌, ◌+◌, ◌-◌, ◌<◌, ◌==◌, ◌^◌, ◌||◌, ◌∙◌, ◌≡◌, ◌≤◌,
}
use crypto_lakehouse.Result.{Result, ok, err, panicked, Error}
use crypto_lakehouse.Batcher.Accumulator.{BatchConfig}
use crypto_lakehouse.Action.{Action, ◌>>=◌, ◌>>◌, pure, lift, gets, with_context, under, resume}

pub record NatsConfig : Type 0 where
  pub url : String
  pub stream : String
  pub subject_filter : String
  pub consumer : String
  pub ack_wait : ℕ
  pub fetch_batch : ℕ
  pub fetch_expires : ℕ

abbrev pub nanos_per_sec : ℕ
nanos_per_sec = 1000000000

-- `Duration::MAX`.
abbrev pub max_duration : ℕ
max_duration = 2 ^ 64 * nanos_per_sec - 1

-- A `Duration` beyond the maximum panics.
unfoldable pub effective_ack_wait : ℕ → ℕ → Result ℕ
effective_ack_wait configured flush_interval =
    let floor = flush_interval * 4 + 10 * nanos_per_sec in
    if leb floor max_duration
    then ok (if ltb configured floor then floor else configured)
    else err (panicked "overflow in Duration::mul")

-- The fields of `consumer::pull::Config` that are set; the policies are `All` and `Explicit`.
pub record ConsumerConfig : Type 0 where
  pub name : String
  pub durable_name : String
  pub filter_subject : String
  pub ack_wait : ℕ
  pub max_deliver : ℤ
  pub max_ack_pending : ℤ

-- `(batch.max_records * 2).max(cfg.fetch_batch * 2) as i64`, whose products wrap.
unfoldable pub max_ack_pending_of : ℕ → ℕ → ℤ
max_ack_pending_of max_records fetch_batch =
    as_i64 (max (max_records * 2 % u64_mod) (fetch_batch * 2 % u64_mod))

abbrev pub consumer_config : NatsConfig → BatchConfig → ℕ → ConsumerConfig
consumer_config cfg batch ack_wait = record {
  name = cfg.consumer;
  durable_name = cfg.consumer;
  filter_subject = cfg.subject_filter;
  ack_wait = ack_wait;
  max_deliver = negsuc 0;
  max_ack_pending = max_ack_pending_of batch.max_records cfg.fetch_batch;
}

-- The JetStream server: its state and its answers.
pub record Server : Type 1 where
  pub State : Type 0
  pub Consumer : Type 0
  pub get_or_create_consumer : String → ConsumerConfig → State → Result Consumer × State
  pub consumer_info : String → State → Result ConsumerConfig × State
  pub update_consumer : ConsumerConfig → State → Result (Unit {0}) × State
  pub get_consumer : String → State → Result Consumer × State

-- `a != b` on any of the three fields.
unfoldable pub drifted : ConsumerConfig → ConsumerConfig → Bool
drifted current config =
    not (nat_beq current.ack_wait config.ack_wait)
    || not (current.max_ack_pending == config.max_ack_pending)
    || not (current.filter_subject == config.filter_subject)

module _ (V : Server) where
  -- `.await.ok()`.
  abbrev info_of : String → Action V.State (Option ConsumerConfig)
  info_of name s =
      let (r, s') = V.consumer_info name s in (ok (elim r [ ok c ↦ some c | err e ↦ none ]), s')

  unfoldable pub reconcile :
      ConsumerConfig → V.Consumer → Option ConsumerConfig → Action V.State V.Consumer
  unfolding drifted
  reconcile config consumer none = pure consumer
  reconcile config consumer (some current) =
      if drifted current config
      then (do
        with_context "failed to update consumer" (V.update_consumer config)
        consumer' ← with_context "failed to reload consumer" (V.get_consumer config.name)
        info_of config.name
        pure consumer')
      else pure consumer

  unfoldable pub ensure_consumer : NatsConfig → BatchConfig → Action V.State V.Consumer
  unfolding effective_ack_wait reconcile
  ensure_consumer cfg batch = do
    ack_wait ← lift (effective_ack_wait cfg.ack_wait batch.flush_interval)
    consumer ←
        with_context "failed to get/create consumer"
          (V.get_or_create_consumer cfg.consumer (consumer_config cfg batch ack_wait))
    info ← info_of cfg.consumer
    reconcile (consumer_config cfg batch ack_wait) consumer info

-- The consumer's `ack_wait` is never shorter than what is configured, and leaves four flush intervals and
-- ten seconds; if the configured one leaves that much it is taken as it is. The only error is a floor
-- beyond the longest `Duration`.
pub effective_ack_wait_lem :
    (configured flush_interval : ℕ)
    → flush_interval * 4 + 10 * nanos_per_sec ≤ max_duration
    → (used : ℕ) × (effective_ack_wait configured flush_interval ≡ ok used)
      × (used ≡ max configured (flush_interval * 4 + 10 * nanos_per_sec))
      × (4 * flush_interval < used)
unfolding effective_ack_wait
effective_ack_wait_lem configured flush_interval h =
    rw ((leb_iff (flush_interval * 4 + 10 * nanos_per_sec) max_duration).1 h) (
      if_cases
        (λ (n : ℕ).
          (used : ℕ) × (ok n ≡ ok used)
          × (used ≡ max configured (flush_interval * 4 + 10 * nanos_per_sec))
          × (4 * flush_interval < used))
        (ltb configured (flush_interval * 4 + 10 * nanos_per_sec)) _ _
        (λ short. (_, refl, ground arith, ground arith))
        (λ long. (_, refl, ground arith, ground arith)))

-- With up to 2 ^ 62 records each, the cap on unacked messages has room for two full micro-batches, the
-- buffered one and the one in the channel, and for two fetches, and is a positive number.
pub max_ack_pending-headroom :
    (max_records fetch_batch : ℕ)
    → max_records < 2 ^ 62
    → fetch_batch < 2 ^ 62
    → (n : ℕ) × (max_ack_pending_of max_records fetch_batch ≡ pos n)
      × (max_records + max_records ≤ n)
      × (fetch_batch + fetch_batch ≤ n)
unfolding max_ack_pending_of
max_ack_pending-headroom max_records fetch_batch h k = (
  max (max_records * 2) (fetch_batch * 2),
  ap as_i64 wraps ∙ as_i64-pos _ (omega (arith, h, k)),
  omega arith,
  omega arith,
)
  where
    wraps :
        max (max_records * 2 % u64_mod) (fetch_batch * 2 % u64_mod)
        ≡ max (max_records * 2) (fetch_batch * 2)
    wraps = omega (arith, h, k)
