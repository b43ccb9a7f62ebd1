-- ===== src/Source/Consumer/Drift.antt =====
-- The durable consumer has the configuration that the batcher wants, whatever it was created with.
use crypto_lakehouse.Prelude.{
  ==_iff, Bool-cases, Option, String, arith, false, inl, inr, int_eq, nat_beq_iff, nat_eq, none,
  refl, some, string_eq, true, ℕ, ◌∙◌, ◌≡◌,
}
use crypto_lakehouse.Result.{Result, ok, err, is_ok}
use crypto_lakehouse.Action.{under}
use crypto_lakehouse.Action.Ends.{Ends, Ends-step, under-ok, Ends-weaken}
use crypto_lakehouse.Batcher.Accumulator.{BatchConfig}
use crypto_lakehouse.Source.Consumer.{
  max_ack_pending_of, NatsConfig, ConsumerConfig, Server, consumer_config, effective_ack_wait,
  drifted, reconcile, ensure_consumer,
}

-- The server keeps a configuration for each consumer: reading changes none of them, and an update that
-- succeeds sets it.
pub record ServerLaws (V : Server) : Type 0 where
  pub config : V.State → String → Option ConsumerConfig
  pub info_ok :
      (n : String) (s : V.State) (c : ConsumerConfig)
      → (V.consumer_info n s).0 ≡ ok c
      → config s n ≡ some c
  pub info_reads : (n : String) (s : V.State) → config (V.consumer_info n s).1 n ≡ config s n
  pub get_reads : (n : String) (s : V.State) → config (V.get_consumer n s).1 n ≡ config s n
  pub update_sets :
      (c : ConsumerConfig) (s : V.State) (u : Unit {0})
      → (V.update_consumer c s).0 ≡ ok u
      → config (V.update_consumer c s).1 c.name ≡ some c

module _ (V : Server) (laws : ServerLaws V) where
  -- The server's consumer agrees with the wanted configuration in the three fields.
  abbrev pub Agrees : ConsumerConfig → V.State → Type 0
  Agrees want s =
      (c : ConsumerConfig) × (laws.config s want.name ≡ some c)
      × (c.ack_wait ≡ want.ack_wait)
      × (c.max_ack_pending ≡ want.max_ack_pending)
      × (c.filter_subject ≡ want.filter_subject)

  not_drifted :
      (c want : ConsumerConfig)
      → drifted c want ≡ false
      → (c.ack_wait ≡ want.ack_wait)
        × (c.max_ack_pending ≡ want.max_ack_pending)
        × (c.filter_subject ≡ want.filter_subject)
  unfolding drifted
  not_drifted c want h = (
    (nat_beq_iff c.ack_wait want.ack_wait).0 (ground (arith, h)),
    (==_iff c.max_ack_pending want.max_ack_pending).0 (ground (arith, h)),
    (==_iff c.filter_subject want.filter_subject).0 (ground (arith, h)),
  )

  reconcile-Agrees :
      (want current : ConsumerConfig) (consumer : V.Consumer) (s : V.State)
      → laws.config s want.name ≡ some current
      → Ends (λ _. Agrees want) (λ _. Unit {0}) (reconcile V want consumer (some current) s)
  unfolding reconcile
  reconcile-Agrees want current consumer s has = elim (Bool-cases (drifted current want)) [
    | inl drift ↦ rw drift (
        Ends-step (λ _. Agrees want) (λ _. Unit {0}) (under _ (V.update_consumer want s).0) _ _
          (λ _. tt)
          (λ u set.
            Ends-step (λ _. Agrees want) (λ _. Unit {0}) (under _ (V.get_consumer want.name _).0) _
              _ (λ _. tt)
              (λ consumer' _. (
                want,
                laws.info_reads want.name _
                    ∙ laws.get_reads want.name _
                    ∙ laws.update_sets want s u (under-ok _ _ set),
                refl,
                refl,
                refl,
              ))))
    | inr same ↦
        let (wait, cap, subject) = not_drifted current want same in
        rw same (current, has, wait, cap, subject)
  ]

  info_read :
      (want : ConsumerConfig) (consumer : V.Consumer) (r : Result ConsumerConfig) (s : V.State)
      → is_ok r ≡ true
      → ((c : ConsumerConfig) → r ≡ ok c → laws.config s want.name ≡ some c)
      → Ends
          (λ _. Agrees want)
          (λ _. Unit {0})
          (reconcile V want consumer (elim r [ ok c ↦ some c | err e ↦ none ]) s)
  info_read want consumer (ok c) s h k = reconcile-Agrees want c consumer s (k c refl)
  info_read want consumer (err e) s h k = cc

  -- The wanted configuration is that of the environment, with the `ack_wait` in effect, under the wanted name.
  abbrev pub Wanted : NatsConfig → BatchConfig → V.State → Type 0
  Wanted cfg batch s =
      (wait : ℕ) × (effective_ack_wait cfg.ack_wait batch.flush_interval ≡ ok wait)
      × ((c : ConsumerConfig) × (laws.config s cfg.consumer ≡ some c)
          × (c.ack_wait ≡ wait)
          × (c.max_ack_pending ≡ max_ack_pending_of batch.max_records cfg.fetch_batch)
          × (c.filter_subject ≡ cfg.subject_filter))

  -- If the consumer's configuration can be read, then once `ensure_consumer` returns a consumer, the server's
  -- has the `ack_wait` in effect, and the cap on unacked messages and the subject filter of the settings,
  -- each equal to what is wanted, whatever it was created with.
  pub ensure_consumer-Wanted :
      (cfg : NatsConfig) (batch : BatchConfig) (s : V.State)
      → ((t : V.State) → is_ok (V.consumer_info cfg.consumer t).0 ≡ true)
      → Ends (λ _. Wanted cfg batch) (λ _. Unit {0}) (ensure_consumer V cfg batch s)
  unfolding ensure_consumer
  ensure_consumer-Wanted cfg batch s readable =
      Ends-step (λ _. Wanted cfg batch) (λ _. Unit {0})
        (effective_ack_wait cfg.ack_wait batch.flush_interval) s _ (λ _. tt)
        (λ wait is.
          Ends-step (λ _. Wanted cfg batch) (λ _. Unit {0})
            (under _ (V.get_or_create_consumer cfg.consumer (consumer_config cfg batch wait) s).0) _
            _ (λ _. tt)
            (λ consumer _.
              Ends-weaken {S = V.State} {A = V.Consumer}
                {P = λ _. Agrees (consumer_config cfg batch wait)} {P' = λ _. Wanted cfg batch}
                {Q = λ _. Unit {0}} _ (λ _ s' h. (wait, is, h)) (λ _ h. h)
                (info_read (consumer_config cfg batch wait) consumer _ _ (readable _)
                  (λ c e. laws.info_reads cfg.consumer _ ∙ laws.info_ok cfg.consumer _ c e))))
