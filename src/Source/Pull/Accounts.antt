-- ===== src/Source/Pull/Accounts.antt =====
-- What becomes of each message that the source pulls.
use crypto_lakehouse.Prelude.{
  Bool, List, Option, [], ap, append-nil, append_assoc, arith, false, if_cases, length, none, refl,
  some, sym, true, ℕ, ◌++◌, ◌∙◌, ◌∷◌, ◌≡◌,
}
use crypto_lakehouse.Trade.{TradeEvent}
use crypto_lakehouse.Source.Ack.{Message, Ack, nats, Envelope, ack}
use crypto_lakehouse.Source.Pull.{
  BatchOutcome, empty, drained, stopped, Source, processed, envelope_of, process_message, forward,
  drain_from, outcome_of, pause, after_batch, pull_loop,
}

-- The messages of a batch, up to an error of the stream.
abbrev pub before_error : List (Option Message) → List Message
before_error [] = []
before_error (none ∷ rest) = []
before_error (some msg ∷ rest) = msg ∷ before_error rest

-- The messages of all fetches.
abbrev pub fetched : List (Option (List (Option Message))) → List Message
fetched [] = []
fetched (none ∷ rest) = fetched rest
fetched (some batch ∷ rest) = before_error batch ++ fetched rest

module _ (decode : List ℕ → Option TradeEvent) where
  abbrev pub decoded : Message → Option Envelope
  decoded msg = elim (decode msg.payload) [
    | none ↦ none
    | some event ↦ some (record { event = event; bytes = length msg.payload; ack = nats msg })
  ]

  -- The envelopes of the messages that decode, and the acks of the others.
  abbrev pub envelopes : List Message → List Envelope
  envelopes [] = []
  envelopes (msg ∷ rest) = elim (decoded msg) [
    | none ↦ envelopes rest
    | some e ↦ e ∷ envelopes rest
  ]

  abbrev pub rejected : List Message → List Ack
  rejected [] = []
  rejected (msg ∷ rest) = elim (decoded msg) [
    | none ↦ nats msg ∷ rejected rest
    | some e ↦ rejected rest
  ]

  envelopes-append : (xs ys : List Message) → envelopes (xs ++ ys) ≡ envelopes xs ++ envelopes ys
  envelopes-append [] ys = refl
  envelopes-append (x ∷ xs) ys = ground (arith, envelopes-append xs ys)

  rejected-append : (xs ys : List Message) → rejected (xs ++ ys) ≡ rejected xs ++ rejected ys
  rejected-append [] ys = refl
  rejected-append (x ∷ xs) ys = ground (arith, rejected-append xs ys)

  one_decoded :
      (msg : Message) (event : TradeEvent)
      → decode msg.payload ≡ some event
      → (envelopes (msg ∷ [])
          ≡ record { event = event; bytes = length msg.payload; ack = nats msg } ∷ [])
        × (rejected (msg ∷ []) ≡ [])
  one_decoded msg event is = ground (arith, is)

  one_rejected :
      (msg : Message)
      → decode msg.payload ≡ none
      → (envelopes (msg ∷ []) ≡ []) × (rejected (msg ∷ []) ≡ nats msg ∷ [])
  one_rejected msg is = ground (arith, is)

-- A channel takes an envelope at its end, or refuses it for good.
pub record ChannelLaws {C : Type 0} (send : C → Envelope → Bool × C) : Type 0 where
  pub sent : C → List Envelope
  pub sent-ok : (c : C) (e : Envelope) → (send c e).0 ≡ true → sent (send c e).1 ≡ sent c ++ e ∷ []
  pub sent-refused : (c : C) (e : Envelope) → (send c e).0 ≡ false → sent (send c e).1 ≡ sent c

module _ {N C : Type 0} (nats_ack : N → Message → Bool × N) (decode : List ℕ → Option TradeEvent)
    (send : C → Envelope → Bool × C) (laws : ChannelLaws send) where
  -- Of the messages, those of `taken` are accounted for: each is either sent, in order, or acked here
  -- because it does not decode. The `lost` ones, left when the batcher is gone, are neither.
  pub record Accounted (ms : List Message) (ended : Bool) (s s' : Source N C) : Type 0 where
    pub taken : List Message
    pub lost : List Message
    pub all : ms ≡ taken ++ lost
    pub sends : laws.sent s'.channel ≡ laws.sent s.channel ++ envelopes decode taken
    pub acked : s'.acks.log ≡ s.acks.log ++ rejected decode taken
    pub none_lost : ended ≡ false → lost ≡ []

  Accounted-none :
      (ms : List Message) (ended : Bool) (s s' : Source N C)
      → (ended ≡ false → ms ≡ [])
      → laws.sent s'.channel ≡ laws.sent s.channel
      → s'.acks.log ≡ s.acks.log
      → Accounted ms ended s s'
  Accounted-none ms ended s s' h sends acked = record {
    taken = [];
    lost = ms;
    all = refl;
    sends = sends ∙ sym (append-nil (laws.sent s.channel));
    acked = acked ∙ sym (append-nil s.acks.log);
    none_lost = h;
  }

  Accounted-slept :
      (s : Source N C) (ms : List Message) (n : ℕ) (ended : Bool) (s' : Source N C)
      → Accounted ms ended (pause nats_ack decode send n s) s'
      → Accounted ms ended s s'
  Accounted-slept s ms n ended s' a = record {
    taken = a.taken;
    lost = a.lost;
    all = a.all;
    sends = a.sends;
    acked = a.acked;
    none_lost = a.none_lost;
  }

  -- Messages that are all taken, and then others.
  Accounted-trans :
      (xs ys : List Message) (ended : Bool) (s s1 s2 : Source N C)
      → Accounted xs false s s1
      → Accounted ys ended s1 s2
      → Accounted (xs ++ ys) ended s s2
  Accounted-trans xs ys ended s s1 s2 a b = record {
    taken = xs ++ b.taken;
    lost = b.lost;
    all = ap (λ zs. xs ++ zs) b.all ∙ sym (append_assoc xs b.taken b.lost);
    sends = cc (
      b.sends,
      a.sends,
      envelopes-append decode xs b.taken,
      whole,
      append_assoc (laws.sent s.channel) (envelopes decode xs) (envelopes decode b.taken),
    );
    acked = cc (
      b.acked,
      a.acked,
      rejected-append decode xs b.taken,
      whole,
      append_assoc s.acks.log (rejected decode xs) (rejected decode b.taken),
    );
    none_lost = b.none_lost;
  }
    where
      whole : a.taken ≡ xs
      whole =
          sym (append-nil a.taken) ∙ ap (λ zs. a.taken ++ zs) (sym (a.none_lost refl)) ∙ sym a.all

  abbrev pub is_stopped : BatchOutcome → Bool
  is_stopped stopped = true
  is_stopped _ = false

  outcome_runs : (pulled : Bool) → is_stopped (outcome_of nats_ack decode send pulled) ≡ false
  outcome_runs true = refl
  outcome_runs false = refl

  -- One message that is taken.
  Accounted-one :
      (msg : Message) (s s1 : Source N C)
      → laws.sent s1.channel ≡ laws.sent s.channel ++ envelopes decode (msg ∷ [])
      → s1.acks.log ≡ s.acks.log ++ rejected decode (msg ∷ [])
      → Accounted (msg ∷ []) false s s1
  Accounted-one msg s s1 h k = record {
    taken = msg ∷ [];
    lost = [];
    all = refl;
    sends = h;
    acked = k;
    none_lost = λ _. refl;
  }

  -- A message that decodes: the channel takes it, or it is lost with the rest.
  forward-Accounted :
      (msg : Message) (event : TradeEvent) (ms : List Message)
      (rest : Source N C → BatchOutcome × Source N C) (s : Source N C)
      → decode msg.payload ≡ some event
      → ((s1 : Source N C) → Accounted ms (is_stopped (rest s1).0) s1 (rest s1).1)
      → Accounted
          (msg ∷ ms)
          (is_stopped
            (forward nats_ack decode send
              (some (envelope_of nats_ack decode send msg event))
              rest
              s).0)
          s
          (forward nats_ack decode send
            (some (envelope_of nats_ack decode send msg event))
            rest
            s).1
  unfolding forward
  forward-Accounted msg event ms rest s is h =
      if_cases (λ (r : BatchOutcome × Source N C). Accounted (msg ∷ ms) (is_stopped r.0) s r.1)
        (send s.channel _).0 _ _
        (λ taken.
          Accounted-trans (msg ∷ []) ms _ s _ _
            (Accounted-one msg s _
              (laws.sent-ok s.channel _ taken
                ∙ ap (λ es. laws.sent s.channel ++ es) (sym (one_decoded decode msg event is).0))
              (sym (append-nil s.acks.log)
                ∙ ap (λ es. s.acks.log ++ es) (sym (one_decoded decode msg event is).1)))
            (h _))
        (λ refused.
          Accounted-none (msg ∷ ms) true s _ (λ e. cc) (laws.sent-refused s.channel _ refused) refl)

  -- A message, whatever the decoder says of it.
  processed-Accounted :
      (msg : Message) (o : Option TradeEvent) (ms : List Message)
      (rest : Source N C → BatchOutcome × Source N C) (s : Source N C)
      → decode msg.payload ≡ o
      → ((s1 : Source N C) → Accounted ms (is_stopped (rest s1).0) s1 (rest s1).1)
      → (let (envelope, acks) = processed nats_ack decode send msg o s.acks in
          let r = forward nats_ack decode send envelope rest (record s { acks = acks }) in
          Accounted (msg ∷ ms) (is_stopped r.0) s r.1)
  unfolding processed forward ack
  processed-Accounted msg (some event) ms rest s is h = forward-Accounted msg event ms rest s is h
  processed-Accounted msg none ms rest s is h =
      Accounted-trans (msg ∷ []) ms _ s _ _
        (Accounted-one msg s _
          (sym (append-nil (laws.sent s.channel))
            ∙ ap (λ es. laws.sent s.channel ++ es) (sym (one_rejected decode msg is).0))
          (ap (λ es. s.acks.log ++ es) (sym (one_rejected decode msg is).1)))
        (h _)

  drain_from-Accounted :
      (pulled : Bool) (batch : List (Option Message)) (s : Source N C)
      → Accounted
          (before_error batch)
          (is_stopped (drain_from nats_ack decode send pulled batch s).0)
          s
          (drain_from nats_ack decode send pulled batch s).1
  unfolding drain_from process_message
  drain_from-Accounted pulled [] s = Accounted-none [] _ s s (λ _. refl) refl refl
  drain_from-Accounted pulled (none ∷ rest) s = Accounted-none [] _ s s (λ _. refl) refl refl
  drain_from-Accounted pulled (some msg ∷ rest) s =
      processed-Accounted msg (decode msg.payload) (before_error rest)
        (drain_from nats_ack decode send true rest) s refl (drain_from-Accounted true rest)

  after_batch-Accounted :
      (xs ys : List Message) (outcome : BatchOutcome) (again : Source N C → Bool × Source N C)
      (s s1 : Source N C)
      → Accounted xs (is_stopped outcome) s s1
      → ((s2 : Source N C) → Accounted ys (again s2).0 s2 (again s2).1)
      → Accounted
          (xs ++ ys)
          (after_batch nats_ack decode send outcome again s1).0
          s
          (after_batch nats_ack decode send outcome again s1).1
  unfolding after_batch
  after_batch-Accounted xs ys empty again s s1 a h =
      Accounted-trans xs ys _ s s1 _ a (Accounted-slept s1 ys 50 _ _ (h _))
  after_batch-Accounted xs ys drained again s s1 a h = Accounted-trans xs ys _ s s1 _ a (h s1)
  after_batch-Accounted xs ys stopped again s s1 a h = record {
    taken = a.taken;
    lost = a.lost ++ ys;
    all = ap (λ zs. zs ++ ys) a.all ∙ append_assoc a.taken a.lost ys;
    sends = a.sends;
    acked = a.acked;
    none_lost = λ e. cc;
  }

  -- Whatever the fetches answer: the messages that are pulled, in order, are each either sent to the
  -- batcher, or acked by the source because the payload does not decode, and not both, up to a message
  -- that finds the batcher gone; and unless the loop returned there is none such.
  pub pull_loop-Accounted :
      (fetches : List (Option (List (Option Message)))) (s : Source N C)
      → Accounted
          (fetched fetches)
          (pull_loop nats_ack decode send fetches s).0
          s
          (pull_loop nats_ack decode send fetches s).1
  unfolding pull_loop
  pull_loop-Accounted [] s = Accounted-none [] _ s s (λ _. refl) refl refl
  pull_loop-Accounted (none ∷ fetches) s =
      Accounted-slept s (fetched fetches) 1000 _ _
        (pull_loop-Accounted fetches (pause nats_ack decode send 1000 s))
  pull_loop-Accounted (some batch ∷ fetches) s =
      after_batch-Accounted (before_error batch) (fetched fetches) _
        (pull_loop nats_ack decode send fetches) s _ (drain_from-Accounted false batch s)
        (pull_loop-Accounted fetches)
