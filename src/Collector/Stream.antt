-- ===== src/Collector/Stream.antt =====
-- What the collector publishes, and that the batcher's source reads it back.
use crypto_lakehouse.Prelude.{
  Bool, List, Option, Option-cases, String, [], ap, append-nil, append_assoc, arith, inl, inr,
  length, map, none, refl, some, sym, true, ℕ, ◌++◌, ◌∙◌, ◌∷◌, ◌≡◌,
}
use crypto_lakehouse.Result.{Result, is_ok}
use crypto_lakehouse.Trade.{TradeEvent}
use crypto_lakehouse.Source.Ack.{Ack, Message, Envelope, Acks}
use crypto_lakehouse.Source.Pull.{process_message}
use crypto_lakehouse.Collector.{
  BinanceStreamPayload, from_payload, subject, text, other, Event, new_reader, manager_died,
  end_of_stream, socket_error, frame, publish, handle_message, after_text, run_loop, the_big_loop,
}

-- The text messages that come before the loop breaks off.
abbrev pub texts : List Event → List String
texts [] = []
texts (new_reader ∷ events) = texts events
texts (manager_died ∷ events) = []
texts (end_of_stream ∷ events) = []
texts (socket_error ∷ events) = []
texts (frame (text txt) ∷ events) = txt ∷ texts events
texts (frame other ∷ events) = texts events

module _ {P : Type 0} (parse : String → Option BinanceStreamPayload) (encode : TradeEvent → List ℕ)
    (publish_trade : String → List ℕ → P → Result (Unit {0}) × P)
    (attempts : P → List (String × List ℕ))
    (tries : (s : String) (b : List ℕ) (p : P)
      → attempts (publish_trade s b p).1 ≡ attempts p ++ (s, b) ∷ []) where
  -- What is published for the messages.
  abbrev pub publications : List String → List (String × List ℕ)
  publications [] = []
  publications (txt ∷ rest) = elim (parse txt) [
    | none ↦ publications rest
    | some payload ↦ (subject, encode (from_payload payload)) ∷ publications rest
  ]

  publications-cons :
      (txt : String) (rest : List String)
      → publications (txt ∷ rest) ≡ publications (txt ∷ []) ++ publications rest
  publications-cons txt rest = ground arith

  publications_one :
      (txt : String) (payload : BinanceStreamPayload)
      → parse txt ≡ some payload
      → publications (txt ∷ []) ≡ (subject, encode (from_payload payload)) ∷ []
  publications_one txt payload h = ground (arith, h)

  -- A message is published, or ends the loop with a panic.
  after_text-attempts :
      (txt : String) (o : Option BinanceStreamPayload) (rest : P → Result Bool × P) (p : P)
      (later : List (String × List ℕ))
      → parse txt ≡ o
      → is_ok
          (after_text parse encode publish_trade (publish parse encode publish_trade o p) rest).0
        ≡ true
      → ((q : P) → is_ok (rest q).0 ≡ true → attempts (rest q).1 ≡ attempts q ++ later)
      → attempts
          (after_text parse encode publish_trade (publish parse encode publish_trade o p) rest).1
        ≡ attempts p ++ (publications (txt ∷ []) ++ later)
  unfolding publish
  after_text-attempts txt none rest p later e h k = cc
  after_text-attempts txt (some payload) rest p later e h k =
      k _ h
      ∙ ap (λ xs. xs ++ later) (tries subject (encode (from_payload payload)) p)
      ∙ append_assoc (attempts p) _ later
      ∙ ap (λ xs. attempts p ++ (xs ++ later)) (sym (publications_one txt payload e))

  run_loop-attempts :
      (events : List Event) (p : P)
      → is_ok (run_loop parse encode publish_trade events p).0 ≡ true
      → attempts (run_loop parse encode publish_trade events p).1
        ≡ attempts p ++ publications (texts events)
  unfolding run_loop handle_message
  run_loop-attempts [] p h = sym (append-nil (attempts p))
  run_loop-attempts (new_reader ∷ events) p h = run_loop-attempts events p h
  run_loop-attempts (manager_died ∷ events) p h = sym (append-nil (attempts p))
  run_loop-attempts (end_of_stream ∷ events) p h = sym (append-nil (attempts p))
  run_loop-attempts (socket_error ∷ events) p h = sym (append-nil (attempts p))
  run_loop-attempts (frame (text txt) ∷ events) p h =
      after_text-attempts txt (parse txt) (run_loop parse encode publish_trade events) p
        (publications (texts events)) refl h (run_loop-attempts events)
      ∙ ap (λ xs. attempts p ++ xs) (sym (publications-cons txt (texts events)))
  run_loop-attempts (frame other ∷ events) p h = run_loop-attempts events p h

  -- While no message makes the parser fail, the loop tries to publish one event for each text message that
  -- comes before it breaks off, in their order, under the subject of the exchange, whether or not
  -- publishing succeeds; other frames and reconnects are passed over.
  pub the_big_loop-attempts :
      (events : List Event) (p : P)
      → is_ok (the_big_loop parse encode publish_trade true events p).0 ≡ true
      → attempts (the_big_loop parse encode publish_trade true events p).1
        ≡ attempts p ++ publications (texts events)
  unfolding the_big_loop
  the_big_loop-attempts events p h = run_loop-attempts events p h

-- The payloads of the messages that parse.
abbrev pub payloads :
    (String → Option BinanceStreamPayload) → List String → List BinanceStreamPayload
payloads parse [] = []
payloads parse (txt ∷ rest) = elim (parse txt) [
  | none ↦ payloads parse rest
  | some payload ↦ payload ∷ payloads parse rest
]

-- The trade that a payload tells of, field by field.
abbrev pub told : BinanceStreamPayload → TradeEvent
told payload = record {
  event_time = payload.event.event_time;
  symbol = payload.event.symbol;
  exchange = "BINANCE";
  trade_id = payload.event.trade_id;
  price = payload.event.price;
  quantity = payload.event.quantity;
  trade_time = payload.event.trade_time;
  is_buyer_maker = payload.event.is_buyer_maker;
  is_best_price_match = payload.event.is_best_price_match;
}

module _ {P N C : Type 0} (parse : String → Option BinanceStreamPayload)
    (encode : TradeEvent → List ℕ) (publish_trade : String → List ℕ → P → Result (Unit {0}) × P)
    (attempts : P → List (String × List ℕ))
    (tries : (s : String) (b : List ℕ) (p : P)
      → attempts (publish_trade s b p).1 ≡ attempts p ++ (s, b) ∷ [])
    (nats_ack : N → Message → Bool × N) (decode : List ℕ → Option TradeEvent)
    (send : C → Envelope → Bool × C)
    (inverse : (txt : String) (payload : BinanceStreamPayload)
      → parse txt ≡ some payload
      → decode (encode (told payload)) ≡ some (told payload)) where
  -- The message of an attempt, if it reaches the stream, and the envelope of a trade.
  abbrev pub stored : ℕ → (String × List ℕ) → Message
  stored sequence a = record { sequence = sequence; payload = a.1 }

  abbrev pub envelope_for : ℕ → BinanceStreamPayload → Envelope
  envelope_for sequence payload = record {
    event = told payload;
    bytes = length (encode (told payload));
    ack = Ack.nats (stored sequence (subject, encode (told payload)));
  }

  from_payload-told : (payload : BinanceStreamPayload) → from_payload payload ≡ told payload
  unfolding from_payload
  from_payload-told payload = refl

  processed_one :
      (sequence : ℕ) (txt : String) (payload : BinanceStreamPayload) (acks : Acks N)
      → parse txt ≡ some payload
      → process_message nats_ack decode send
          (stored sequence (subject, encode (from_payload payload)))
          acks
        ≡ (some (envelope_for sequence payload), acks)
  unfolding process_message
  processed_one sequence txt payload acks e = rw (from_payload-told, inverse txt payload e) refl

  publications_parsed :
      (txt : String) (payload : BinanceStreamPayload) (rest : List String)
      → parse txt ≡ some payload
      → publications parse encode publish_trade attempts tries (txt ∷ rest)
        ≡ (subject, encode (from_payload payload))
          ∷ publications parse encode publish_trade attempts tries rest
  publications_parsed txt payload rest h = ground (arith, h)

  publications_unparsed :
      (txt : String) (rest : List String)
      → parse txt ≡ none
      → publications parse encode publish_trade attempts tries (txt ∷ rest)
        ≡ publications parse encode publish_trade attempts tries rest
  publications_unparsed txt rest h = ground (arith, h)

  payloads_parsed :
      (txt : String) (payload : BinanceStreamPayload) (rest : List String)
      → parse txt ≡ some payload
      → payloads parse (txt ∷ rest) ≡ payload ∷ payloads parse rest
  payloads_parsed txt payload rest h = ground (arith, h)

  payloads_unparsed :
      (txt : String) (rest : List String)
      → parse txt ≡ none
      → payloads parse (txt ∷ rest) ≡ payloads parse rest
  payloads_unparsed txt rest h = ground (arith, h)

  publications-received :
      (sequence : ℕ) (acks : Acks N) (txts : List String)
      → map
          (λ a. process_message nats_ack decode send (stored sequence a) acks)
          (publications parse encode publish_trade attempts tries txts)
        ≡ map (λ payload. (some (envelope_for sequence payload), acks)) (payloads parse txts)
  publications-received sequence acks [] = refl
  publications-received sequence acks (txt ∷ rest) = elim (Option-cases (parse txt)) [
    | inl e ↦
        ap (map (λ a. process_message nats_ack decode send (stored sequence a) acks))
          (publications_unparsed txt rest e)
        ∙ publications-received sequence acks rest
        ∙ ap (map (λ payload. (some (envelope_for sequence payload), acks)))
            (sym (payloads_unparsed txt rest e))
    | inr (payload, e) ↦
        ap (map (λ a. process_message nats_ack decode send (stored sequence a) acks))
          (publications_parsed txt payload rest e)
        ∙ (λ i.
            processed_one sequence txt payload acks e i
            ∷ publications-received sequence acks rest i)
        ∙ ap (map (λ payload. (some (envelope_for sequence payload), acks)))
            (sym (payloads_parsed txt payload rest e))
  ]

  -- From the exchange to the batcher: while no message makes the parser fail, what the collector's loop tries to
  -- publish is, message by message and in order, such that the batcher's source makes of it, under
  -- whatever sequence number it is stored, one envelope with the trade that the exchange's message tells
  -- of, each field in its place and the exchange's name put in, to be acknowledged by that message, and
  -- acknowledges nothing itself; if the decoder inverts the encoder on those trades.
  pub collected-received :
      (events : List Event) (p : P) (sequence : ℕ) (acks : Acks N)
      → is_ok (the_big_loop parse encode publish_trade true events p).0 ≡ true
      → (sent : List (String × List ℕ)) × (attempts
            (the_big_loop parse encode publish_trade true events p).1
          ≡ attempts p ++ sent)
        × (map (λ a. process_message nats_ack decode send (stored sequence a) acks) sent
            ≡ map
                (λ payload. (some (envelope_for sequence payload), acks))
                (payloads parse (texts events)))
  collected-received events p sequence acks h = (
    publications parse encode publish_trade attempts tries (texts events),
    the_big_loop-attempts parse encode publish_trade attempts tries events p h,
    publications-received sequence acks (texts events),
  )
