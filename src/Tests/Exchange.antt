-- ===== src/Tests/Exchange.antt =====
-- Tests of the collector and of the query library.
use crypto_lakehouse.Prelude.{
  Bool, Bool-cases, List, Option, String, [], arith, false, if◌then◌else◌, inl, inr, int_eq, map,
  nat_beq, nat_eq, none, refl, some, string_eq, subst, true, ℕ, ◌++◌, ◌==◌, ◌↔◌, ◌∷◌, ◌≡◌,
}
use mathlib.Core.Option.{some-injective}
use crypto_lakehouse.Result.{Result, ok, err, message, is_ok}
use crypto_lakehouse.Trade.{TradeEvent}
use crypto_lakehouse.Source.Ack.{Ack, Envelope}
use crypto_lakehouse.Source.Pull.{process_message}
use crypto_lakehouse.Collector.{
  BinanceStreamPayload, text, other, Event, new_reader, end_of_stream, frame, the_big_loop, pauses,
}
use crypto_lakehouse.Collector.Stream.{
  texts, publications, told, payloads, the_big_loop-attempts, collected-received,
}
use crypto_lakehouse.Sink.Dedup.{codes}
use crypto_lakehouse.Query.{checked_qualified_name}
use crypto_lakehouse.Query.Names.{Qualified, checked_iff}
use crypto_lakehouse.Tests.{no_acks, counting}

abbrev payload : BinanceStreamPayload
payload = record {
  stream = "bnbbtc@trade";
  event = record {
    event_type = "trade";
    event_time = 1672515782136;
    symbol = "BNBBTC";
    trade_id = 12345;
    price = 4500000000000000000;
    quantity = 4652007308841189376;
    trade_time = 1672515782137;
    is_buyer_maker = false;
    is_best_price_match = true;
  };
}

abbrev parse_sample : String → Option BinanceStreamPayload
parse_sample txt = if txt == "trade" then some payload else none

-- The trade id alone; enough for one kind of trade.
abbrev encode_id : TradeEvent → List ℕ
encode_id e = e.trade_id ∷ []

abbrev failing_publish :
    String → List ℕ → List (String × List ℕ) → Result (Unit {0}) × List (String × List ℕ)
failing_publish s b p = (err (message "nats down"), p ++ (s, b) ∷ [])

abbrev events : List Event
events = frame (text "trade") ∷ frame other ∷ new_reader ∷ frame (text "trade") ∷ end_of_stream ∷ []

the_big_loop-attempts_example :
    (the_big_loop parse_sample encode_id failing_publish true events []).1
    ≡ []
      ++ publications parse_sample encode_id failing_publish (λ p. p) (λ s b p. refl) (texts events)
unfolding the_big_loop
the_big_loop-attempts_example =
    the_big_loop-attempts parse_sample encode_id failing_publish (λ p. p) (λ s b p. refl) events []
      refl

-- A decoder that knows the sample by its trade id.
abbrev decode_sample : List ℕ → Option TradeEvent
decode_sample (id ∷ []) = if nat_beq id 12345 then some (told payload) else none
decode_sample _ = none

abbrev send_always : List Envelope → Envelope → Bool × List Envelope
send_always es e = (true, es ++ e ∷ [])

inverse_sample :
    (txt : String) (q : BinanceStreamPayload)
    → parse_sample txt ≡ some q
    → decode_sample (encode_id (told q)) ≡ some (told q)
inverse_sample txt q h = elim (Bool-cases (txt == "trade")) [
  | inl known ↦
      let is : some payload ≡ some q = rw known at h in
      subst (λ p. decode_sample (encode_id (told p)) ≡ some (told p)) (some-injective _ _ is) refl
  | inr unknown ↦ absurd (ground (arith, h, unknown))
]

collected-received_example :
    (sent : List (String × List ℕ)) × ((the_big_loop parse_sample encode_id failing_publish true
        events []).1
      ≡ [] ++ sent)
    × (map
          (λ a.
            process_message counting decode_sample send_always
              (record { sequence = 7; payload = a.1 })
              no_acks)
          sent
        ≡ map
            (λ p. (
              some (record {
                event = told p;
                bytes = 1;
                ack = Ack.nats (record { sequence = 7; payload = p.event.trade_id ∷ [] });
              }),
              no_acks,
            ))
            (payloads parse_sample (texts events)))
unfolding the_big_loop
collected-received_example =
    collected-received parse_sample encode_id failing_publish (λ p. p) (λ s b p. refl) counting
      decode_sample send_always inverse_sample events [] 7 no_acks refl

pauses_double :
    pauses (5 ∷ 5 ∷ 5 ∷ 5 ∷ 5 ∷ 5 ∷ 5 ∷ 60000000001 ∷ [])
    ≡ 1000000000 ∷ 2000000000 ∷ 4000000000 ∷ 8000000000 ∷ 16000000000 ∷ 32000000000 ∷ 60000000000
      ∷ 1000000000 ∷ []
unfolding pauses
pauses_double = refl

checked_iff_example :
    (checked_qualified_name (codes "trades.trades-2") ≡ ok (codes "trades.trades-2"))
    ↔ Qualified (codes "trades.trades-2")
checked_iff_example = checked_iff (codes "trades.trades-2")

injection_refused : is_ok (checked_qualified_name (codes "trades.x; DROP TABLE y")) ≡ false
unfolding checked_qualified_name
injection_refused = refl

name_accepted : is_ok (checked_qualified_name (codes "trades.trades-2")) ≡ true
unfolding checked_qualified_name
name_accepted = refl
