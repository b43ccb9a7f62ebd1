-- ===== src/Pipeline.antt =====
-- The batch loop with the program's own sink: no message is acknowledged before its trade is in the table.
pub mod Writes
pub mod Stalled
use crypto_lakehouse.Prelude.{
  ==_iff, All, All-append, All-map, Among, Among-append, Bool, Bool-cases, List, [], ap, append-nil,
  append_assoc, arith, contains, contains-firsts, false, inl, inr, int_eq, map, map-append, nat_eq,
  refl, string_eq, subst, sym, true, ◌++◌, ◌==◌, ◌∙◌, ◌∷◌, ◌≡◌,
}
use crypto_lakehouse.Result.{Result, ok, err, is_ok}
use crypto_lakehouse.Trade.{TradeEvent, Key, key_eq, key_of}
use crypto_lakehouse.Table.{Row, sql_key}
use crypto_lakehouse.Source.Ack.{Message, Acks, Envelope, ack_all}
use crypto_lakehouse.Sink.Stats.{WriteStats}
use crypto_lakehouse.Sink.Lake.{Lake, Laws, joins}
use crypto_lakehouse.Sink.State.{Sink}
use crypto_lakehouse.Sink.Write.{write_batch}
use crypto_lakehouse.Batcher.Accumulator.{BatchConfig}
use crypto_lakehouse.Batcher.Accumulator.Buffer.{kept, envelope_key}
use crypto_lakehouse.Batcher.Run.{Round, run}
use crypto_lakehouse.Batcher.Run.Groups.{
  Ledger, concat, received, settled, settle_group, settle_groups,
}
use crypto_lakehouse.Batcher.Run.Refinement.{run-refines}
use crypto_lakehouse.Batcher.Run.Delivery.{log-settled_ok, log-settled_err}
use crypto_lakehouse.Pipeline.Writes.{has, write_grows, write_has}

Among-contains :
    (es : List Envelope) (e : Envelope)
    → Among e es
    → contains (map envelope_key es) (envelope_key e) ≡ true
Among-contains [] e m = absurd m
Among-contains (x ∷ es) e (inl h) =
    let same : (envelope_key e == envelope_key x) ≡ true =
      (==_iff (envelope_key e) (envelope_key x)).1 (ap envelope_key h) in
    ground (arith, same)
Among-contains (x ∷ es) e (inr m) = ground (arith, Among-contains es e m)

contains-Among :
    (es : List Envelope) (k : Key)
    → contains (map envelope_key es) k ≡ true
    → (e : Envelope) × Among e es × (envelope_key e ≡ k)
contains-Among [] k h = cc
contains-Among (x ∷ es) k h = elim (Bool-cases (k == envelope_key x)) [
  | inl same ↦ (x, inl refl, sym ((==_iff k (envelope_key x)).0 same))
  | inr other_key ↦
      let (e, m, is) = contains-Among es k (ground (arith, h, other_key)) in (e, inr m, is)
]

-- The first envelope of the key is kept.
kept-Among :
    (d : Bool) (g : List Envelope) (e : Envelope)
    → Among e g
    → (first : Envelope) × Among first (kept d g) × (envelope_key first ≡ envelope_key e)
kept-Among true g e m =
    contains-Among (kept true g) (envelope_key e)
      (contains-firsts envelope_key g (envelope_key e) ∙ Among-contains g e m)
kept-Among false g e m = (e, m, refl)

Among-events :
    (es : List Envelope) (e : Envelope) → Among e es → Among e.event (map (λ x. x.event) es)
Among-events [] e m = m
Among-events (x ∷ es) e (inl h) = inl (ap (λ y. y.event) h)
Among-events (x ∷ es) e (inr m) = inr (Among-events es e m)

All-Among :
    {P : Envelope → Type 0} (es : List Envelope) → ((e : Envelope) → Among e es → P e) → All P es
All-Among [] h = tt
All-Among (x ∷ es) h = (h x (inl refl), All-Among es (λ e m. h e (inr m)))

module _ {N : Type 0} {W : Type 0} (L : Lake W) (laws : Laws L)
    (nats_ack : N → Message → Bool × N) where
  open laws use {committed}

  -- The sink as the loop calls it.
  abbrev pub write : Sink L → List TradeEvent → Result WriteStats × Sink L
  write s rows = write_batch L rows s

  -- The trade of the envelope is in the table.
  abbrev pub Stored : Sink L → Envelope → Type 0
  Stored s e = has (committed s.world) (envelope_key e) ≡ true

  -- The acks sent are those of envelopes of the group list whose trades are in the table.
  abbrev pub Acked : List Envelope → Acks N → Sink L → Acks N → Type 0
  Acked es start s acks =
      (acked : List Envelope) × (acks.log ≡ start.log ++ map (λ e. e.ack) acked)
      × All (Stored s) acked
      × All (λ e. Among e es) acked

  group-Stored :
      (d : Bool) (g : List Envelope) (s : Sink L)
      → is_ok (write s (map (λ e. e.event) (kept d g))).0 ≡ true
      → All (Stored (write s (map (λ e. e.event) (kept d g))).1) g
  unfolding key_of
  group-Stored d g s done = All-Among g (λ e m.
      let (first, kept_first, same) = kept-Among d g e m in
      subst (λ k. has (committed (write s (map (λ x. x.event) (kept d g))).1.world) k ≡ true) same
        (write_has L laws (map (λ x. x.event) (kept d g)) s first.event done
          (Among-events (kept d g) first kept_first)))

  pub sink-settled :
      (g : List Envelope) (r : Result WriteStats × Sink L) (l : Ledger (Sink L) N)
      → (settled write nats_ack g r l).sink ≡ r.1
  sink-settled g (ok w, s) l = refl
  sink-settled g (err e, s) l = refl

  step-Acked :
      (d : Bool) (g es : List Envelope) (start : Acks N) (l : Ledger (Sink L) N)
      → Acked es start l.sink l.acks
      → Acked
          (es ++ g)
          start
          (settle_group write nats_ack d g l).sink
          (settle_group write nats_ack d g l).acks
  step-Acked d g es start l (acked, log, stored, from) = elim (Bool-cases (is_ok r.0)) [
    | inl done ↦ (
      acked ++ g,
      log-settled_ok write nats_ack g r l done
          ∙ ap (λ xs. xs ++ map (λ e. e.ack) g) log
          ∙ append_assoc start.log _ _
          ∙ ap (λ xs. start.log ++ xs) (sym (map-append (λ e. e.ack) acked g)),
      All-append (Stored (settle_group write nats_ack d g l).sink) acked g kept_stored
          (subst (λ s. All (Stored s) g) (sym (sink-settled g r l)) (group-Stored d g l.sink done)),
      All-append (λ e. Among e (es ++ g)) acked g
          (All-map acked (λ e m. (Among-append e es g).1 (inl m)) from)
          (All-Among g (λ e m. (Among-append e es g).1 (inr m))),
    )
    | inr bad ↦ (
      acked,
      ap (λ a. a.log) (log-settled_err write nats_ack g r l bad) ∙ log,
      kept_stored,
      All-map acked (λ e m. (Among-append e es g).1 (inl m)) from,
    )
  ]
    where
      r : Result WriteStats × Sink L
      r = write l.sink (map (λ e. e.event) (kept d g))

      kept_stored : All (Stored (settle_group write nats_ack d g l).sink) acked
      kept_stored =
          subst (λ s. All (Stored s) acked) (sym (sink-settled g r l))
            (All-map acked
              (λ e h. write_grows L laws (map (λ x. x.event) (kept d g)) l.sink (envelope_key e) h)
              stored)

  groups-Acked :
      (d : Bool) (gs : List (List Envelope)) (es : List Envelope) (start : Acks N)
      (l : Ledger (Sink L) N)
      → Acked es start l.sink l.acks
      → Acked
          (es ++ concat gs)
          start
          (settle_groups write nats_ack d gs l).sink
          (settle_groups write nats_ack d gs l).acks
  groups-Acked d [] es start l a =
      subst (λ xs. Acked xs start l.sink l.acks) (sym (append-nil es)) a
  groups-Acked d (g ∷ gs) es start l a =
      subst
        (λ xs.
          Acked xs start (settle_groups write nats_ack d (g ∷ gs) l).sink
            (settle_groups write nats_ack d (g ∷ gs) l).acks)
        (append_assoc es g (concat gs))
        (groups-Acked d gs (es ++ g) start (settle_group write nats_ack d g l)
          (step-Acked d g es start l a))

  -- At least once: with the program's sink, whatever the schedule, the catalog, the session and the server
  -- do, every ack that the loop has sent belongs to an envelope that it received, and the table has a row
  -- with that envelope's exchange, symbol and trade id. So no trade is taken from the stream before it is
  -- committed.
  pub run-Acked :
      (policy : BatchConfig) (sink : Sink L) (acks : Acks N) (rs : List Round)
      → Acked
          (received rs)
          acks
          (run write nats_ack policy sink acks rs).1.sink
          (run write nats_ack policy sink acks rs).1.acks
  run-Acked policy sink acks rs =
      let (groups, pending, cut, drained, h) = run-refines write nats_ack policy sink acks rs in
      let none_yet : Acked [] acks sink acks = ([], sym (append-nil acks.log), tt, tt) in
      let (acked, log, stored, from) =
        groups-Acked policy.dedup groups [] acks
          (record { sink = sink; acks = acks; written = 0; failed = 0 }) none_yet in
      (
        acked,
        ap (λ a. a.log) h.acks ∙ log,
        subst (λ s. All (Stored s) acked) (sym h.sink) stored,
        All-map acked
            (λ e m.
              subst (λ xs. Among e xs) cut ((Among-append e (concat groups) pending).1 (inl m)))
            from,
      )
