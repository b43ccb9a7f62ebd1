-- ===== src/Source/Ack.antt =====
-- `Ack` and `Envelope` of rustapps/crypto-batcher/src/source.rs. The NATS server is a parameter: it
-- keeps a state and answers each acknowledgement with success or failure.
use crypto_lakehouse.Prelude.{Bool, List, [], if◌then◌else◌, nat_beq, suc, true, ℕ, ◌++◌, ◌+◌, ◌∷◌}
use crypto_lakehouse.Trade.{TradeEvent}

-- A JetStream message: its identity on the server and its payload.
pub record Message : Type 0 where
  pub sequence : ℕ
  pub payload : List ℕ

pub data Ack : Type 0 where
  nats : Message → Ack
  -- the shared counter, by its identity
  counter : ℕ → Ack
  none : Ack

pub record Envelope : Type 0 where
  pub event : TradeEvent
  pub bytes : ℕ
  pub ack : Ack

-- What acknowledgements change: the server, the counters, and a log of every call.
pub record Acks (N : Type 0) : Type 0 where
  pub server : N
  pub counters : ℕ → ℕ
  pub log : List Ack

module _ {N : Type 0} (nats_ack : N → Message → Bool × N) where
  -- `Ack::ack`: false is the error of a failed `msg.ack()`.
  unfoldable pub ack : Ack → Acks N → Bool × Acks N
  ack (nats msg) s =
      let (sent, server) = nats_ack s.server msg in
      (sent, record s { server = server; log = s.log ++ nats msg ∷ [] })
  ack (counter c) s = (
    true,
    record s {
      counters = λ d. if nat_beq c d then s.counters d + 1 else s.counters d;
      log = s.log ++ counter c ∷ [];
    },
  )
  ack none s = (true, record s { log = s.log ++ none ∷ [] })

  -- The acknowledgement of a batch: every ack is sent, whatever the others answer, and the failures
  -- are counted. The acks are started in order; at most 64 are in flight.
  unfoldable pub ack_all : List Ack → Acks N → ℕ × Acks N
  unfolding ack
  ack_all [] s = (0, s)
  ack_all (a ∷ rest) s =
      let (sent, s') = ack a s in
      let (failures, s'') = ack_all rest s' in (if sent then failures else suc failures, s'')
