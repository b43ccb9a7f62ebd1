-- ===== src/Collector/Reconnect.antt =====
-- How long the collector waits before it connects again.
use crypto_lakehouse.Prelude.{All, List, [], arith, min, ℕ, ◌*◌, ◌∷◌, ◌≡◌, ◌≤◌}
use crypto_lakehouse.Collector.{second, reconnect, pauses_from, pauses}

-- Between one second and a minute.
abbrev pub Bounded : ℕ → Type 0
Bounded pause = (second ≤ pause) × (pause ≤ 60 * second)

pauses_from-Bounded :
    (lasted : List ℕ) (backoff : ℕ) → Bounded backoff → All Bounded (pauses_from backoff lasted)
unfolding pauses_from reconnect
pauses_from-Bounded [] backoff h = tt
pauses_from-Bounded (elapsed ∷ rest) backoff h =
    let pause : Bounded (reconnect backoff elapsed).0 = ground (arith, h) in
    (pause, pauses_from-Bounded rest _ (omega (arith, pause.0, pause.1), omega arith))

-- However the connections end, each pause is at least a second, so the collector never reconnects in a
-- busy loop, and at most a minute.
pub pauses-Bounded : (lasted : List ℕ) → All Bounded (pauses lasted)
unfolding pauses
pauses-Bounded lasted = pauses_from-Bounded lasted second (omega arith, omega arith)

-- While every connection lasts at most a minute, the backoff doubles from one second: from a backoff of
-- at most 32 seconds, the next pause is this one, and the one after it is twice as long up to a minute.
doubles :
    (backoff elapsed : ℕ)
    → elapsed ≤ 60 * second
    → reconnect backoff elapsed ≡ (backoff, min (backoff * 2) (60 * second))
unfolding reconnect
doubles backoff elapsed h = ground arith
