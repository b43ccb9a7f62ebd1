-- ===== src/Batcher/Accumulator/Triggers.antt =====
-- When the accumulator asks for a flush.
use crypto_lakehouse.Prelude.{
  Option, arith, false, is_nil, length, none, refl, some, true, ℕ, ◌+◌, ◌-◌, ◌<◌, ◌↔◌, ◌≡◌, ◌≤◌,
  ◌⊎◌,
}
use crypto_lakehouse.Batcher.Accumulator.{Accumulator, time_to_flush, due}

-- The oldest row has waited for the flush interval.
abbrev pub Waited : Option ℕ → ℕ → ℕ → Type 0
Waited none wait now = ⊥
Waited (some t) wait now = wait ≤ now - t

-- The buffer is due exactly when it holds a row and one of the three limits is reached: rows, bytes,
-- or the age of the oldest row.
pub due_iff :
    (acc : Accumulator) (now : ℕ)
    → (due acc now ≡ true) ↔ (
        (is_nil acc.rows ≡ false)
        × ((acc.policy.max_records ≤ length acc.rows)
            ⊎ ((acc.policy.max_bytes ≤ acc.bytes)
                ⊎ Waited acc.first_seen acc.policy.flush_interval now)))
unfolding due
due_iff acc now = ground arith

-- The timer that the loop sleeps on is exact. With a row in the buffer since `t` and both other limits not reached,
-- the time that `time_to_flush` gives is what is left of the flush interval, and a flush is due at a later
-- time exactly if that time has passed.
pub due-time_to_flush :
    (acc : Accumulator) (now t later : ℕ)
    → is_nil acc.rows ≡ false
    → acc.first_seen ≡ some t
    → length acc.rows < acc.policy.max_records
    → acc.bytes < acc.policy.max_bytes
    → t ≤ now
    → now ≤ later
    → (left : ℕ) × (time_to_flush acc now ≡ some left)
      × (left ≡ acc.policy.flush_interval - (now - t))
      × ((due acc later ≡ true) ↔ (now + left ≤ later))
unfolding due time_to_flush
due-time_to_flush acc now t later full started few small past after = (
  acc.policy.flush_interval - (now - t),
  rw started refl,
  refl,
  ground (arith, full, started, few, small, past, after),
)
