-- ===== src/Sink/State.antt =====
-- The state of `IcebergSink`, and its calls of what lies outside.
use crypto_lakehouse.Prelude.{ℕ}
use crypto_lakehouse.Result.{Result, ok}
use crypto_lakehouse.Action.{Action}
use crypto_lakehouse.Sink.Lake.{Lake}

-- `IcebergSink`, with the world outside; `commit_retries` is its configuration's.
pub record Sink {W : Type 0} (L : Lake W) : Type 0 where
  pub ctx : L.Ctx
  pub world : W
  pub table : L.Table
  pub commit_retries : ℕ

module _ {W : Type 0} (L : Lake W) where
  -- A call of the world outside, one that may fail and one that may not.
  abbrev pub outside : {A : Type 0} → (W → Result A × W) → Action (Sink L) A
  outside f s = let (r, w) = f s.world in (r, record s { world = w })

  abbrev pub reads : {A : Type 0} → (W → A × W) → Action (Sink L) A
  reads f s = let (a, w) = f s.world in (ok a, record s { world = w })

  abbrev pub changes : (W → W) → Action (Sink L) (Unit {0})
  changes f s = (ok tt, record s { world = f s.world })

  -- A call of the session.
  abbrev pub in_session : {A : Type 0} → (L.Ctx → Result A × L.Ctx) → Action (Sink L) A
  in_session f s = let (r, c) = f s.ctx in (r, record s { ctx = c })

  abbrev pub set_table : L.Table → Action (Sink L) (Unit {0})
  set_table t s = (ok tt, record s { table = t })
