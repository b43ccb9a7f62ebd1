-- ===== src/Append/Open.antt =====
-- `open` of rustapps/crypto-iceberg-query/src/append.rs.
use crypto_lakehouse.Prelude.{Option, String, if◌then◌else◌, nat_beq, none, some, ℕ, ◌≡◌}
use Prim.Native.Char.{code}
use crypto_lakehouse.Result.{or_fail}
use crypto_lakehouse.Action.{Action, ◌>>=◌, ◌>>◌, pure, lift, with_context}
use crypto_lakehouse.Config.Text.{Float}
use crypto_lakehouse.Config.Settings.{iceberg_from_env}
use crypto_lakehouse.Query.{dot, checked_qualified_name}
use crypto_lakehouse.Sink.Dedup.{codes}
use crypto_lakehouse.Sink.State.{Sink}
use crypto_lakehouse.Sink.Connect.{Connector, ident_of, connect}
use crypto_lakehouse.Sink.Open.{TableIdent}

-- `str::split_once` by one character: what is before its first occurrence, and what is after it.
unfoldable pub split_once : ℕ → String → Option (String × String)
split_once sep String.[] = none
split_once sep (String.◌∷◌ c s) =
    let rest = split_once sep s in
    if nat_beq (code c) sep
    then some (String.[], s)
    else elim rest [ none ↦ none | some parts ↦ some (String.◌∷◌ c parts.0, parts.1) ]

-- A text that names a table.
abbrev pub Names : String → TableIdent → Type 0
Names text i = split_once dot text ≡ some (i.namespace, i.name)

module _ (f : Float) (env : String → Option String) {W : Type 0} (X : Connector W) where
  -- The sink of the batcher's configuration, with the destination put in: for whatever table that is.
  unfoldable pub open_sink : String → Action W ((i : TableIdent) × Sink (X.lake i))
  unfolding checked_qualified_name split_once iceberg_from_env connect
  open_sink destination = do
    lift (checked_qualified_name (codes destination))
    parts ← lift (or_fail (split_once dot destination) "destination must be `<namespace>.<table>`")
    read ← with_context "invalid iceberg configuration" (lift (iceberg_from_env f env))
    let cfg = record read { namespace = parts.0; table = parts.1 }
    sink ← with_context "failed to open the destination table" (connect X cfg)
    pure (ident_of cfg, sink)
