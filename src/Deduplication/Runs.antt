-- ===== src/Deduplication/Runs.antt =====
-- What a run of the deduplication tool leaves behind.
use crypto_lakehouse.Prelude.{
  Bool, List, Option, String, [], ap, append-nil, arith, if_cases, inl, inr, int_eq, length, nat_eq,
  none, refl, some, string_eq, subst, sym, u64_mod, ℕ, ◌*◌, ◌+◌, ◌-◌, ◌<◌, ◌≡◌, ◌≤◌, ◌⊎◌,
}
use crypto_lakehouse.Result.{Result, ok, err}
use crypto_lakehouse.Action.{Action, under}
use crypto_lakehouse.Action.Ends.{Ends, Ends-step, Ends-resume}
use crypto_lakehouse.Table.{Row}
use crypto_lakehouse.Config.Text.{Float}
use crypto_lakehouse.Query.Visible.{ensure_visible}
use crypto_lakehouse.Query.Engine.{Engine, EngineLaws}
use crypto_lakehouse.Query.Answers.{read_back, read_back-count}
use crypto_lakehouse.Sink.Lake.{Laws, count}
use crypto_lakehouse.Sink.State.{Sink}
use crypto_lakehouse.Sink.Open.{TableIdent}
use crypto_lakehouse.Append.Open.{Names}
use crypto_lakehouse.Ranking.{in_range}
use crypto_lakehouse.Sink.Connect.{Connector}
use crypto_lakehouse.Sink.Connect.Ready.{ConnectorLaws, Same}
use crypto_lakehouse.Sink.Write.Records.{count-append}
use crypto_lakehouse.Append.{stream_into}
use crypto_lakehouse.Append.Through.{through, Adds, AddsSome, Adds-from, through-Ends}
use crypto_lakehouse.Append.Open.{open_sink}
use crypto_lakehouse.Append.Destination.{Names-same, open_sink-Usable, Usable}
use crypto_lakehouse.Deduplication.{
  Args, Report, planned, audited, rewrote, ranked, rewrite, run_rewrite, through,
}
use crypto_lakehouse.Ranking.{within}

module _ (f : Float) (env : String → Option String) {W : Type 0} (X : Connector W)
    (laws : (i : TableIdent) → Laws (X.lake i)) (more : ConnectorLaws X laws) (E : Engine W)
    (engine : EngineLaws X laws E) where
  abbrev pub kept : E.libraries.Context → Args → W → List Row
  kept ctx args w = rewrite (ranked args.start args.end_ (E.scan ctx args.table w))

  -- The table that `into` names has the rows kept besides.
  abbrev pub Filled : E.libraries.Context → Args → String → W → ℕ → ℕ → W → Type 0
  Filled ctx args into w written visible w' =
      (i : TableIdent) × Names into i
      × (written ≡ length (kept ctx args w))
      × (written ≤ visible)
      × (visible ≡ count (in_range args.start args.end_) ((laws i).committed w'))
      × Adds (X.lake i) (laws i) (kept ctx args w) w w'

  abbrev pub Reported : E.libraries.Context → Args → Option String → W → Report → W → Type 0
  Reported ctx args into w planned w' = Same X laws more w w'
  Reported ctx args into w (audited total duplicates) w' =
      Same X laws more w w'
      × (total ≡ length (within args.start args.end_ (E.scan ctx args.table w)))
      × (duplicates ≡ total - length (kept ctx args w))
  Reported ctx args none w (rewrote written visible) w' = ⊥
  Reported ctx args (some into) w (rewrote written visible) w' =
      Filled ctx args into w written visible w'

  -- Nothing has changed, or the table that `into` names has the first of the rows kept.
  abbrev pub Failed : E.libraries.Context → Args → Option String → W → W → Type 0
  Failed ctx args none w w' = Same X laws more w w'
  Failed ctx args (some into) w w' =
      Same X laws more w w'
      ⊎ ((i : TableIdent) × Names into i × AddsSome (X.lake i) (laws i) (kept ctx args w) w w')

  to_some :
      {A : Type 0} (P : A → W → Type 0) (ctx : E.libraries.Context) (args : Args) (into : String)
      (w : W) (r : Result A × W)
      → Ends P (Same X laws more w) r
      → Ends P (Failed ctx args (some into) w) r
  to_some P ctx args into w (ok a, w') h = h
  to_some P ctx args into w (err e, w') h = inl h

  written-Ends :
      (ctx : E.libraries.Context) (args : Args) (into : String) (w w1 : W) (i : TableIdent)
      (sink : Sink (X.lake i))
      → length (kept ctx args w) < u64_mod
      → Names into i
      → Same X laws more w w1
      → Ends
          (λ n w2. (n ≡ length (kept ctx args w)) × Adds (X.lake i) (laws i) (kept ctx args w) w w2)
          (Failed ctx args (some into) w)
          (through
            (X.lake i)
            sink
            (stream_into
              (X.lake i)
              (E.execute_stream ctx
                (rewrite (ranked args.start args.end_ (E.scan ctx args.table w1)))
                w1)
              args.chunk_rows)
            w1)
  written-Ends ctx args into w w1 i sink fits names same =
      rw (engine.scan_unchanged ctx args.table w w1 same) (
        named
          (through (X.lake i) sink
            (stream_into (X.lake i) (E.execute_stream ctx (kept ctx args w) w1) args.chunk_rows) w1)
          (Adds-from (X.lake i) (laws i) (kept ctx args w) w w1 (same i) _ (
            through-Ends (X.lake i) (laws i) (kept ctx args w)
              (E.execute_stream ctx (kept ctx args w) w1) args.chunk_rows sink w1
              (engine.execute_stream_ok ctx (kept ctx args w) w1) fits)))
    where
      named :
          (r : Result ℕ × W)
          → Ends
              (λ n w2.
                (n ≡ length (kept ctx args w)) × Adds (X.lake i) (laws i) (kept ctx args w) w w2)
              (AddsSome (X.lake i) (laws i) (kept ctx args w) w)
              r
          → Ends
              (λ n w2.
                (n ≡ length (kept ctx args w)) × Adds (X.lake i) (laws i) (kept ctx args w) w w2)
              (Failed ctx args (some into) w)
              r
      named (ok n, w') h = h
      named (err e, w') h = inr (i, names, h)

  run_rewrite-Ends :
      (ctx : E.libraries.Context) (args : Args) (into : String) (w : W)
      → length (kept ctx args w) < u64_mod
      → Ends
          (Reported ctx args (some into) w)
          (Failed ctx args (some into) w)
          (run_rewrite f env X E ctx args into w)
  unfolding run_rewrite
  run_rewrite-Ends ctx args into w fits =
      if_cases (λ (m : Action W Report). Ends P Q (m w)) args.explain _ _
        (λ _.
          Ends-step P Q (under _ (E.plan ctx w)) w _ (λ _. inl (λ _. refl))
            (λ _ _.
              Ends-step P Q (under _ (E.show_plan ctx w)) w _ (λ _. inl (λ _. refl))
                (λ _ _ _. refl)))
        (λ _.
          Ends-resume P Q (Usable f env X laws more into w) (open_sink f env X into w) _
            (to_some (Usable f env X laws more into w) ctx args into w (open_sink f env X into w)
              (open_sink-Usable f env X laws more into w))
            (λ (i, sink) w1 opened.
              Ends-resume P Q
                (λ n w2.
                  (n ≡ length (kept ctx args w)) × Adds (X.lake i) (laws i) (kept ctx args w) w w2)
                (through (X.lake i) sink
                  (stream_into (X.lake i)
                    (E.execute_stream ctx
                      (rewrite (ranked args.start args.end_ (E.scan ctx args.table w1))) w1)
                    args.chunk_rows)
                  w1)
                _ (written-Ends ctx args into w w1 i sink fits opened.0 opened.2)
                (λ n w2 h.
                  Ends-step P Q (ensure_visible (read_back E ctx into args.start args.end_ w2) n) w2
                    _ (λ _. inr (i, opened.0, (kept ctx args w, [], sym (append-nil _), h.1)))
                    (λ visible seen.
                      let (count, enough) =
                        read_back-count X laws E engine ctx into i args.start args.end_ w2 n visible
                          opened.0 seen in
                      (i, opened.0, h.0, enough, count, h.1)))))
    where
      P : Report → W → Type 0
      P = Reported ctx args (some into) w

      Q : W → Type 0
      Q = Failed ctx args (some into) w

  added_to :
      (ctx : E.libraries.Context) (args : Args) (into : String) (i : TableIdent) (w w' : W)
      (n v : ℕ)
      → Names into i
      → Filled ctx args into w n v w'
      → Adds (X.lake i) (laws i) (kept ctx args w) w w'
  added_to ctx args into i w w' n v names filled =
      subst (λ j. Adds (X.lake j) (laws j) (kept ctx args w) w w')
        (Names-same into filled.0 i filled.1 names) filled.5

  -- A rewrite selects nothing against what its destination holds: when a rewrite that succeeded is run again into the
  -- same table and succeeds, while the source is unchanged, the table that is named has every row that it keeps
  -- twice besides what it had. So running it again does not converge.
  pub rerun-doubles :
      (ctx : E.libraries.Context) (args : Args) (into : String) (i : TableIdent) (w w1 w2 : W)
      (n v n' v' : ℕ)
      → length (kept ctx args w) < u64_mod
      → Names into i
      → E.scan ctx args.table w1 ≡ E.scan ctx args.table w
      → run_rewrite f env X E ctx args into w ≡ (ok (rewrote n v), w1)
      → run_rewrite f env X E ctx args into w1 ≡ (ok (rewrote n' v'), w2)
      → (q : Row → Bool)
      → count q ((laws i).committed w2)
        ≡ count q ((laws i).committed w) + 2 * count q (kept ctx args w)
  rerun-doubles ctx args into i w w1 w2 n v n' v' fits names same once again q =
      let first =
        added_to ctx args into i w w1 n v names
          (rw once at (run_rewrite-Ends ctx args into w fits)) in
      let second =
        added_to ctx args into i w1 w2 n' v' names
          (rw again at (run_rewrite-Ends ctx args into w1 (rw same fits))) in
      omega (
        arith,
        ap (count q) first.2,
        count-append q ((laws i).committed w) first.0,
        first.1 q,
        ap (count q) second.2,
        count-append q ((laws i).committed w1) second.0,
        second.1 q,
        ap (λ rows. count q (rewrite (ranked args.start args.end_ rows))) same,
      )
