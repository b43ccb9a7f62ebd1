-- ===== src/Backfill/Main/Ends.antt =====
-- What a run of the backfill leaves behind, and the run after it.
use crypto_lakehouse.Prelude.{
  List, Option, String, [], append-nil, if_cases, inl, inr, int_eq, length, nat_eq, refl, string_eq,
  sym, u64_mod, ℕ, ◌<◌, ◌≡◌, ◌≤◌, ◌⊎◌,
}
use crypto_lakehouse.Result.{Result, ok, err}
use crypto_lakehouse.Action.{Action, under}
use crypto_lakehouse.Action.Ends.{Ends, Ends-step, Ends-resume}
use crypto_lakehouse.Table.{Row}
use crypto_lakehouse.Config.Text.{Float}
use crypto_lakehouse.Query.Visible.{ensure_visible}
use crypto_lakehouse.Query.Engine.{Engine, EngineLaws}
use crypto_lakehouse.Query.Answers.{read_back, read_back-count}
use crypto_lakehouse.Sink.Lake.{Laws, count}
use crypto_lakehouse.Sink.State.{Sink}
use crypto_lakehouse.Sink.Open.{TableIdent}
use crypto_lakehouse.Append.Open.{Names}
use crypto_lakehouse.Ranking.{in_range}
use crypto_lakehouse.Sink.Connect.{Connector}
use crypto_lakehouse.Sink.Connect.Ready.{ConnectorLaws, Same}
use crypto_lakehouse.Append.{stream_into}
use crypto_lakehouse.Append.Open.{open_sink}
use crypto_lakehouse.Append.Destination.{open_sink-Usable, Usable}
use crypto_lakehouse.Append.Through.{through, Adds, AddsSome, Adds-from, through-Ends}
use crypto_lakehouse.Backfill.{candidates, audit}
use crypto_lakehouse.Backfill.Main.{
  Args, Report, planned, audited, appended, source_rows, append_list, run_append,
}

module _ (f : Float) (env : String → Option String) {W : Type 0} (X : Connector W)
    (laws : (i : TableIdent) → Laws (X.lake i)) (more : ConnectorLaws X laws) (E : Engine W)
    (engine : EngineLaws X laws E) where
  abbrev pub list : E.libraries.Context → Args → W → List Row
  list ctx args w = append_list f env X E ctx args w

  -- The table that `--into` names has the candidates besides.
  abbrev pub Filled : E.libraries.Context → Args → W → ℕ → ℕ → W → Type 0
  Filled ctx args w written visible w' =
      (i : TableIdent) × Names args.into i
      × (written ≡ length (candidates (list ctx args w)))
      × (written ≤ visible)
      × (visible ≡ count (in_range args.start args.end_) ((laws i).committed w'))
      × Adds (X.lake i) (laws i) (candidates (list ctx args w)) w w'

  abbrev pub Reported : E.libraries.Context → Args → W → Report → W → Type 0
  Reported ctx args w planned w' = Same X laws more w w'
  Reported ctx args w (audited columns) w' =
      Same X laws more w w' × (columns ≡ audit (source_rows f env X E ctx args w) (list ctx args w))
  Reported ctx args w (appended written visible) w' = Filled ctx args w written visible w'

  -- Nothing has changed, or the table that `--into` names has the first of the candidates.
  abbrev pub Failed : E.libraries.Context → Args → W → W → Type 0
  Failed ctx args w w' =
      Same X laws more w w'
      ⊎ ((i : TableIdent) × Names args.into i
          × AddsSome (X.lake i) (laws i) (candidates (list ctx args w)) w w')

  -- The scans find the same rows after the sink was opened.
  list_unchanged :
      (ctx : E.libraries.Context) (args : Args) (w w1 : W)
      → Same X laws more w w1
      → list ctx args w1 ≡ list ctx args w
  unfolding append_list source_rows
  list_unchanged ctx args w w1 same =
      rw
        (
          engine.scan_unchanged ctx args.from w w1 same,
          engine.scan_unchanged ctx args.into w w1 same,
        )
        refl

  to_some :
      {A : Type 0} (P : A → W → Type 0) (ctx : E.libraries.Context) (args : Args) (w : W)
      (r : Result A × W)
      → Ends P (Same X laws more w) r
      → Ends P (Failed ctx args w) r
  to_some P ctx args w (ok a, w') h = h
  to_some P ctx args w (err e, w') h = inl h

  written-Ends :
      (ctx : E.libraries.Context) (args : Args) (w w1 : W) (i : TableIdent) (sink : Sink (X.lake i))
      → length (candidates (list ctx args w)) < u64_mod
      → Names args.into i
      → Same X laws more w w1
      → Ends
          (λ n w2.
            (n ≡ length (candidates (list ctx args w)))
            × Adds (X.lake i) (laws i) (candidates (list ctx args w)) w w2)
          (Failed ctx args w)
          (through
            (X.lake i)
            sink
            (stream_into
              (X.lake i)
              (E.execute_stream ctx (candidates (append_list f env X E ctx args w1)) w1)
              args.chunk_rows)
            w1)
  written-Ends ctx args w w1 i sink fits names same = rw (list_unchanged ctx args w w1 same) (
      named
        (through (X.lake i) sink
          (stream_into (X.lake i) (E.execute_stream ctx cands w1) args.chunk_rows) w1)
        (Adds-from (X.lake i) (laws i) cands w w1 (same i) _ (
          through-Ends (X.lake i) (laws i) cands (E.execute_stream ctx cands w1) args.chunk_rows
            sink w1 (engine.execute_stream_ok ctx cands w1) fits)))
    where
      cands : List Row
      cands = candidates (list ctx args w)

      named :
          (r : Result ℕ × W)
          → Ends
              (λ n w2. (n ≡ length cands) × Adds (X.lake i) (laws i) cands w w2)
              (AddsSome (X.lake i) (laws i) cands w)
              r
          → Ends
              (λ n w2. (n ≡ length cands) × Adds (X.lake i) (laws i) cands w w2)
              (Failed ctx args w)
              r
      named (ok n, w') h = h
      named (err e, w') h = inr (i, names, h)

  pub run_append-Ends :
      (ctx : E.libraries.Context) (args : Args) (w : W)
      → length (candidates (list ctx args w)) < u64_mod
      → Ends (Reported ctx args w) (Failed ctx args w) (run_append f env X E ctx args w)
  unfolding run_append
  run_append-Ends ctx args w fits =
      if_cases (λ (m : Action W Report). Ends (Reported ctx args w) (Failed ctx args w) (m w))
        args.explain _ _
        (λ _.
          Ends-step (Reported ctx args w) (Failed ctx args w) (under _ (E.plan ctx w)) w _
            (λ _. inl (λ _. refl))
            (λ _ _.
              Ends-step (Reported ctx args w) (Failed ctx args w) (E.show_plan ctx w) w _
                (λ _. inl (λ _. refl)) (λ _ _ _. refl)))
        (λ _.
          Ends-resume (Reported ctx args w) (Failed ctx args w)
            (Usable f env X laws more args.into w) (open_sink f env X args.into w) _
            (to_some (Usable f env X laws more args.into w) ctx args w
              (open_sink f env X args.into w) (open_sink-Usable f env X laws more args.into w))
            (λ (i, sink) w1 opened.
              Ends-resume (Reported ctx args w) (Failed ctx args w)
                (λ n w2.
                  (n ≡ length (candidates (list ctx args w)))
                  × Adds (X.lake i) (laws i) (candidates (list ctx args w)) w w2)
                (through (X.lake i) sink
                  (stream_into (X.lake i)
                    (E.execute_stream ctx (candidates (append_list f env X E ctx args w1)) w1)
                    args.chunk_rows)
                  w1)
                _ (written-Ends ctx args w w1 i sink fits opened.0 opened.2)
                (λ n w2 h.
                  Ends-step (Reported ctx args w) (Failed ctx args w)
                    (ensure_visible (read_back E ctx args.into args.start args.end_ w2) n) w2 _
                    (λ _.
                      inr
                        (i, opened.0, (candidates (list ctx args w), [], sym (append-nil _), h.1)))
                    (λ visible seen.
                      let (count, enough) =
                        read_back-count X laws E engine ctx args.into i args.start args.end_ w2 n
                          visible opened.0 seen in
                      (i, opened.0, h.0, enough, count, h.1)))))
