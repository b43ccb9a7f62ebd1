-- ===== src/Sink/Dedup/Session.antt =====
-- What the dedup probe leaves in the session: nothing when it succeeds, the batch when it fails.
use crypto_lakehouse.Prelude.{Bool, List, ap, arith, false, filter, none, not, refl, some, ◌∙◌, ◌≡◌}
use crypto_lakehouse.Result.{Result, ok, is_ok}
use crypto_lakehouse.Action.{◌>>=◌, ◌>>◌, pure, under}
use crypto_lakehouse.Action.Ends.{Ends, Ends-step, Ends-resume, Ends-weaken}
use crypto_lakehouse.Table.{Row}
use crypto_lakehouse.Sink.Stats.{ProbeStats}
use crypto_lakehouse.Sink.Pruning.{Expr, build_pruning_expr}
use crypto_lakehouse.Sink.Lake.{Lake, Laws, matched, count, concat_rows}
use crypto_lakehouse.Sink.State.{Sink, in_session}
use crypto_lakehouse.Sink.Dedup.{probe_stats, dedup_probe, deduped_batch, anti_join}

module _ {W : Type 0} (L : Lake W) (laws : Laws L) where
  open laws use {committed, registered}

  -- The committed rows and the session are the same.
  abbrev pub Same : Sink L → Sink L → Type 0
  Same before s = (committed s.world ≡ committed before.world) × (s.ctx ≡ before.ctx)

  probe_stats-Ends : (p : Expr) (s : Sink L) → Ends (λ _. Same s) (Same s) (probe_stats L p s)
  unfolding probe_stats
  probe_stats-Ends p s =
      Ends-step (λ _. Same s) (Same s) (under _ (L.load_table s.world).0) _ _
        (λ _. (laws.committed-load_table s.world, refl))
        (λ table _.
          Ends-step (λ _. Same s) (Same s) (L.plan_files (L.load_table s.world).1 table p).0 _ _
            (λ _. (planned table, refl)) (λ tasks _. (planned table, refl)))
    where
      planned :
          (t : L.Table)
          → committed (L.plan_files (L.load_table s.world).1 t p).1 ≡ committed s.world
      planned t =
          laws.committed-plan_files (L.load_table s.world).1 t p ∙ laws.committed-load_table s.world

  -- The predicate is that of the batch.
  abbrev Probed : List Row → L.Schema → Sink L → Expr × ProbeStats → Sink L → Type 0
  Probed rows schema before found s =
      (build_pruning_expr L.walk (L.trade_ts_type schema) rows ≡ ok found.0) × Same before s

  dedup_probe-Ends :
      (rows : List Row) (schema : L.Schema) (s : Sink L)
      → Ends (Probed rows schema s) (Same s) (dedup_probe L rows schema s)
  unfolding dedup_probe
  dedup_probe-Ends rows schema s =
      Ends-step (Probed rows schema s) (Same s)
        (build_pruning_expr L.walk (L.trade_ts_type schema) rows) s _ (λ _. (refl, refl))
        (λ p built.
          Ends-resume (Probed rows schema s) (Same s) (λ _. Same s) (probe_stats L p s) _
            (probe_stats-Ends p s)
            (λ probe s' same.
              Ends-step (Probed rows schema s) (Same s) (L.filter_table s'.ctx s'.world p).0 _ _
                (λ _. (filtered p s' same, same.1)) (λ _ _. (built, (filtered p s' same, same.1)))))
    where
      filtered :
          (p : Expr) (s' : Sink L)
          → Same s s'
          → committed (L.filter_table s'.ctx s'.world p).1 ≡ committed s.world
      filtered p s' same = laws.committed-filter_table s'.ctx s'.world p ∙ same.0

  -- What the probe returns: of the rows of the batch, those that no committed row joins which the
  -- predicate of the batch selects.
  abbrev pub Deduped : List Row → L.Schema → Sink L → List (List Row) × ProbeStats → Sink L → Type 0
  Deduped rows schema before found s =
      (p : Expr) × (build_pruning_expr L.walk (L.trade_ts_type schema) rows ≡ ok p)
      × ((q : Row → Bool)
          → count q (concat_rows found.0)
            ≡ count q (
                filter (λ r. not (matched laws.evaluator.holds p (committed before.world) r)) rows))
      × (committed s.world ≡ committed before.world)
      × (registered s.ctx "incoming" ≡ none)

  -- The batch is left in the session.
  abbrev pub Left : List Row → Sink L → Sink L → Type 0
  Left rows before s =
      (committed s.world ≡ committed before.world) × (registered s.ctx "incoming" ≡ some rows)

  refused : {A : Type 0} {r : Result A} {a : A} {C : Type 0} → r ≡ ok a → is_ok r ≡ false → C
  refused h bad = absurd (ground (arith, h, bad))

  join_and_leave :
      (rows : List Row) (schema : L.Schema) (s s2 : Sink L) (found : Expr × ProbeStats)
      → build_pruning_expr L.walk (L.trade_ts_type schema) rows ≡ ok found.0
      → committed s2.world ≡ committed s.world
      → registered s2.ctx "incoming" ≡ some rows
      → Ends (Deduped rows schema s) (Left rows s) (
          (anti_join L found.0 >>= λ out.
          in_session L (L.deregister_table "incoming") >> pure (out, found.1))
            s2)
  join_and_leave rows schema s s2 found built same held =
      let freed = laws.deregister_table_ok "incoming" rows s2.ctx held in
      Ends-step (Deduped rows schema s) (Left rows s)
        (L.left_anti_join "incoming" found.0 s2.ctx s2.world).0 _ _ (λ _. (rest, held))
        (λ out e.
          Ends-step (Deduped rows schema s) (Left rows s) (L.deregister_table "incoming" s2.ctx).0 _
            _ (refused freed.0)
            (λ _ _. (
              found.0,
              built,
              rw same at
                  (laws.left_anti_join_ok "incoming" found.0 s2.ctx s2.world rows out held e),
              rest,
              freed.1,
            )))
    where
      rest : committed (L.left_anti_join "incoming" found.0 s2.ctx s2.world).1 ≡ committed s.world
      rest = laws.committed-left_anti_join "incoming" found.0 s2.ctx s2.world ∙ same

  -- If no batch is registered as `incoming`, the probe gives back the rows that no committed row joins
  -- and leaves no batch registered; where it fails, at whichever step, the batch stays registered.
  pub deduped_batch-Ends :
      (rows : List Row) (schema : L.Schema) (s : Sink L)
      → registered s.ctx "incoming" ≡ none
      → Ends (Deduped rows schema s) (Left rows s) (deduped_batch L rows schema s)
  unfolding deduped_batch
  deduped_batch-Ends rows schema s free =
      let put = laws.register_batch_free "incoming" rows s.ctx free in
      Ends-step (Deduped rows schema s) (Left rows s) (L.register_batch "incoming" rows s.ctx).0 s1
        _ (refused put.0)
        (λ _ _.
          Ends-resume (Deduped rows schema s) (Left rows s) (Probed rows schema s1)
            (dedup_probe L rows schema s1) _
            (Ends-weaken (dedup_probe L rows schema s1) (λ _ _ h. h)
              (λ s' h. (h.0, held put.1 s' h)) (dedup_probe-Ends rows schema s1))
            (λ found s2 h. join_and_leave rows schema s s2 found h.0 h.1.0 (held put.1 s2 h.1)))
    where
      s1 : Sink L
      s1 = record s { ctx = (L.register_batch "incoming" rows s.ctx).1 }

      held :
          registered s1.ctx "incoming" ≡ some rows
          → (s' : Sink L) → Same s1 s'
          → registered s'.ctx "incoming" ≡ some rows
      held put s' h = ap (λ c. registered c "incoming") h.1 ∙ put
