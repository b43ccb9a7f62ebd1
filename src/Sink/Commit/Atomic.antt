-- ===== src/Sink/Commit/Atomic.antt =====
-- A commit is one snapshot or none, and its retries are bounded.
use crypto_lakehouse.Prelude.{
  List, String, [], append-nil, arith, false, map, max, refl, suc, sym, zero, ℕ, ◌++◌, ◌∙◌, ◌∷◌,
  ◌≡◌,
}
use crypto_lakehouse.Result.{Result, ok, err, is_ok, Error}
use crypto_lakehouse.Action.{Action, resume, with_context, under}
use crypto_lakehouse.Table.{Row}
use crypto_lakehouse.Sink.Lake.{Lake, Laws, concat_rows}
use crypto_lakehouse.Sink.State.{Sink, outside}
use crypto_lakehouse.Sink.Commit.{
  backoff, commit_once, on_conflict, after_attempt, commit_loop, commit,
}

-- The rows before and after an action that was to add some: all of them are there if it succeeded, and
-- none if it failed.
abbrev pub Appends {ℓ} : {A : Type ℓ} → Result A → List Row → List Row → List Row → Type 0
Appends (ok a) before added after = after ≡ before ++ added
Appends (err e) before added after = after ≡ before

Appends-under :
    {A : Type 0} (c : String) (r : Result A) (before added after : List Row)
    → ((a : A) → r ≡ ok a → after ≡ before ++ added)
    → (is_ok r ≡ false → after ≡ before)
    → Appends (under c r) before added after
Appends-under c (ok a) before added after f g = f a refl
Appends-under c (err e) before added after f g = g refl

module _ {W : Type 0} (L : Lake W) (laws : Laws L) where
  open laws use {committed, contents}

  abbrev pub table_rows : Sink L → List Row
  table_rows s = committed s.world

  rows-on_conflict :
      (a : ℕ) (e : Error) (s : Sink L) → table_rows (on_conflict L a e s).1 ≡ table_rows s
  unfolding on_conflict
  rows-on_conflict a e s = ground (
    arith,
    laws.committed-load_table (L.sleep (backoff a) s.world),
    laws.committed-sleep (backoff a) s.world,
  )

  commit_once-Appends :
      (fs : List L.DataFile) (s : Sink L)
      → Appends
          (commit_once L fs s).0
          (table_rows s)
          (concat_rows (map contents fs))
          (table_rows (commit_once L fs s).1)
  unfolding commit_once
  commit_once-Appends fs s = applied (L.apply_fast_append s.table fs)
    where
      append : Action (Sink L) L.Table
      append =
          with_context "failed to commit snapshot" (outside L (λ w. L.fast_append w s.table fs))

      applied :
          (r : Result (Unit {0}))
          → let end = resume (λ _. append) (under "failed to apply fast-append action" r, s) in
            Appends end.0 (table_rows s) (concat_rows (map contents fs)) (table_rows end.1)
      applied (ok u) =
          Appends-under "failed to commit snapshot" (L.fast_append s.world s.table fs).0 _ _ _
            (λ t e. laws.fast_append_ok s.world s.table t fs e)
            (laws.fast_append_err s.world s.table fs)
      applied (err e) = refl

  -- The rest of the loop after an attempt that failed and changed no row.
  resume-Appends :
      {A B : Type 0} (r : Result A × Sink L) (f : A → Sink L → Result B × Sink L)
      (before added : List Row)
      → table_rows r.1 ≡ before
      → ((a : A) (s : Sink L)
          → table_rows s ≡ before
          → Appends (f a s).0 before added (table_rows (f a s).1))
      → Appends (resume f r).0 before added (table_rows (resume f r).1)
  resume-Appends (ok a, s) f before added h k = k a s h
  resume-Appends (err e, s) f before added h k = h

  after_attempt-Appends :
      (attempt : ℕ) (again : Sink L → Result (Unit {0}) × Sink L) (r : Result L.Table × Sink L)
      (before added : List Row)
      → Appends r.0 before added (table_rows r.1)
      → ((s : Sink L)
          → table_rows s ≡ before
          → Appends (again s).0 before added (table_rows (again s).1))
      → Appends
          (after_attempt L attempt again r).0
          before
          added
          (table_rows (after_attempt L attempt again r).1)
  unfolding after_attempt
  after_attempt-Appends attempt again (ok t, s) before added h k = h
  after_attempt-Appends attempt again (err e, s) before added h k =
      resume-Appends (on_conflict L attempt e s) (λ _. again) before added
        (rows-on_conflict attempt e s ∙ h) (λ _ s' h'. k s' h')

  commit_loop-Appends :
      (fuel attempt : ℕ) (fs : List L.DataFile) (before : List Row) (s : Sink L)
      → table_rows s ≡ before
      → Appends
          (commit_loop L fuel attempt fs s).0
          before
          (concat_rows (map contents fs))
          (table_rows (commit_loop L fuel attempt fs s).1)
  unfolding commit_loop
  commit_loop-Appends zero attempt fs before s h = h
  commit_loop-Appends (suc fuel) attempt fs before s h =
      after_attempt-Appends (suc attempt) (commit_loop L fuel (suc attempt) fs) (commit_once L fs s)
        before (concat_rows (map contents fs)) (rw h at (commit_once-Appends fs s))
        (λ s' h'. commit_loop-Appends fuel (suc attempt) fs before s' h')

  -- One commit is one snapshot: when it succeeds the rows of all its files are added to the table, once,
  -- however many attempts it took; when it fails, by the attempts or by a reload, none is.
  pub commit-Appends :
      (fs : List L.DataFile) (s : Sink L)
      → Appends
          (commit L fs s).0
          (committed s.world)
          (concat_rows (map contents fs))
          (committed (commit L fs s).1.world)
  unfolding commit
  commit-Appends [] s = sym (append-nil (committed s.world))
  commit-Appends (f ∷ fs) s =
      commit_loop-Appends (max s.commit_retries 1) 0 (f ∷ fs) (committed s.world) s refl

  ctx-on_conflict : (a : ℕ) (e : Error) (s : Sink L) → (on_conflict L a e s).1.ctx ≡ s.ctx
  unfolding on_conflict
  ctx-on_conflict a e s = ground arith

  ctx-after_attempt :
      (attempt : ℕ) (again : Sink L → Result (Unit {0}) × Sink L) (r : Result L.Table × Sink L)
      → ((s : Sink L) → (again s).1.ctx ≡ s.ctx)
      → (after_attempt L attempt again r).1.ctx ≡ r.1.ctx
  unfolding after_attempt
  ctx-after_attempt attempt again (ok t, s) h = refl
  ctx-after_attempt attempt again (err e, s) h =
      ctx-resume (on_conflict L attempt e s) ∙ ctx-on_conflict attempt e s
    where
      ctx-resume : (r : Result (Unit {0}) × Sink L) → (resume (λ _. again) r).1.ctx ≡ r.1.ctx
      ctx-resume (ok u, s') = h s'
      ctx-resume (err e', s') = refl

  ctx-commit_once : (fs : List L.DataFile) (s : Sink L) → (commit_once L fs s).1.ctx ≡ s.ctx
  unfolding commit_once
  ctx-commit_once fs s = ground arith

  ctx-commit_loop :
      (fuel attempt : ℕ) (fs : List L.DataFile) (s : Sink L)
      → (commit_loop L fuel attempt fs s).1.ctx ≡ s.ctx
  unfolding commit_loop
  ctx-commit_loop zero attempt fs s = refl
  ctx-commit_loop (suc fuel) attempt fs s =
      ctx-after_attempt (suc attempt) (commit_loop L fuel (suc attempt) fs) (commit_once L fs s)
        (ctx-commit_loop fuel (suc attempt) fs)
      ∙ ctx-commit_once fs s

  -- A commit leaves the session alone.
  pub ctx-commit : (fs : List L.DataFile) (s : Sink L) → (commit L fs s).1.ctx ≡ s.ctx
  unfolding commit
  ctx-commit [] s = refl
  ctx-commit (f ∷ fs) s = ctx-commit_loop (max s.commit_retries 1) 0 (f ∷ fs) s
