-- ===== src/Sink/Commit/Retries.antt =====
-- The retries of a commit: how many, how long apart, and when they are enough.
use crypto_lakehouse.Prelude.{
  &&_iff, Bool, Bool-cases, List, [], all, arith, inl, inr, max, nat_beq, nat_beq_iff, refl, suc,
  true, zero, ℕ, ◌&&◌, ◌*◌, ◌+◌, ◌-◌, ◌<◌, ◌∷◌, ◌≡◌, ◌≢◌, ◌≤◌,
}
use crypto_lakehouse.Result.{Result, ok, err, is_ok, Error}
use crypto_lakehouse.Action.{resume}
use crypto_lakehouse.Sink.Lake.{Lake}
use crypto_lakehouse.Sink.State.{Sink}
use crypto_lakehouse.Sink.Commit.{
  backoff, commit_once, on_conflict, after_attempt, commit_loop, commit,
}

-- Each of the first `n` pauses after the second is twice the one before.
doubling : ℕ → Bool
doubling zero = true
doubling (suc n) = doubling n && nat_beq (backoff (n + 2)) (2 * backoff (n + 1))

doubling_at :
    (n attempt : ℕ)
    → attempt < n
    → doubling n ≡ true
    → backoff (attempt + 2) ≡ 2 * backoff (attempt + 1)
unfolding doubling
doubling_at zero attempt below all = absurd (omega arith)
doubling_at (suc n) attempt below all = elim (Bool-cases (nat_beq attempt n)) [
  | inl same ↦
      let here : attempt ≡ n = (nat_beq_iff attempt n).0 same in
      rw here ((nat_beq_iff _ _).0 ((&&_iff _ _).0 all).1)
  | inr other ↦ doubling_at n attempt (ground (arith, other)) ((&&_iff _ _).0 all).0
]

doubling_56 : doubling 56 ≡ true
unfolding doubling backoff
doubling_56 = refl

-- The pause doubles from 200 ms with each attempt, up to the 57th; only beyond that does the `u64`
-- overflow.
pub backoff_doubles :
    (attempt : ℕ)
    → attempt < 56
    → (backoff 1 ≡ 200) × (backoff (attempt + 2) ≡ 2 * backoff (attempt + 1))
unfolding backoff
backoff_doubles attempt h = (refl, doubling_at 56 attempt h doubling_56)

resume-cong :
    {S A B : Type 0} (r : Result A × S) (f g : A → S → Result B × S)
    → ((a : A) → r.0 ≡ ok a → f a r.1 ≡ g a r.1)
    → resume f r ≡ resume g r
resume-cong (ok a, s) f g h = h a refl
resume-cong (err e, s) f g h = refl

module _ {W : Type 0} (L : Lake W) where
  retries-on_conflict :
      (a : ℕ) (e : Error) (s : Sink L) → (on_conflict L a e s).1.commit_retries ≡ s.commit_retries
  unfolding on_conflict
  retries-on_conflict a e s = ground arith

  retries-commit_once :
      (fs : List L.DataFile) (s : Sink L) → (commit_once L fs s).1.commit_retries ≡ s.commit_retries
  unfolding commit_once
  retries-commit_once fs s = ground arith

  -- The loop goes on only below the limit.
  on_conflict-below :
      (a : ℕ) (e : Error) (s : Sink L) (u : Unit {0})
      → (on_conflict L a e s).0 ≡ ok u
      → a < max s.commit_retries 1
  unfolding on_conflict
  on_conflict-below a e s u h = ground arith

  after_attempt-cong :
      (a : ℕ) (f g : Sink L → Result (Unit {0}) × Sink L) (r : Result L.Table × Sink L)
      → ((s : Sink L)
          → s.commit_retries ≡ r.1.commit_retries
          → a < max r.1.commit_retries 1
          → f s ≡ g s)
      → after_attempt L a f r ≡ after_attempt L a g r
  unfolding after_attempt
  after_attempt-cong a f g (ok t, s) h = refl
  after_attempt-cong a f g (err e, s) h =
      resume-cong (on_conflict L a e s) (λ _. f) (λ _. g)
        (λ u k. h _ (retries-on_conflict a e s) (on_conflict-below a e s u k))

  -- More fuel changes nothing.
  loop-fuel :
      (fuel k attempt : ℕ) (fs : List L.DataFile) (s : Sink L)
      → max s.commit_retries 1 ≤ attempt + fuel
      → 0 < fuel
      → commit_loop L (k + fuel) attempt fs s ≡ commit_loop L fuel attempt fs s
  unfolding commit_loop
  loop-fuel zero k attempt fs s h p = absurd (omega arith)
  loop-fuel (suc f) k attempt fs s h p = rw (more) (
      after_attempt-cong (suc attempt) (commit_loop L (k + f) (suc attempt) fs)
        (commit_loop L f (suc attempt) fs) (commit_once L fs s)
        (λ s' same below.
          loop-fuel f k (suc attempt) fs s' (omega (arith, same, retries-commit_once fs s))
            (omega (arith, below, retries-commit_once fs s))))
    where
      more : k + suc f ≡ suc (k + f)
      more = omega arith

  -- The loop ends by its own test: `max commit_retries 1` rounds are enough, whatever the catalog
  -- answers, and with more allowed it does the same.
  pub commit-rounds :
      (k : ℕ) (fs : List L.DataFile) (s : Sink L)
      → fs ≢ []
      → commit_loop L (k + max s.commit_retries 1) 0 fs s ≡ commit L fs s
  unfolding commit
  commit-rounds k [] s h = absurd (h refl)
  commit-rounds k (f ∷ fs) s h =
      loop-fuel (max s.commit_retries 1) k 0 (f ∷ fs) s (omega arith) (omega arith)

  -- The catalog can be read, and takes an append on the metadata that was just read.
  abbrev pub Fresh : Type 0
  Fresh =
      (w : W)
      → (t : L.Table) × ((L.load_table w).0 ≡ ok t)
        × ((fs : List L.DataFile)
            → (is_ok (L.apply_fast_append t fs) ≡ true)
              × (is_ok (L.fast_append (L.load_table w).1 t fs).0 ≡ true))

  loop_fresh :
      (n attempt : ℕ) (fs : List L.DataFile) (s : Sink L)
      → is_ok (L.apply_fast_append s.table fs) ≡ true
      → is_ok (L.fast_append s.world s.table fs).0 ≡ true
      → is_ok (commit_loop L (suc n) attempt fs s).0 ≡ true
  unfolding commit_loop
  loop_fresh n attempt fs s a h = ground arith

  reload_fresh :
      (n attempt : ℕ) (e : Error) (fs : List L.DataFile) (s : Sink L)
      → Fresh
      → attempt < max s.commit_retries 1
      → is_ok (resume (λ _. commit_loop L (suc n) attempt fs) (on_conflict L attempt e s)).0 ≡ true
  unfolding on_conflict
  reload_fresh n attempt e fs s fresh h =
      let (t, read, takes) = fresh (L.sleep (backoff attempt) s.world) in
      ground (
        arith,
        read,
        loop_fresh n attempt fs
            (record s { world = (L.load_table (L.sleep (backoff attempt) s.world)).1; table = t }),
        takes fs,
      )

  retry_fresh :
      (n : ℕ) (fs : List L.DataFile) (s : Sink L) (r : Result L.Table × Sink L)
      → Fresh
      → 1 < max r.1.commit_retries 1
      → is_ok (after_attempt L 1 (commit_loop L (suc n) 1 fs) r).0 ≡ true
  unfolding after_attempt
  retry_fresh n fs s (ok t, s') fresh h = refl
  retry_fresh n fs s (err e, s') fresh h = reload_fresh n 1 e fs s' fresh h

  -- A concurrent committer only costs a retry: if the catalog can be read, and takes an append on the
  -- metadata that was just read, then with at least two attempts every commit succeeds.
  pub commit_succeeds :
      (fs : List L.DataFile) (s : Sink L)
      → Fresh
      → 2 ≤ s.commit_retries
      → is_ok (commit L fs s).0 ≡ true
  unfolding commit
  commit_succeeds [] s fresh h = refl
  commit_succeeds (f ∷ fs) s fresh h = rw rounds (
      unfold commit_loop in
      retry_fresh (max s.commit_retries 1 - 2) (f ∷ fs) s (commit_once L (f ∷ fs) s) fresh
        (omega (arith, retries-commit_once (f ∷ fs) s)))
    where
      rounds : max s.commit_retries 1 ≡ suc (suc (max s.commit_retries 1 - 2))
      rounds = omega arith
