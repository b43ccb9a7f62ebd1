-- ===== src/Action/Ends.antt =====
-- What holds when a method returns, for a value and for an error, step by step.
use crypto_lakehouse.Prelude.{String, false, refl, true, ◌≡◌}
use crypto_lakehouse.Result.{Result, ok, err, is_ok}
use crypto_lakehouse.Action.{Action, resume, under}

abbrev pub Ends : {S A : Type 0} → (A → S → Type 0) → (S → Type 0) → Result A × S → Type 0
Ends P Q (ok a, s) = P a s
Ends P Q (err e, s) = Q s

pub under-ok : {A : Type 0} (c : String) {a : A} (r : Result A) → under c r ≡ ok a → r ≡ ok a
under-ok c (ok b) h = h
under-ok c (err e) h = cc

pub under-err :
    {A : Type 0} (c : String) (r : Result A) → is_ok (under c r) ≡ false → is_ok r ≡ false
under-err c (ok b) h = h
under-err c (err e) h = refl

-- A last step.
pub Ends-last :
    {S B : Type 0} (P : B → S → Type 0) (Q : S → Type 0) (r : Result B) (s : S)
    → (is_ok r ≡ false → Q s)
    → ((b : B) → r ≡ ok b → P b s)
    → Ends P Q (r, s)
Ends-last P Q (ok b) s bad good = good b refl
Ends-last P Q (err e) s bad good = bad refl

module _ {S A B : Type 0} (P : B → S → Type 0) (Q : S → Type 0) where
  -- A step whose result is known, then the rest.
  pub Ends-step :
      (r : Result A) (s : S) (f : A → Action S B)
      → (is_ok r ≡ false → Q s)
      → ((a : A) → r ≡ ok a → Ends P Q (f a s))
      → Ends P Q (resume f (r, s))
  Ends-step (ok a) s f bad good = good a refl
  Ends-step (err e) s f bad good = bad refl

  -- A method that is known by what holds when it ends, then the rest.
  pub Ends-resume :
      (R : A → S → Type 0) (r : Result A × S) (f : A → Action S B)
      → Ends R Q r
      → ((a : A) (s : S) → R a s → Ends P Q (f a s))
      → Ends P Q (resume f r)
  Ends-resume R (ok a, s) f h k = k a s h
  Ends-resume R (err e, s) f h k = h

pub Ends-weaken :
    {S A : Type 0} {P P' : A → S → Type 0} {Q Q' : S → Type 0} (r : Result A × S)
    → ((a : A) (s : S) → P a s → P' a s)
    → ((s : S) → Q s → Q' s)
    → Ends P Q r
    → Ends P' Q' r
Ends-weaken (ok a, s) f g h = f a s h
Ends-weaken (err e, s) f g h = g s h

pub Ends-ok :
    {S A : Type 0} (P Q : S → Type 0) (r : Result A × S)
    → is_ok r.0 ≡ true
    → Ends (λ _. P) Q r
    → P r.1
Ends-ok P Q (ok a, s) h e = e
Ends-ok P Q (err e', s) h e = cc

pub Ends-err :
    {S A : Type 0} (P : A → S → Type 0) (Q : S → Type 0) (r : Result A × S)
    → is_ok r.0 ≡ false
    → Ends P Q r
    → Q r.1
Ends-err P Q (ok a, s) h e = cc
Ends-err P Q (err e', s) h e = e

-- On both branches.
pub Ends-always : {S A : Type 0} (P : S → Type 0) (r : Result A × S) → Ends (λ _. P) P r → P r.1
Ends-always P (ok a, s) e = e
Ends-always P (err e', s) e = e

-- A method that returns no value fails.
pub Ends-never :
    {S A : Type 0} (Q : S → Type 0) (r : Result A × S)
    → Ends (λ _ _. ⊥) Q r
    → (is_ok r.0 ≡ false) × Q r.1
Ends-never Q (ok a, s) e = absurd e
Ends-never Q (err e', s) e = (refl, e)
