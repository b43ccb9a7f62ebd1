-- ===== src/Action.antt =====
-- An async method over `&mut self` that returns a `Result`: what it changed before it failed stays
-- changed.
pub mod Ends
use crypto_lakehouse.Prelude.{String}
use crypto_lakehouse.Result.{Result, ok, err, Error, context}

abbrev pub Action : Type 0 → Type 0 → Type 0
Action S A = S → Result A × S

-- The rest of a method after a step.
abbrev pub resume : {S A B : Type 0} → (A → Action S B) → Result A × S → Result B × S
resume f (ok a, s) = f a s
resume f (err e, s) = (err e, s)

infixl 5 ◌>>=◌ ◌>>◌
abbrev pub ◌>>=◌ : {S A B : Type 0} → Action S A → (A → Action S B) → Action S B
◌>>=◌ m f s = resume f (m s)

abbrev pub ◌>>◌ : {S A B : Type 0} → Action S A → Action S B → Action S B
m >> n = m >>= λ _. n

abbrev pub pure : {S A : Type 0} → A → Action S A
pure a s = (ok a, s)

abbrev pub lift : {S A : Type 0} → Result A → Action S A
lift r s = (r, s)

abbrev pub gets : {S A : Type 0} → (S → A) → Action S A
gets f s = (ok (f s), s)

abbrev pub modify : {S : Type 0} → (S → S) → Action S (Unit {0})
modify f s = (ok tt, f s)

-- `Context::context` on the result of a step.
abbrev pub under {ℓ} : {A : Type ℓ} → String → Result A → Result A
under c (ok a) = ok a
under c (err e) = err (context c e)

abbrev pub with_context : {S A : Type 0} → String → Action S A → Action S A
with_context c m s = let (r, s') = m s in (under c r, s')
