-- ===== src/Result.antt =====
-- `anyhow::Result`: an error is a message under the contexts that its callers put round it.
use crypto_lakehouse.Prelude.{Bool, Option, String, false, none, some, true, ◌≡◌}

pub data Error : Type 0 where
  message : String → Error
  context : String → Error → Error
  panicked : String → Error

pub data Result {ℓ} (A : Type ℓ) : Type ℓ where
  ok : A → Result A
  err : Error → Result A

abbrev pub with_context {ℓ} : {A : Type ℓ} → String → Result A → Result A
with_context c (ok a) = ok a
with_context c (err e) = err (context c e)

-- `Option::context`.
abbrev pub or_fail {ℓ} : {A : Type ℓ} → Option A → String → Result A
or_fail none m = err (message m)
or_fail (some a) m = ok a

abbrev pub is_ok {ℓ} : {A : Type ℓ} → Result A → Bool
is_ok (ok a) = true
is_ok (err e) = false

-- The operator `?`, with a value to use and without.
abbrev pub ◌>>=◌ {ℓ κ} : {B : Type κ} {A : Type ℓ} → Result A → (A → Result B) → Result B
err e >>= next = err e
ok a >>= next = next a

abbrev pub ◌>>◌ {ℓ κ} : {B : Type κ} {A : Type ℓ} → Result A → Result B → Result B
err e >> next = err e
ok a >> next = next

infixl 5 ◌>>=◌ ◌>>◌
-- `anyhow::ensure!`.
abbrev pub ensure : Bool → String → Result (Unit {0})
ensure true m = ok tt
ensure false m = err (message m)

pub ok-injective {ℓ} : {A : Type ℓ} {a b : A} → ok a ≡ ok b → a ≡ b
ok-injective h = cc
