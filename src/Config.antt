-- ===== src/Config.antt =====
-- rustapps/crypto-batcher/src/config.rs: the accessors of the environment, a function from variables to
-- values. Text is read as the codes of its
-- characters.
pub mod Numbers
pub mod Text
pub mod Settings
pub mod Bytes
pub mod Required
use crypto_lakehouse.Prelude.{
  Bool, List, Option, String, [], all, contains, if◌then◌else◌, int_eq, leb, ltb, nat_beq, nat_eq,
  none, some, string_eq, u64_mod, ℕ, ◌&&◌, ◌*◌, ◌+◌, ◌-◌, ◌^◌, ◌||◌, ◌∷◌,
}
use crypto_lakehouse.Result.{Result, ok, err, message, or_fail}
use crypto_lakehouse.Sink.Dedup.{codes}

-- `char::is_whitespace`.
abbrev pub is_whitespace : ℕ → Bool
is_whitespace c =
    (leb 9 c && leb c 13)
    || contains (32 ∷ 133 ∷ 160 ∷ 5760 ∷ 8232 ∷ 8233 ∷ 8239 ∷ 8287 ∷ 12288 ∷ []) c
    || (leb 8192 c && leb c 8202)

-- `v.trim().is_empty()`: nothing but white space.
abbrev pub is_blank : String → Bool
is_blank v = all is_whitespace (codes v)

module _ (env : String → Option String) where
  -- A variable that is set, and not blank.
  unfoldable pub optional : String → Option String
  optional key = elim (env key) [ none ↦ none | some v ↦ if is_blank v then none else some v ]

  unfoldable pub required : String → Result String
  unfolding optional
  required key = or_fail (optional key) "not set"

  unfoldable pub string : String → String → String
  unfolding optional
  string key default = elim (optional key) [ none ↦ default | some v ↦ v ]

  -- The default also stands for a value that does not parse.
  unfoldable pub parse : {T : Type 0} → (String → Option T) → String → T → T
  unfolding optional
  parse from_str key default = elim (optional key) [
    | none ↦ default
    | some raw ↦ elim (from_str raw) [ none ↦ default | some value ↦ value ]
  ]

-- The digits of an unsigned integer below a bound, after the value so far.
unfoldable pub digits : ℕ → ℕ → List ℕ → Option ℕ
digits bound acc [] = some acc
digits bound acc (c ∷ cs) =
    let next = acc * 10 + (c - 48) in
    let rest = digits bound next cs in if leb 48 c && leb c 57 && ltb next bound then rest else none

-- `FromStr` of an unsigned integer: digits, at least one, after an optional `+` (43).
unfoldable pub unsigned : ℕ → List ℕ → Option ℕ
unfolding digits
unsigned bound [] = none
unsigned bound (c ∷ []) = digits bound 0 (c ∷ [])
unsigned bound (c ∷ (d ∷ ds)) =
    if nat_beq c 43 then digits bound 0 (d ∷ ds) else digits bound 0 (c ∷ (d ∷ ds))

unfoldable pub usize_env : (String → Option String) → String → ℕ → ℕ
unfolding parse unsigned
usize_env env key default = parse env (λ raw. unsigned u64_mod (codes raw)) key default

unfoldable pub u32_env : (String → Option String) → String → ℕ → ℕ
unfolding parse unsigned
u32_env env key default = parse env (λ raw. unsigned (2 ^ 32) (codes raw)) key default
