-- ===== src/Config/Numbers.antt =====
-- Which texts are numbers.
use crypto_lakehouse.Prelude.{
  Bool, List, Option, String, [], all, ap, arith, false, leb, refl, some, true, u64_mod, ℕ, ◌&&◌,
  ◌*◌, ◌+◌, ◌-◌, ◌<◌, ◌↔◌, ◌∙◌, ◌∷◌, ◌≡◌, ◌≤◌,
}
use crypto_lakehouse.Sink.Dedup.{codes}
use crypto_lakehouse.Config.{is_blank, optional, parse, digits, unsigned, usize_env}

-- The value that digits spell, after a value so far.
abbrev pub value : ℕ → List ℕ → ℕ
value acc [] = acc
value acc (c ∷ cs) = value (acc * 10 + (c - 48)) cs

abbrev pub is_digit : ℕ → Bool
is_digit c = leb 48 c && leb c 57

value-le : (acc : ℕ) (cs : List ℕ) → acc ≤ value acc cs
value-le acc [] = omega arith
value-le acc (c ∷ cs) = omega (arith, value-le (acc * 10 + (c - 48)) cs)

-- A text of digits is read as the number that it spells, if that is below the bound, and any other text
-- as none: no number wraps.
pub digits_iff :
    (bound : ℕ) (cs : List ℕ) (acc v : ℕ)
    → acc < bound
    → (digits bound acc cs ≡ some v) ↔ ((all is_digit cs ≡ true) × (value acc cs ≡ v) × (v < bound))
unfolding digits
digits_iff bound [] acc v h = ground arith
digits_iff bound (c ∷ cs) acc v h =
    ground
      (arith, h, digits_iff bound cs (acc * 10 + (c - 48)) v, value-le (acc * 10 + (c - 48)) cs)

unsigned-digits :
    (bound d : ℕ) (ds : List ℕ)
    → all is_digit (d ∷ ds) ≡ true
    → unsigned bound (d ∷ ds) ≡ digits bound 0 (d ∷ ds)
unfolding unsigned
unsigned-digits bound d [] h = refl
unsigned-digits bound d (e ∷ ds) h = ground (arith, h)

-- A variable that spells a number below 2 ^ 64 in digits has that number, whatever the default.
pub usize_env-value :
    (env : String → Option String) (key raw : String) (default d : ℕ) (ds : List ℕ)
    → env key ≡ some raw
    → is_blank raw ≡ false
    → codes raw ≡ d ∷ ds
    → all is_digit (d ∷ ds) ≡ true
    → value 0 (d ∷ ds) < u64_mod
    → usize_env env key default ≡ value 0 (d ∷ ds)
unfolding usize_env parse optional
usize_env-value env key raw default d ds set full spelled digits_only fits =
    let read : unsigned u64_mod (codes raw) ≡ some (value 0 (d ∷ ds)) =
      ap (unsigned u64_mod) spelled
      ∙ unsigned-digits u64_mod d ds digits_only
      ∙ (digits_iff u64_mod (d ∷ ds) 0 (value 0 (d ∷ ds)) (omega arith)).1
          (digits_only, refl, fits) in
    ground (arith, set, full, read)
