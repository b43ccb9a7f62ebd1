-- ===== src/Config/Bytes.antt =====
-- Sizes in bytes with a binary suffix.
use crypto_lakehouse.Prelude.{
  &&_iff, Bool, List, [], all, ap, arith, false, if◌then◌else◌, leb, map, nat_beq, refl, some, suc,
  true, zero, ℕ, ◌&&◌, ◌*◌, ◌++◌, ◌<◌, ◌^◌, ◌||◌, ◌∙◌, ◌∷◌, ◌≡◌,
}
use crypto_lakehouse.Config.{is_whitespace}
use crypto_lakehouse.Config.Numbers.{value, is_digit}
use crypto_lakehouse.Config.Text.{
  Float, trim_end, trim, lower, split_number, number_and_unit, factor, parse_bytes, sized,
}

-- `f64` holds the whole numbers below 2 ^ 53 exactly.
pub record Exact (f : Float) : Type 0 where
  pub from_str_digits :
      (d : ℕ) (ds : List ℕ)
      → all is_digit (d ∷ ds) ≡ true
      → value 0 (d ∷ ds) < 2 ^ 53
      → f.from_str (d ∷ ds) ≡ some (f.of_ℕ (value 0 (d ∷ ds)))
  pub times_whole :
      (a b : ℕ)
      → a < 2 ^ 53
      → b < 2 ^ 53
      → a * b < 2 ^ 53
      → f.times (f.of_ℕ a) (f.of_ℕ b) ≡ f.of_ℕ (a * b)
  pub to_usize_whole : (n : ℕ) → n < 2 ^ 53 → f.to_usize (f.of_ℕ n) ≡ n

abbrev pub is_letter : ℕ → Bool
is_letter c = (leb 65 c && leb c 90) || (leb 97 c && leb c 122)

-- Neither blank nor, where only letters are, part of a number.
abbrev pub is_solid : ℕ → Bool
is_solid c = is_digit c || is_letter c

solid-not_space : (c : ℕ) → is_solid c ≡ true → is_whitespace c ≡ false
solid-not_space c h = ground (arith, h)

trim_end-solid : (cs : List ℕ) → all is_solid cs ≡ true → trim_end cs ≡ cs
trim_end-solid [] h = refl
trim_end-solid (c ∷ cs) h = ground (arith, h, trim_end-solid cs, solid-not_space c)

trim-solid : (cs : List ℕ) → all is_solid cs ≡ true → trim cs ≡ cs
trim-solid [] h = refl
trim-solid (c ∷ cs) h = ground (arith, h, trim_end-solid (c ∷ cs), solid-not_space c)

all-append : (p : ℕ → Bool) (xs ys : List ℕ) → all p (xs ++ ys) ≡ (all p xs && all p ys)
all-append p [] ys = refl
all-append p (x ∷ xs) ys = ground (arith, all-append p xs ys)

all-weaken :
    (p q : ℕ → Bool) (xs : List ℕ)
    → ((c : ℕ) → p c ≡ true → q c ≡ true)
    → all p xs ≡ true
    → all q xs ≡ true
all-weaken p q [] f h = refl
all-weaken p q (x ∷ xs) f h = ground (arith, h, f x, all-weaken p q xs f)

split-letters : (unit : List ℕ) → all is_letter unit ≡ true → split_number unit ≡ ([], unit)
unfolding split_number
split-letters [] h = refl
split-letters (c ∷ cs) h = ground (arith, h)

split-digits :
    (num unit : List ℕ)
    → all is_digit num ≡ true
    → all is_letter unit ≡ true
    → split_number (num ++ unit) ≡ (num, unit)
unfolding split_number
split-digits [] unit h k = split-letters unit k
split-digits (c ∷ cs) unit h k = ground (arith, h, k, split-digits cs unit)

solid-text :
    (num unit : List ℕ)
    → all is_digit num ≡ true
    → all is_letter unit ≡ true
    → all is_solid (num ++ unit) ≡ true
solid-text num unit h k = ground (
  arith,
  all-append is_solid num unit,
  all-weaken is_digit is_solid num (λ c e. ground (arith, e)) h,
  all-weaken is_letter is_solid unit (λ c e. ground (arith, e)) k,
)

factor-small : (mul : List ℕ) (n : ℕ) → factor mul ≡ some n → (0 < n) × (n < 2 ^ 53)
unfolding factor
factor-small mul n h = ground (arith, h)

digit-not_dot : (d : ℕ) → is_digit d ≡ true → nat_beq d 46 ≡ false
digit-not_dot d h = ground (arith, h)

split-whole :
    (d : ℕ) (ds unit : List ℕ)
    → all is_digit (d ∷ ds) ≡ true
    → all is_letter unit ≡ true
    → number_and_unit (trim (d ∷ (ds ++ unit))) ≡ (d ∷ ds, unit)
unfolding split_number number_and_unit
split-whole d ds unit h k =
    ap number_and_unit (trim-solid (d ∷ (ds ++ unit)) (solid-text (d ∷ ds) unit h k))
    ∙ ap (λ b. if b then (d ∷ (ds ++ unit), []) else split_number (d ∷ (ds ++ unit)))
        (digit-not_dot d ((&&_iff _ _).0 h).0)
    ∙ split-digits (d ∷ ds) unit h k

in_bounds : (v n : ℕ) → 0 < n → v * n < 2 ^ 53 → v < 2 ^ 53
in_bounds v zero h k = absurd (omega (arith, h))
in_bounds v (suc m) h k = grind (arith, k)

-- A whole number with a suffix of letters, in any case, that is a unit, is that number of units: exactly,
-- as long as it stays below 2 ^ 53 bytes.
pub parse_bytes-whole :
    (f : Float)
    → Exact f
    → (d : ℕ) (ds unit : List ℕ) (n : ℕ) → all is_digit (d ∷ ds) ≡ true
    → all is_letter unit ≡ true
    → factor (map lower unit) ≡ some n
    → value 0 (d ∷ ds) * n < 2 ^ 53
    → parse_bytes f ((d ∷ ds) ++ unit) ≡ some (value 0 (d ∷ ds) * n)
unfolding parse_bytes sized
parse_bytes-whole f exact d ds unit n number letters known fits =
    let (positive, small) = factor-small (map lower unit) n known in
    ap (sized f) (split-whole d ds unit number letters)
    ∙ rw
        (
          sized,
          exact.from_str_digits d ds number (in_bounds _ n positive fits),
          trim-solid unit (solid-text [] unit refl letters),
          known,
          exact.times_whole (value 0 (d ∷ ds)) n (in_bounds _ n positive fits) small fits,
          exact.to_usize_whole (value 0 (d ∷ ds) * n) fits,
        )
        refl
