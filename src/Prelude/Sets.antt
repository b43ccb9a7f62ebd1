-- ===== src/Prelude/Sets.antt =====
-- Lists without repetition, ks finite sets: their size depends on their members only.
use mathlib.Core.Path.{◌≡◌, ◌∙◌, sym}
use mathlib.Core.Bool.{true, ◌&&◌, not}
use mathlib.Core.List.{List, [], ◌∷◌}
use Prim.Native.Nat.{◌≤◌, suc}
use native.Mathlib.Omega.{arith}
use crypto_lakehouse.Prelude.Lists.{length, filter}
use crypto_lakehouse.Prelude.Equal.{Eq, contains, Distinct, ==_iff, ==_self, ◌==◌}

module _ {K : Type 0} ⦃e : Eq K⦄ where
  abbrev others : K → List K → List K
  others a ks = filter (λ k. not (k == a)) ks

  contains-others :
      (a k : K) (ks : List K) → contains (others a ks) k ≡ (not (k == a) && contains ks k)
  contains-others a k [] = ground arith
  contains-others a k (x ∷ xs) =
      ground (arith, contains-others a k xs, ==_iff k x, ==_iff x a, ==_iff k a)

  length-others :
      (a : K) (ks : List K) → contains ks a ≡ true → suc (length (others a ks)) ≤ length ks
  length-others a [] h = absurd (ground (arith, h))
  length-others a (x ∷ xs) h =
      ground (arith, h, length-others a xs, short a xs, ==_iff a x, ==_iff x a)
    where
      short : (b : K) (ys : List K) → length (others b ys) ≤ length ys
      short b [] = omega arith
      short b (y ∷ ys) = ground (arith, short b ys)

  Distinct-length-le :
      (ks js : List K)
      → Distinct ks
      → ((k : K) → contains ks k ≡ true → contains js k ≡ true)
      → length ks ≤ length js
  Distinct-length-le [] js d h = omega arith
  Distinct-length-le (a ∷ ks) js d h = omega (
    arith,
    length-others a js (h a (ground (arith, ==_self a))),
    Distinct-length-le ks (others a js) d.1
        (λ k m. ground (arith, m, d, contains-others a k js, h k, ==_iff k a)),
  )

  -- Two sets with the same members have the same size.
  pub Distinct-length :
      (ks js : List K)
      → Distinct ks
      → Distinct js
      → ((k : K) → contains ks k ≡ contains js k)
      → length ks ≡ length js
  Distinct-length ks js d1 d2 h = omega (
    arith,
    Distinct-length-le ks js d1 (λ k m. sym (h k) ∙ m),
    Distinct-length-le js ks d2 (λ k m. h k ∙ m),
  )
