-- ===== src/Prelude/Firsts.antt =====
-- The first element of each key in a list: what a set of seen keys, or `row_number() = 1`, selects.
use Prim.Native.Nat.{◌≤◌}
use mathlib.Core.Path.{◌≡◌, refl}
use mathlib.Core.Logic.{inl, inr}
use mathlib.Core.Bool.{true, false, ◌||◌}
use mathlib.Core.List.{List, [], ◌∷◌, ◌++◌, map, append-nil, append_assoc}
use native.Mathlib.Omega.{arith}
use crypto_lakehouse.Prelude.Tests.{if◌then◌else◌, Bool-cases}
use crypto_lakehouse.Prelude.Lists.{length, All}
use crypto_lakehouse.Prelude.Equal.{Eq, contains, contains-append, Distinct, ==_iff, ==_self}

module _ {A K : Type 0} ⦃e : Eq K⦄ (key : A → K) where
  -- `seen` are the keys of the elements before.
  unfoldable pub firsts : List K → List A → List A
  firsts seen [] = []
  firsts seen (x ∷ xs) =
      let rest = firsts (seen ++ key x ∷ []) xs in if contains seen (key x) then rest else x ∷ rest

  -- One more element is kept exactly if its key is new.
  pub firsts-snoc :
      (seen : List K) (xs : List A) (x : A)
      → firsts seen (xs ++ x ∷ [])
        ≡ firsts seen xs ++ (if contains (seen ++ map key xs) (key x) then [] else x ∷ [])
  unfolding firsts
  firsts-snoc seen [] x = rw append-nil (ground arith)
  firsts-snoc seen (y ∷ xs) x =
      rw (firsts-snoc (seen ++ key y ∷ []) xs x, append_assoc seen (key y ∷ []) (map key xs))
        (ground arith)

  pub length-firsts-le : (seen : List K) (xs : List A) → length (firsts seen xs) ≤ length xs
  unfolding firsts
  length-firsts-le seen [] = omega arith
  length-firsts-le seen (x ∷ xs) = ground (arith, length-firsts-le (seen ++ key x ∷ []) xs)

  contains-firsts_from :
      (seen : List K) (xs : List A) (k : K)
      → (contains seen k || contains (map key (firsts seen xs)) k)
        ≡ (contains seen k || contains (map key xs) k)
  unfolding firsts
  contains-firsts_from seen [] k = refl
  contains-firsts_from seen (x ∷ xs) k = ground (
    arith,
    contains-firsts_from (seen ++ key x ∷ []) xs k,
    contains-append seen (key x ∷ []) k,
    ==_iff k (key x),
  )

  -- The keys that are kept are the keys that are there.
  pub contains-firsts :
      (xs : List A) (k : K) → contains (map key (firsts [] xs)) k ≡ contains (map key xs) k
  contains-firsts xs k = contains-firsts_from [] xs k

  firsts-fresh :
      (seen : List K) (xs : List A) (k : K)
      → contains seen k ≡ true
      → contains (map key (firsts seen xs)) k ≡ false
  unfolding firsts
  firsts-fresh seen [] k h = refl
  firsts-fresh seen (x ∷ xs) k h = ground (
    arith,
    firsts-fresh (seen ++ key x ∷ []) xs k,
    contains-append seen (key x ∷ []) k,
    ==_iff k (key x),
  )

  -- No key is kept twice.
  pub Distinct-firsts : (seen : List K) (xs : List A) → Distinct (map key (firsts seen xs))
  unfolding firsts
  Distinct-firsts seen [] = tt
  Distinct-firsts seen (x ∷ xs) = ground (
    arith,
    Distinct-firsts (seen ++ key x ∷ []) xs,
    firsts-fresh (seen ++ key x ∷ []) xs (key x),
    contains-append seen (key x ∷ []) (key x),
    ==_self (key x),
  )

  pub All-firsts {κ} :
      (P : A → Type κ) (seen : List K) (xs : List A) → All P xs → All P (firsts seen xs)
  unfolding firsts
  All-firsts P seen [] h = tt
  All-firsts P seen (x ∷ xs) h = elim (Bool-cases (contains seen (key x))) [
    | inl old ↦ rw old (All-firsts P (seen ++ key x ∷ []) xs h.1)
    | inr new ↦ rw new (h.0, All-firsts P (seen ++ key x ∷ []) xs h.1)
  ]
