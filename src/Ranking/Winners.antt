-- ===== src/Ranking/Winners.antt =====
-- The first row of each partition in an order: what `row_number() = 1` selects, by one pass over the
-- rows.
use crypto_lakehouse.Prelude.{
  ==_iff, ==_self, All, All-map, Bool, Bool-cases, Distinct, Eq, List, [], any, arith, contains,
  false, filter, if_cases, if◌then◌else◌, inl, inr, int_eq, map, nat_eq, not, refl, string_eq, true,
  ◌&&◌, ◌==◌, ◌||◌, ◌∷◌, ◌≡◌,
}

module _ {A K : Type 0} ⦃e : Eq K⦄ (key : A → K) (before : A → A → Bool) where
  -- `y` is of the partition of `x` and strictly ahead of it.
  abbrev pub overtakes : A → A → Bool
  overtakes x y = key y == key x && not (before x y)

  -- One row per key: a row stands for its partition unless a later one is ahead of it.
  unfoldable pub winners : List A → List A
  winners [] = []
  winners (x ∷ xs) =
      let rest = winners xs in
      if any (overtakes x) rest then rest else x ∷ filter (λ y. not (key y == key x)) rest

  abbrev pub Unbeaten : List A → A → Type 0
  Unbeaten xs x = All (λ y. overtakes x y ≡ false) xs

  contains-filter-other :
      (k j : K) (xs : List A)
      → contains (map key (filter (λ y. not (key y == j)) xs)) k
        ≡ (not (k == j) && contains (map key xs) k)
  contains-filter-other k j [] = ground arith
  contains-filter-other k j (x ∷ xs) =
      ground (arith, contains-filter-other k j xs, ==_iff k (key x), ==_iff (key x) j, ==_iff k j)

  Distinct-filter :
      (p : A → Bool) (xs : List A) → Distinct (map key xs) → Distinct (map key (filter p xs))
  Distinct-filter p [] h = tt
  Distinct-filter p (x ∷ xs) h = ground (arith, Distinct-filter p xs, contains-filter p (key x) xs)
    where
      contains-filter :
          (q : A → Bool) (k : K) (ys : List A)
          → contains (map key ys) k ≡ false
          → contains (map key (filter q ys)) k ≡ false
      contains-filter q k [] m = refl
      contains-filter q k (y ∷ ys) m = ground (arith, contains-filter q k ys)

  -- No two of them have a key in common.
  pub Distinct-winners : (xs : List A) → Distinct (map key (winners xs))
  unfolding winners
  Distinct-winners [] = tt
  Distinct-winners (x ∷ xs) = ground (
    arith,
    Distinct-winners xs,
    Distinct-filter (λ y. not (key y == key x)) (winners xs),
    contains-filter-other (key x) (key x) (winners xs),
    ==_self (key x),
  )

  any-overtakes-key :
      (x : A) (xs : List A) → any (overtakes x) xs ≡ true → contains (map key xs) (key x) ≡ true
  any-overtakes-key x [] h = absurd (ground (arith, h))
  any-overtakes-key x (y ∷ ys) h =
      ground (arith, h, any-overtakes-key x ys, ==_iff (key x) (key y), ==_iff (key y) (key x))

  -- Every key has one.
  pub contains-winners :
      (xs : List A) (k : K) → contains (map key (winners xs)) k ≡ contains (map key xs) k
  unfolding winners
  contains-winners [] k = refl
  contains-winners (x ∷ xs) k = ground (
    arith,
    contains-winners xs k,
    contains-filter-other k (key x) (winners xs),
    any-overtakes-key x (winners xs),
    ==_iff k (key x),
  )

  -- If one row of a list without common keys is ahead of `x`, then `x` is ahead of none in it.
  pub filter-overtaken :
      (p : A → Bool) (x : A) (xs : List A)
      → Distinct (map key xs)
      → any (overtakes x) xs ≡ true
      → filter (λ y. not (p y || (key x == key y && before x y))) xs ≡ filter (λ y. not (p y)) xs
  filter-overtaken p x [] d h = refl
  filter-overtaken p x (y ∷ ys) d h = elim (Bool-cases (overtakes x y)) [
    | inl now ↦ ground (
      arith,
      now,
      d,
      ==_iff (key y) (key x),
      ==_iff (key x) (key y),
      filter-none p x ys (ground (arith, d, now, ==_iff (key y) (key x))),
    )
    | inr later ↦ ground (
      arith,
      filter-overtaken p x ys d.1,
      later,
      h,
      d,
      any-overtakes-key x ys,
      ==_iff (key x) (key y),
      ==_iff (key y) (key x),
    )
  ]
    where
      filter-none :
          (q : A → Bool) (z : A) (zs : List A)
          → contains (map key zs) (key z) ≡ false
          → filter (λ v. not (q v || (key z == key v && before z v))) zs
            ≡ filter (λ v. not (q v)) zs
      filter-none q z [] m = refl
      filter-none q z (v ∷ vs) m = ground (arith, filter-none q z vs, m)

  module _ (total : (a b : A) → before a b ≡ false → before b a ≡ true)
      (trans : (a b c : A) → before a b ≡ true → before b c ≡ true → before a c ≡ true) where
    -- If none is ahead of `x`, then the rows that `x` is not ahead of are those of other partitions.
    pub filter-not_overtaken :
        (p : A → Bool) (x : A) (xs : List A)
        → any (overtakes x) xs ≡ false
        → filter (λ y. not (p y || (key x == key y && before x y))) xs
          ≡ filter (λ y. not (p y)) (filter (λ y. not (key y == key x)) xs)
    filter-not_overtaken p x [] h = refl
    filter-not_overtaken p x (y ∷ ys) h =
        ground (arith, filter-not_overtaken p x ys, ==_iff (key x) (key y), ==_iff (key y) (key x))

    overtakes_trans :
        (x y z : A) → overtakes x z ≡ true → overtakes z y ≡ true → overtakes x y ≡ true
    overtakes_trans x y z h k = ground (
      arith,
      h,
      k,
      total z y,
      trans x y z,
      ==_iff (key z) (key x),
      ==_iff (key y) (key z),
      ==_iff (key y) (key x),
    )

    any-overtakes_trans :
        (x z : A) (ys : List A)
        → overtakes x z ≡ true
        → any (overtakes z) ys ≡ true
        → any (overtakes x) ys ≡ true
    any-overtakes_trans x z [] h k = absurd (ground (arith, k))
    any-overtakes_trans x z (y ∷ ys) h k =
        ground (arith, k, any-overtakes_trans x z ys h, overtakes_trans x y z h)

    -- A row of the partition that is not ahead of `z` cannot be ahead of what `z` is not ahead of.
    any-overtakes-filter :
        (x z : A) (ys : List A)
        → any (overtakes z) ys ≡ false
        → (overtakes x z || any (overtakes x) (filter (λ y. not (key y == key z)) ys))
          ≡ (overtakes x z || any (overtakes x) ys)
    any-overtakes-filter x z [] h = refl
    any-overtakes-filter x z (y ∷ ys) h = ground (
      arith,
      h,
      any-overtakes-filter x z ys,
      total z y,
      trans x z y,
      ==_iff (key y) (key x),
      ==_iff (key y) (key z),
      ==_iff (key z) (key x),
    )

    -- A row is overtaken by a winner if by any.
    pub any-winners : (x : A) (xs : List A) → any (overtakes x) (winners xs) ≡ any (overtakes x) xs
    unfolding winners
    any-winners x [] = refl
    any-winners x (z ∷ zs) = ground (
      arith,
      any-winners x zs,
      any-overtakes_trans x z (winners zs),
      any-overtakes-filter x z (winners zs),
    )

    All-both :
        (P : A → Type 0) (p : A → Bool) (xs : List A)
        → All P xs
        → All (λ x. P x × (p x ≡ true)) (filter p xs)
    All-both P p [] h = tt
    All-both P p (x ∷ xs) h =
        if_cases (All (λ x. P x × (p x ≡ true))) (p x) (x ∷ filter p xs) (filter p xs)
          (λ e. ((h.0, e), All-both P p xs h.1)) (λ e. All-both P p xs h.1)

    -- A winner is overtaken by no row at all.
    pub winners-unbeaten : (xs : List A) → All (λ x. any (overtakes x) xs ≡ false) (winners xs)
    unfolding winners
    winners-unbeaten [] = tt
    winners-unbeaten (z ∷ zs) =
        if_cases (All (λ x. any (overtakes x) (z ∷ zs) ≡ false)) (any (overtakes z) (winners zs)) _
          _
          (λ beaten.
            All-map (winners zs)
              (λ x h. ground (arith, h, beaten, any-winners z zs, any-overtakes_trans x z zs))
              (winners-unbeaten zs))
          (λ wins. (
            ground (arith, wins, any-winners z zs, total z z),
            All-map (filter (λ y. not (key y == key z)) (winners zs))
                (λ x h. ground (arith, h, ==_iff (key z) (key x), ==_iff (key x) (key z)))
                (All-both (λ x. any (overtakes x) zs ≡ false) (λ y. not (key y == key z))
                  (winners zs) (winners-unbeaten zs)),
          ))

  any-none :
      (x : A) (xs : List A) → contains (map key xs) (key x) ≡ false → any (overtakes x) xs ≡ false
  any-none x [] h = refl
  any-none x (y ∷ ys) h =
      ground (arith, h, any-none x ys, ==_iff (key x) (key y), ==_iff (key y) (key x))

  filter-others :
      (x : A) (xs : List A)
      → contains (map key xs) (key x) ≡ false
      → filter (λ y. not (key y == key x)) xs ≡ xs
  filter-others x [] h = refl
  filter-others x (y ∷ ys) h =
      ground (arith, h, filter-others x ys, ==_iff (key x) (key y), ==_iff (key y) (key x))

  -- Rows without a common key all win.
  pub winners-Distinct : (xs : List A) → Distinct (map key xs) → winners xs ≡ xs
  unfolding winners
  winners-Distinct [] d = refl
  winners-Distinct (x ∷ xs) d =
      ground (arith, winners-Distinct xs d.1, any-none x xs d.0, filter-others x xs d.0)
