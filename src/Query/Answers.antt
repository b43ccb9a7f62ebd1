-- ===== src/Query/Answers.antt =====
-- How the tools of rustapps/crypto-iceberg-query/src/bin read the counts that a query answers with, and
-- `ensure_visible` over the engine.
use crypto_lakehouse.Prelude.{
  Bool, List, Option, String, [], ap, false, filter, inl, inr, leb, leb_iff, length, map, none,
  refl, some, sym, true, ℕ, ℤ, ◌∙◌, ◌∷◌, ◌≡◌, ◌≤◌,
}
use crypto_lakehouse.Result.{
  Result, ok-injective, ok, err, or_fail, ensure, with_context, ◌>>=◌, ◌>>◌,
}
use crypto_lakehouse.Ranking.{in_range}
use crypto_lakehouse.Query.{Column, count_from}
use crypto_lakehouse.Query.Engine.{Batch, Engine, EngineLaws, Counts}
use crypto_lakehouse.Query.Visible.{first, ensure_visible}
use crypto_lakehouse.Sink.Lake.{Laws, count}
use crypto_lakehouse.Sink.Connect.{Connector}
use crypto_lakehouse.Sink.Open.{TableIdent}
use crypto_lakehouse.Append.Open.{Names}

abbrev pub first_batch : List Batch → Option Batch
first_batch [] = none
first_batch (batch ∷ rest) = some batch

abbrev pub visible_of : Result (List Batch) → Result (List (Option Column))
visible_of (ok batches) = ok (map (λ (b : Batch). b "visible") batches)
visible_of (err e) = err e

module _ {W : Type 0} (E : Engine W) where
  -- The query of `ensure_visible`: how many rows a scan finds in the range.
  unfoldable pub read_back :
      E.libraries.Context → String → ℤ → ℤ → W → Result (List (Option Column))
  unfolding in_range
  read_back ctx table start end_ w = visible_of (
      E.collect ctx (("visible", length (filter (in_range start end_) (E.scan ctx table w))) ∷ [])
        w)

pub count_from-Counts :
    (column : Option Column) (n : ℕ) → Counts column n → count_from column ≡ ok n
unfolding count_from
count_from-Counts column n h = elim h [ inl e ↦ rw e refl | inr e ↦ rw e refl ]

-- What a value has, if it is one.
abbrev IfOk : {A : Type 0} → (A → Type 0) → Result A → Type 0
IfOk P (ok a) = P a
IfOk P (err e) = Unit

IfOk-step :
    {A B : Type 0} (P : B → Type 0) (r : Result A) (f : A → Result B)
    → ((a : A) → IfOk P (f a))
    → IfOk P (r >>= f)
IfOk-step P (ok a) f h = h a
IfOk-step P (err e) f h = tt

IfOk-use : {A : Type 0} (P : A → Type 0) (r : Result A) (a : A) → IfOk P r → r ≡ ok a → P a
IfOk-use P r a h e = rw e at h

ensured :
    (written n : ℕ) (b : Bool) (m : String)
    → b ≡ leb written n
    → IfOk (λ v. written ≤ v) (ensure b m >> ok n)
ensured written n true m h = (leb_iff written n).0 (sym h)
ensured written n false m h = tt

-- A check that passes has found as many rows as were written.
pub ensure_visible-le :
    (query : Result (List (Option Column))) (written visible : ℕ)
    → ensure_visible query written ≡ ok visible
    → written ≤ visible
unfolding ensure_visible
ensure_visible-le query written visible h =
    IfOk-use (λ v. written ≤ v) (ensure_visible query written) visible
      (IfOk-step (λ v. written ≤ v) (with_context _ query) _
        (λ batches.
          IfOk-step (λ v. written ≤ v) (or_fail (first batches) _) _
            (λ column.
              IfOk-step (λ v. written ≤ v) (count_from column) _
                (λ n. ensured written n (leb written n) _ refl))))
      h

-- The one batch of the answer has the count `n`.
abbrev Answers : ℕ → Result (List (Option Column)) → Type 0
Answers n query =
    (columns : List (Option Column))
    → query ≡ ok columns
    → (column : Option Column) × (columns ≡ column ∷ []) × Counts column n

ensured_same : (n : ℕ) (b : Bool) (m : String) → IfOk (λ v. v ≡ n) (ensure b m >> ok n)
ensured_same n true m = refl
ensured_same n false m = tt

ensure_visible-Answers :
    (query : Result (List (Option Column))) (written n : ℕ)
    → Answers n query
    → IfOk (λ v. v ≡ n) (ensure_visible query written)
unfolding ensure_visible
ensure_visible-Answers (err e) written n h = tt
ensure_visible-Answers (ok columns) written n h =
    let (column, one, counted) = h columns refl in
    rw (one, count_from-Counts column n counted) (ensured_same n (leb written n) _)

visible_of-Answers :
    (n : ℕ) (r : Result (List Batch))
    → ((batches : List Batch)
        → r ≡ ok batches
        → (batch : Batch) × (batches ≡ batch ∷ []) × Counts (batch "visible") n)
    → Answers n (visible_of r)
visible_of-Answers n (err e) h columns k = cc
visible_of-Answers n (ok batches) h columns k =
    let (batch, one, counted) = h batches refl in
    (batch "visible", sym (ok-injective k) ∙ ap (map (λ (b : Batch). b "visible")) one, counted)

module _ {W : Type 0} (X : Connector W) (laws : (i : TableIdent) → Laws (X.lake i)) (E : Engine W)
    (engine : EngineLaws X laws E) where
  -- The number read back is that of the rows of the range in the table that is named, and no less than what was
  -- written.
  pub read_back-count :
      (ctx : E.libraries.Context) (table : String) (i : TableIdent) (start end_ : ℤ) (w : W)
      (written visible : ℕ)
      → Names table i
      → ensure_visible (read_back E ctx table start end_ w) written ≡ ok visible
      → (visible ≡ count (in_range start end_) ((laws i).committed w)) × (written ≤ visible)
  unfolding read_back
  read_back-count ctx table i start end_ w written visible names h = (
    IfOk-use (λ v. v ≡ found) (ensure_visible query written) visible
          (ensure_visible-Answers query written found (
            visible_of-Answers found (E.collect ctx (("visible", found) ∷ []) w) (λ batches made.
              let (batch, one, counted) =
                engine.collect_ok ctx (("visible", found) ∷ []) w batches (refl, tt) made in
              (batch, one, counted.0))))
          h
        ∙ engine.scan_named ctx table i w names (in_range start end_),
    ensure_visible-le query written visible h,
  )
    where
      found : ℕ
      found = length (filter (in_range start end_) (E.scan ctx table w))

      query : Result (List (Option Column))
      query = visible_of (E.collect ctx (("visible", found) ∷ []) w)
