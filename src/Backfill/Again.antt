-- ===== src/Backfill/Again.antt =====
-- A backfill that is run again appends nothing.
use crypto_lakehouse.Prelude.{
  All, All-filter, All-map, Bool, List, Option-cases, [], ap, arith, contains, false, filter, inl,
  inr, int_eq, leb_ℤ, ltb, ltb_ℤ, map, nat_eq, pos, refl, string_eq, true, ℕ, ℤ, ◌&&◌, ◌+ℤ◌, ◌+◌,
  ◌-ℤ◌, ◌==◌, ◌||◌, ◌∙◌, ◌∷◌, ◌≡◌,
}
use crypto_lakehouse.Table.{Row}
use crypto_lakehouse.Ranking.{Columns, columns_of, columns_eq, leb_row, in_range, within}
use crypto_lakehouse.Ranking.Winners.{Distinct-winners}
use crypto_lakehouse.Ranking.Firsts.{row_winners, winners-All, contains-count}
use crypto_lakehouse.Sink.Lake.{count}
use crypto_lakehouse.Backfill.{
  is_complete, src_ranked, target_keys, missing, days, candidates, project,
}
use crypto_lakehouse.Backfill.Missing.{absent, missing-absent, some_of}
use crypto_lakehouse.Backfill.Rows.{All-filtered, All-and}
use crypto_lakehouse.Backfill.Audit.{kept_exactly}

-- The projection keeps the key and the time of a complete row.
pub project-key :
    (r : Row)
    → is_complete r ≡ true
    → (columns_of (project r) ≡ columns_of r) × ((project r).trade_ts ≡ r.trade_ts)
unfolding is_complete project
project-key r h =
    let (ex, e1) = some_of r.exchange (ground (arith, h)) in
    let (sy, e2) = some_of r.symbol (ground (arith, h)) in
    let (id, e3) = some_of r.trade_id (ground (arith, h)) in
    let (at, e4) = some_of r.trade_ts (ground (arith, h)) in (rw (e1, e2, e3) refl, rw e4 refl)

wider :
    (lo hi t : ℤ) (d : ℕ)
    → (leb_ℤ lo t && ltb_ℤ t hi) ≡ true
    → (leb_ℤ (lo -ℤ days (pos d)) t && ltb_ℤ t (hi +ℤ days (pos d))) ≡ true
wider lo hi t d h = ground (arith, h)

time_wider :
    (lo hi : ℤ) (d : ℕ) (r p : Row)
    → p.trade_ts ≡ r.trade_ts
    → in_range lo hi r ≡ true
    → in_range (lo -ℤ days (pos d)) (hi +ℤ days (pos d)) p ≡ true
unfolding in_range
time_wider lo hi d r p same h = elim (Option-cases r.trade_ts) [
  | inl none_at ↦ absurd (ground (arith, h, none_at))
  | inr (t, at) ↦ rw (same, at) (wider lo hi t d (rw at at h))
]

-- A row that is appended falls in the wider range.
in_range-wider :
    (lo hi : ℤ) (d : ℕ) (r : Row)
    → is_complete r ≡ true
    → in_range lo hi r ≡ true
    → in_range (lo -ℤ days (pos d)) (hi +ℤ days (pos d)) (project r) ≡ true
in_range-wider lo hi d r c h = time_wider lo hi d r (project r) (project-key r c).1 h

-- The key of a row that is appended is found in what was appended.
count-candidates :
    (lo hi : ℤ) (d : ℕ) (k : Columns) (ms : List Row)
    → All (λ m. (is_complete m ≡ true) × (in_range lo hi m ≡ true)) ms
    → count
        (λ t. in_range (lo -ℤ days (pos d)) (hi +ℤ days (pos d)) t && k == columns_of t)
        (candidates ms)
      ≡ count (λ m. k == columns_of m) ms
unfolding candidates
count-candidates lo hi d k [] h = refl
count-candidates lo hi d k (m ∷ ms) h = ground (
  arith,
  ap (λ c. k == c) (project-key m h.0.0).0,
  in_range-wider lo hi d m h.0.0 h.0.1,
  count-candidates lo hi d k ms h.1,
)

contains-count_all :
    (k : Columns) (ms : List Row)
    → contains (map columns_of ms) k ≡ ltb 0 (count (λ m. k == columns_of m) ms)
contains-count_all k [] = refl
contains-count_all k (m ∷ ms) = ground (arith, contains-count_all k ms)

none_pass : (p : Row → Bool) (xs : List Row) → All (λ r. p r ≡ false) xs → filter p xs ≡ []
none_pass p [] h = refl
none_pass p (x ∷ xs) h = ground (arith, h, none_pass p xs h.1)

module _ (start end_ : ℤ) (d : ℕ) (source target after : List Row)
    (appended : (q : Row → Bool)
      → count q after
        ≡ count q target
          + count q (
              candidates (
                missing
                  (src_ranked start end_ source)
                  (target_keys start end_ (pos d) target)))) where
  abbrev wide : Row → Bool
  wide = in_range (start -ℤ days (pos d)) (end_ +ℤ days (pos d))

  abbrev ms : List Row
  ms = missing (src_ranked start end_ source) (target_keys start end_ (pos d) target)

  abbrev winning : List Row
  winning = row_winners (within start end_ source)

  missing-winning : ms ≡ filter (absent start end_ (pos d) target) winning
  missing-winning = missing-absent start end_ (pos d) source target

  good : All (λ m. (is_complete m ≡ true) × (in_range start end_ m ≡ true)) ms
  good = rw missing-winning (
      All-map (filter (absent start end_ (pos d) target) winning)
        (λ m h. (ground (arith, h.1), h.0))
        (All-and _ _ (filter (absent start end_ (pos d) target) winning)
          (All-filtered _ (absent start end_ (pos d) target) winning
            (winners-All _ (within start end_ source) (All-filter (in_range start end_) source)))
          (All-filter (absent start end_ (pos d) target) winning)))

  -- A key is found afterwards if it was before, or if a row with it was appended.
  held-after :
      (r : Row)
      → contains (map columns_of (filter wide after)) (columns_of r) ≡ (
          contains (map columns_of (filter wide target)) (columns_of r)
          || contains (map columns_of ms) (columns_of r))
  held-after r = ground (
    arith,
    contains-count wide (columns_of r) after,
    contains-count wide (columns_of r) target,
    appended (λ t. wide t && columns_of r == columns_of t),
    count-candidates start end_ d (columns_of r) ms good,
    contains-count_all (columns_of r) ms,
  )

  -- Run again over the same source, after its rows were appended, whatever the order of the target then, and with
  -- a margin of no or some days, the backfill finds nothing to append: it converges.
  pub missing-again :
      missing (src_ranked start end_ source) (target_keys start end_ (pos d) after) ≡ []
  missing-again =
      missing-absent start end_ (pos d) source after
      ∙ none_pass (absent start end_ (pos d) after) winning (
          All-map winning
            (λ r h. ground (
              arith,
              h,
              held-after r,
              ap (λ rows. contains (map columns_of rows) (columns_of r)) missing-winning,
            ))
            (kept_exactly (absent start end_ (pos d) target) winning
              (Distinct-winners columns_of leb_row (within start end_ source))))
