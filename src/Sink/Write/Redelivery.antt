-- ===== src/Sink/Write/Redelivery.antt =====
-- A batch that is written is all in the table, and writing it again, as a redelivery does, adds nothing.
use crypto_lakehouse.Prelude.{
  ==_self, Among, Bool, Bool-cases, List, [], all, any, any-append, ap, append-nil, arith, false,
  filter, inl, inr, int_eq, map, nat_eq, none, not, refl, some, string_eq, subst, sym, true, ◌&&◌,
  ◌++◌, ◌<◌, ◌∙◌, ◌∷◌, ◌≡◌, ◌⊎◌,
}
use crypto_lakehouse.Result.{ok, is_ok, ok-injective}
use crypto_lakehouse.Action.Ends.{Ends-ok, Ends-always, Ends-weaken}
use crypto_lakehouse.Trade.{TradeEvent, key_eq, key_of}
use crypto_lakehouse.Table.{Row, sql_key}
use crypto_lakehouse.Schema.{to_row, to_record_batch}
use crypto_lakehouse.Sink.Lake.{Lake, Laws, count, matched, joins}
use crypto_lakehouse.Sink.State.{Sink}
use crypto_lakehouse.Sink.Pruning.{Expr, build_pruning_expr, timestamp, microsecond}
use crypto_lakehouse.Sink.Pruning.Filter.{pruning-covers}
use crypto_lakehouse.Sink.Write.{write_batch}
use crypto_lakehouse.Sink.Write.Batch.{HasSchema, Adds, Unchanged, write_batch-Ends}

any-count : (q : Row → Bool) (xs : List Row) → 0 < count q xs → any q xs ≡ true
any-count q [] h = absurd (omega (arith, h))
any-count q (x ∷ xs) h = ground (arith, any-count q xs)

count-Among : (q : Row → Bool) (r : Row) (xs : List Row) → Among r xs → q r ≡ true → 0 < count q xs
count-Among q r [] m h = absurd m
count-Among q r (x ∷ xs) (inl e) h =
    let k : q x ≡ true = subst (λ y. q y ≡ true) e h in ground (arith, k)
count-Among q r (x ∷ xs) (inr m) h = ground (arith, count-Among q r xs m h)

Among-filter :
    (p : Row → Bool) (r : Row) (xs : List Row) → Among r xs → p r ≡ true → Among r (filter p xs)
Among-filter p r [] m h = m
Among-filter p r (x ∷ xs) (inl e) h =
    let k : p x ≡ true = subst (λ y. p y ≡ true) e h in rw k (inl e)
Among-filter p r (x ∷ xs) (inr m) h = ground (arith, Among-filter p r xs m h)

filter-none :
    (p : Row → Bool) (rows : List TradeEvent)
    → ((e : TradeEvent) → Among e rows → p (to_row e) ≡ false)
    → filter p (map to_row rows) ≡ []
filter-none p [] h = refl
filter-none p (x ∷ xs) h = ground (arith, h x (inl refl), filter-none p xs (λ e m. h e (inr m)))

any-implies :
    (p q : Row → Bool) (xs : List Row)
    → ((x : Row) → p x ≡ true → q x ≡ true)
    → any p xs ≡ true
    → any q xs ≡ true
any-implies p q [] h k = k
any-implies p q (x ∷ xs) h k = ground (arith, h x, any-implies p q xs h)

no_rows : (xs : List Row) → count (λ _. true) xs ≡ 0 → xs ≡ []
no_rows [] h = refl
no_rows (x ∷ xs) h = absurd (omega (arith, h))

Among-map :
    (e : TradeEvent) (rows : List TradeEvent) → Among e rows → Among (to_row e) (map to_row rows)
Among-map e [] m = m
Among-map e (x ∷ xs) (inl h) = inl (ap to_row h)
Among-map e (x ∷ xs) (inr m) = inr (Among-map e xs m)

joins_self : (e : TradeEvent) → joins (sql_key (to_row e)) (sql_key (to_row e)) ≡ true
unfolding to_row key_of
joins_self e = ==_self (key_of e)

module _ {W : Type 0} (L : Lake W) (laws : Laws L) where
  open laws use {committed, registered}

  -- A test that every joining row of the predicate passes, and the row itself, is passed by some row
  -- of the table once the batch is added.
  some_committed :
      (rows : List TradeEvent) (s s' : Sink L) (e : TradeEvent) (Q : Row → Bool)
      → (added : Adds L laws rows s s') → Among e rows
      → Q (to_row e) ≡ true
      → ((c : Row)
          → (laws.evaluator.holds added.1.2 c && joins (sql_key c) (sql_key (to_row e))) ≡ true
          → Q c ≡ true)
      → any Q (committed s'.world) ≡ true
  unfolding to_record_batch
  some_committed rows s s' e Q added m own all = rw added.2 (
      ground (
        arith,
        any-append Q (committed s.world) added.0,
        before_or_new (Bool-cases (dup (to_row e))),
      ))
    where
      dup : Row → Bool
      dup = matched laws.evaluator.holds added.1.2 (committed s.world)

      before_or_new :
          (dup (to_row e) ≡ true) ⊎ (dup (to_row e) ≡ false)
          → (any Q (committed s.world) ≡ true) ⊎ (any Q added.0 ≡ true)
      before_or_new (inl h) = inl (any-implies _ Q (committed s.world) all h)
      before_or_new (inr h) = inr (
          any-count Q added.0 (
            rw (added.1.4 Q) (
              count-Among Q (to_row e) _
                (Among-filter (λ r. not (dup r)) (to_row e) (map to_row rows) (Among-map e rows m)
                  (rw h refl))
                own)))

  -- The table's timestamps are microseconds, as those that `table_schema` creates.
  abbrev pub Micros : Type 0
  Micros =
      (schema : L.Schema)
      → HasSchema L laws schema
      → L.trade_ts_type schema ≡ some (timestamp microsecond)

  -- A write that succeeds, from a session in which no batch is registered, loses no trade: afterwards there
  -- is, for each trade of the batch, a committed row with its exchange, symbol and trade id.
  pub write_batch_complete :
      (rows : List TradeEvent) (s : Sink L) (e : TradeEvent)
      → registered s.ctx "incoming" ≡ none
      → is_ok (write_batch L rows s).0 ≡ true
      → Among e rows
      → any (λ c. joins (sql_key c) (sql_key (to_row e))) (committed (write_batch L rows s).1.world)
        ≡ true
  write_batch_complete [] s e free done m = absurd m
  write_batch_complete (row ∷ rest) s e free done m =
      let added =
        Ends-ok (Adds L laws (row ∷ rest) s) (Unchanged L laws s) (write_batch L (row ∷ rest) s)
          done (write_batch-Ends L laws row rest s free) in
      some_committed (row ∷ rest) s (write_batch L (row ∷ rest) s).1 e _ added m (joins_self e)
        (λ c h. ground (arith, h))

  -- The row of a trade is in the range that the batch's predicate selects.
  own_range :
      (rows : List TradeEvent) (p : Expr) (e : TradeEvent)
      → build_pruning_expr L.walk (some (timestamp microsecond)) (to_record_batch rows) ≡ ok p
      → Among e rows
      → laws.evaluator.holds p (to_row e) ≡ true
  unfolding to_record_batch to_row
  own_range rows p e built m =
      pruning-covers laws.evaluator L.walk (map to_row rows) p (to_row e) (to_row e) e.exchange _
        laws.walks built (Among-map e rows m) (e.symbol, refl, refl, refl) refl refl

  -- After the first write, the second probe finds a row for each trade of the batch.
  found_again :
      (rows : List TradeEvent) (s s1 : Sink L) (p : Expr) (schema : L.Schema) (e : TradeEvent)
      → Micros
      → HasSchema L laws schema
      → build_pruning_expr L.walk (L.trade_ts_type schema) (to_record_batch rows) ≡ ok p
      → Adds L laws rows s s1
      → Among e rows
      → matched laws.evaluator.holds p (committed s1.world) (to_row e) ≡ true
  found_again rows s s1 p schema e micros has built added m =
      some_committed rows s s1 e _ added m
        (ground (arith, own_range rows p e (rw (micros schema has) at built) m, joins_self e))
        (λ c h. rw same at h)
    where
      same : added.1.2 ≡ p
      same =
          ok-injective
            (sym (rw (micros added.1.0 added.1.1) at added.1.3) ∙ rw (micros schema has) at built)

  none_new :
      (rows : List TradeEvent) (s s1 s2 : Sink L)
      → Micros
      → Adds L laws rows s s1
      → Adds L laws rows s1 s2
      → committed s2.world ≡ committed s1.world
  unfolding to_record_batch
  none_new rows s s1 s2 micros first second =
      second.2 ∙ ap (λ new. committed s1.world ++ new) nothing ∙ append-nil (committed s1.world)
    where
      dup : Row → Bool
      dup = matched laws.evaluator.holds second.1.2 (committed s1.world)

      kept_none : filter (λ r. not (dup r)) (map to_row rows) ≡ []
      kept_none =
          filter-none (λ r. not (dup r)) rows
            (λ e m.
              ap not (
                found_again rows s s1 second.1.2 second.1.0 e micros second.1.1 second.1.3 first m))

      nothing : second.0 ≡ []
      nothing = no_rows second.0 (second.1.4 (λ _. true) ∙ ap (count (λ _. true)) kept_none)

  -- If the table's timestamps are microseconds and no batch is registered in the session, then writing a
  -- batch again after a write of it that succeeded commits nothing, whether the second write succeeds or
  -- not: a redelivery leaves the table as it is.
  pub write_batch-again :
      (rows : List TradeEvent) (s : Sink L)
      → registered s.ctx "incoming" ≡ none
      → Micros
      → is_ok (write_batch L rows s).0 ≡ true
      → committed (write_batch L rows (write_batch L rows s).1).1.world
        ≡ committed (write_batch L rows s).1.world
  unfolding write_batch
  write_batch-again [] s free micros done = refl
  write_batch-again (row ∷ rest) s free micros done =
      Ends-always (Unchanged L laws s1) (write_batch L (row ∷ rest) s1) (
        Ends-weaken (write_batch L (row ∷ rest) s1)
          (λ _ s2 again. none_new (row ∷ rest) s s1 s2 micros added again) (λ _ h. h)
          (write_batch-Ends L laws row rest s1 added.3))
    where
      s1 : Sink L
      s1 = (write_batch L (row ∷ rest) s).1

      added : Adds L laws (row ∷ rest) s s1
      added =
          Ends-ok (Adds L laws (row ∷ rest) s) (Unchanged L laws s) (write_batch L (row ∷ rest) s)
            done (write_batch-Ends L laws row rest s free)
