-- ===== src/Pipeline/Writes.antt =====
-- What a write means for the keys in the table, whatever state the session is in.
use crypto_lakehouse.Prelude.{
  Among, Bool, List, Option-cases, [], any, any-append, arith, inl, inr, some, true, ◌++◌, ◌∷◌, ◌≡◌,
}
use crypto_lakehouse.Result.{is_ok}
use crypto_lakehouse.Action.Ends.{Ends-always, Ends-weaken, Ends-never}
use crypto_lakehouse.Trade.{TradeEvent, Key, key_eq, key_of}
use crypto_lakehouse.Table.{Row, sql_key}
use crypto_lakehouse.Schema.Times.{sql_key-to_row}
use crypto_lakehouse.Sink.Lake.{Lake, Laws, joins}
use crypto_lakehouse.Sink.State.{Sink}
use crypto_lakehouse.Sink.Write.{write_batch}
use crypto_lakehouse.Sink.Write.Batch.{write_batch-Ends}
use crypto_lakehouse.Sink.Write.Redelivery.{write_batch_complete}
use crypto_lakehouse.Sink.Write.Stuck.{Stuck, write_batch-Stuck}

-- Some row of the table has the key.
abbrev pub has : List Row → Key → Bool
has rows k = any (λ c. joins (sql_key c) (some k)) rows

has-append : (xs ys : List Row) (k : Key) → has xs k ≡ true → has (xs ++ ys) k ≡ true
has-append xs ys k h = ground (arith, h, any-append (λ c. joins (sql_key c) (some k)) xs ys)

module _ {W : Type 0} (L : Lake W) (laws : Laws L) where
  open laws use {committed, registered}

  -- Of a key that is in the table, it stays there.
  pub write_grows :
      (rows : List TradeEvent) (s : Sink L) (k : Key)
      → has (committed s.world) k ≡ true
      → has (committed (write_batch L rows s).1.world) k ≡ true
  unfolding write_batch
  write_grows [] s k h = h
  write_grows (row ∷ rest) s k h = elim (Option-cases (registered s.ctx "incoming")) [
    | inl free ↦
        Ends-always (λ s'. has (committed s'.world) k ≡ true) (write_batch L (row ∷ rest) s)
          (Ends-weaken (write_batch L (row ∷ rest) s)
            (λ _ s' added. rw added.2 (has-append (committed s.world) added.0 k h))
            (λ s' same. rw same h) (write_batch-Ends L laws row rest s free))
    | inr (old, taken) ↦
        let stuck =
          Ends-never (Stuck L laws old s) (write_batch L (row ∷ rest) s)
            (write_batch-Stuck L laws old row rest s taken) in
        rw (stuck.1.0) h
  ]

  pub write_has :
      (rows : List TradeEvent) (s : Sink L) (e : TradeEvent)
      → is_ok (write_batch L rows s).0 ≡ true
      → Among e rows
      → has (committed (write_batch L rows s).1.world) (key_of e) ≡ true
  write_has [] s e done m = absurd m
  write_has (row ∷ rest) s e done m = elim (Option-cases (registered s.ctx "incoming")) [
    | inl free ↦ rw sql_key-to_row at (write_batch_complete L laws (row ∷ rest) s e free done m)
    | inr (old, taken) ↦
        let stuck =
          Ends-never (Stuck L laws old s) (write_batch L (row ∷ rest) s)
            (write_batch-Stuck L laws old row rest s taken) in
        absurd (ground (arith, done, stuck.0))
  ]
