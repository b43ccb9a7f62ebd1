-- ===== src/Sink/Commit.antt =====
-- `reload`, `commit` and `commit_once` of rustapps/crypto-batcher/src/sink.rs: the metadata commit is
-- retried with a backoff, and the table is reloaded between the attempts.
pub mod Atomic
pub mod Retries
use crypto_lakehouse.Prelude.{
  List, if◌then◌else◌, is_nil, leb, max, suc, u64_mod, zero, ℕ, ◌%◌, ◌*◌, ◌-◌, ◌^◌,
}
use crypto_lakehouse.Result.{Result, ok, err, message, Error}
use crypto_lakehouse.Action.{Action, ◌>>=◌, ◌>>◌, pure, lift, gets, with_context, under}
use crypto_lakehouse.Sink.Lake.{Lake}
use crypto_lakehouse.Sink.State.{Sink, outside, changes, set_table}

-- The pause after a failed attempt in milliseconds, `200 * 2u64.pow(attempt - 1)`.
unfoldable pub backoff : ℕ → ℕ
backoff attempt = (200 * (2 ^ (attempt - 1) % u64_mod)) % u64_mod

module _ {W : Type 0} (L : Lake W) where
  unfoldable pub reload : Action (Sink L) (Unit {0})
  reload = do
    table ← with_context "failed to reload table" (outside L L.load_table)
    set_table L table

  -- The fast append on the metadata that the sink holds.
  unfoldable pub commit_once : List L.DataFile → Action (Sink L) L.Table
  commit_once data_files = do
    table ← gets (λ s. s.table)
    with_context "failed to apply fast-append action" (lift (L.apply_fast_append table data_files))
    with_context "failed to commit snapshot" (outside L (λ w. L.fast_append w table data_files))

  -- After a failed attempt: give up, or wait and reload.
  unfoldable pub on_conflict : ℕ → Error → Action (Sink L) (Unit {0})
  unfolding reload
  on_conflict attempt e = do
    retries ← gets (λ s. s.commit_retries)
    if leb (max retries 1) attempt
        then with_context "iceberg commit failed" (lift (err e))
        else (do changes L (L.sleep (backoff attempt)); reload)

  -- The arms of the match on an attempt; `again` is the next round.
  unfoldable pub after_attempt :
      ℕ → Action (Sink L) (Unit {0}) → Result L.Table × Sink L → Result (Unit {0}) × Sink L
  unfolding on_conflict
  after_attempt attempt again (ok table, s) = set_table L table s
  after_attempt attempt again (err e, s) = (on_conflict attempt e >> again) s

  -- `fuel` bounds the rounds of the loop; the first clause is not reached.
  unfoldable pub commit_loop : ℕ → ℕ → List L.DataFile → Action (Sink L) (Unit {0})
  unfolding commit_once after_attempt
  commit_loop zero attempt data_files s = (err (message "out of fuel"), s)
  commit_loop (suc fuel) attempt data_files s =
      after_attempt (suc attempt) (commit_loop fuel (suc attempt) data_files)
        (commit_once data_files s)

  -- The loop ends within `max retries 1` attempts.
  unfoldable pub commit : List L.DataFile → Action (Sink L) (Unit {0})
  unfolding commit_loop
  commit data_files s =
      if is_nil data_files then (ok tt, s) else commit_loop (max s.commit_retries 1) 0 data_files s
