-- ===== src/Sink/Stats.antt =====
-- The statistics that the sink of rustapps/crypto-batcher/src/sink.rs returns. Durations are numbers of
-- nanoseconds.
use crypto_lakehouse.Prelude.{ℕ}

pub record ProbeStats : Type 0 where
  pub files_opened : ℕ
  pub partitions_opened : ℕ
  pub bytes_opened : ℕ
  pub data_files : ℕ

pub record WriteStats : Type 0 where
  pub rows : ℕ
  pub files : ℕ
  pub partitions : ℕ
  pub bytes : ℕ
  pub write_elapsed : ℕ
  pub commit_elapsed : ℕ
  pub probe : ProbeStats

pub record AppendStats : Type 0 where
  pub rows : ℕ
  pub files : ℕ
  pub partitions : ℕ
  pub bytes : ℕ
  pub write_elapsed : ℕ
  pub commit_elapsed : ℕ

-- `ProbeStats::default()`, `WriteStats::default()` and `AppendStats::default()`.
abbrev pub no_probe : ProbeStats
no_probe = record { files_opened = 0; partitions_opened = 0; bytes_opened = 0; data_files = 0 }

abbrev pub no_write : WriteStats
no_write = record {
  rows = 0;
  files = 0;
  partitions = 0;
  bytes = 0;
  write_elapsed = 0;
  commit_elapsed = 0;
  probe = no_probe;
}

abbrev pub no_append : AppendStats
no_append = record {
  rows = 0;
  files = 0;
  partitions = 0;
  bytes = 0;
  write_elapsed = 0;
  commit_elapsed = 0;
}
