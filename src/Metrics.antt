-- ===== src/Metrics.antt =====
-- crates/tideline-server/src/tlr/metrics.rs: the counters of the record. They are 64 bits wide and wrap.
use tideline.Base.{ℕ, zero, suc, ◌+◌, ◌%◌}
use tideline.Base.Bytes.{u64_mod}

pub record TlrMetrics : Type 0 where
  pub runs_created : ℕ
  pub runs_sealed : ℕ
  pub events_appended : ℕ
  pub append_failures : ℕ
  pub gates_opened : ℕ
  pub gates_approved : ℕ
  pub gates_rejected : ℕ
  pub gates_expired : ℕ
  pub redactions : ℕ
  pub checkpoints_written : ℕ
  pub last_checkpoint_ms : ℕ

-- The default of each counter.
abbrev pub fresh : TlrMetrics
fresh = record {
  runs_created = 0;
  runs_sealed = 0;
  events_appended = 0;
  append_failures = 0;
  gates_opened = 0;
  gates_approved = 0;
  gates_rejected = 0;
  gates_expired = 0;
  redactions = 0;
  checkpoints_written = 0;
  last_checkpoint_ms = 0;
}

-- `fetch_add(1)`
unfoldable pub incr : ℕ → ℕ
incr n = (n + 1) % u64_mod

-- As many times as a loop runs.
unfoldable pub incr_times : ℕ → ℕ → ℕ
incr_times zero n = n
incr_times (suc k) n = incr_times k (incr n)
