-- ===== src/Gate.antt =====
-- src/serving/download_gate.rs: the count of process-tier downloads in flight, a `usize` in a watch
-- channel, and the test that `wait_idle` waits for.
use muna_server.Base.{ℕ, ◌+◌, ◌-◌, Bool, ◌==◌}

-- `enter_priority`, which hands out a guard.
unfoldable pub enter_priority : ℕ → ℕ
enter_priority inflight = inflight + 1

-- `PriorityGuard::drop`, a saturating subtraction.
unfoldable pub drop_guard : ℕ → ℕ
drop_guard inflight = inflight - 1

-- What `wait_idle` waits for.
unfoldable pub is_idle : ℕ → Bool
is_idle inflight = inflight == 0
