-- ===== src/Operation/Calls.antt =====
-- The calls that change an operation, as data: the methods of apps/manager/internal/operation with
-- the clock that each reads and its other arguments.
use supabase_installer.Prelude.{ℕ, String}

pub data Call : Type 0 where
  start begin_rollback complete_rollback succeed : ℕ → Call
  start_step complete_step : ℕ → String → ℕ → Call
  fail : ℕ → String → String → Call
