-- ===== src/Core/Record.antt =====
-- The durable record of a sandbox, crates/oad-core/src/lib.rs. The clock is an argument, `now`.
use omniagent.Prelude.{ℕ, Option, none, some, List, Text}
use omniagent.Core.Ids.{SandboxId}

pub data SandboxStatus : Type 0 where
  pending running stopping stopped suspended error unknown : SandboxStatus

pub record SandboxRecord : Type 0 where
  pub id : SandboxId
  pub status : SandboxStatus
  pub containers : List Text
  pub created_at : ℕ
  pub updated_at : ℕ
  pub last_error : Option Text
  pub origin_snapshot : Option Text

unfoldable pub new_pending : ℕ → SandboxId → List Text → SandboxRecord
new_pending now id containers = record {
  id = id;
  status = pending;
  containers = containers;
  created_at = now;
  updated_at = now;
  last_error = none;
  origin_snapshot = none;
}

unfoldable pub set_status : ℕ → SandboxStatus → SandboxRecord → SandboxRecord
set_status now status r = record r { status = status; updated_at = now }

unfoldable pub set_error : ℕ → Text → SandboxRecord → SandboxRecord
set_error now message r = record r { status = error; last_error = some message; updated_at = now }
