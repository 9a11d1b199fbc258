-- ===== src/Supervisor/Models.antt =====
-- The records of gold_orchestrator's runtime that the supervision of its workers reads and changes.
-- Log handles, the texts of messages and the files of state and audit are parts of the `Requests`.
use bot_ea.Base.{Bool, Option, String, List, ℕ}
use bot_ea.Base.Int.{ℤ}
use bot_ea.Base.Calls.{Called}
use bot_ea.Supervisor.Program.{Dict}

pub record WorkerSpec : Type 0 where
  pub name : String
  pub config_path : String
  pub enabled_on_first_boot : Bool
  pub health_path : String
  pub log_path : String

-- Of OrchestratorConfig, what the supervision reads; `workers` in the order of the mapping.
pub record Config (R : Type 0) : Type 0 where
  pub restart_delay_seconds : R
  pub health_stale_seconds : R
  pub workers : List (String × WorkerSpec)

-- A health file: its status, its detail, and the age of `updated_at` in seconds, unless that is not a
-- time.
pub record Health (R : Type 0) : Type 0 where
  pub status : String
  pub detail : Option String
  pub age : Option R

-- A problem of a worker, whose text is made of it.
pub data Problem : Type 0 where
  process_exited : ℤ → Problem
  health_missing : Problem
  health_error : String → Problem
  invalid_timestamp : Problem
  heartbeat_stale : ℤ → Problem

-- The texts that are sent to the administrators or written to the audit.
pub data Note : Type 0 where
  worker_started worker_stopped : String → ℕ → Note
  worker_problem : String → Problem → Note
  desired_changed : String → Bool → Note

-- A call that changes what is outside. A process is named by the number of its Popen object.
pub data Request : Type 0 where
  open_log : String → Request
  save_state : Dict Bool → Request
  audit send_all : Note → Request
  terminate kill : ℕ → Request

-- `wait(timeout=...)`: the configured grace, or five seconds.
pub data Patience : Type 0 where
  grace last : Patience

-- What a worker's command returns; the source has a text.
pub data Reply : Type 0 where
  already_running started : String → ℕ → Reply
  stopped : String → Reply

-- The operating system and Telegram. `poll` gives the exit code of a process that is over; `wait`
-- returns false on TimeoutExpired.
pub record System (R E : Type 0) : Type 0 where
  pub poll : ℕ → E → Option ℤ
  pub spawn : WorkerSpec → E → Called ℕ E
  pub request : Request → E → Called (Unit {0}) E
  pub wait : Patience → ℕ → E → Called Bool E
  pub read_health : String → E → Option (Health R)

-- `GlobalOrchestrator`: its dicts, and the world that it lives in.
pub record Orchestrator (R E : Type 0) : Type 0 where
  pub children : Dict ℕ
  pub desired : Dict Bool
  pub next_restart : Dict R
  pub failure_counts : Dict ℕ
  pub reported_problem : Dict Problem
  pub world : E
