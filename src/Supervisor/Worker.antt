-- ===== src/Supervisor/Worker.antt =====
-- The operations of gold_orchestrator's runtime that start, stop and supervise its workers.
use Prim.Native.Char.{code}
use bot_ea.Base.{
  Bool, true, false, Option, none, some, String, List, [], ◌∷◌, ℕ, suc, ◌-◌, ◌^◌, ◌==◌, is_empty,
  str_eq, ◌&&◌, if◌then◌else◌,
}
use bot_ea.Base.Int.{ℤ, pos, leb_ℤ}
use bot_ea.Base.Text.{is_space}
use bot_ea.Base.Number.{Number, ◌+R◌, ◌*R◌, ◌<R◌, ◌≤R◌, zero_R}
use bot_ea.Base.Library.{Library}
use bot_ea.Base.Calls.{Called, returned, raised}
use bot_ea.Risk.Tables.{dollars}
use bot_ea.Risk.Size.{min_R}
use bot_ea.Supervisor.Program.{
  Cause, unknown_worker, log_file, spawning, stopping, sending, auditing, saving, overflow, Result,
  done, threw, Program, ◌>>=◌, ◌>>◌, Dict, put,
}
use bot_ea.Supervisor.Models.{
  WorkerSpec, Config, Health, Problem, process_exited, health_missing, health_error,
  invalid_timestamp, heartbeat_stale, worker_started, worker_stopped, worker_problem,
  desired_changed, Request, open_log, save_state, audit, send_all, terminate, kill, Patience, grace,
  last, Reply, already_running, started, stopped, System, Orchestrator,
}

abbrev pub cause_of : Request → Cause
cause_of (open_log _) = log_file
cause_of (save_state _) = saving
cause_of (audit _) = auditing
cause_of (send_all _) = sending
cause_of (terminate _) = stopping
cause_of (kill _) = stopping

-- `d.get(key, other)`
abbrev pub get : {A : Type 0} → Option A → A → A
get none other = other
get (some a) other = a

abbrev pub lstrip : String → String
lstrip String.[] = ""
lstrip (String.◌∷◌ c s) = if is_space (code c) then lstrip s else String.◌∷◌ c s

abbrev pub rstrip : String → String
rstrip String.[] = ""
rstrip (String.◌∷◌ c s) =
    let rest = rstrip s in if is_empty rest && is_space (code c) then "" else String.◌∷◌ c rest

-- `str.strip()`
abbrev pub strip : String → String
strip s = rstrip (lstrip s)

-- Problems whose texts are the same.
abbrev pub same_problem : Problem → Problem → Bool
same_problem (process_exited a) (process_exited b) = leb_ℤ a b && leb_ℤ b a
same_problem health_missing health_missing = true
same_problem (health_error a) (health_error b) = str_eq a b
same_problem invalid_timestamp invalid_timestamp = true
same_problem (heartbeat_stale a) (heartbeat_stale b) = leb_ℤ a b && leb_ℤ b a
same_problem _ _ = false

abbrev pub is_reported : Option Problem → Problem → Bool
is_reported none problem = false
is_reported (some told) problem = same_problem told problem

-- A child: none, one whose exit code `poll` gives, or one that runs.
pub data Child : Type 0 where
  absent : Child
  exited : ℕ → ℤ → Child
  alive : ℕ → Child

abbrev pub child_with : ℕ → Option ℤ → Child
child_with n none = alive n
child_with n (some code) = exited n code

abbrev pub find_worker : String → List (String × WorkerSpec) → Option WorkerSpec
find_worker name [] = none
find_worker name (w ∷ ws) = if str_eq name w.0 then some w.1 else find_worker name ws

module _ {R E : Type 0} where
  abbrev pub update : (Orchestrator R E → Orchestrator R E) → Program (Orchestrator R E) (Unit {0})
  update f s = done tt (f s)

  abbrev pub skip : Program (Orchestrator R E) (Unit {0})
  skip s = done tt s

  abbrev pub reply : Reply → Program (Orchestrator R E) Reply
  reply r s = done r s

  abbrev pub found : Option WorkerSpec → Program (Orchestrator R E) WorkerSpec
  found none s = threw unknown_worker s
  found (some spec) s = done spec s

  abbrev pub with_child : String → Option ℕ → Orchestrator R E → Orchestrator R E
  with_child name n s = record s { children = put name n s.children }

  abbrev pub received :
      {A : Type 0} → Cause → Orchestrator R E → Called A E → Result (Orchestrator R E) A
  received c s (returned a e) = done a (record s { world = e })
  received c s (raised _ e) = threw c (record s { world = e })

  -- TimeoutExpired of the last wait is not caught.
  abbrev pub expect_end : Bool → Program (Orchestrator R E) (Unit {0})
  expect_end true s = done tt s
  expect_end false s = threw stopping s

module _ {R E : Type 0} (sys : System R E) where
  unfoldable pub call : Request → Program (Orchestrator R E) (Unit {0})
  call r s = received (cause_of r) s (sys.request r s.world)

  unfoldable pub spawn : WorkerSpec → Program (Orchestrator R E) ℕ
  spawn spec s = received spawning s (sys.spawn spec s.world)

  unfoldable pub wait : Patience → ℕ → Program (Orchestrator R E) Bool
  wait how n s = received stopping s (sys.wait how n s.world)

  abbrev pub child : Option ℕ → E → Child
  child none e = absent
  child (some n) e = child_with n (sys.poll n e)

  -- The call of Popen, and what follows it.
  unfoldable pub launch : WorkerSpec → String → Bool → Program (Orchestrator R E) Reply
  launch spec name notify = do
    _ ← call (open_log spec.log_path)
    n ← spawn spec
    _ ← update (with_child name (some n))
    _ ← update (λ s. record s { next_restart = put name none s.next_restart })
    _ ← call (audit (worker_started name n))
    _ ← if notify then call (send_all (worker_started name n)) else skip
    reply (started name n)

  unfoldable pub start_child : Child → WorkerSpec → String → Bool → Program (Orchestrator R E) Reply
  start_child (alive n) spec name notify = reply (already_running name n)
  start_child absent spec name notify = launch spec name notify
  start_child (exited _ _) spec name notify = launch spec name notify

  unfoldable pub kill_process : ℕ → Program (Orchestrator R E) (Unit {0})
  kill_process n = do _ ← call (kill n); ended ← wait last n; expect_end ended

  unfoldable pub end_process : ℕ → Program (Orchestrator R E) (Unit {0})
  end_process n = do
    _ ← call (terminate n)
    ended ← wait grace n
    if ended then skip else kill_process n

  unfoldable pub stop_child : Child → String → Bool → Program (Orchestrator R E) Reply
  stop_child absent name notify = reply (stopped name)
  stop_child (exited _ _) name notify = reply (stopped name)
  stop_child (alive n) name notify = do
    _ ← end_process n
    _ ← call (audit (worker_stopped name n))
    _ ← if notify then call (send_all (worker_stopped name n)) else skip
    reply (stopped name)

  -- `self._children.pop(name, None)`, and what follows it.
  unfoldable pub pop_child : String → Bool → Program (Orchestrator R E) Reply
  pop_child name notify s =
      stop_child (child (s.children name) s.world) name notify (with_child name none s)

module _ {R E : Type 0} ⦃num : Number R⦄ ⦃lib : Library R⦄ (sys : System R E) (cfg : Config R) where
  -- `int(age)` is `math.floor(age)` for the age of a heartbeat that is late.
  abbrev pub heartbeat_problem : Option R → Option Problem
  heartbeat_problem none = some invalid_timestamp
  heartbeat_problem (some age) =
      if cfg.health_stale_seconds <R age
      then some (heartbeat_stale (get (lib.floor age) (pos 0)))
      else none

  -- `_require_worker`
  unfoldable pub require_worker : String → Program (Orchestrator R E) WorkerSpec
  require_worker name = found (find_worker (lib.lower (strip name)) cfg.workers)

  -- `start_worker`
  unfoldable pub start_worker : String → Bool → Program (Orchestrator R E) Reply
  start_worker name notify = do
    spec ← require_worker name
    λ s. start_child sys (child sys (s.children name) s.world) spec name notify s

  -- `stop_worker`
  unfoldable pub stop_worker : String → Bool → Program (Orchestrator R E) Reply
  stop_worker name notify = do _ ← require_worker name; pop_child sys name notify

  -- `set_desired`
  unfoldable pub set_desired : String → Bool → Bool → Program (Orchestrator R E) Reply
  set_desired name enabled notify_worker = do
    _ ← require_worker name
    _ ← update (λ s. record s { desired = put name (some enabled) s.desired })
    _ ← λ s. call sys (save_state s.desired) s
    result ← if enabled then start_worker name notify_worker else stop_worker name false
    _ ← call sys (audit (desired_changed name enabled))
    reply result

  unfoldable pub report_new : String → Problem → Program (Orchestrator R E) (Unit {0})
  report_new name problem = do
    _ ← update (λ s. record s { reported_problem = put name (some problem) s.reported_problem })
    _ ← call sys (audit (worker_problem name problem))
    call sys (send_all (worker_problem name problem))

  -- `_report_problem`
  unfoldable pub report_problem : String → Problem → Program (Orchestrator R E) (Unit {0})
  report_problem name problem s =
      if is_reported (s.reported_problem name) problem then skip s else report_new name problem s

  -- `restart_delay_seconds * (2 ** (failures - 1))`, where an int that is too large raises.
  unfoldable pub restart_delay : ℕ → Option R
  restart_delay failures =
      let power : R = dollars (2 ^ (failures - 1)) in
      if num.is_finite power
      then some (min_R (cfg.restart_delay_seconds *R power) (dollars 300))
      else none

  -- `setdefault`
  abbrev pub schedule : String → Option R → R → Program (Orchestrator R E) (Unit {0})
  schedule name none now s = threw overflow s
  schedule name (some delay) now s = done tt (record s {
    next_restart = put name (some (get (s.next_restart name) (now +R delay))) s.next_restart;
  })

  unfoldable pub count_failure : R → String → ℕ → Program (Orchestrator R E) (Unit {0})
  count_failure now name failures = do
    _ ← update (λ s. record s { failure_counts = put name (some failures) s.failure_counts })
    schedule name (restart_delay failures) now

  -- What a pass does with a child that is over.
  unfoldable pub crashed : R → String → ℤ → Program (Orchestrator R E) (Unit {0})
  crashed now name code = do
    _ ← update (with_child name none)
    _ ← report_problem name (process_exited code)
    λ s. count_failure now name (suc (get (s.failure_counts name) 0)) s

  unfoldable pub restart_if_due : R → String → Program (Orchestrator R E) (Unit {0})
  restart_if_due now name s =
      if get (s.next_restart name) zero_R ≤R now
      then (start_worker name (get (s.failure_counts name) 0 == 0) >> skip) s
      else skip s

  -- `_health_problem`
  unfoldable pub health_problem : Option (Health R) → Option Problem
  health_problem none = some health_missing
  health_problem (some h) =
      if str_eq (lib.upper h.status) "ERROR"
      then some (health_error (get h.detail "-"))
      else heartbeat_problem h.age

  unfoldable pub check_health : String → Option Problem → Program (Orchestrator R E) (Unit {0})
  check_health name (some problem) = report_problem name problem
  check_health name none = update (λ s. record s {
    reported_problem = put name none s.reported_problem;
    failure_counts = put name none s.failure_counts;
  })

  unfoldable pub supervise_child :
      Child → R → String → WorkerSpec → Program (Orchestrator R E) (Unit {0})
  supervise_child absent now name spec = restart_if_due now name
  supervise_child (exited _ code) now name spec = do
    _ ← crashed now name code
    restart_if_due now name
  supervise_child (alive n) now name spec =
      λ s. check_health name (health_problem (sys.read_health spec.health_path s.world)) s

  -- What a pass does with a worker that is not wanted.
  unfoldable pub stop_unwanted : Child → String → Program (Orchestrator R E) (Unit {0})
  stop_unwanted absent name = skip
  stop_unwanted (exited _ _) name = skip
  stop_unwanted (alive _) name = stop_worker name true >> skip

  unfoldable pub supervise_worker :
      Dict Bool → R → String → WorkerSpec → Program (Orchestrator R E) (Unit {0})
  supervise_worker desired now name spec s =
      let there = child sys (s.children name) s.world in
      if get (desired name) spec.enabled_on_first_boot
      then supervise_child there now name spec s
      else stop_unwanted there name s

  unfoldable pub supervise_all :
      Dict Bool → R → List (String × WorkerSpec) → Program (Orchestrator R E) (Unit {0})
  supervise_all desired now [] = skip
  supervise_all desired now (w ∷ ws) = do
    _ ← supervise_worker desired now w.0 w.1
    supervise_all desired now ws

  -- `supervise_once`
  unfoldable pub supervise_once : R → Program (Orchestrator R E) (Unit {0})
  supervise_once now s = supervise_all s.desired now cfg.workers s
