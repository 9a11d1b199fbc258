-- ===== src/Examples/Supervisor.antt =====
-- The supervision of two workers on a concrete process table: the number of the next process, and
-- which of them run.
use bot_ea.Base.{
  ◌≡◌, ◌≢◌, inl, inr, refl, sym, ◌⊎◌, Bool, true, false, not, ◌&&◌, ◌||◌, none, some, ℕ, suc, ◌==◌,
  ==_iff, [], ◌∷◌, if◌then◌else◌, Bool-cases,
}
use bot_ea.Base.Int.{ℤ, pos}
use bot_ea.Base.Number.{◌+R◌, ◌≤R◌}
use bot_ea.Base.Calls.{Called, returned, raised, world_of}
use bot_ea.Risk.Tables.{dollars}
use bot_ea.Supervisor.Program.{done, threw, stopping, Dict, put, final, Ends}
use bot_ea.Supervisor.Models.{
  WorkerSpec, Config, Request, open_log, save_state, audit, send_all, terminate, kill, System,
  Orchestrator,
}
use bot_ea.Supervisor.Worker.{exited, child, restart_delay, supervise_worker, stop_worker}
use bot_ea.Supervisor.Recorded.{Runs, IsProcessTable, Accounted}
use bot_ea.Supervisor.History.{pass, perform, here, returning, Reaches-Accounted}
use bot_ea.Supervisor.Backoff.{Waits, Stays, supervise_worker-Waits}
use bot_ea.Supervisor.Unwanted.{Stopped, Unstopped, supervise_worker-Stopped}
use bot_ea.Examples.Numbers.{integers}
use bot_ea.Examples.Risk.{whole, integers-IsTotal}

abbrev Table : Type 0
Table = ℕ × (ℕ → Bool)

-- A process that is asked to end does so at once.
abbrev answer : Request → Table → Called (Unit {0}) Table
answer (terminate n) e = returned tt (e.0, λ p. not (p == n) && e.1 p)
answer (kill n) e = returned tt (e.0, λ p. not (p == n) && e.1 p)
answer _ e = returned tt e

abbrev machine : System ℤ Table
machine = record {
  poll = λ n e. if e.1 n then none else some (pos 1);
  spawn = λ _ e. returned e.0 (suc e.0, λ p. p == e.0 || e.1 p);
  request = answer;
  wait = λ _ n e. returned (not (e.1 n)) e;
  read_health = λ _ _. none;
}

polled : (b : Bool) → (if b then none else some (pos 1)) ≡ none → b ≡ true
polled true h = refl
polled false h = absurd (let wrong = h in cc)

poll_of : (b : Bool) → b ≡ true → (if b then none else some (pos 1)) ≡ none
poll_of b h = rw h refl

right_and : (a b : Bool) → (a && b) ≡ true → b ≡ true
right_and true b h = h
right_and false b h = absurd (let wrong = h in cc)

asked_starts_nothing :
    (n p : ℕ) (runs : ℕ → Bool)
    → (if not (p == n) && runs p then none else some (pos 1)) ≡ none
    → (if runs p then none else some (pos 1)) ≡ none
asked_starts_nothing n p runs h = poll_of _ (right_and (not (p == n)) (runs p) (polled _ h))

answer_starts_nothing :
    (r : Request) (e : Table) (p : ℕ) → Runs machine p (world_of (answer r e)) → Runs machine p e
answer_starts_nothing (open_log _) e p h = h
answer_starts_nothing (save_state _) e p h = h
answer_starts_nothing (audit _) e p h = h
answer_starts_nothing (send_all _) e p h = h
answer_starts_nothing (terminate n) e p h = asked_starts_nothing n p e.1 h
answer_starts_nothing (kill n) e p h = asked_starts_nothing n p e.1 h

started_one :
    (n p : ℕ) (runs : ℕ → Bool)
    → (if p == n || runs p then none else some (pos 1)) ≡ none
    → (n ≡ p) ⊎ ((if runs p then none else some (pos 1)) ≡ none)
started_one n p runs h = elim (Bool-cases (p == n)) [
  | inl same ↦ inl (sym ((==_iff p n).0 same))
  | inr other ↦ inr (rw other at h)
]

machine-IsProcessTable : IsProcessTable machine
machine-IsProcessTable = record {
  request_starts_nothing = answer_starts_nothing;
  wait_starts_nothing = λ how n e p h. h;
  spawn_starts_one = λ spec e e' n p called h. spawned e e' n p called h;
  failed_spawn = λ spec e e' exc p called h. absurd (let wrong = called in cc);
  waited_for = λ how n e e' called h. ended n e e' called h;
}
  where
    spawned :
        (e e' : Table) (n p : ℕ)
        → returned e.0 (suc e.0, λ p. p == e.0 || e.1 p) ≡ returned n e'
        → Runs machine p e'
        → (n ≡ p) ⊎ Runs machine p e
    spawned e e' n p called h =
        let same : e.0 ≡ n = (let both = called in cc) in
        let world : (suc e.0, λ p. p == e.0 || e.1 p) ≡ e' = (let both = called in cc) in
        rw (sym same) (started_one e.0 p e.1 (rw (sym world) at h))

    ended :
        (n : ℕ) (e e' : Table)
        → returned (not (e.1 n)) e ≡ returned true e'
        → (if e'.1 n then none else some (pos 1)) ≡ none
        → ⊥
    ended n e e' called h =
        let over : not (e.1 n) ≡ true = (let both = called in cc) in
        let world : e ≡ e' = (let both = called in cc) in
        let runs : e.1 n ≡ true = polled _ (rw (sym world) at h) in
        absurd (let wrong = rw runs at over in cc)

abbrev spec : WorkerSpec
spec = record {
  name = "goldi";
  config_path = "goldi.json";
  enabled_on_first_boot = true;
  health_path = "health.json";
  log_path = "goldi.log";
}

abbrev config : Config ℤ
config = record {
  restart_delay_seconds = pos 15;
  health_stale_seconds = pos 120;
  workers = ("goldi", spec) ∷ [];
}

abbrev booted : Orchestrator ℤ Table
booted = record {
  children = λ _. none;
  desired = λ _. none;
  next_restart = λ _. none;
  failure_counts = λ _. none;
  reported_problem = λ _. none;
  world = (0, λ _. false);
}

abbrev passed : Orchestrator ℤ Table
passed = final (perform machine config (pass (pos 100)) booted)

pass_returns : perform machine config (pass (pos 100)) booted ≡ done tt passed
unfolding perform integers whole bot_ea.Supervisor.Worker.supervise_once
    bot_ea.Supervisor.Worker.supervise_all supervise_worker bot_ea.Supervisor.Worker.supervise_child
    bot_ea.Supervisor.Worker.restart_if_due bot_ea.Supervisor.Worker.start_worker
    bot_ea.Supervisor.Worker.require_worker bot_ea.Base.Text.is_space
    bot_ea.Supervisor.Worker.start_child bot_ea.Supervisor.Worker.launch
    bot_ea.Supervisor.Worker.call bot_ea.Supervisor.Worker.spawn
pass_returns = refl

pass_starts : passed.children "goldi" ≡ some 0
unfolding perform integers whole put bot_ea.Supervisor.Worker.supervise_once
    bot_ea.Supervisor.Worker.supervise_all supervise_worker bot_ea.Supervisor.Worker.supervise_child
    bot_ea.Supervisor.Worker.restart_if_due bot_ea.Supervisor.Worker.start_worker
    bot_ea.Supervisor.Worker.require_worker bot_ea.Base.Text.is_space
    bot_ea.Supervisor.Worker.start_child bot_ea.Supervisor.Worker.launch
    bot_ea.Supervisor.Worker.call bot_ea.Supervisor.Worker.spawn
pass_starts = refl

Reaches-Accounted_example : Accounted machine passed
Reaches-Accounted_example =
    Reaches-Accounted machine config machine-IsProcessTable booted passed
      (λ p h. let wrong = h in cc) (returning (pass (pos 100)) booted passed here pass_returns)

-- The process 0 of the worker has exited.
abbrev crashed : Orchestrator ℤ Table
crashed = record booted { children = put "goldi" (some 0) booted.children; world = (1, λ _. false) }

child_is_over : child machine (crashed.children "goldi") crashed.world ≡ exited 0 (pos 1)
unfolding put
child_is_over = refl

first_delay : restart_delay machine config 1 ≡ some (pos 15)
unfolding restart_delay integers
first_delay = refl

supervise_worker-Waits_example :
    Ends
      (λ _. Waits machine config "goldi" (some 1) (some (pos 100 +R pos 15)))
      (Stays machine config "goldi")
      (supervise_worker machine config (λ _. none) (pos 100) "goldi" spec crashed)
    × ((pos 15 ≤R dollars 300) ≡ true)
unfolding integers
supervise_worker-Waits_example =
    supervise_worker-Waits machine config integers-IsTotal (λ _. none) (pos 100) (pos 15) "goldi"
      spec crashed 0 (pos 1) refl child_is_over refl first_delay refl

-- A process that cannot be terminated goes on, and is forgotten.
abbrev stubborn : System ℤ Table
stubborn = record machine { request = λ _ e. raised "access denied" e }

abbrev running : Orchestrator ℤ Table
running = record crashed { world = (1, λ _. true) }

stop_fails :
    stop_worker stubborn config "goldi" false running
    ≡ threw stopping (record running { children = put "goldi" none running.children })
unfolding stop_worker whole put bot_ea.Supervisor.Worker.require_worker bot_ea.Base.Text.is_space
    bot_ea.Supervisor.Worker.pop_child bot_ea.Supervisor.Worker.stop_child
    bot_ea.Supervisor.Worker.end_process bot_ea.Supervisor.Worker.call
stop_fails = refl

abbrev off : Dict Bool
off = put "goldi" (some false) (λ _. none)

supervise_worker-Stopped_example :
    Ends
      (λ _. Stopped machine machine-IsProcessTable "goldi" config running)
      (Unstopped machine machine-IsProcessTable "goldi" config)
      (supervise_worker machine config off (pos 100) "goldi" spec running)
unfolding put
supervise_worker-Stopped_example =
    supervise_worker-Stopped machine machine-IsProcessTable "goldi" config off (pos 100) spec
      running refl
