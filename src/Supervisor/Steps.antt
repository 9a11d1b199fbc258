-- ===== src/Supervisor/Steps.antt =====
-- Every operation of the supervision keeps the processes that run recorded, unless it fails to stop one.
use bot_ea.Base.{
  ◌≡◌, inr, refl, Bool, true, false, Option, none, some, String, List, [], ◌∷◌, ℕ, suc, ◌==◌,
  if◌then◌else◌,
}
use bot_ea.Base.Int.{ℤ}
use bot_ea.Base.Number.{Number, ◌≤R◌, zero_R}
use bot_ea.Base.Library.{Library}
use bot_ea.Supervisor.Program.{Program, ◌>>◌, Dict, put, Ends, Leads, Leads->>=}
use bot_ea.Supervisor.Models.{
  WorkerSpec, Config, Problem, process_exited, worker_problem, desired_changed, save_state, audit,
  send_all, System, Orchestrator,
}
use bot_ea.Supervisor.Worker.{
  get, Child, absent, exited, alive, child, with_child, skip, found, require_worker, call,
  start_worker, stop_worker, set_desired, is_reported, report_new, report_problem, restart_delay,
  schedule, count_failure, crashed, restart_if_due, health_problem, check_health, supervise_child,
  stop_unwanted, supervise_worker, supervise_all, supervise_once,
}
use bot_ea.Supervisor.Recorded.{
  IsProcessTable, Accounted, Kept, Loses, Accounted-Kept, Kept-Accounted, Kept-idle,
  Kept-with_child,
}
use bot_ea.Supervisor.Process.{
  Leads-update, Leads-reply, Leads-skip, call-Accounted, start_child-Accounted, pop_child-Accounted,
}

module _ {R E : Type 0} ⦃num : Number R⦄ ⦃lib : Library R⦄ (sys : System R E) (cfg : Config R)
    (table : IsProcessTable sys) where
  -- A program that keeps the processes recorded.
  abbrev pub Keeps : {A : Type 0} → Program (Orchestrator R E) A → Type 0
  Keeps m = Leads (Accounted sys) m (λ _. Accounted sys) (Loses sys)

  found-Keeps : (o : Option WorkerSpec) → Keeps (found o)
  found-Keeps none = record { run = λ s a. inr a }
  found-Keeps (some spec) = record { run = λ s a. a }

  require_worker-Keeps : (name : String) → Keeps (require_worker sys cfg name)
  unfolding require_worker
  require_worker-Keeps name = found-Keeps _

  pub start_worker-Keeps :
      (name : String) (notify : Bool) → Keeps (start_worker sys cfg name notify)
  unfolding start_worker
  start_worker-Keeps name notify =
      Leads->>= (require_worker-Keeps name) (λ spec. record {
        run = λ s a. start_child-Accounted sys table spec name notify s _ refl a;
      })

  pub stop_worker-Keeps : (name : String) (notify : Bool) → Keeps (stop_worker sys cfg name notify)
  unfolding stop_worker
  stop_worker-Keeps name notify =
      Leads->>= (require_worker-Keeps name) (λ _. pop_child-Accounted sys table name notify)

  switch-Keeps :
      (enabled : Bool) (name : String) (notify : Bool)
      → Keeps (if enabled then start_worker sys cfg name notify else stop_worker sys cfg name false)
  switch-Keeps true name notify = start_worker-Keeps name notify
  switch-Keeps false name notify = stop_worker-Keeps name false

  save-Keeps : Keeps (λ s. call sys (save_state s.desired) s)
  save-Keeps = record { run = λ s. (call-Accounted sys table (save_state s.desired)).run s }

  pub set_desired-Keeps :
      (name : String) (enabled notify : Bool) → Keeps (set_desired sys cfg name enabled notify)
  unfolding set_desired
  set_desired-Keeps name enabled notify = Leads->>= (require_worker-Keeps name) (λ _.
      Leads->>=
        (Leads-update (λ s. record s { desired = put name (some enabled) s.desired }) (λ s a. a))
        (λ _. Leads->>= save-Keeps (λ _. Leads->>= (switch-Keeps enabled name notify) (λ result.
          Leads->>= (call-Accounted sys table (audit (desired_changed name enabled)))
            (λ _. Leads-reply result)))))

  report_new-Keeps : (name : String) (problem : Problem) → Keeps (report_new sys cfg name problem)
  unfolding report_new
  report_new-Keeps name problem =
      Leads->>=
        (Leads-update
          (λ s. record s { reported_problem = put name (some problem) s.reported_problem })
          (λ s a. a))
        (λ _.
          Leads->>= (call-Accounted sys table (audit (worker_problem name problem)))
            (λ _. call-Accounted sys table (send_all (worker_problem name problem))))

  report_problem-Keeps :
      (name : String) (problem : Problem) → Keeps (report_problem sys cfg name problem)
  unfolding report_problem
  report_problem-Keeps name problem = record {
    run = λ s. reported (is_reported (s.reported_problem name) problem) s;
  }
    where
      reported :
          (b : Bool) (s : Orchestrator R E)
          → Accounted sys s
          → Ends
              (λ _. Accounted sys)
              (Loses sys)
              (if b then skip s else report_new sys cfg name problem s)
      reported true s a = a
      reported false s a = (report_new-Keeps name problem).run s a

  schedule-Keeps :
      (name : String) (delay : Option R) (now : R) → Keeps (schedule sys cfg name delay now)
  schedule-Keeps name none now = record { run = λ s a. inr a }
  schedule-Keeps name (some _) now = record { run = λ s a. a }

  count_failure-Keeps : (now : R) (name : String) (n : ℕ) → Keeps (count_failure sys cfg now name n)
  unfolding count_failure
  count_failure-Keeps now name n =
      Leads->>=
        (Leads-update (λ s. record s { failure_counts = put name (some n) s.failure_counts })
          (λ s a. a))
        (λ _. schedule-Keeps name (restart_delay sys cfg n) now)

  -- The child that is dropped is over.
  crashed-Keeps :
      (now : R) (name : String) (code : ℤ)
      → Leads (Kept sys name none) (crashed sys cfg now name code) (λ _. Accounted sys) (Loses sys)
  unfolding crashed
  crashed-Keeps now name code =
      Leads->>=
        (Leads-update (with_child name none) (λ s kept.
          Kept-Accounted sys name (with_child name none s)
            (Kept-with_child sys name none none s kept)))
        (λ _. Leads->>= (report_problem-Keeps name (process_exited code)) (λ _. record {
          run = λ s. (count_failure-Keeps now name (suc (get (s.failure_counts name) 0))).run s;
        }))

  restart_if_due-Keeps : (now : R) (name : String) → Keeps (restart_if_due sys cfg now name)
  unfolding restart_if_due
  restart_if_due-Keeps now name = record {
    run = λ s. due (get (s.next_restart name) zero_R ≤R now) (get (s.failure_counts name) 0 == 0) s;
  }
    where
      due :
          (b notify : Bool) (s : Orchestrator R E)
          → Accounted sys s
          → Ends
              (λ _. Accounted sys)
              (Loses sys)
              (if b then (start_worker sys cfg name notify >> skip) s else skip s)
      due true notify s a = (Leads->>= (start_worker-Keeps name notify) (λ _. Leads-skip)).run s a
      due false notify s a = a

  check_health-Keeps : (name : String) (o : Option Problem) → Keeps (check_health sys cfg name o)
  unfolding check_health
  check_health-Keeps name (some problem) = report_problem-Keeps name problem
  check_health-Keeps name none = record { run = λ s a. a }

  supervise_child-Ends :
      (now : R) (name : String) (spec : WorkerSpec) (s : Orchestrator R E) (c : Child)
      → child sys (s.children name) s.world ≡ c
      → Accounted sys s
      → Ends (λ _. Accounted sys) (Loses sys) (supervise_child sys cfg c now name spec s)
  unfolding supervise_child
  supervise_child-Ends now name spec s absent there a = (restart_if_due-Keeps now name).run s a
  supervise_child-Ends now name spec s (exited n code) there a =
      (Leads->>= (crashed-Keeps now name code) (λ _. restart_if_due-Keeps now name)).run s
        (Kept-idle sys name _ s (λ n runs. let both = there in cc) (Accounted-Kept sys name s a))
  supervise_child-Ends now name spec s (alive n) there a =
      (check_health-Keeps name
          (health_problem sys cfg (sys.read_health spec.health_path s.world))).run
        s a

  stop_unwanted-Keeps : (c : Child) (name : String) → Keeps (stop_unwanted sys cfg c name)
  unfolding stop_unwanted
  stop_unwanted-Keeps absent name = Leads-skip
  stop_unwanted-Keeps (exited _ _) name = Leads-skip
  stop_unwanted-Keeps (alive _) name = Leads->>= (stop_worker-Keeps name true) (λ _. Leads-skip)

  supervise_worker-Keeps :
      (desired : Dict Bool) (now : R) (name : String) (spec : WorkerSpec)
      → Keeps (supervise_worker sys cfg desired now name spec)
  unfolding supervise_worker
  supervise_worker-Keeps desired now name spec = record {
    run = λ s. wanted (get (desired name) spec.enabled_on_first_boot) s;
  }
    where
      wanted :
          (b : Bool) (s : Orchestrator R E)
          → Accounted sys s
          → Ends
              (λ _. Accounted sys)
              (Loses sys)
              (if b
                then supervise_child sys cfg (child sys (s.children name) s.world) now name spec s
                else stop_unwanted sys cfg (child sys (s.children name) s.world) name s)
      wanted true s a = supervise_child-Ends now name spec s _ refl a
      wanted false s a = (stop_unwanted-Keeps _ name).run s a

  supervise_all-Keeps :
      (desired : Dict Bool) (now : R) (ws : List (String × WorkerSpec))
      → Keeps (supervise_all sys cfg desired now ws)
  unfolding supervise_all
  supervise_all-Keeps desired now [] = Leads-skip
  supervise_all-Keeps desired now (w ∷ ws) =
      Leads->>= (supervise_worker-Keeps desired now w.0 w.1)
        (λ _. supervise_all-Keeps desired now ws)

  pub supervise_once-Keeps : (now : R) → Keeps (supervise_once sys cfg now)
  unfolding supervise_once
  supervise_once-Keeps now = record {
    run = λ s. (supervise_all-Keeps s.desired now cfg.workers).run s;
  }
