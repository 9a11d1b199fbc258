-- ===== src/Supervisor/Backoff.antt =====
-- The delay before a worker that has crashed is started again.
use bot_ea.Base.{
  ◌≡◌, refl, sym, ap, ◌∙◌, Bool, true, false, Option, none, some, String, ℕ, suc, ◌-◌, ◌^◌,
  if◌then◌else◌,
}
use bot_ea.Base.Int.{ℤ}
use bot_ea.Base.Number.{Number, ◌+R◌, ◌*R◌, ◌≤R◌}
use bot_ea.Base.Library.{Library}
use bot_ea.Base.Calls.{Called, returned, raised}
use bot_ea.Risk.Tables.{dollars}
use bot_ea.Risk.Size.{min_R}
use bot_ea.Risk.Budget.{IsTotal, min-le_right}
use bot_ea.Supervisor.Program.{Cause, Dict, put, Ends, Leads, Leads->>=}
use bot_ea.Supervisor.Models.{
  WorkerSpec, Config, Problem, process_exited, worker_problem, Request, audit, send_all, System,
  Orchestrator,
}
use bot_ea.Supervisor.Worker.{
  get, Child, exited, child, with_child, skip, received, cause_of, call, is_reported, report_new,
  report_problem, restart_delay, schedule, count_failure, crashed, restart_if_due, supervise_child,
  supervise_worker,
}
use bot_ea.Supervisor.Recorded.{put-same}
use bot_ea.Supervisor.Process.{Leads-update}

module _ {R E : Type 0} ⦃num : Number R⦄ ⦃lib : Library R⦄ (sys : System R E) (cfg : Config R) where
  -- A worker without a child, its failures and the time of its next start.
  abbrev pub Waits : String → Option ℕ → Option R → Orchestrator R E → Type 0
  Waits name failures due s =
      (s.children name ≡ none) × (s.failure_counts name ≡ failures) × (s.next_restart name ≡ due)

  abbrev pub Stays : String → Cause → Orchestrator R E → Type 0
  Stays name c s = s.children name ≡ none

  received-Waits :
      {A : Type 0} (name : String) (failures : Option ℕ) (due : Option R) (c : Cause)
      (s : Orchestrator R E) (called : Called A E)
      → Waits name failures due s
      → Ends (λ _. Waits name failures due) (Stays name) (received c s called)
  received-Waits name failures due c s (returned a e) w = w
  received-Waits name failures due c s (raised exc e) w = w.0

  call-Waits :
      (name : String) (failures : Option ℕ) (due : Option R) (r : Request)
      → Leads (Waits name failures due) (call sys r) (λ _. Waits name failures due) (Stays name)
  unfolding call
  call-Waits name failures due r = record {
    run = λ s. received-Waits name failures due (cause_of r) s (sys.request r s.world);
  }

  report_new-Waits :
      (name : String) (failures : Option ℕ) (due : Option R) (problem : Problem)
      → Leads
          (Waits name failures due)
          (report_new sys cfg name problem)
          (λ _. Waits name failures due)
          (Stays name)
  unfolding report_new
  report_new-Waits name failures due problem =
      Leads->>=
        (Leads-update
          (λ s. record s { reported_problem = put name (some problem) s.reported_problem })
          (λ s w. w))
        (λ _.
          Leads->>= (call-Waits name failures due (audit (worker_problem name problem)))
            (λ _. call-Waits name failures due (send_all (worker_problem name problem))))

  report_problem-Waits :
      (name : String) (failures : Option ℕ) (due : Option R) (problem : Problem)
      → Leads
          (Waits name failures due)
          (report_problem sys cfg name problem)
          (λ _. Waits name failures due)
          (Stays name)
  unfolding report_problem
  report_problem-Waits name failures due problem = record {
    run = λ s. reported (is_reported (s.reported_problem name) problem) s;
  }
    where
      reported :
          (b : Bool) (s : Orchestrator R E)
          → Waits name failures due s
          → Ends
              (λ _. Waits name failures due)
              (Stays name)
              (if b then skip s else report_new sys cfg name problem s)
      reported true s w = w
      reported false s w = (report_new-Waits name failures due problem).run s w

  schedule-Waits :
      (now delay : R) (name : String) (failures : Option ℕ) (o : Option R)
      → o ≡ some delay
      → Leads
          (Waits name failures none)
          (schedule sys cfg name o now)
          (λ _. Waits name failures (some (now +R delay)))
          (Stays name)
  schedule-Waits now delay name failures o computed = record {
    run = λ s w.
        rw computed
          (w.0, w.1, put-same name _ s.next_restart ∙ ap (λ x. some (get x (now +R delay))) w.2);
  }

  count_failure-Waits :
      (now delay : R) (name : String) (failures : Option ℕ) (n : ℕ)
      → restart_delay sys cfg n ≡ some delay
      → Leads
          (Waits name failures none)
          (count_failure sys cfg now name n)
          (λ _. Waits name (some n) (some (now +R delay)))
          (Stays name)
  unfolding count_failure
  count_failure-Waits now delay name failures n computed =
      Leads->>=
        (Leads-update {Q = Waits name (some n) none}
          (λ s. record s { failure_counts = put name (some n) s.failure_counts })
          (λ s w. (w.0, put-same name (some n) s.failure_counts, w.2)))
        (λ _. schedule-Waits now delay name (some n) (restart_delay sys cfg n) computed)

  counted-Waits :
      (now delay : R) (name : String) (failures : Option ℕ)
      → restart_delay sys cfg (suc (get failures 0)) ≡ some delay
      → Leads
          (Waits name failures none)
          (λ s. count_failure sys cfg now name (suc (get (s.failure_counts name) 0)) s)
          (λ _. Waits name (some (suc (get failures 0))) (some (now +R delay)))
          (Stays name)
  counted-Waits now delay name failures computed = record {
    run = λ s w.
        rw w.1
          ((count_failure-Waits now delay name failures (suc (get failures 0)) computed).run s w);
  }

  crashed-Waits :
      (now delay : R) (name : String) (code : ℤ) (failures : Option ℕ)
      → restart_delay sys cfg (suc (get failures 0)) ≡ some delay
      → Leads
          (λ s. (s.failure_counts name ≡ failures) × (s.next_restart name ≡ none))
          (crashed sys cfg now name code)
          (λ _. Waits name (some (suc (get failures 0))) (some (now +R delay)))
          (Stays name)
  unfolding crashed
  crashed-Waits now delay name code failures computed =
      Leads->>=
        (Leads-update {Q = Waits name failures none} (with_child name none)
          (λ s h. (put-same name none s.children, h.0, h.1)))
        (λ _.
          Leads->>= (report_problem-Waits name failures none (process_exited code))
            (λ _. counted-Waits now delay name failures computed))

  restart_if_due-Waits :
      (now due : R) (name : String) (failures : Option ℕ)
      → (due ≤R now) ≡ false
      → Leads
          (Waits name failures (some due))
          (restart_if_due sys cfg now name)
          (λ _. Waits name failures (some due))
          (Stays name)
  unfolding restart_if_due
  restart_if_due-Waits now due name failures early = record { run = λ s w. rw (w.2, early) w }

  exited-Waits :
      (now delay : R) (name : String) (spec : WorkerSpec) (s : Orchestrator R E)
      (failures : Option ℕ) (c : Child) (n : ℕ) (code : ℤ)
      → c ≡ exited n code
      → s.failure_counts name ≡ failures
      → s.next_restart name ≡ none
      → restart_delay sys cfg (suc (get failures 0)) ≡ some delay
      → ((now +R delay) ≤R now) ≡ false
      → Ends
          (λ _. Waits name (some (suc (get failures 0))) (some (now +R delay)))
          (Stays name)
          (supervise_child sys cfg c now name spec s)
  unfolding supervise_child
  exited-Waits now delay name spec s failures c n code there counts free computed later = rw there (
      (Leads->>= (crashed-Waits now delay name code failures computed) (λ _.
          restart_if_due-Waits now (now +R delay) name (some (suc (get failures 0))) later)).run
        s (counts, free))

  delay-le :
      IsTotal R
      → (n : ℕ) (delay : R) → restart_delay sys cfg n ≡ some delay
      → (delay ≤R dollars 300) ≡ true
  unfolding restart_delay
  delay-le order n delay computed = bounded (num.is_finite (dollars (2 ^ (n - 1)))) computed
    where
      bounded :
          (b : Bool)
          → (if b
              then some (min_R (cfg.restart_delay_seconds *R dollars (2 ^ (n - 1))) (dollars 300))
              else none)
            ≡ some delay
          → (delay ≤R dollars 300) ≡ true
      bounded true h =
          let same : min_R (cfg.restart_delay_seconds *R dollars (2 ^ (n - 1))) (dollars 300)
              ≡ delay =
            (let eq = h in cc) in
          rw (sym same) (min-le_right order _ _)
      bounded false h = absurd (let wrong = h in cc)

  -- A pass over a wanted worker whose process has exited, in numbers without a NaN, with no start of it
  -- scheduled and with a positive delay that can be computed, counts one more failure, leaves it without
  -- a child and sets its next start to that delay from now, which is at most 300 seconds; if a call of
  -- the pass raises, it is without a child too.
  pub supervise_worker-Waits :
      (order : IsTotal R) (desired : Dict Bool) (now delay : R) (name : String) (spec : WorkerSpec)
      (s : Orchestrator R E) (n : ℕ) (code : ℤ)
      → get (desired name) spec.enabled_on_first_boot ≡ true
      → child sys (s.children name) s.world ≡ exited n code
      → s.next_restart name ≡ none
      → restart_delay sys cfg (suc (get (s.failure_counts name) 0)) ≡ some delay
      → ((now +R delay) ≤R now) ≡ false
      → Ends
          (λ _. Waits name (some (suc (get (s.failure_counts name) 0))) (some (now +R delay)))
          (Stays name)
          (supervise_worker sys cfg desired now name spec s)
        × ((delay ≤R dollars 300) ≡ true)
  unfolding supervise_worker
  supervise_worker-Waits order desired now delay name spec s n code wanted there free computed
        later =
      (
        rw wanted (
            exited-Waits now delay name spec s (s.failure_counts name) _ n code there refl free
              computed later),
        delay-le order _ delay computed,
      )
