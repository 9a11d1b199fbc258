-- ===== src/Supervisor/Unwanted.antt =====
-- A pass over a worker that is not wanted.
use bot_ea.Base.{
  ◌≡◌, ◌≢◌, ◌⊎◌, inl, inr, refl, Bool, true, false, Option, none, some, String, ℕ, if◌then◌else◌,
}
use bot_ea.Base.Number.{Number}
use bot_ea.Base.Library.{Library}
use bot_ea.Base.Calls.{Called, returned, raised}
use bot_ea.Supervisor.Program.{
  Cause, unknown_worker, Result, done, threw, Dict, Ends, Leads, Leads->>=,
}
use bot_ea.Supervisor.Models.{
  WorkerSpec, Config, Request, audit, send_all, terminate, kill, Patience, grace, last,
  worker_stopped, Reply, System, Orchestrator,
}
use bot_ea.Supervisor.Worker.{
  get, Child, absent, exited, alive, child, call, wait, received, cause_of, with_child, skip, found,
  require_worker, find_worker, strip, expect_end, kill_process, end_process, stop_child, pop_child,
  stop_worker, stop_unwanted, supervise_worker,
}
use bot_ea.Supervisor.Recorded.{IsProcessTable, put-same}
use bot_ea.Supervisor.Process.{Leads-reply, Leads-skip, alive-child}

module _ {R E : Type 0} (sys : System R E) (table : IsProcessTable sys) (name : String) where
  -- The name has no child.
  abbrev pub Dropped : Orchestrator R E → Type 0
  Dropped s = s.children name ≡ none

  -- The name has no child, and the process is over.
  abbrev pub Over : ℕ → Orchestrator R E → Type 0
  Over n s = (s.children name ≡ none) × (sys.poll n s.world ≢ none)

  -- What is known of a process after a wait for it.
  abbrev After : Bool → ℕ → Orchestrator R E → Type 0
  After true n s = Over n s
  After false n s = Dropped s

  received-Ends :
      {A : Type 0} (Q : A → Orchestrator R E → Type 0) (c : Cause) (s : Orchestrator R E)
      (called : Called A E)
      → ((a : A) (e : E) → called ≡ returned a e → Q a (record s { world = e }))
      → Dropped s
      → Ends Q (λ _. Dropped) (received c s called)
  received-Ends Q c s (returned a e) q d = q a e refl
  received-Ends Q c s (raised exc e) q d = d

  call-Dropped : (r : Request) → Leads Dropped (call sys r) (λ _. Dropped) (λ _. Dropped)
  unfolding call
  call-Dropped r = record {
    run = λ s d. received-Ends (λ _. Dropped) (cause_of r) s (sys.request r s.world) (λ _ _ _. d) d;
  }

  call-Over : (n : ℕ) (r : Request) → Leads (Over n) (call sys r) (λ _. Over n) (λ _. Dropped)
  unfolding call
  call-Over n r = record {
    run = λ s o.
        received-Ends (λ _. Over n) (cause_of r) s (sys.request r s.world)
          (λ a e called.
            (o.0, λ runs. o.1 (rw called at (table.request_starts_nothing r s.world n) runs)))
          o.0;
  }

  notify-Over :
      (n : ℕ) (notify : Bool) (r : Request)
      → Leads (Over n) (if notify then call sys r else skip) (λ _. Over n) (λ _. Dropped)
  notify-Over n true r = call-Over n r
  notify-Over n false r = Leads-skip

  wait-After :
      (how : Patience) (n : ℕ)
      → Leads Dropped (wait sys how n) (λ ended. After ended n) (λ _. Dropped)
  unfolding wait
  wait-After how n = record {
    run = λ s d. received-Ends (λ ended. After ended n) _ s (sys.wait how n s.world) (waited s d) d;
  }
    where
      waited :
          (s : Orchestrator R E)
          → Dropped s
          → (ended : Bool) (e : E) → sys.wait how n s.world ≡ returned ended e
          → After ended n (record s { world = e })
      waited s d true e called = (d, table.waited_for how n s.world e called)
      waited s d false e called = d

  end_process-Over : (n : ℕ) → Leads Dropped (end_process sys n) (λ _. Over n) (λ _. Dropped)
  unfolding end_process kill_process
  end_process-Over n =
      Leads->>= (call-Dropped (terminate n)) (λ _. Leads->>= (wait-After grace n) after_grace)
    where
      after_last :
          (ended : Bool) → Leads (After ended n) (expect_end ended) (λ _. Over n) (λ _. Dropped)
      after_last true = record { run = λ s o. o }
      after_last false = record { run = λ s d. d }

      after_grace :
          (ended : Bool)
          → Leads
              (After ended n)
              (if ended then skip else kill_process sys n)
              (λ _. Over n)
              (λ _. Dropped)
      after_grace true = record { run = λ s o. o }
      after_grace false =
          Leads->>= (call-Dropped (kill n)) (λ _. Leads->>= (wait-After last n) after_last)

  stop_alive-Over :
      (notify : Bool) (n : ℕ)
      → Leads Dropped (stop_child sys (alive n) name notify) (λ _. Over n) (λ _. Dropped)
  unfolding stop_child
  stop_alive-Over notify n = Leads->>= (end_process-Over n) (λ _.
      Leads->>= (call-Over n (audit (worker_stopped name n))) (λ _.
        Leads->>= (notify-Over n notify (send_all (worker_stopped name n))) (λ _. Leads-reply _)))

  module _ ⦃num : Number R⦄ ⦃lib : Library R⦄ (cfg : Config R) where
    -- The child that the name had is over, and so is the one that it has.
    abbrev pub Stopped : Orchestrator R E → Orchestrator R E → Type 0
    Stopped s t =
        ((p : ℕ) → s.children name ≡ some p → sys.poll p t.world ≢ none)
        × ((p : ℕ) → t.children name ≡ some p → sys.poll p t.world ≢ none)

    -- Only the check of the name raises before the child is dropped.
    abbrev pub Unstopped : Cause → Orchestrator R E → Type 0
    Unstopped c t = (c ≡ unknown_worker) ⊎ Dropped t

    idle-Stopped :
        (s : Orchestrator R E)
        → ((n : ℕ) → child sys (s.children name) s.world ≢ alive n)
        → Stopped s s
    idle-Stopped s idle = (
      (λ p there runs. idle p (rw (there, runs) refl)),
      λ p there runs. idle p (rw (there, runs) refl),
    )

    Over-Stopped :
        (s : Orchestrator R E) (n : ℕ) (r : Result (Orchestrator R E) Reply)
        → s.children name ≡ some n
        → Ends (λ _. Over n) (λ _. Dropped) r
        → Ends (λ _. Stopped s) Unstopped r
    Over-Stopped s n (threw c t) had d = inr d
    Over-Stopped s n (done _ t) had o = (
      (λ p there runs. o.1 (let one = had in let alive = runs in cc)),
      λ p there _. absurd (let none_there = o.0 in cc),
    )

    found-same :
        (s : Orchestrator R E) (o : Option WorkerSpec)
        → Leads (λ t. t ≡ s) (found o) (λ _ t. t ≡ s) Unstopped
    found-same s none = record { run = λ t e. inl refl }
    found-same s (some spec) = record { run = λ t e. e }

    pop_alive-Stopped :
        (s : Orchestrator R E) (n : ℕ)
        → child sys (s.children name) s.world ≡ alive n
        → Ends (λ _. Stopped s) Unstopped (pop_child sys name true s)
    unfolding pop_child
    pop_alive-Stopped s n there = rw there (
        Over-Stopped s n (stop_child sys (alive n) name true (with_child name none s))
          (alive-child sys table _ s.world n there)
          ((stop_alive-Over true n).run (with_child name none s) (put-same name none s.children)))

    pop-Stopped :
        (s : Orchestrator R E) (n : ℕ)
        → child sys (s.children name) s.world ≡ alive n
        → Leads (λ t. t ≡ s) (pop_child sys name true) (λ _. Stopped s) Unstopped
    pop-Stopped s n there = record { run = λ t e. rw e (pop_alive-Stopped s n there) }

    stop_worker-Stopped :
        (s : Orchestrator R E) (n : ℕ)
        → child sys (s.children name) s.world ≡ alive n
        → Leads (λ t. t ≡ s) (stop_worker sys cfg name true) (λ _. Stopped s) Unstopped
    unfolding stop_worker require_worker
    stop_worker-Stopped s n there =
        Leads->>= (found-same s (find_worker (lib.lower (strip name)) cfg.workers))
          (λ _. pop-Stopped s n there)

    stop_unwanted-Stopped :
        (s : Orchestrator R E) (c : Child)
        → child sys (s.children name) s.world ≡ c
        → Ends (λ _. Stopped s) Unstopped (stop_unwanted sys cfg c name s)
    unfolding stop_unwanted
    stop_unwanted-Stopped s absent there = idle-Stopped s (λ n alive. let both = there in cc)
    stop_unwanted-Stopped s (exited _ _) there = idle-Stopped s (λ n alive. let both = there in cc)
    stop_unwanted-Stopped s (alive n) there =
        (Leads->>= (stop_worker-Stopped s n there) (λ _. Leads-skip)).run s refl

    -- A pass over a worker that is not wanted, if it returns, leaves neither the process that was the
    -- worker's child nor a child of it running; if a call of it raises, the worker has no child any more,
    -- unless its name is not that of a worker.
    pub supervise_worker-Stopped :
        (desired : Dict Bool) (now : R) (spec : WorkerSpec) (s : Orchestrator R E)
        → get (desired name) spec.enabled_on_first_boot ≡ false
        → Ends (λ _. Stopped s) Unstopped (supervise_worker sys cfg desired now name spec s)
    unfolding supervise_worker
    supervise_worker-Stopped desired now spec s unwanted =
        rw unwanted (stop_unwanted-Stopped s _ refl)
