-- ===== src/Supervisor/Process.antt =====
-- Starting and stopping a process keeps every process that runs recorded.
use bot_ea.Base.{
  ◌≡◌, inl, inr, refl, ap, Bool, true, false, Option, none, some, String, ℕ, if◌then◌else◌,
}
use bot_ea.Base.Int.{ℤ}
use bot_ea.Base.Calls.{Called, returned, raised}
use bot_ea.Supervisor.Program.{Cause, spawning, stopping, put, Ends, Leads, Leads->>=}
use bot_ea.Supervisor.Models.{
  WorkerSpec, Request, open_log, audit, send_all, terminate, kill, Patience, grace, last, Reply,
  started, stopped, worker_started, worker_stopped, System, Orchestrator,
}
use bot_ea.Supervisor.Worker.{
  Child, absent, exited, alive, child, call, spawn, wait, cause_of, received, with_child,
  child_with, update, skip, reply, launch, start_child, expect_end, kill_process, end_process,
  stop_child, pop_child,
}
use bot_ea.Supervisor.Recorded.{
  Runs, IsProcessTable, Accounted, Kept, Loses, Accounted-Kept, Kept-Accounted, Kept-idle,
  Kept-with_child, Accounted-with_child,
}

-- What is left of a process after a wait that returned `ended`.
abbrev pub left_of : Bool → ℕ → Option ℕ
left_of true n = none
left_of false n = some n

module _ {R E : Type 0} {P : Orchestrator R E → Type 0}
    {X : Cause → Orchestrator R E → Type 0} where
  pub Leads-update :
      {Q : Orchestrator R E → Type 0} (f : Orchestrator R E → Orchestrator R E)
      → ((s : Orchestrator R E) → P s → Q (f s))
      → Leads P (update f) (λ _. Q) X
  Leads-update f h = record { run = h }

  pub Leads-reply : (r : Reply) → Leads P (reply r) (λ _. P) X
  Leads-reply r = record { run = λ s p. p }

  pub Leads-skip : Leads P skip (λ _. P) X
  Leads-skip = record { run = λ s p. p }

module _ {R E : Type 0} (sys : System R E) (table : IsProcessTable sys) where
  received-Ends :
      {A : Type 0} (Q : A → Orchestrator R E → Type 0) (c : Cause) (s : Orchestrator R E)
      (called : Called A E)
      → ((a : A) (e : E) → called ≡ returned a e → Q a (record s { world = e }))
      → ((exc : String) (e : E) → called ≡ raised exc e → Loses sys c (record s { world = e }))
      → Ends Q (Loses sys) (received c s called)
  received-Ends Q c s (returned a e) q x = q a e refl
  received-Ends Q c s (raised exc e) q x = x exc e refl

  -- What only depends on the processes that run, and falls with them, outlasts a call.
  call-Leads :
      (I : Orchestrator R E → Type 0) (r : Request)
      → ((s : Orchestrator R E) (e : E)
          → ((p : ℕ) → Runs sys p e → Runs sys p s.world)
          → I s
          → I (record s { world = e }))
      → ((s : Orchestrator R E) → I s → Loses sys (cause_of r) s)
      → Leads I (call sys r) (λ _. I) (Loses sys)
  unfolding call
  call-Leads I r stable loses = record {
    run = λ s i.
        let starts = table.request_starts_nothing r s.world in
        received-Ends (λ _. I) (cause_of r) s (sys.request r s.world)
          (λ a e called. stable s e (λ p. rw called at (starts p)) i)
          (λ exc e called. loses _ (stable s e (λ p. rw called at (starts p)) i));
  }

  Kept-stable :
      (name : String) (x : Option ℕ) (s : Orchestrator R E) (e : E)
      → ((p : ℕ) → Runs sys p e → Runs sys p s.world)
      → Kept sys name x s
      → Kept sys name x (record s { world = e })
  Kept-stable name x s e starts kept p runs = kept p (starts p runs)

  pub call-Accounted :
      (r : Request) → Leads (Accounted sys) (call sys r) (λ _. Accounted sys) (Loses sys)
  call-Accounted r =
      call-Leads (Accounted sys) r (λ s e starts a p runs. a p (starts p runs)) (λ s. inr)

  pub notify-Accounted :
      (notify : Bool) (r : Request)
      → Leads (Accounted sys) (if notify then call sys r else skip) (λ _. Accounted sys) (Loses sys)
  notify-Accounted true r = call-Accounted r
  notify-Accounted false r = record { run = λ s a. a }

  call-idle :
      (name : String) (r : Request)
      → Leads (Kept sys name none) (call sys r) (λ _. Kept sys name none) (Loses sys)
  call-idle name r =
      call-Leads (Kept sys name none) r (Kept-stable name none)
        (λ s kept. inr (Kept-Accounted sys name s kept))

  notify-idle :
      (name : String) (notify : Bool) (r : Request)
      → Leads
          (Kept sys name none)
          (if notify then call sys r else skip)
          (λ _. Accounted sys)
          (Loses sys)
  notify-idle name notify r = record {
    run = λ s kept. (notify-Accounted notify r).run s (Kept-Accounted sys name s kept);
  }

  stop-Kept :
      (name : String) (n : ℕ) (r : Request)
      → cause_of r ≡ stopping
      → Leads (Kept sys name (some n)) (call sys r) (λ _. Kept sys name (some n)) (Loses sys)
  stop-Kept name n r stops =
      call-Leads (Kept sys name (some n)) r (Kept-stable name (some n)) (λ s kept. inl stops)

  spawn-Kept :
      (name : String) (spec : WorkerSpec)
      → Leads (Kept sys name none) (spawn sys spec) (λ n. Kept sys name (some n)) (Loses sys)
  unfolding spawn
  spawn-Kept name spec = record {
    run = λ s kept.
        received-Ends (λ n. Kept sys name (some n)) spawning s (sys.spawn spec s.world)
          (λ n e called p runs. elim (table.spawn_starts_one spec s.world e n p called runs) [
            | inl same ↦ inl (ap some same)
            | inr before ↦ elim (kept p before) [
              | inl nothing ↦ absurd (let wrong = nothing in cc)
              | inr there ↦ inr there
            ]
          ])
          (λ exc e called. inr (
            Kept-Accounted sys name (record s { world = e })
              (λ p runs. kept p (table.failed_spawn spec s.world e exc p called runs))));
  }

  wait-Kept :
      (name : String) (how : Patience) (n : ℕ)
      → Leads
          (Kept sys name (some n))
          (wait sys how n)
          (λ ended. Kept sys name (left_of ended n))
          (Loses sys)
  unfolding wait
  wait-Kept name how n = record {
    run = λ s kept.
        let starts = table.wait_starts_nothing how n s.world in
        received-Ends (λ ended. Kept sys name (left_of ended n)) stopping s (sys.wait how n s.world)
          (λ ended e called.
            waited s ended e called (λ p runs. kept p (rw called at (starts p) runs)))
          (λ exc e called. inl refl);
  }
    where
      waited :
          (s : Orchestrator R E) (ended : Bool) (e : E)
          → sys.wait how n s.world ≡ returned ended e
          → Kept sys name (some n) (record s { world = e })
          → Kept sys name (left_of ended n) (record s { world = e })
      waited s false e called kept = kept
      waited s true e called kept = λ p runs. elim (kept p runs) [
        | inl same ↦
            absurd
              (table.waited_for how n s.world e called (let one = same in let alive = runs in cc))
        | inr there ↦ inr there
      ]

  pub end_process-Kept :
      (name : String) (n : ℕ)
      → Leads (Kept sys name (some n)) (end_process sys n) (λ _. Kept sys name none) (Loses sys)
  unfolding end_process kill_process
  end_process-Kept name n =
      Leads->>= (stop-Kept name n (terminate n) refl)
        (λ _. Leads->>= (wait-Kept name grace n) after_grace)
    where
      after_last :
          (ended : Bool)
          → Leads
              (Kept sys name (left_of ended n))
              (expect_end ended)
              (λ _. Kept sys name none)
              (Loses sys)
      after_last true = record { run = λ s kept. kept }
      after_last false = record { run = λ s kept. inl refl }

      after_grace :
          (ended : Bool)
          → Leads
              (Kept sys name (left_of ended n))
              (if ended then skip else kill_process sys n)
              (λ _. Kept sys name none)
              (Loses sys)
      after_grace true = record { run = λ s kept. kept }
      after_grace false =
          Leads->>= (stop-Kept name n (kill n) refl)
            (λ _. Leads->>= (wait-Kept name last n) after_last)

  launch-Accounted :
      (spec : WorkerSpec) (name : String) (notify : Bool)
      → Leads (Kept sys name none) (launch sys spec name notify) (λ _. Accounted sys) (Loses sys)
  unfolding launch
  launch-Accounted spec name notify = Leads->>= (call-idle name (open_log spec.log_path)) (λ _.
      Leads->>= (spawn-Kept name spec) (λ n.
        Leads->>= (Leads-update (with_child name (some n)) (Accounted-with_child sys name n)) (λ _.
          Leads->>=
            (Leads-update (λ s. record s { next_restart = put name none s.next_restart })
              (λ s a. a))
            (λ _. Leads->>= (call-Accounted (audit (worker_started name n))) (λ _.
              Leads->>= (notify-Accounted notify (send_all (worker_started name n)))
                (λ _. Leads-reply (started name n)))))))

  pub start_child-Accounted :
      (spec : WorkerSpec) (name : String) (notify : Bool) (s : Orchestrator R E) (c : Child)
      → child sys (s.children name) s.world ≡ c
      → Accounted sys s
      → Ends (λ _. Accounted sys) (Loses sys) (start_child sys c spec name notify s)
  unfolding start_child
  start_child-Accounted spec name notify s (alive n) there a = a
  start_child-Accounted spec name notify s absent there a =
      (launch-Accounted spec name notify).run s
        (Kept-idle sys name _ s (λ n runs. let both = there in cc) (Accounted-Kept sys name s a))
  start_child-Accounted spec name notify s (exited _ _) there a =
      (launch-Accounted spec name notify).run s
        (Kept-idle sys name _ s (λ n runs. let both = there in cc) (Accounted-Kept sys name s a))

  -- The child that a name has where its process runs.
  pub alive-child : (x : Option ℕ) (e : E) (n : ℕ) → child sys x e ≡ alive n → x ≡ some n
  alive-child none e n h = absurd (let wrong = h in cc)
  alive-child (some m) e n h = alive-child_with m (sys.poll m e) n h
    where
      alive-child_with :
          (m : ℕ) (code : Option ℤ) (n : ℕ) → child_with m code ≡ alive n → some m ≡ some n
      alive-child_with m none n h = let same = h in cc
      alive-child_with m (some _) n h = absurd (let wrong = h in cc)

  stop_alive-Accounted :
      (name : String) (notify : Bool) (n : ℕ)
      → Leads
          (Kept sys name (some n))
          (stop_child sys (alive n) name notify)
          (λ _. Accounted sys)
          (Loses sys)
  unfolding stop_child
  stop_alive-Accounted name notify n = Leads->>= (end_process-Kept name n) (λ _.
      Leads->>= (call-idle name (audit (worker_stopped name n))) (λ _.
        Leads->>= (notify-idle name notify (send_all (worker_stopped name n)))
          (λ _. Leads-reply (stopped name))))

  stop_child-Accounted :
      (name : String) (notify : Bool) (s : Orchestrator R E) (c : Child)
      → child sys (s.children name) s.world ≡ c
      → Accounted sys s
      → Ends
          (λ _. Accounted sys)
          (Loses sys)
          (stop_child sys c name notify (with_child name none s))
  unfolding stop_child
  stop_child-Accounted name notify s (alive n) there a =
      (stop_alive-Accounted name notify n).run (with_child name none s) (
        Kept-with_child sys name (some n) none s
          (rw (alive-child _ s.world n there) at (Accounted-Kept sys name s a)))
  stop_child-Accounted name notify s absent there a =
      Kept-Accounted sys name (with_child name none s) (
        Kept-with_child sys name none none s
          (Kept-idle sys name _ s (λ n runs. let both = there in cc) (Accounted-Kept sys name s a)))
  stop_child-Accounted name notify s (exited _ _) there a =
      Kept-Accounted sys name (with_child name none s) (
        Kept-with_child sys name none none s
          (Kept-idle sys name _ s (λ n runs. let both = there in cc) (Accounted-Kept sys name s a)))

  pub pop_child-Accounted :
      (name : String) (notify : Bool)
      → Leads (Accounted sys) (pop_child sys name notify) (λ _. Accounted sys) (Loses sys)
  unfolding pop_child
  pop_child-Accounted name notify = record {
    run = λ s a. stop_child-Accounted name notify s _ refl a;
  }
