-- ===== src/Supervisor/Recorded.antt =====
-- What the orchestrator's children say of the processes that run, and what a call changes of it.
use bot_ea.Base.{
  ◌≡◌, ◌≢◌, ◌⊎◌, inl, inr, refl, sym, ap, ◌∙◌, true, Option, none, some, String, ℕ, str_eq,
  Bool-cases, eq_iff,
}
use bot_ea.Base.Calls.{returned, raised, world_of}
use bot_ea.Supervisor.Program.{Cause, stopping, Dict, put}
use bot_ea.Supervisor.Models.{WorkerSpec, Request, Patience, System, Orchestrator}
use bot_ea.Supervisor.Worker.{alive, child, with_child}

pub put-same : {A : Type 0} (name : String) (v : Option A) (d : Dict A) → put name v d name ≡ v
unfolding put
put-same name v d = rw ((eq_iff name name).1 refl) refl

pub put-other :
    {A : Type 0} (name k : String) (v : Option A) (d : Dict A) → k ≢ name → put name v d k ≡ d k
unfolding put
put-other name k v d other = elim (Bool-cases (str_eq k name)) [
  | inl same ↦ absurd (other ((eq_iff k name).0 same))
  | inr e ↦ rw e refl
]

module _ {R E : Type 0} (sys : System R E) where
  -- The process runs.
  abbrev pub Runs : ℕ → E → Type 0
  Runs p e = sys.poll p e ≡ none

  -- Only a call of Popen starts a process, and one at most; a process that was waited for has ended.
  pub record IsProcessTable : Type 0 where
    pub request_starts_nothing :
        (r : Request) (e : E) (p : ℕ) → Runs p (world_of (sys.request r e)) → Runs p e
    pub wait_starts_nothing :
        (how : Patience) (n : ℕ) (e : E) (p : ℕ) → Runs p (world_of (sys.wait how n e)) → Runs p e
    pub spawn_starts_one :
        (spec : WorkerSpec) (e e' : E) (n p : ℕ)
        → sys.spawn spec e ≡ returned n e'
        → Runs p e'
        → (n ≡ p) ⊎ Runs p e
    pub failed_spawn :
        (spec : WorkerSpec) (e e' : E) (exc : String) (p : ℕ)
        → sys.spawn spec e ≡ raised exc e'
        → Runs p e'
        → Runs p e
    pub waited_for :
        (how : Patience) (n : ℕ) (e e' : E)
        → sys.wait how n e ≡ returned true e'
        → sys.poll n e' ≢ none

  -- Every process that runs is recorded as some worker's child.
  abbrev pub Accounted : Orchestrator R E → Type 0
  Accounted s = (p : ℕ) → Runs p s.world → (name : String) × (s.children name ≡ some p)

  -- Every process that runs is recorded under another name, but for one.
  abbrev pub Kept : String → Option ℕ → Orchestrator R E → Type 0
  Kept name x s =
      (p : ℕ)
      → Runs p s.world
      → (x ≡ some p) ⊎ ((k : String) × (k ≢ name) × (s.children k ≡ some p))

  -- Where a program raises: in the stop of a process, or with every process recorded.
  abbrev pub Loses : Cause → Orchestrator R E → Type 0
  Loses c s = (c ≡ stopping) ⊎ Accounted s

  pub Accounted-Kept :
      (name : String) (s : Orchestrator R E) → Accounted s → Kept name (s.children name) s
  Accounted-Kept name s a p runs =
      let there = a p runs in
      elim (Bool-cases (str_eq there.0 name)) [
        | inl same ↦ inl (ap s.children (sym ((eq_iff there.0 name).0 same)) ∙ there.1)
        | inr e ↦ inr (there.0, (λ same. let both = (eq_iff there.0 name).1 same in cc), there.1)
      ]

  pub Kept-Accounted : (name : String) (s : Orchestrator R E) → Kept name none s → Accounted s
  Kept-Accounted name s kept p runs = elim (kept p runs) [
    | inl e ↦ absurd (let nothing = e in cc)
    | inr there ↦ (there.0, there.2)
  ]

  -- A process that is over does not count.
  pub Kept-idle :
      (name : String) (x : Option ℕ) (s : Orchestrator R E)
      → ((n : ℕ) → child sys x s.world ≢ alive n)
      → Kept name x s
      → Kept name none s
  Kept-idle name x s idle kept p runs = elim (kept p runs) [
    | inl same ↦ absurd (idle p (rw (same, runs) refl))
    | inr there ↦ inr there
  ]

  -- What changes under the name itself is of no concern.
  pub Kept-with_child :
      (name : String) (x v : Option ℕ) (s : Orchestrator R E)
      → Kept name x s
      → Kept name x (with_child name v s)
  Kept-with_child name x v s kept p runs = elim (kept p runs) [
    | inl same ↦ inl same
    | inr there ↦ inr (there.0, there.1, put-other name there.0 v s.children there.1 ∙ there.2)
  ]

  pub Accounted-with_child :
      (name : String) (n : ℕ) (s : Orchestrator R E)
      → Kept name (some n) s
      → Accounted (with_child name (some n) s)
  Accounted-with_child name n s kept p runs = elim (kept p runs) [
    | inl same ↦ (name, put-same name (some n) s.children ∙ same)
    | inr there ↦ (there.0, put-other name there.0 (some n) s.children there.1 ∙ there.2)
  ]
