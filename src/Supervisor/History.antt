-- ===== src/Supervisor/History.antt =====
-- What the commands to the orchestrator and its passes reach, with what happens in between.
use bot_ea.Base.{◌≡◌, ◌≢◌, inl, inr, Bool, String, none, ℕ}
use bot_ea.Base.Number.{Number}
use bot_ea.Base.Library.{Library}
use bot_ea.Supervisor.Program.{Cause, stopping, done, threw, Program, ◌>>◌, Leads->>=}
use bot_ea.Supervisor.Models.{Config, System, Orchestrator}
use bot_ea.Supervisor.Worker.{skip, start_worker, stop_worker, set_desired, supervise_once}
use bot_ea.Supervisor.Recorded.{Runs, IsProcessTable, Accounted}
use bot_ea.Supervisor.Process.{Leads-skip}
use bot_ea.Supervisor.Steps.{
  Keeps, start_worker-Keeps, stop_worker-Keeps, set_desired-Keeps, supervise_once-Keeps,
}

-- What is called from outside of the supervision.
pub data Command (R : Type 0) : Type 0 where
  start stop : String → Bool → Command R
  switch : String → Bool → Bool → Command R
  pass : R → Command R

module _ {R E : Type 0} ⦃num : Number R⦄ ⦃lib : Library R⦄ (sys : System R E) (cfg : Config R) where
  unfoldable pub perform : Command R → Program (Orchestrator R E) (Unit {0})
  perform (start name notify) = start_worker sys cfg name notify >> skip
  perform (stop name notify) = stop_worker sys cfg name notify >> skip
  perform (switch name enabled notify) = set_desired sys cfg name enabled notify >> skip
  perform (pass now) = supervise_once sys cfg now

  -- Commands that return or raise, but for those that fail to stop a process; between them, processes
  -- may end and anything else may happen outside, but no other code starts a worker's process.
  pub data Reaches (s : Orchestrator R E) : Orchestrator R E → Type 0 where
    here : Reaches s s
    returning :
        (c : Command R) (t u : Orchestrator R E)
        → Reaches s t
        → perform c t ≡ done tt u
        → Reaches s u
    raising :
        (c : Command R) (why : Cause) (t u : Orchestrator R E)
        → Reaches s t
        → perform c t ≡ threw why u
        → why ≢ stopping
        → Reaches s u
    outside :
        (t : Orchestrator R E) (e : E)
        → Reaches s t
        → ((p : ℕ) → Runs sys p e → Runs sys p t.world)
        → Reaches s (record t { world = e })

  module _ (table : IsProcessTable sys) where
    perform-Keeps : (c : Command R) → Keeps sys cfg table (perform c)
    unfolding perform
    perform-Keeps (start name notify) =
        Leads->>= (start_worker-Keeps sys cfg table name notify) (λ _. Leads-skip)
    perform-Keeps (stop name notify) =
        Leads->>= (stop_worker-Keeps sys cfg table name notify) (λ _. Leads-skip)
    perform-Keeps (switch name enabled notify) =
        Leads->>= (set_desired-Keeps sys cfg table name enabled notify) (λ _. Leads-skip)
    perform-Keeps (pass now) = supervise_once-Keeps sys cfg table now

    -- In every state that commands and passes reach from one in which no process runs, whatever the
    -- calls of the system return and whichever of them raise, every worker's process that runs is
    -- recorded as a child, so that a start sees it, if no command has failed to stop a process, only
    -- Popen starts processes, and a process that was waited for has ended.
    pub Reaches-Accounted :
        (s t : Orchestrator R E)
        → ((p : ℕ) → sys.poll p s.world ≢ none)
        → Reaches s t
        → Accounted sys t
    Reaches-Accounted s t idle here = λ p runs. absurd (idle p runs)
    Reaches-Accounted s u idle (returning c t u' r ran) =
        rw ran at ((perform-Keeps c).run t (Reaches-Accounted s t idle r))
    Reaches-Accounted s u idle (raising c why t u' r ran other) =
        elim (rw ran at ((perform-Keeps c).run t (Reaches-Accounted s t idle r))) [
          | inl stops ↦ absurd (other stops)
          | inr a ↦ a
        ]
    Reaches-Accounted s u idle (outside t e r ends) =
        λ p runs. Reaches-Accounted s t idle r p (ends p runs)
