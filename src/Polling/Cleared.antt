-- ===== src/Polling/Cleared.antt =====
-- An order is executed only behind every check of its cycle.
use bot_ea.Base.{
  not, ◌&&◌, ◌≡◌, ◌≢◌, refl, if_both, Bool, true, false, ◌||◌, Option, none, some, String, List, [],
  ◌∷◌, str_eq, eq_iff, Bool-cases, inl, inr, arith,
}
use bot_ea.Base.Number.{Number}
use bot_ea.Base.Library.{Library}
use bot_ea.Base.Calls.{Called, returned, raised, world_of}
use bot_ea.Risk.Models.{PositionSizeResult}
use bot_ea.Risk.Size.{compute_position_size}
use bot_ea.Session.Stop.{SessionPerformance, evaluate_stop_policy}
use bot_ea.Polling.Models.{
  Fingerprint, DecisionAction, no_trade, open_trade, add, reduce, close, cancel_pending, halt,
  RuntimeSnapshot, AiIntent, SizeResult, sized, lifecycle, PreflightResult, ExecutionResult, Phase,
  intent, guard, precheck, fill, send, Row, Outcome, PollingRuntime, risk_rejected,
}
use bot_ea.Polling.Report.{
  go_on, text_or, preflight_status, preflight_row, after_execution, report, executed,
  after_preflight, checked, preflighted, attempt, preflight_failure, execution_failure,
}
use bot_ea.Polling.Cycle.{
  halted, open_sized, manage, act, after_decision, decision, after_snapshot, seen, run_cycle,
  position_request, account_fingerprint_changed, lifecycle_size, fallback_action, fallback_intent,
}
use bot_ea.Polling.Verdict.{phases}

abbrev pub is_executed : Phase → Bool
is_executed fill = true
is_executed send = true
is_executed intent = false
is_executed guard = false
is_executed precheck = false

abbrev pub any_executed : List Phase → Bool
any_executed [] = false
any_executed (ph ∷ phs) = is_executed ph || any_executed phs

-- Some order row of the cycle is that of an execution.
abbrev pub executes : {R : Type 0} → List (Row R) → Bool
executes rows = any_executed (phases rows)

-- The account is not known to be another than the one expected: none is expected, the snapshot has no
-- fingerprint, or login, server and broker are the same.
pub data IsExpected : Option Fingerprint → Option Fingerprint → Type 0 where
  any_account : (seen : Option Fingerprint) → IsExpected none seen
  unknown_account : (expected : Fingerprint) → IsExpected (some expected) none
  same_account :
      (expected seen : Fingerprint)
      → seen.login ≡ expected.login
      → seen.server ≡ expected.server
      → seen.broker ≡ expected.broker
      → IsExpected (some expected) (some seen)

all_three : (a b c : Bool) → not (a && b && c) ≡ false → (a ≡ true) × (b ≡ true) × (c ≡ true)
all_three a b c h = ground arith

unchanged-IsExpected :
    (expected seen : Option Fingerprint)
    → account_fingerprint_changed expected seen ≡ false
    → IsExpected expected seen
unfolding account_fingerprint_changed
unchanged-IsExpected none seen h = any_account seen
unchanged-IsExpected (some expected) none h = unknown_account expected
unchanged-IsExpected (some a) (some b) h =
    let all =
      all_three (str_eq b.login a.login) (str_eq b.server a.server) (str_eq b.broker a.broker) h in
    same_account a b ((eq_iff b.login a.login).0 all.0) ((eq_iff b.server a.server).0 all.1)
      ((eq_iff b.broker a.broker).0 all.2)

module _ {R : Type 0} ⦃num : Number R⦄ {E : Type 0} where
  world-after_execution :
      (s : RuntimeSnapshot R) (i : AiIntent R) (size : SizeResult R) (x : ExecutionResult R) (e : E)
      → (after_execution s i size x e).world ≡ e
  unfolding after_execution
  world-after_execution s i size x e = ground (arith)

  world-executed :
      (s : RuntimeSnapshot R) (i : AiIntent R) (size : SizeResult R)
      (c : Called (ExecutionResult R) E)
      → (executed s i size c).world ≡ world_of c
  unfolding executed report
  world-executed s i size (returned x e) = world-after_execution s i size x e
  world-executed s i size (raised exc e) = world-after_execution s i size (execution_failure exc) e

  module _ (p : PollingRuntime R E) where
    -- The preflight has returned that the order may be sent, and the cycle ends in the world that the
    -- execution of that order leaves.
    pub record Executed (s : RuntimeSnapshot R) (i : AiIntent R) (size : SizeResult R) (e w : E)
        : Type 0 where
      pub check : PreflightResult R
      pub before : E
      pub preflighted : p.preflight s i size e ≡ returned check before
      pub passed : preflight_status check ≡ "PRECHECK_OK"
      pub ran : w ≡ world_of (p.execute s i size check before)

    checked-passed :
        (s : RuntimeSnapshot R) (i : AiIntent R) (size : SizeResult R) (x : PreflightResult R)
        (e : E)
        → executes (checked p s i size x e).rows ≡ true
        → (preflight_status x ≡ "PRECHECK_OK")
          × ((checked p s i size x e).world ≡ world_of (p.execute s i size x e))
    unfolding checked after_preflight phases preflight_row
    checked-passed s i size x e h =
        elim (Bool-cases (str_eq (preflight_status x) "GUARD_REJECTED")) [
          | inl guarded ↦ absurd (let no_row = rw guarded at h in cc)
          | inr passed ↦ elim (Bool-cases (str_eq (preflight_status x) "PRECHECK_OK")) [
            | inr bad ↦ absurd (let no_row = rw (passed, bad) at h in cc)
            | inl good ↦ (
              (eq_iff (preflight_status x) "PRECHECK_OK").0 good,
              rw (passed, good) (world-executed s i size (p.execute s i size x e)),
            )
          ]
        ]

    preflighted-Executed :
        (s : RuntimeSnapshot R) (i : AiIntent R) (size : SizeResult R) (e : E)
        (c : Called (PreflightResult R) E)
        → p.preflight s i size e ≡ c
        → executes (preflighted p s i size c).rows ≡ true
        → Executed s i size e (preflighted p s i size c).world
    unfolding preflighted
    preflighted-Executed s i size e (returned x e1) called h =
        let both = checked-passed s i size x e1 h in
        record { check = x; before = e1; preflighted = called; passed = both.0; ran = both.1 }
    preflighted-Executed s i size e (raised exc e1) called h = absurd (
        let both = checked-passed s i size (preflight_failure exc) e1 h in
        let wrong = (eq_iff "ERROR" "PRECHECK_OK").1 both.0 in cc)

    attempt-Executed :
        (s : RuntimeSnapshot R) (i : AiIntent R) (size : SizeResult R) (e : E)
        → executes (attempt p s i size e).rows ≡ true
        → Executed s i size e (attempt p s i size e).world
    unfolding attempt phases
    attempt-Executed s i size e h = preflighted-Executed s i size e (p.preflight s i size e) refl h

    module _ ⦃lib : Library R⦄ where
      -- The size of an order: the risk engine has accepted the position, or the order changes one
      -- that is there.
      pub data Permitted (s : RuntimeSnapshot R) (i : AiIntent R) : SizeResult R → Type 0 where
        opens :
            (r : PositionSizeResult R)
            → i.action ≡ open_trade
            → compute_position_size (position_request s i) ≡ some r
            → r.accepted ≡ true
            → Permitted s i (sized r)
        manages : i.action ≢ open_trade → Permitted s i (lifecycle (lifecycle_size s i))

      pub record Ordered (s : RuntimeSnapshot R) (i : AiIntent R) (e w : E) : Type 0 where
        pub size : SizeResult R
        pub permitted : Permitted s i size
        pub run : Executed s i size e w

      manage-Ordered :
          (s : RuntimeSnapshot R) (i : AiIntent R) (e : E)
          → i.action ≢ open_trade
          → executes (manage p s i e).rows ≡ true
          → Ordered s i e (manage p s i e).world
      unfolding manage phases
      manage-Ordered s i e a h = record {
        size = lifecycle (lifecycle_size s i);
        permitted = manages a;
        run = attempt-Executed s i (lifecycle (lifecycle_size s i)) e h;
      }

      open_sized-Ordered :
          (s : RuntimeSnapshot R) (i : AiIntent R) (o : Option (PositionSizeResult R)) (e : E)
          → i.action ≡ open_trade
          → compute_position_size (position_request s i) ≡ o
          → executes (open_sized p s i o e).rows ≡ true
          → Ordered s i e (open_sized p s i o e).world
      unfolding open_sized phases
      open_sized-Ordered s i none e a c = λ h. absurd (let no_row = h in cc)
      open_sized-Ordered s i (some r) e a c =
          if_both (λ (o : Outcome R E). executes o.rows ≡ true → Ordered s i e o.world) r.accepted
            {x = attempt p s i (sized r) e}
            {y = go_on s (text_or r.rejection_reason "risk guard rejected") risk_rejected e}
            (λ accepted h. record {
              size = sized r;
              permitted = opens r a c accepted;
              run = attempt-Executed s i (sized r) e h;
            })
            (λ _ h. absurd (let no_row = h in cc))

      act-Ordered :
          (a : DecisionAction) (s : RuntimeSnapshot R) (i : AiIntent R) (e : E)
          → i.action ≡ a
          → executes (act p a s i e).rows ≡ true
          → Ordered s i e (act p a s i e).world
      unfolding act halted phases
      act-Ordered no_trade s i e a h = absurd (let no_row = h in cc)
      act-Ordered halt s i e a h = absurd (let no_row = h in cc)
      act-Ordered open_trade s i e a h =
          open_sized-Ordered s i (compute_position_size (position_request s i)) e a refl h
      act-Ordered add s i e a h = manage-Ordered s i e (λ o. let both = a in cc) h
      act-Ordered reduce s i e a h = manage-Ordered s i e (λ o. let both = a in cc) h
      act-Ordered close s i e a h = manage-Ordered s i e (λ o. let both = a in cc) h
      act-Ordered cancel_pending s i e a h = manage-Ordered s i e (λ o. let both = a in cc) h

      act-fallback :
          (mode exc : String) (s : RuntimeSnapshot R) (e : E)
          → executes (act p (fallback_action mode) s (fallback_intent mode exc) e).rows ≡ false
      unfolding act halted phases
      act-fallback mode exc s e =
          if_both (λ a. executes (act p a s (fallback_intent mode exc) e).rows ≡ false)
            (str_eq mode "NO_TRADE") (λ _. refl) (λ _. refl)

      -- What stands behind an execution: the stop policy let the cycle run, the account is not
      -- known to be another one, and the decision engine returned the intent.
      pub record Cleared (performance : SessionPerformance R) (e w : E) : Type 0 where
        pub goes : (evaluate_stop_policy p.stop_policy performance).should_halt ≡ false
        pub snapshot : RuntimeSnapshot R
        pub at_snapshot : E
        pub got : p.get_snapshot e ≡ returned snapshot at_snapshot
        pub same : IsExpected p.expected_fingerprint snapshot.fingerprint
        pub order : AiIntent R
        pub at_order : E
        pub chose : p.decide snapshot at_snapshot ≡ returned order at_order
        pub ordered : Ordered snapshot order at_order w

      pub record Chosen (s : RuntimeSnapshot R) (c : Called (AiIntent R) E) (w : E) : Type 0 where
        pub order : AiIntent R
        pub at_order : E
        pub chose : c ≡ returned order at_order
        pub ordered : Ordered s order at_order w

      decision-Chosen :
          (s : RuntimeSnapshot R) (c : Called (AiIntent R) E)
          → executes (decision p s c).rows ≡ true
          → Chosen s c (decision p s c).world
      unfolding decision after_decision phases
      decision-Chosen s (returned i e) h = record {
        order = i;
        at_order = e;
        chose = refl;
        ordered = act-Ordered i.action s i e refl h;
      }
      decision-Chosen s (raised exc e) h =
          absurd (let none_there = act-fallback p.fallback_mode exc s e in cc)

      seen-Cleared :
          (performance : SessionPerformance R) (e : E) (c : Called (RuntimeSnapshot R) E)
          → (evaluate_stop_policy p.stop_policy performance).should_halt ≡ false
          → p.get_snapshot e ≡ c
          → executes (seen p c).rows ≡ true
          → Cleared performance e (seen p c).world
      unfolding seen after_snapshot halted phases
      seen-Cleared performance e (raised exc e1) goes got = λ h. absurd (let no_row = h in cc)
      seen-Cleared performance e (returned s e1) goes got =
          if_both (λ (o : Outcome R E). executes o.rows ≡ true → Cleared performance e o.world)
            (account_fingerprint_changed p.expected_fingerprint s.fingerprint)
            {y = decision p s (p.decide s e1)} (λ _ h. absurd (let no_row = h in cc))
            (λ same h.
              let chosen = decision-Chosen s (p.decide s e1) h in
              record {
                goes = goes;
                snapshot = s;
                at_snapshot = e1;
                got = got;
                same = unchanged-IsExpected p.expected_fingerprint s.fingerprint same;
                order = chosen.order;
                at_order = chosen.at_order;
                chose = chosen.chose;
                ordered = chosen.ordered;
              })

      -- If a cycle writes a row for an execution, then the stop policy let it run, the snapshot was got
      -- and its account's login, server and broker are the expected ones, unless none are expected or
      -- the snapshot has no fingerprint, the decision engine returned the order, an OPEN has a size
      -- that the risk engine accepted for that snapshot and order, the preflight of that size returned
      -- PRECHECK_OK, and the cycle ends in the world that the execution with that size and that
      -- preflight leaves.
      pub run_cycle-Cleared :
          (performance : SessionPerformance R) (e : E)
          → executes (run_cycle p performance e).rows ≡ true
          → Cleared performance e (run_cycle p performance e).world
      unfolding run_cycle halted phases
      run_cycle-Cleared performance e =
          if_both (λ (o : Outcome R E). executes o.rows ≡ true → Cleared performance e o.world)
            (evaluate_stop_policy p.stop_policy performance).should_halt
            {y = seen p (p.get_snapshot e)} (λ _ h. absurd (let no_row = h in cc))
            (λ goes h. seen-Cleared performance e (p.get_snapshot e) goes refl h)
