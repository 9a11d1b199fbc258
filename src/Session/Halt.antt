-- ===== src/Session/Halt.antt =====
-- A session is halted exactly when a limit that is set is reached.
use bot_ea.Base.{
  ◌≡◌, refl, inl, inr, Bool, false, ◌||◌, Option, none, some, List, [], ◌∷◌, if◌then◌else◌,
  Bool-cases,
}
use bot_ea.Base.Int.{leb_ℤ}
use bot_ea.Base.Number.{Number, ◌≤R◌, zero_R, abs_R}
use bot_ea.Session.Stop.{
  StopReason, no_reason, profit_target, loss_limit, drawdown_limit, session_timeout,
  allocation_exhausted, StopPolicy, SessionPerformance, Metadata, StopDecision, drawdown_cash,
  limits, limit_of, is_exhausted, first_decision, evaluate_stop_policy,
}

-- A limit that is set and passes its test.
abbrev pub reached : {L : Type 0} → Option L → (L → Bool) → Bool
reached none test = false
reached (some l) test = test l

abbrev pub any_of : List (Bool × StopReason) → Bool
any_of [] = false
any_of ((b, _) ∷ rest) = b || any_of rest

abbrev pub first_reason : List (Bool × StopReason) → StopReason
first_reason [] = no_reason
first_reason ((b, why) ∷ rest) = if b then why else first_reason rest

module _ {R : Type 0} ⦃num : Number R⦄ where
  -- Every limit with its reason, in the order of the code.
  abbrev pub reached_limits : StopPolicy R → SessionPerformance R → List (Bool × StopReason)
  reached_limits p s =
      (reached p.profit_target_cash (λ l. l ≤R s.realized_pnl_cash), profit_target)
      ∷ (
        reached p.loss_limit_cash (λ l. s.realized_pnl_cash ≤R num.sub zero_R (abs_R l)),
        loss_limit,
      )
      ∷ (reached p.max_drawdown_cash (λ l. l ≤R drawdown_cash s), drawdown_limit)
      ∷ (
        reached p.max_consecutive_losses (λ l. leb_ℤ l s.consecutive_losses),
        StopReason.consecutive_losses,
      )
      ∷ (reached p.max_trades (λ l. leb_ℤ l s.trades_count), StopReason.max_trades)
      ∷ (reached p.max_runtime_minutes (λ l. l ≤R s.elapsed_minutes), session_timeout)
      ∷ (reached p.min_remaining_allocation_cash (is_exhausted s), allocation_exhausted)
      ∷ []

  record Decided (os : List (Option (StopDecision R))) (ls : List (Bool × StopReason))
      : Type 0 where
    halts : (first_decision os).should_halt ≡ any_of ls
    why : (first_decision os).reason ≡ first_reason ls
    hard : (first_decision os).hard_stop ≡ (first_decision os).should_halt

  limit_of-Decided :
      {L : Type 0} (o : Option L) (test : L → Bool) (why : StopReason) (limit : L → Metadata R)
      (rest : List (Option (StopDecision R))) (ls : List (Bool × StopReason))
      → Decided rest ls
      → Decided (limit_of o test why limit ∷ rest) ((reached o test, why) ∷ ls)
  unfolding first_decision limit_of
  limit_of-Decided none test why limit rest ls h = record {
    halts = h.halts;
    why = h.why;
    hard = h.hard;
  }
  limit_of-Decided (some l) test why limit rest ls h = elim (Bool-cases (test l)) [
    | inl e ↦ rw e (record { halts = refl; why = refl; hard = refl })
    | inr e ↦ rw e (record { halts = h.halts; why = h.why; hard = h.hard })
  ]

  limits-Decided :
      (p : StopPolicy R) (s : SessionPerformance R) → Decided (limits p s) (reached_limits p s)
  unfolding limits first_decision
  limits-Decided p s = limit_of-Decided p.profit_target_cash _ _ _ _ _ (
      limit_of-Decided p.loss_limit_cash _ _ _ _ _ (
        limit_of-Decided p.max_drawdown_cash _ _ _ _ _ (
          limit_of-Decided p.max_consecutive_losses _ _ _ _ _ (
            limit_of-Decided p.max_trades _ _ _ _ _ (
              limit_of-Decided p.max_runtime_minutes _ _ _ _ _ (
                limit_of-Decided p.min_remaining_allocation_cash _ _ _ _ _
                  (record { halts = refl; why = refl; hard = refl })))))))

  -- A session is halted exactly when a limit that is set has been reached, for the reason of the first
  -- one in the order profit, loss, drawdown, losses in a row, trades, time, allocation; every halt is
  -- a hard stop.
  pub halts_exactly :
      (p : StopPolicy R) (s : SessionPerformance R)
      → let d = evaluate_stop_policy p s in
        (d.should_halt ≡ any_of (reached_limits p s))
        × (d.reason ≡ first_reason (reached_limits p s))
        × (d.hard_stop ≡ d.should_halt)
  unfolding evaluate_stop_policy
  halts_exactly p s = let a = limits-Decided p s in (a.halts, a.why, a.hard)
