-- ===== src/Execution/Allowed.antt =====
-- When `validate_execution` allows an order, and what it then sends.
use bot_ea.Base.{
  ◌≡◌, refl, sym, ap, ◌∙◌, ◌⊎◌, inl, inr, ◌↔◌, Bool, true, false, not, ◌&&◌, ◌||◌, none, some, List,
  [], ◌∷◌, if◌then◌else◌, arith, Bool-cases,
}
use bot_ea.Base.Number.{Number, ◌-R◌, ◌/R◌, ◌<R◌, zero_R}
use bot_ea.Execution.Signal.{Side, buy, sell, SignalPlan, ProfileConfig}
use bot_ea.Execution.Contract.{ExecutionPolicy, ExecutionContext}
use bot_ea.Execution.Order.{
  ExecutionReject, same_reject, ExecutionOrder, ExecutionValidation, no_reasons, validation_error,
  without_reject, unique, appended, risk_of, reward_of, gains, rr_of, geometry_ok, tests, order_of,
  validate_execution,
}
use bot_ea.Execution.Exact.{no_reasons-appended, AllFail-no_reasons, no_reasons-unique}
use bot_ea.Execution.Conditions.{IsExecutable, AllFail-IsExecutable, IsExecutable-AllFail}

abbrev pub listed : ExecutionReject → List ExecutionReject → Bool
listed r [] = false
listed r (q ∷ qs) = same_reject q r || listed r qs

abbrev pub Distinct : List ExecutionReject → Type 0
Distinct [] = Unit
Distinct (r ∷ rs) = (listed r rs ≡ false) × Distinct rs

-- Whether a test with this reason fails.
abbrev pub failing : ExecutionReject → List (Bool × ExecutionReject) → Bool
failing r [] = false
failing r ((b, q) ∷ rest) = (b && same_reject q r) || failing r rest

listed-without_reject :
    (r q : ExecutionReject) (rs : List ExecutionReject)
    → listed r (without_reject q rs) ≡ (listed r rs && not (same_reject q r))
unfolding without_reject
listed-without_reject r q [] = refl
listed-without_reject r q (s ∷ rs) = ground (arith, listed-without_reject r q rs)

listed-unique :
    (r : ExecutionReject) (rs : List ExecutionReject) → listed r (unique rs) ≡ listed r rs
unfolding unique
listed-unique r [] = refl
listed-unique r (q ∷ rs) = ground (arith, listed-without_reject r q (unique rs), listed-unique r rs)

Distinct-without_reject :
    (q : ExecutionReject) (rs : List ExecutionReject) → Distinct rs → Distinct (without_reject q rs)
unfolding without_reject
Distinct-without_reject q [] h = tt
Distinct-without_reject q (s ∷ rs) h =
    ground (arith, Distinct-without_reject q rs h.1, listed-without_reject s q rs)

Distinct-unique : (rs : List ExecutionReject) → Distinct (unique rs)
unfolding unique
Distinct-unique [] = tt
Distinct-unique (r ∷ rs) = (
  ground (arith, listed-without_reject r r (unique rs)),
  Distinct-without_reject r (unique rs) (Distinct-unique rs),
)

listed-appended :
    (r : ExecutionReject) (ts : List (Bool × ExecutionReject))
    → listed r (appended ts) ≡ failing r ts
unfolding appended
listed-appended r [] = refl
listed-appended r ((b, q) ∷ ts) = ground (arith, listed-appended r ts)

consistent :
    {R : Type 0} (v : ExecutionValidation R) (o : ExecutionOrder R)
    → v.allowed ≡ no_reasons v.reasons
    → v.order ≡ (if no_reasons v.reasons then some o else none)
    → (validation_error v ≡ none)
      × (((v.allowed ≡ true) × (v.order ≡ some o)) ⊎ ((v.allowed ≡ false) × (v.order ≡ none)))
unfolding validation_error
consistent v o a h = elim (Bool-cases (no_reasons v.reasons)) [
  | inl e ↦
      let allows : v.allowed ≡ true = a ∙ e in
      let sends : v.order ≡ some o = h ∙ rw e refl in
      (rw (allows, e, sends) refl, inl (allows, sends))
  | inr e ↦
      let rejects : v.allowed ≡ false = a ∙ e in
      let nothing : v.order ≡ none = h ∙ rw e refl in (rw (rejects, e) refl, inr (rejects, nothing))
]

side-cases : (s : Side) → (s ≡ buy) ⊎ (s ≡ sell)
side-cases buy = inl refl
side-cases sell = inr refl

and_parts : (a b : Bool) → (a && b) ≡ true → (a ≡ true) × (b ≡ true)
and_parts a b h = ground arith

module _ {R : Type 0} ⦃num : Number R⦄ where
  gains-geometry :
      (plan : SignalPlan R) (c : ExecutionContext R)
      → ((a b : R) → (a <R b) ≡ true → (zero_R <R (b -R a)) ≡ true)
      → geometry_ok plan c ≡ true
      → gains plan c ≡ true
  unfolding geometry_ok
  gains-geometry plan c gap h =
      let stop = plan.planned_stop in
      let target = plan.planned_target in
      elim (side-cases plan.side) [
        | inl e ↦
            let k = and_parts (stop <R c.quote.ask) (c.quote.ask <R target) (rw e at h) in
            rw (e, gap stop c.quote.ask k.0, gap c.quote.ask target k.1) refl
        | inr e ↦
            let k = and_parts (target <R c.quote.bid) (c.quote.bid <R stop) (rw e at h) in
            rw (e, gap target c.quote.bid k.0, gap c.quote.bid stop k.1) refl
      ]

  allowed-appended :
      (plan : SignalPlan R) (p : ProfileConfig R) (pol : ExecutionPolicy R) (c : ExecutionContext R)
      → (validate_execution plan p pol c).allowed ≡ no_reasons (appended (tests plan p pol c))
  unfolding validate_execution
  allowed-appended plan p pol c = no_reasons-unique (appended (tests plan p pol c))

  -- An order is allowed exactly when all conditions of `IsExecutable` hold: the plan, policy, account,
  -- server, terminal, symbol and magic belong together, the quote is in time and its spread narrow
  -- enough, the ratio suffices, there is room and margin, the signal is new, the broker accepts the
  -- geometry and the setup is still valid.
  pub allowed_exact :
      (plan : SignalPlan R) (p : ProfileConfig R) (pol : ExecutionPolicy R) (c : ExecutionContext R)
      → ((validate_execution plan p pol c).allowed ≡ true) ↔ IsExecutable plan p pol c
  allowed_exact plan p pol c =
      let same = allowed-appended plan p pol c in
      (
        λ h.
            AllFail-IsExecutable plan p pol c
              (no_reasons-appended (tests plan p pol c) (sym same ∙ h)),
        λ v. same ∙ AllFail-no_reasons (tests plan p pol c) (IsExecutable-AllFail plan p pol c v),
      )

  -- The result is consistent, so that its constructor never raises: an allowed result carries the
  -- order of the plan at the executable price, and a rejected one carries none.
  validation_consistent :
      (plan : SignalPlan R) (p : ProfileConfig R) (pol : ExecutionPolicy R) (c : ExecutionContext R)
      → let v = validate_execution plan p pol c in
        (validation_error v ≡ none)
        × (((v.allowed ≡ true) × (v.order ≡ some (order_of plan p c)))
            ⊎ ((v.allowed ≡ false) × (v.order ≡ none)))
  unfolding validate_execution validation_error
  validation_consistent plan p pol c =
      consistent (validate_execution plan p pol c) (order_of plan p c) refl refl

  -- A reason is listed just when a test that appends it fails, and none is listed twice.
  reasons_exact :
      (plan : SignalPlan R) (p : ProfileConfig R) (pol : ExecutionPolicy R) (c : ExecutionContext R)
      (r : ExecutionReject)
      → Distinct (validate_execution plan p pol c).reasons
        × (listed r (validate_execution plan p pol c).reasons ≡ failing r (tests plan p pol c))
  unfolding validate_execution
  reasons_exact plan p pol c r =
      let all = appended (tests plan p pol c) in
      (Distinct-unique all, listed-unique r all ∙ listed-appended r (tests plan p pol c))

  -- An allowed order gains more than nothing and risks more than nothing at the executable price, and
  -- its ratio of reward to risk is not below the minimum of the strategy. The differences of decimals
  -- that lie in order are taken to be positive.
  pub allowed_pays :
      (plan : SignalPlan R) (p : ProfileConfig R) (pol : ExecutionPolicy R) (c : ExecutionContext R)
      → ((a b : R) → (a <R b) ≡ true → (zero_R <R (b -R a)) ≡ true)
      → (validate_execution plan p pol c).allowed ≡ true
      → (gains plan c ≡ true)
        × (((reward_of plan c /R risk_of plan c) <R plan.minimum_executable_rr) ≡ false)
  allowed_pays plan p pol c gap h =
      let v = (allowed_exact plan p pol c).0 h in
      let g = gains-geometry plan c gap v.in_order in
      elim v.rewards [
        | inl n ↦ absurd cc
        | inr e ↦
            let ratio : rr_of plan c ≡ reward_of plan c /R risk_of plan c =
              ap (λ b. if b then reward_of plan c /R risk_of plan c else zero_R) g in
            (g, sym (ap (λ r. r <R plan.minimum_executable_rr) ratio) ∙ e)
      ]
