-- ===== src/Runtime/Steps.antt =====
-- What the steps of the lanes that return have done.
use mathlib.Core.Path.{subst}
use bot_ea.Base.{
  ◌≤◌, ◌≡◌, refl, sym, ap, ◌∙◌, Option, none, some, inl, inr, Bool, true, false, List, ◌++◌, ltb,
  length, str_eq, arith, Bool-cases, if◌then◌else◌, String,
}
use bot_ea.Base.Errors.{AllPass, first_error, first_error-AllPass, AllPass-first_error}
use bot_ea.Runtime.State.{
  made_tests, unless_error, RuntimeError, Result, ok, err, ◌>>=◌, Tick, ReferenceEnvelope,
  BarRequest, Opens, ReferenceRuntimeState, ReferenceProfileRuntime, made,
}
use bot_ea.Runtime.Fast.{FastLaneOutput, append_pending, validated, ticked, tick_result}

-- A chain of steps that returns has returned at its first step.
pub first_step :
    {A B : Type 0} (step : Result A) (next : A → Result B) {last : B}
    → (step >>= next) ≡ ok last
    → (reached : A) × (step ≡ ok reached) × (next reached ≡ ok last)
first_step (err raised) next h = cc
first_step (ok reached) next h = (reached, refl, h)

pub ok_injective : {A : Type 0} (a b : A) → ok a ≡ ok b → a ≡ b
ok_injective a b h = cc

-- A guard that raises has let the step through.
pub guard_lem :
    {A : Type 0} (b : Bool) (e : RuntimeError) (m : Result A) (a : A)
    → (if b then err e else m) ≡ ok a
    → (b ≡ false) × (m ≡ ok a)
guard_lem true e m a h = cc
guard_lem false e m a h = (refl, h)

pub unless_error_lem :
    {A : Type 0} (o : Option RuntimeError) (a b : A)
    → unless_error o a ≡ ok b
    → (o ≡ none) × (b ≡ a)
unless_error_lem none a b h = (refl, sym (ok_injective a b h))
unless_error_lem (some e) a b h = cc

module _ {S Q : Type 0} where
  -- The state passes the checks of its constructor.
  abbrev pub IsMade : ReferenceRuntimeState S Q → Type 0
  IsMade s = AllPass (made_tests s)

  pub made_lem : (s t : ReferenceRuntimeState S Q) → made s ≡ ok t → (t ≡ s) × IsMade s
  unfolding made
  made_lem s t h =
      let both = unless_error_lem (first_error (made_tests s)) s t h in
      (both.1, first_error-AllPass (made_tests s) both.0)

  pub IsMade-made : (s : ReferenceRuntimeState S Q) → IsMade s → made s ≡ ok s
  unfolding made
  IsMade-made s v = ap (λ o. unless_error o s) (AllPass-first_error (made_tests s) v)

module _ {S Q P : Type 0} (r : ReferenceProfileRuntime S Q P) where
  pub append_pending_lem :
      (xs ys zs : List ReferenceEnvelope)
      → append_pending r xs ys ≡ ok zs
      → (zs ≡ xs ++ ys) × (length zs ≤ r.maximum_pending_events)
  unfolding append_pending
  append_pending_lem xs ys zs h =
      elim (Bool-cases (ltb r.maximum_pending_events (length (xs ++ ys)))) [
        | inl e ↦ absurd (let failed = rw e at h in cc)
        | inr e ↦
            let same = ok_injective _ _ (rw e at h) in (sym same, rw (sym same) (ground arith))
      ]

  pub validated_lem :
      (s t : ReferenceRuntimeState S Q)
      → validated r s ≡ ok t
      → (t ≡ s) × (str_eq s.profile_id r.profile_id ≡ true)
  validated_lem s t h = ground (arith)

  pub tick_result_lem :
      (s : ReferenceRuntimeState S Q) (tick : Tick Q) (buckets : Opens) (reasons : List String)
      (requests : List BarRequest) (events : List ReferenceEnvelope) (out : FastLaneOutput S Q)
      → tick_result r s tick buckets reasons requests events ≡ ok out
      → let next = ticked r s tick buckets reasons (s.pending ++ events) in
        (out ≡ record { next_state = next; bar_requests = requests; events = events })
        × IsMade next
        × (length (s.pending ++ events) ≤ r.maximum_pending_events)
  unfolding tick_result
  tick_result_lem s tick buckets reasons requests events out h =
      let (pending, appended, rest) = first_step (append_pending r s.pending events) _ h in
      let (next, is_made, last) =
        first_step (made (ticked r s tick buckets reasons pending)) _ rest in
      let grown = append_pending_lem s.pending events pending appended in
      let whole = made_lem _ next is_made in
      let to : List ReferenceEnvelope → ReferenceRuntimeState S Q =
        λ p. ticked r s tick buckets reasons p in
      let output : ReferenceRuntimeState S Q → FastLaneOutput S Q =
        λ n. record { next_state = n; bar_requests = requests; events = events } in
      (
        sym (ok_injective _ _ last) ∙ ap output (whole.0 ∙ ap to grown.0),
        subst (λ p. IsMade (to p)) grown.0 whole.1,
        subst (λ p. length p ≤ r.maximum_pending_events) grown.0 grown.1,
      )
