-- ===== src/Runtime/Once.antt =====
-- A bar reaches the engine once.
use bot_ea.Base.{
  ℕ, ◌≡◌, refl, ap, ◌∙◌, Bool, true, false, not, ◌||◌, Option, none, some, [], ◌==◌, ==_iff, str_eq,
  if◌then◌else◌,
}
use bot_ea.Runtime.State.{
  Result, ok, ◌>>=◌, Bar, BarRequest, ReferenceRuntimeState, ReferenceProfileRuntime,
}
use bot_ea.Runtime.Fast.{open_of, validated}
use bot_ea.Runtime.Bars.{BarLaneOutput, after_cursor, in_lane, on_bar_close}
use bot_ea.Runtime.Steps.{first_step, validated_lem, guard_lem}
use bot_ea.Runtime.BarSteps.{Stepped, Accepted, known, first, behind, on_bar_close-Accepted}
use bot_ea.Runtime.Frames.{found, same_frame_refl, open_of-cursors}

if_true : {A : Type 0} (b : Bool) (x y : A) → b ≡ true → (if b then x else y) ≡ x
if_true true x y h = refl
if_true false x y h = cc

if_false : {A : Type 0} (b : Bool) (x y : A) → b ≡ false → (if b then x else y) ≡ y
if_false true x y h = cc
if_false false x y h = refl

module _ {S Q P : Type 0} (r : ReferenceProfileRuntime S Q P) where
  -- What a lane keeps for the next bar.
  record Keeps (s t : ReferenceRuntimeState S Q) (q : BarRequest) : Type 0 where
    cursor : open_of q.timeframe t.bar_cursors ≡ some q.open_time
    profile : t.profile_id ≡ s.profile_id
    halted : t.halted ≡ s.halted

  Stepped-Keeps :
      (s : ReferenceRuntimeState S Q) (q : BarRequest) (bar : Bar P) (out : BarLaneOutput S Q)
      → Stepped r s q bar out
      → Keeps s out.next_state q
  Stepped-Keeps s q bar out p = record {
    cursor =
        ap (λ (t : ReferenceRuntimeState S Q). open_of q.timeframe t.bar_cursors) p.next
        ∙ open_of-cursors q.timeframe q.timeframe q.open_time s.bar_cursors
        ∙ ap (λ b. found b q.open_time (open_of q.timeframe s.bar_cursors))
            (same_frame_refl q.timeframe);
    profile = ap (λ (t : ReferenceRuntimeState S Q). t.profile_id) p.next;
    halted = ap (λ (t : ReferenceRuntimeState S Q). t.halted) p.next;
  }

  Accepted-Keeps :
      (s : ReferenceRuntimeState S Q) (q : BarRequest) (bar : Bar P) (out : BarLaneOutput S Q)
      → Accepted r s q bar out
      → Keeps s out.next_state q
  Accepted-Keeps s q bar out (known at e quiet) = record {
    cursor = ap (λ (t : ReferenceRuntimeState S Q). open_of q.timeframe t.bar_cursors) e ∙ at;
    profile = ap (λ (t : ReferenceRuntimeState S Q). t.profile_id) e;
    halted = ap (λ (t : ReferenceRuntimeState S Q). t.halted) e;
  }
  Accepted-Keeps s q bar out (first at p) = Stepped-Keeps s q bar out p
  Accepted-Keeps s q bar out (behind c at lt p) = Stepped-Keeps s q bar out p

  abbrev idle : ReferenceRuntimeState S Q → Result (BarLaneOutput S Q)
  idle t = ok (record { next_state = t; events = [] })

  after_cursor_known :
      (o : Option ℕ) (t : ReferenceRuntimeState S Q) (q : BarRequest) (bar : Bar P)
      → o ≡ some q.open_time
      → after_cursor r o t q bar ≡ idle t
  unfolding after_cursor
  after_cursor_known none t q bar h = cc
  after_cursor_known (some c) t q bar h =
      if_true (q.open_time == c) _ _ ((==_iff q.open_time c).1 (cc))

  -- The checks that a bar has passed.
  record Passes (t : ReferenceRuntimeState S Q) (q : BarRequest) (bar : Bar P) : Type 0 where
    valid : str_eq t.profile_id r.profile_id ≡ true
    running : t.halted ≡ false
    own : not (str_eq q.profile_id r.profile_id) ≡ false
    times : (not (bar.open_time == q.open_time) || not (bar.close_time == q.close_time)) ≡ false

  on_bar_close-Passes :
      (s : ReferenceRuntimeState S Q) (q : BarRequest) (bar : Bar P) (out : BarLaneOutput S Q)
      → on_bar_close r s q bar ≡ ok out
      → Passes s q bar
  unfolding on_bar_close in_lane
  on_bar_close-Passes s q bar out h =
      let (s', valid, rest) = first_step (validated r s) _ h in
      let both = validated_lem r s s' valid in
      let (running, h') = guard_lem s.halted _ _ out (rw both.0 at rest) in
      let (own, h'') = guard_lem (not (str_eq q.profile_id r.profile_id)) _ _ out h' in
      record {
        valid = both.1;
        running = running;
        own = own;
        times =
            (guard_lem (not (bar.open_time == q.open_time) || not (bar.close_time == q.close_time))
              _ _ out h'').0;
      }

  Passes-on_bar_close :
      (t : ReferenceRuntimeState S Q) (q : BarRequest) (bar : Bar P)
      → Passes t q bar
      → on_bar_close r t q bar ≡ after_cursor r (open_of q.timeframe t.bar_cursors) t q bar
  unfolding on_bar_close in_lane
  Passes-on_bar_close t q bar p =
      ap (λ m. m >>= λ s'. in_lane r s' q bar) (if_true _ (ok t) _ p.valid)
      ∙ if_false t.halted _ _ p.running
      ∙ if_false (not (str_eq q.profile_id r.profile_id)) _ _ p.own
      ∙ if_false (not (bar.open_time == q.open_time) || not (bar.close_time == q.close_time)) _ _
          p.times

  -- A bar that the lane has accepted is not given to the engine again: a second call with it returns
  -- the state as it is, without an event.
  pub on_bar_close_again :
      (s : ReferenceRuntimeState S Q) (q : BarRequest) (bar : Bar P) (out : BarLaneOutput S Q)
      → on_bar_close r s q bar ≡ ok out
      → on_bar_close r out.next_state q bar
        ≡ ok (record { next_state = out.next_state; events = [] })
  on_bar_close_again s q bar out h =
      let passes = on_bar_close-Passes s q bar out h in
      let keeps = Accepted-Keeps s q bar out (on_bar_close-Accepted r s q bar out h).1 in
      Passes-on_bar_close out.next_state q bar (record {
        valid = ap (λ p. str_eq p r.profile_id) keeps.profile ∙ passes.valid;
        running = keeps.halted ∙ passes.running;
        own = passes.own;
        times = passes.times;
      })
      ∙ after_cursor_known _ out.next_state q bar keeps.cursor
