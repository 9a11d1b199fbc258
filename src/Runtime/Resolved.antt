-- ===== src/Runtime/Resolved.antt =====
-- The outcome of a signal is that of the first price on its path that touches its stop or target.
use mathlib.Core.Path.{subst}
use bot_ea.Base.{
  ◌≡◌, refl, sym, ap, ◌∙◌, inl, inr, Bool, true, false, ◌||◌, Option, none, some, List, [], ◌∷◌,
  ◌++◌, map, All, String, Bool-cases, if◌then◌else◌,
}
use bot_ea.Base.Int.{ℤ}
use bot_ea.Base.Number.{Number}
use bot_ea.Execution.Signal.{Tick, SignalPlan}
use bot_ea.Runtime.Path.{
  target, stop, ReplayTradeOutcome, PriceBar, first_hit, post_ticks, post_bars, tick_price,
  tick_stops, tick_targets, bar_stops, bar_targets, outcome, tick_hit, bar_hit, unresolved,
  or_outcome, resolve_signal_path,
}

-- A tick or a bar on the path of a signal: which of its prices it touches, when, and the price at
-- which each would be taken.
pub record Point (R : Type 0) : Type 0 where
  pub stops : Bool
  pub targets : Bool
  pub time : ℤ
  pub stop_price : R
  pub target_price : R
  pub source : String

abbrev pub touched : {R : Type 0} → Point R → Bool
touched p = p.stops || p.targets

module _ {R : Type 0} ⦃num : Number R⦄ (plan : SignalPlan R) where
  abbrev pub tick_point : Tick R → Point R
  tick_point t = record {
    stops = tick_stops plan t;
    targets = tick_targets plan t;
    time = t.time;
    stop_price = tick_price plan t;
    target_price = tick_price plan t;
    source = "TICK";
  }

  abbrev pub bar_point : PriceBar R → Point R
  bar_point b = record {
    stops = bar_stops plan b;
    targets = bar_targets plan b;
    time = b.close_time;
    stop_price = plan.planned_stop;
    target_price = plan.planned_target;
    source = "BAR_CONSERVATIVE";
  }

  -- The ticks from the entry on, and behind them the bars that close after it.
  abbrev pub path : List (Tick R) → List (PriceBar R) → List (Point R)
  path ticks bars = map tick_point (post_ticks plan ticks) ++ map bar_point (post_bars plan bars)

  -- A point that touches both prices counts as a stop.
  abbrev pub verdict : Point R → ReplayTradeOutcome R
  verdict p =
      if p.stops
      then outcome plan stop (some p.time) (some p.stop_price) p.source
      else outcome plan target (some p.time) (some p.target_price) p.source

  walk : List (Point R) → ReplayTradeOutcome R → ReplayTradeOutcome R
  walk [] d = d
  walk (p ∷ ps) d = if touched p then verdict p else walk ps d

  walk-append :
      (ps qs : List (Point R)) (d : ReplayTradeOutcome R) → walk (ps ++ qs) d ≡ walk ps (walk qs d)
  unfolding walk
  walk-append [] qs d = refl
  walk-append (p ∷ ps) qs d = ap (λ o. if touched p then verdict p else o) (walk-append ps qs d)

  -- What a point decides, if it is touched.
  abbrev hit_point : Point R → Option (ReplayTradeOutcome R)
  hit_point p =
      if p.stops
      then some (outcome plan stop (some p.time) (some p.stop_price) p.source)
      else if p.targets
      then some (outcome plan target (some p.time) (some p.target_price) p.source)
      else none

  abbrev hit_or :
      Option (ReplayTradeOutcome R) → Option (ReplayTradeOutcome R) → Option (ReplayTradeOutcome R)
  hit_or o rest = elim o [ some found ↦ some found | none ↦ rest ]

  hit_or-walk :
      (p : Point R) (rest : Option (ReplayTradeOutcome R)) (d w : ReplayTradeOutcome R)
      → or_outcome plan rest d ≡ w
      → or_outcome plan (hit_or (hit_point p) rest) d ≡ (if touched p then verdict p else w)
  hit_or-walk p rest d w e = elim (Bool-cases p.stops) [
    | inl stopped ↦ rw (stopped) refl
    | inr clear ↦ elim (Bool-cases p.targets) [
      | inl reached ↦ rw (clear, reached) refl
      | inr short ↦ rw (clear, short) e
    ]
  ]

  first_hit-walk :
      {A : Type 0} (hit : A → Option (ReplayTradeOutcome R)) (point : A → Point R)
      → ((x : A) → hit x ≡ hit_point (point x))
      → (xs : List A) (d : ReplayTradeOutcome R)
      → or_outcome plan (first_hit hit xs) d ≡ walk (map point xs) d
  unfolding walk first_hit
  first_hit-walk hit point h [] d = refl
  first_hit-walk hit point h (x ∷ xs) d =
      ap (λ o. or_outcome plan (hit_or o (first_hit hit xs)) d) (h x)
      ∙ hit_or-walk (point x) (first_hit hit xs) d _ (first_hit-walk hit point h xs d)

  -- The first point of a path that is touched has decided, or none has.
  pub data Resolution (ps : List (Point R)) (otherwise o : ReplayTradeOutcome R) : Type 0 where
    decided :
        (before later : List (Point R)) (p : Point R)
        → ps ≡ before ++ p ∷ later
        → All (λ q. touched q ≡ false) before
        → touched p ≡ true
        → o ≡ verdict p
        → Resolution ps otherwise o
    undecided : All (λ q. touched q ≡ false) ps → o ≡ otherwise → Resolution ps otherwise o

  Resolution-cons :
      (p : Point R) (ps : List (Point R)) (d o : ReplayTradeOutcome R)
      → touched p ≡ false
      → Resolution ps d o
      → Resolution (p ∷ ps) d o
  Resolution-cons p ps d o e (decided before later q split quiet hit same) =
      decided (p ∷ before) later q (ap (λ qs. p ∷ qs) split) (e, quiet) hit same
  Resolution-cons p ps d o e (undecided quiet same) = undecided (e, quiet) same

  walk-Resolution : (ps : List (Point R)) (d : ReplayTradeOutcome R) → Resolution ps d (walk ps d)
  unfolding walk
  walk-Resolution [] d = undecided tt refl
  walk-Resolution (p ∷ ps) d = elim (Bool-cases (touched p)) [
    | inl hit ↦ rw hit (decided [] ps p refl tt hit refl)
    | inr clear ↦ rw clear (Resolution-cons p ps d (walk ps d) clear (walk-Resolution ps d))
  ]

  tick_hit_lem : (t : Tick R) → tick_hit plan t ≡ hit_point (tick_point t)
  unfolding tick_hit
  tick_hit_lem t = refl

  bar_hit_lem : (b : PriceBar R) → bar_hit plan b ≡ hit_point (bar_point b)
  unfolding bar_hit
  bar_hit_lem b = refl

  -- The outcome of a signal is that of the first point of its path, ticks before bars, that touches
  -- its stop or its target, as a stop if it touches both: what stands before that point touches
  -- neither. If no point does, the signal is open, or has no path.
  pub resolve_signal_path-Resolution :
      (ticks : List (Tick R)) (bars : List (PriceBar R))
      → Resolution
          (path ticks bars)
          (unresolved plan (post_ticks plan ticks) (post_bars plan bars))
          (resolve_signal_path plan ticks bars)
  unfolding resolve_signal_path
  resolve_signal_path-Resolution ticks bars =
      let last = unresolved plan (post_ticks plan ticks) (post_bars plan bars) in
      let ts = map tick_point (post_ticks plan ticks) in
      let bs = map bar_point (post_bars plan bars) in
      let bar_outcome = or_outcome plan (first_hit (bar_hit plan) (post_bars plan bars)) last in
      subst (Resolution (path ticks bars) last)
        (sym (
          first_hit-walk (tick_hit plan) tick_point tick_hit_lem (post_ticks plan ticks) bar_outcome
          ∙ ap (walk ts)
              (first_hit-walk (bar_hit plan) bar_point bar_hit_lem (post_bars plan bars) last)
          ∙ sym (walk-append ts bs last)))
        (walk-Resolution (path ticks bars) last)
