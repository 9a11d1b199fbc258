-- ===== src/Runtime/NoFuture.antt =====
-- A replay never reads a bar that was still open.
use bot_ea.Base.{
  ℕ, ◌≤◌, ◌≡◌, refl, sym, ◌∙◌, ◌≢◌, Bool, true, false, not, ◌&&◌, Option, none, some, List, [], ◌∷◌,
  ltb, str_eq, arith, if◌then◌else◌, All, is_empty, count, ◌==◌, leb,
}
use bot_ea.Runtime.State.{
  Result, ok, err, future_bar, crossed_contract, crossed_profile, Tick, Bar, BarRequest,
  ReferenceRuntimeState, ReferenceProfileRuntime,
}
use bot_ea.Runtime.Fast.{on_tick}
use bot_ea.Runtime.Bars.{on_bar_close}
use bot_ea.Runtime.Catchup.{on_tick-Requests}
use bot_ea.Runtime.Lookahead.{IsClosedBy, on_tick-IsClosedBy, find_bar_lem}
use bot_ea.Runtime.Causal.{Causal, Causal->>=, if-Causal, on_tick-Causal, on_bar_close-Causal}
use bot_ea.Runtime.Replay.{
  ReplayBar, Contract, CausalReplayDataset, CausalReplayReport, Progress, find_bar, have_durations,
  is_dataset, same_contract, ascending, repeats_bar, ticks_until, close_with, close_bars,
  replay_tick, replay_ticks, replay_from, run,
}

not-future : {A : Type 0} (m : Result A) → Causal m → m ≢ err future_bar
not-future (ok a) h e = cc
not-future (err x) h e = absurd (let same : x ≡ future_bar = cc in let failed = rw same at h in cc)

first_holds : (a b c d e f g : Bool) → (a && b && c && d && e && f && g) ≡ true → a ≡ true
first_holds a b c d e f g h = ground arith

is_dataset-have_durations :
    {Q P : Type 0} (d : CausalReplayDataset Q P)
    → is_dataset d ≡ true
    → have_durations d.bars ≡ true
unfolding is_dataset
is_dataset-have_durations d h =
    first_holds (have_durations d.bars) (not (is_empty d.contract.profile_id))
      (count d.contract.profile_fingerprint == 64) (not (is_empty d.contract.symbol))
      (leb d.warmup_until d.replay_end) (ascending d.ticks) (not (repeats_bar d.bars)) h

in_time : (t c : ℕ) → c ≤ t → ltb t c ≡ false
in_time t c h = ground arith

module _ {S Q P : Type 0} (r : ReferenceProfileRuntime S Q P) (end : ℕ) (bars : List (ReplayBar P))
    (whole : have_durations bars ≡ true) where
  close_with-Causal :
      (o : Option (Bar P)) (tick : Tick Q) (q : BarRequest) (p : Progress S Q)
      → ((b : Bar P) → o ≡ some b → b.close_time ≤ tick.time)
      → Causal (close_with r end bars o tick q p)
  unfolding close_with
  close_with-Causal none tick q p h = refl
  close_with-Causal (some bar) tick q p h = rw (in_time tick.time bar.close_time (h bar refl)) (
      Causal->>= (on_bar_close r p.state q bar) _ (on_bar_close-Causal r p.state q bar) (λ _ _. tt))

  close_bars-Causal :
      (tick : Tick Q) (qs : List BarRequest) (p : Progress S Q)
      → All (IsClosedBy tick.time) qs
      → Causal (close_bars r end bars tick qs p)
  unfolding close_bars
  close_bars-Causal tick [] p h = tt
  close_bars-Causal tick (q ∷ qs) p h =
      let found = find_bar end q.timeframe q.open_time bars in
      Causal->>= (close_with r end bars found tick q p) _
        (close_with-Causal found tick q p (λ b e.
          let closes = find_bar_lem end q.timeframe q.open_time bars b whole e in
          rw (closes ∙ sym h.0.0) h.0.1))
        (λ p' _. close_bars-Causal tick qs p' h.1)

  replay_tick-Causal : (tick : Tick Q) (p : Progress S Q) → Causal (replay_tick r end bars tick p)
  unfolding replay_tick
  replay_tick-Causal tick p =
      Causal->>= (on_tick r p.state tick) _ (on_tick-Causal r p.state tick) (λ fast e.
        close_bars-Causal tick fast.bar_requests _
          (on_tick-IsClosedBy r p.state tick fast (on_tick-Requests r p.state tick fast e)))

  replay_ticks-Causal :
      (ts : List (Tick Q)) (p : Progress S Q) → Causal (replay_ticks r end bars ts p)
  unfolding replay_ticks
  replay_ticks-Causal [] p = tt
  replay_ticks-Causal (t ∷ ts) p =
      Causal->>= (replay_tick r end bars t p) _ (replay_tick-Causal t p)
        (λ p' _. replay_ticks-Causal ts p')

module _ {S Q P : Type 0} (r : ReferenceProfileRuntime S Q P) (own : Contract) where
  replay_from-Causal :
      (d : CausalReplayDataset Q P) (initial : ReferenceRuntimeState S Q) (ts : List (Tick Q))
      → have_durations d.bars ≡ true
      → Causal (replay_from r own d initial ts)
  replay_from-Causal d initial [] h = refl
  replay_from-Causal d initial (t ∷ ts) h =
      Causal->>= (replay_ticks r d.replay_end d.bars (t ∷ ts) _) _
        (replay_ticks-Causal r d.replay_end d.bars h (t ∷ ts) _) (λ _ _. tt)

  -- A replay of a data set whose constructor accepts it never ends in the error of a bar that was
  -- read before it had closed, whatever the engine, the guard and the initial state are: the runtime
  -- asks for closed bars only.
  pub run-ne-future_bar :
      (d : CausalReplayDataset Q P) (initial : ReferenceRuntimeState S Q)
      → is_dataset d ≡ true
      → run r own d initial ≢ err future_bar
  unfolding run
  run-ne-future_bar d initial h =
      let rest = replay_from r own d initial (ticks_until d.replay_end d.ticks) in
      let checked : Result (CausalReplayReport S Q) =
        if not (str_eq initial.profile_id own.profile_id) then err crossed_profile else rest in
      not-future (run r own d initial) (
        if-Causal (not (same_contract d.contract own)) (err crossed_contract) checked refl (
          if-Causal (not (str_eq initial.profile_id own.profile_id)) (err crossed_profile) rest refl
            (replay_from-Causal d initial (ticks_until d.replay_end d.ticks)
              (is_dataset-have_durations d h))))
