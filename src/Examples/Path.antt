-- ===== src/Examples/Path.antt =====
-- What becomes of a concrete signal on a path of ticks and bars, with integers for its prices.
use bot_ea.Base.{◌≡◌, refl, none, some, [], ◌∷◌}
use bot_ea.Base.Int.{ℤ, pos}
use bot_ea.Execution.Signal.{Tick}
use bot_ea.Runtime.Path.{
  stop, ReplayTradeOutcome, PriceBar, first_hit, keep_if, post_ticks, post_bars, outcome,
  unresolved, tick_hit, bar_hit, resolve_signal_path,
}
use bot_ea.Runtime.Resolved.{path, Resolution, resolve_signal_path-Resolution}
use bot_ea.Examples.Numbers.{integers}
use bot_ea.Examples.Execution.{plan}

abbrev quiet_tick : Tick ℤ
quiet_tick = record { time = pos 3; bid = pos 2001; ask = pos 2002; last = none; volume = pos 0 }

-- A bar that touches the stop and the target.
abbrev wild_bar : PriceBar ℤ
wild_bar = record { close_time = pos 60; high = pos 2040; low = pos 1980 }

abbrev stopped : ReplayTradeOutcome ℤ
stopped = outcome plan stop (some (pos 60)) (some (pos 1990)) "BAR_CONSERVATIVE"

wild_bar_stops : resolve_signal_path plan (quiet_tick ∷ []) (wild_bar ∷ []) ≡ stopped
unfolding resolve_signal_path first_hit keep_if tick_hit bar_hit integers
wild_bar_stops = refl

resolve_signal_path-Resolution_example :
    Resolution plan
      (path plan (quiet_tick ∷ []) (wild_bar ∷ []))
      (unresolved plan (post_ticks plan (quiet_tick ∷ [])) (post_bars plan (wild_bar ∷ [])))
      (resolve_signal_path plan (quiet_tick ∷ []) (wild_bar ∷ []))
resolve_signal_path-Resolution_example =
    resolve_signal_path-Resolution plan (quiet_tick ∷ []) (wild_bar ∷ [])
