-- ===== src/Runtime/Lookahead.antt =====
-- The bars that a tick asks for have closed, and the bars that a replay finds are those.
use bot_ea.Base.{
  ℕ, ◌+◌, ◌≤◌, ◌≡◌, sym, ap, ◌∙◌, inl, inr, true, ◌&&◌, Option, none, some, List, [], ◌∷◌, ◌++◌,
  leb, ◌==◌, arith, Bool-cases, Option-cases, All,
}
use bot_ea.Runtime.Time.{Timeframe, duration, bar_timeframes, bucket_open, same_frame}
use bot_ea.Runtime.State.{
  BarRequest, Opens, Tick, ReferenceProfileRuntime, ReferenceRuntimeState, Bar,
}
use bot_ea.Runtime.Frames.{same_frame→eq}
use bot_ea.Runtime.Fast.{FastLaneOutput, open_of}
use bot_ea.Runtime.Buckets.{bucket_open_bounds}
use bot_ea.Runtime.Catchup.{Follows, FollowsFrom, CaughtUp, Requests, again, stopped, caught_up}
use bot_ea.Runtime.Replay.{ReplayBar, find_bar, have_durations}

-- A request for a bar of its timeframe's duration that has closed by a time.
abbrev pub IsClosedBy : ℕ → BarRequest → Type 0
IsClosedBy t q = (q.close_time ≡ q.open_time + duration q.timeframe) × (q.close_time ≤ t)

All-append : {A : Type 0} (P : A → Type 0) (xs ys : List A) → All P xs → All P ys → All P (xs ++ ys)
All-append P [] ys h k = k
All-append P (x ∷ xs) ys h k = (h.0, All-append P xs ys h.1 k)

Follows-IsClosedBy :
    (t : ℕ) (tf : Timeframe) (cursor current : ℕ) (qs : List BarRequest)
    → current ≤ t
    → Follows tf cursor current qs
    → All (IsClosedBy t) qs
Follows-IsClosedBy t tf cursor current [] le h = tt
Follows-IsClosedBy t tf cursor current (q ∷ qs) le (frame, opens, closes, before, more) = (
  (
    closes
        ∙ ap (λ d. cursor + duration d) (sym frame)
        ∙ ap (λ c. c + duration q.timeframe) (sym opens),
    omega arith,
  ),
  Follows-IsClosedBy t tf (cursor + duration tf) current qs le more,
)

FollowsFrom-IsClosedBy :
    (t : ℕ) (tf : Timeframe) (o : Option ℕ) (current : ℕ) (qs : List BarRequest)
    → current ≤ t
    → FollowsFrom tf o current qs
    → All (IsClosedBy t) qs
FollowsFrom-IsClosedBy t tf none current qs le h = rw h tt
FollowsFrom-IsClosedBy t tf (some cursor) current qs le h =
    Follows-IsClosedBy t tf cursor current qs le h

CaughtUp-IsClosedBy :
    (buckets : Opens) (t : ℕ) (tfs : List Timeframe) (qs : List BarRequest)
    → CaughtUp buckets t tfs qs
    → All (IsClosedBy t) qs
CaughtUp-IsClosedBy buckets t [] qs h = rw h tt
CaughtUp-IsClosedBy buckets t (tf ∷ tfs) qs (own, others, whole, first, rest) = rw whole (
    All-append (IsClosedBy t) own others
      (FollowsFrom-IsClosedBy t tf (open_of tf buckets) (bucket_open t tf) own
        (bucket_open_bounds t tf).0 first)
      (CaughtUp-IsClosedBy buckets t tfs others rest))

module _ {S Q P : Type 0} (r : ReferenceProfileRuntime S Q P) where
  pub on_tick-IsClosedBy :
      (s : ReferenceRuntimeState S Q) (tick : Tick Q) (out : FastLaneOutput S Q)
      → Requests r s tick out
      → All (IsClosedBy tick.time) out.bar_requests
  on_tick-IsClosedBy s tick out (again _ e) = rw e tt
  on_tick-IsClosedBy s tick out (stopped _ e) = rw e tt
  on_tick-IsClosedBy s tick out (caught_up _ _ c) =
      CaughtUp-IsClosedBy s.buckets tick.time bar_timeframes out.bar_requests c

-- A bar that is found has the open time and the duration that were asked for.
pub find_bar_lem :
    {P : Type 0} (end : ℕ) (tf : Timeframe) (t : ℕ) (bs : List (ReplayBar P)) (b : Bar P)
    → have_durations bs ≡ true
    → find_bar end tf t bs ≡ some b
    → b.close_time ≡ t + duration tf
unfolding find_bar
find_bar_lem {P} end tf t [] b d h = cc
find_bar_lem {P} end tf t (x ∷ bs) b d h =
    let test = leb x.bar.close_time end && same_frame x.timeframe tf && (x.bar.open_time == t) in
    elim (Option-cases (find_bar end tf t bs)) [
      | inr (b', found) ↦ find_bar_lem end tf t bs b (ground arith) (found ∙ rw found at h)
      | inl missing ↦ elim (Bool-cases test) [
        | inr other ↦ absurd (let failed = rw (missing, other) at h in cc)
        | inl own ↦
            let frame = same_frame→eq x.timeframe tf (ground arith) in
            let same : some x.bar ≡ some b = rw (missing, own) at h in
            let ends : x.bar.close_time ≡ x.bar.open_time + duration x.timeframe = ground arith in
            let begins : x.bar.open_time ≡ t = ground arith in
            let bar : b ≡ x.bar = cc in
            ap (λ (y : Bar P). y.close_time) bar
            ∙ ends
            ∙ ap (λ f. x.bar.open_time + duration f) frame
            ∙ ap (λ o. o + duration tf) begins
      ]
    ]
