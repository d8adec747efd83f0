-- ===== src/Publisher/Interval.antt =====
-- `SetTelemetryInterval` of internal/publisher/publisher.go and the loop that receives from its
-- channel. The channel has room for one interval; a duration is in nanoseconds.
use s3_agent.Prelude.{
  ℕ, suc, ◌+◌, ◌≤◌, ◌⊎◌, inl, inr, ◌≡◌, refl, ap, Option, none, some, if◌then◌else◌, arith,
}
use s3_agent.Prelude.Int.{ℤ, pos, ltb_ℤ, ◌≤ℤ◌}

-- `minTelemetryInterval`, one second.
abbrev pub min_telemetry_interval : ℤ
min_telemetry_interval = pos 1000000000

-- The clamp.
unfoldable pub clamp : ℤ → ℤ
clamp d = if ltb_ℤ d min_telemetry_interval then min_telemetry_interval else d

-- A call that no other goroutine runs into: the channel holds the new interval afterwards.
unfoldable pub set_telemetry_interval : ℤ → Option ℤ → ℤ × Option ℤ
unfolding clamp
set_telemetry_interval d none = (clamp d, some (clamp d))
set_telemetry_interval d (some old) = (clamp d, some (clamp d))

-- Where the caller of `SetTelemetryInterval` stands: at the `select`, at the receive of its
-- `default` case, at the send behind it, or returned.
pub data Caller : Type 0 where
  selecting draining sending : ℤ → Caller
  returned : Caller

pub record Shared : Type 0 where
  pub caller : Caller
  pub channel : Option ℤ

-- One step of the caller, or of the telemetry loop, which receives what is in the channel.
pub data Step (s t : Shared) : Type 0 where
  -- `case p.telemetryIntervalCh <- d`, where the channel is empty.
  send_at_once :
      (d : ℤ)
      → s ≡ record { caller = selecting d; channel = none }
      → t ≡ record { caller = returned; channel = some d }
      → Step s t
  -- `default`, where the channel is full.
  take_default :
      (d old : ℤ)
      → s ≡ record { caller = selecting d; channel = some old }
      → t ≡ record { caller = draining d; channel = some old }
      → Step s t
  -- `<-p.telemetryIntervalCh`
  drain_old :
      (d old : ℤ)
      → s ≡ record { caller = draining d; channel = some old }
      → t ≡ record { caller = sending d; channel = none }
      → Step s t
  -- `p.telemetryIntervalCh <- d`
  send_new :
      (d : ℤ)
      → s ≡ record { caller = sending d; channel = none }
      → t ≡ record { caller = returned; channel = some d }
      → Step s t
  -- `newInterval := <-p.telemetryIntervalCh` in the loop.
  loop_receives : (old : ℤ) → s.channel ≡ some old → t ≡ record s { channel = none } → Step s t

pub data Reach (s : Shared) : Shared → Type 0 where
  here : Reach s s
  next : {t u : Shared} → Reach s t → Step t u → Reach s u

-- The interval that is applied is at least one second, and no shorter than the one asked for.
pub clamp_bounds : (d : ℤ) → (min_telemetry_interval ≤ℤ clamp d) × (d ≤ℤ clamp d)
unfolding clamp
clamp_bounds d = ground arith

-- A call that starts on a full channel can be left waiting for ever: if the loop receives the old
-- interval between the `select` and the receive of its `default` case, the state that is reached
-- has no next step.
pub set_telemetry_interval_stuck :
    (d old : ℤ)
    → let stuck : Shared = record { caller = draining d; channel = none } in
      Reach (record { caller = selecting d; channel = some old }) stuck
      × ((t : Shared) → ¬ Step stuck t)
set_telemetry_interval_stuck d old = (
  next (next here (take_default d old refl refl)) (loop_receives old refl refl),
  λ t. stuck_lem t,
)
  where
    stuck_lem : (t : Shared) → ¬ Step (record { caller = draining d; channel = none }) t
    stuck_lem t (send_at_once e p q) = cc
    stuck_lem t (take_default e o p q) = cc
    stuck_lem t (drain_old e o p q) = cc
    stuck_lem t (send_new e p q) = cc
    stuck_lem t (loop_receives o p q) = cc

-- The executions from a state, with the number of their steps.
pub data Run (s : Shared) : ℕ → Shared → Type 0 where
  stay : Run s 0 s
  go : {n : ℕ} {t u : Shared} → Run s n t → Step t u → Run s (suc n) u

abbrev rank : Caller → ℕ
rank (selecting d) = 3
rank (draining d) = 2
rank (sending d) = 2
rank returned = 0

abbrev waiting : Option ℤ → ℕ
waiting none = 0
waiting (some d) = 1

-- What is left to do.
abbrev measure : Shared → ℕ
measure s = rank s.caller + waiting s.channel

Step-measure : {s t : Shared} → Step s t → suc (measure t) ≤ measure s
Step-measure (send_at_once d p q) = ground (arith, p, q)
Step-measure (take_default d old p q) = ground (arith, p, q)
Step-measure (drain_old d old p q) = ground (arith, p, q)
Step-measure (send_new d p q) = ground (arith, p, q)
Step-measure (loop_receives old p q) = ground (arith, p, q)

run_measure : {s : Shared} {n : ℕ} {t : Shared} → Run s n t → n + measure t ≤ measure s
run_measure stay = omega arith
run_measure (go run step) = omega (arith, Step-measure step, run_measure run)

-- Where the caller stands in the end: it has returned, or waits for an interval that the loop took.
abbrev IsEnd : Shared → Type 0
IsEnd t = (t.channel ≡ none) × ((t.caller ≡ returned) ⊎ ((d : ℤ) × (t.caller ≡ draining d)))

progress :
    (c : Caller) (h : Option ℤ)
    → let t : Shared = record { caller = c; channel = h } in ((u : Shared) × Step t u) ⊎ IsEnd t
progress (selecting d) none = inl (_, send_at_once d refl refl)
progress (draining d) none = inr (refl, inr (d, refl))
progress (sending d) none = inl (_, send_new d refl refl)
progress returned none = inr (refl, inl refl)
progress c (some old) = inl (_, loop_receives old refl refl)

-- With the loop beside a call there are at most four steps, and there is a next one until the call
-- has returned or waits for an interval that the loop took.
set_telemetry_interval_ends :
    (d : ℤ) (h : Option ℤ) (n : ℕ) (t : Shared)
    → Run (record { caller = selecting d; channel = h }) n t
    → (n ≤ 4) × (((u : Shared) × Step t u) ⊎ IsEnd t)
set_telemetry_interval_ends d none n t run =
    (omega (arith, run_measure run), progress t.caller t.channel)
set_telemetry_interval_ends d (some old) n t run =
    (omega (arith, run_measure run), progress t.caller t.channel)

-- Where a call on an empty channel is after a number of steps: before its send, returned with the
-- interval waiting, or returned with the interval taken by the loop.
data IsDelivering (d : ℤ) (n : ℕ) (t : Shared) : Type 0 where
  starts : n ≡ 0 → t ≡ record { caller = selecting d; channel = none } → IsDelivering d n t
  waits : n ≡ 1 → t ≡ record { caller = returned; channel = some d } → IsDelivering d n t
  taken : n ≡ 2 → t ≡ record { caller = returned; channel = none } → IsDelivering d n t

Step-IsDelivering :
    (d : ℤ) (n : ℕ) {s t : Shared} → IsDelivering d n s → Step s t → IsDelivering d (suc n) t
Step-IsDelivering d n (starts m p) (send_at_once e q r) = waits (omega (arith, m)) cc
Step-IsDelivering d n (starts m p) (take_default e old q r) = cc
Step-IsDelivering d n (starts m p) (drain_old e old q r) = cc
Step-IsDelivering d n (starts m p) (send_new e q r) = cc
Step-IsDelivering d n (starts m p) (loop_receives old q r) = cc
Step-IsDelivering d n (waits m p) (send_at_once e q r) = cc
Step-IsDelivering d n (waits m p) (take_default e old q r) = cc
Step-IsDelivering d n (waits m p) (drain_old e old q r) = cc
Step-IsDelivering d n (waits m p) (send_new e q r) = cc
Step-IsDelivering d n (waits m p) (loop_receives old q r) = taken (omega (arith, m)) cc
Step-IsDelivering d n (taken m p) (send_at_once e q r) = cc
Step-IsDelivering d n (taken m p) (take_default e old q r) = cc
Step-IsDelivering d n (taken m p) (drain_old e old q r) = cc
Step-IsDelivering d n (taken m p) (send_new e q r) = cc
Step-IsDelivering d n (taken m p) (loop_receives old q r) = cc

Run-IsDelivering :
    (d : ℤ) (n : ℕ) (t : Shared)
    → Run (record { caller = selecting d; channel = none }) n t
    → IsDelivering d n t
Run-IsDelivering d n t stay = starts refl refl
Run-IsDelivering d n t (go run step) = Step-IsDelivering d _ (Run-IsDelivering d _ _ run) step

-- A call of `SetTelemetryInterval` that finds the channel empty returns with its first step, and the
-- loop takes the interval with the second: whatever runs, there are at most these two steps, after
-- any of them the call has returned, and there is a next one until the interval is taken.
pub set_telemetry_interval_returns :
    (d : ℤ) (n : ℕ) (t : Shared)
    → Run (record { caller = selecting d; channel = none }) n t
    → (n ≤ 2)
      × ((n ≡ 0) ⊎ (t.caller ≡ returned))
      × (((u : Shared) × Step t u) ⊎ (t ≡ record { caller = returned; channel = none }))
set_telemetry_interval_returns d n t run = elim (Run-IsDelivering d n t run) [
  | starts m p ↦ (omega (arith, m), inl m, inl (_, send_at_once d p refl))
  | waits m p ↦ (
    omega (arith, m),
    inr (ap (λ x. x.caller) p),
    inl (_, loop_receives d (ap (λ x. x.channel) p) refl),
  )
  | taken m p ↦ (omega (arith, m), inr (ap (λ x. x.caller) p), inr p)
]
