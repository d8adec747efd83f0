-- ===== src/Daemon/Traffic/Counted.antt =====
-- The traffic that a running agent reports, by the telemetry and by the answers to commands.
use s3_agent.Prelude.{
  ℕ, ◌≡◌, ◌∙◌, refl, ap, inl, inr, none, some, Option, List, [], ◌∷◌, ◌++◌, Text, codes, arith,
  Option-cases,
}
use s3_agent.Prelude.Int.{ℤ, pos, add64}
use s3_agent.Config.{AgentConfig}
use s3_agent.Nats.{accept}
use s3_agent.S3.Types.{TrafficStat}
use s3_agent.S3.Observer.Change.{Float}
use s3_agent.S3.Observer.Tail.{LogFile}
use s3_agent.S3.Observer.Tail.Laws.{intact}
use s3_agent.S3.Observer.Traffic.{flush}
use s3_agent.S3.Observer.Traffic.Laws.{Counter, reported}
use s3_agent.S3.Observer.Traffic.Pieces.{joined, flush_run, flush_run-flush}
use s3_agent.System.{Float64}
use s3_agent.Publisher.Send.{
  S3TelemetryPayload, s3_telemetry, s3_telemetry_payload, send_s3_telemetry,
}
use s3_agent.Publisher.Loops.{S3Wake}
use s3_agent.Publisher.Message.{event_message, publish_payload-event_message}
use s3_agent.Dispatcher.Dispatch.{dispatch, respond}
use s3_agent.Agent.{handle, on_message, typed}
use s3_agent.Daemon.{
  Setup, Daemon, Act, message, beat, s3_ticked, act, acts, on_command, on_telemetry, on_s3_tick,
  on_audit, on_watch,
}
use s3_agent.Daemon.Traffic.{answered_traffic, end_of, report_of, envelope_log, respond-report}

-- The logs that are flushed one after the other, what each flush reports, and the last offset.
unfoldable pub flush_all : List (Option LogFile) → ℕ → List (List TrafficStat) × ℕ
flush_all [] offset = ([], offset)
flush_all (f ∷ fs) offset =
    let (report, next) = flush f offset in
    let (reports, end) = flush_all fs next in (report ∷ reports, end)

module _ {O : Type 0} {fl : Float} {ns : Float64} (u : Setup O fl ns) where
  abbrev agent' : AgentConfig
  agent' = typed u.cfg u.agent u.env u.peers u.post.wire u.post.client

  -- The log that a step flushes: the one that a tick of the telemetry loop finds, or that of a
  -- command.
  unfoldable pub log_of : Act → Daemon fl.F → Option (Option LogFile)
  unfolding envelope_log
  log_of (message m) d = elim (accept u.post.wire m) [
    | none ↦ none
    | some e ↦ envelope_log u.cfg agent' u.env u.peers u.post.client.agent_uuid e d.agent.state
  ]
  log_of (s3_ticked w) d = some w.log
  log_of _ d = none

  -- The payload of a tick of the telemetry loop.
  unfoldable pub telemetry_of : S3Wake → Daemon fl.F → S3TelemetryPayload fl.F
  unfolding s3_telemetry_payload
  telemetry_of w d =
      (s3_telemetry_payload fl u.cfg w.net w.log w.now d.agent.state.traffic_offset).0

  -- The traffic that a step reports: in the answer to a command, or in the payload of the telemetry.
  unfoldable pub report_by : Act → Daemon fl.F → Option (List TrafficStat)
  unfolding respond telemetry_of
  report_by (message m) d = elim (accept u.post.wire m) [
    | none ↦ none
    | some e ↦
        answered_traffic
          (respond u.cfg agent' u.env u.peers u.post.client.agent_uuid e d.agent.state).0
  ]
  report_by (s3_ticked w) d = some (telemetry_of w d).traffic
  report_by _ d = none

  act_report :
      (a : Act) (d : Daemon fl.F)
      → let offset = d.agent.state.traffic_offset in
        (report_by a d ≡ report_of (log_of a d) offset)
        × ((act u a d).agent.state.traffic_offset ≡ end_of (log_of a d) offset)
  unfolding act log_of report_by on_command on_message handle dispatch on_s3_tick on_telemetry
      on_audit on_watch send_s3_telemetry
  act_report (message m) d = elim (Option-cases (accept u.post.wire m)) [
    | inl q ↦ ground (arith, q)
    | inr (e, q) ↦ ground (
      arith,
      q,
      respond-report u.cfg agent' u.env u.peers u.post.client.agent_uuid e d.agent.state,
    )
  ]
  act_report (beat now) d = (refl, refl)
  act_report a d = (refl, refl)

  on_s3_tick-event_message :
      (w : S3Wake) (d : Daemon fl.F)
      → (act u (s3_ticked w) d).events
        ≡ d.events
          ++ event_message u.post w.now (codes "s3_telemetry") (s3_telemetry (telemetry_of w d))
  unfolding act on_s3_tick send_s3_telemetry telemetry_of
  on_s3_tick-event_message w d =
      ap (λ ms. d.events ++ ms) (publish_payload-event_message u.post w.now _ _)

  abbrev cons_some : {A : Type 0} → Option A → List A → List A
  cons_some none xs = xs
  cons_some (some x) xs = x ∷ xs

  -- The logs that a run flushes and what it reports, in order.
  unfoldable pub logs_of : List Act → Daemon fl.F → List (Option LogFile)
  unfolding log_of act
  logs_of [] d = []
  logs_of (a ∷ more) d = cons_some (log_of a d) (logs_of more (act u a d))

  unfoldable pub reports_by : List Act → Daemon fl.F → List (List TrafficStat)
  unfolding report_by act
  reports_by [] d = []
  reports_by (a ∷ more) d = cons_some (report_by a d) (reports_by more (act u a d))

  acts-flush_all :
      (more : List Act) (d : Daemon fl.F)
      → (reports_by more d, (acts u more d).agent.state.traffic_offset)
        ≡ flush_all (logs_of more d) d.agent.state.traffic_offset
  unfolding acts logs_of reports_by flush_all
  acts-flush_all [] d = refl
  acts-flush_all (a ∷ more) d = elim (Option-cases (log_of a d)) [
    | inl e ↦ ground (arith, e, act_report a d, acts-flush_all more (act u a d))
    | inr (f, e) ↦ ground (arith, e, act_report a d, acts-flush_all more (act u a d))
  ]

-- A log that grows by lines, as it is at each flush.
unfoldable pub grown : Text → List Text → List (Option LogFile)
grown log [] = []
grown log (x ∷ xs) = let next = log ++ (x ++ 10 ∷ []) in some (intact next) ∷ grown next xs

module _ (c : Counter) (b : Text) where
  -- The sum of what the reports say of a counter of a bucket.
  unfoldable pub sum_of : List (List TrafficStat) → ℤ
  sum_of [] = pos 0
  sum_of (r ∷ rs) = add64 (reported c b r) (sum_of rs)

  sum_of-flush_run :
      (log : Text) (offset : ℕ) (xs : List Text)
      → sum_of (flush_all (grown log xs) offset).0 ≡ flush_run c b log offset xs
  unfolding sum_of flush_all grown flush_run
  sum_of-flush_run log offset [] = refl
  sum_of-flush_run log offset (x ∷ xs) =
      let next = log ++ (x ++ 10 ∷ []) in
      ap (add64 (reported c b (flush (some (intact next)) offset).0))
        (sum_of-flush_run next (flush (some (intact next)) offset).1 xs)

  -- Over any sequence of messages and wakes of the loops in which the access log grows by whole lines
  -- from one flush to the next, and no call on it fails: the values for a counter of a bucket in the
  -- payloads of the telemetry and in the answers to `s3.bucket.stats` add up to the one that a single
  -- flush of the whole log would report, so no line is in both and none is left out between them.
  -- And a tick of the telemetry sends the message of that payload, where it can be encoded and
  -- published; the values in a payload that cannot are counted here all the same.
  pub acts_counted :
      {O : Type 0} {fl : Float} {ns : Float64} (u : Setup O fl ns) (more : List Act)
      (d : Daemon fl.F) (xs : List Text)
      → d.agent.state.traffic_offset ≡ 0
      → logs_of u more d ≡ grown [] xs
      → (sum_of (reports_by u more d) ≡ reported c b (flush (some (intact (joined xs))) 0).0)
        × ((w : S3Wake) (e : Daemon fl.F)
            → (report_by u (s3_ticked w) e ≡ some (telemetry_of u w e).traffic)
              × ((act u (s3_ticked w) e).events
                  ≡ e.events
                    ++ event_message u.post w.now
                        (codes "s3_telemetry")
                        (s3_telemetry (telemetry_of u w e))))
  unfolding report_by
  acts_counted u more d xs z g = (
    ap (λ r. sum_of r.0) (acts-flush_all u more d)
        ∙ (rw (g, z) (sum_of-flush_run [] 0 xs) ∙ flush_run-flush c b xs),
    λ w e. (refl, on_s3_tick-event_message u w e),
  )
