-- ===== src/Daemon/Sent.antt =====
-- Where a running agent sends what it sends.
use s3_agent.Prelude.{
  ℕ, ◌≡◌, inl, inr, true, none, some, Option, List, [], ◌∷◌, ◌++◌, append-nil, append_assoc, Text,
  is_ok, All, All-append, arith, Result-cases, Option-cases,
}
use s3_agent.Protocol.{Envelope, CapabilitiesPayload, type_capabilities}
use s3_agent.Nats.{accept, Client, Message, publish, publish_to_subject, evt_subject}
use s3_agent.S3.Observer.Change.{Float, detect_change}
use s3_agent.S3.Observer.Poll.{Net, poll_cluster}
use s3_agent.Iso.Metadata.{IsoMetadata}
use s3_agent.S3.Types.{AuditEvent}
use s3_agent.System.{Float64, Host, Baseline}
use s3_agent.System.Metrics.{system_info, system_metrics}
use s3_agent.Publisher.Send.{
  Payload, Post, publish_payload, send_heartbeat, send_telemetry, send_s3_telemetry, send_health,
  send_audit, capabilities,
}
use s3_agent.Publisher.Loops.{
  TelemetryAct, receive, tick, set, telemetry_step, polled, woken, audit_act, audit_wake,
  TelemetryState,
}
use s3_agent.Agent.{on_message}
use s3_agent.Agent.Laws.{reply, handle-reply}
use s3_agent.Daemon.{
  telemetry_view, Setup, Daemon, Act, message, beat, telemetry_received, telemetry_ticked,
  s3_ticked, audit, watch_polled, act, acts, on_command, on_telemetry, on_s3_tick, on_audit,
  on_watch, advertised, capabilities_events,
}

-- A message on the agent's event subject.
abbrev pub IsEvent : Client → Message → Type 0
IsEvent c m = m.0 ≡ evt_subject c

module _ {F G : Type 0} (post : Post F G) where
  abbrev E : Message → Type 0
  E = IsEvent post.client

  publish-All : (now : ℕ) (e : Envelope Text) → All E (publish post.wire now post.client e)
  unfolding publish publish_to_subject
  publish-All now e = ground arith

  publish_payload-All :
      (now : ℕ) (t : Text) (p : Payload F G) → All E (publish_payload post now t p)
  unfolding publish_payload
  publish_payload-All now t p = grind (arith, publish-All)

  send_heartbeat-All :
      (iso : Option IsoMetadata) (host : Host G) (now : ℕ)
      → All E (send_heartbeat post iso host now)
  unfolding send_heartbeat
  send_heartbeat-All iso host now = elim (Result-cases (system_info iso host now)) [
    | inr (e, q) ↦ ground (arith, q)
    | inl (i, q) ↦ rw (q, send_heartbeat) (publish_payload-All now _ _)
  ]

  audit_wake-All :
      (now n : ℕ) (q : List AuditEvent) (o : List Message)
      → All E o
      → All E (audit_wake post now (record { queue = q; offset = n; outbox = o })).outbox
  unfolding audit_wake send_audit
  audit_wake-All now n [] o h = h
  audit_wake-All now n (e ∷ q) o h = All-append E _ _ h (publish_payload-All now _ _)

module _ {F : Type 0} (ns : Float64) (post : Post F ns.F) (host : Host ns.F) where
  send_telemetry-All : (now : ℕ) (b : Baseline) → All (E post) (send_telemetry ns post host now b).0
  unfolding send_telemetry
  send_telemetry-All now b = elim (Result-cases (system_metrics ns host now b).0) [
    | inr (e, q) ↦ ground (arith, q)
    | inl (m, q) ↦ rw (q, send_telemetry) (publish_payload-All post now _ _)
  ]

  telemetry_step-All :
      (a : TelemetryAct) (s : TelemetryState)
      → All (E post) s.outbox
      → All (E post) (telemetry_step ns post host a s).outbox
  unfolding telemetry_step
  telemetry_step-All (set d) s h = h
  telemetry_step-All (tick now) s h = All-append (E post) _ _ h (send_telemetry-All now s.baseline)
  telemetry_step-All (receive now) s h = elim (Option-cases s.channel) [
    | inl e ↦ ground (arith, e, h)
    | inr (d, e) ↦ ground (
      arith,
      e,
      All-append (E post) s.outbox (send_telemetry ns post host now s.baseline).0 h
          (send_telemetry-All now s.baseline),
    )
  ]

module _ {O : Type 0} {fl : Float} {ns : Float64} (u : Setup O fl ns) where
  -- The answers to the messages of a run, in order: each in the state in which its message arrives.
  unfoldable pub answers : List Act → Daemon fl.F → List Message
  unfolding act reply
  answers [] d = []
  answers (message m ∷ more) d =
      let rest = answers more (act u (message m) d) in
      elim (accept u.post.wire m) [
        | none ↦ rest
        | some e ↦
            reply u.cfg u.agent u.env u.peers u.post.wire u.post.client e d.agent.state ∷ rest
      ]
  answers (a ∷ more) d = answers more (act u a d)

  abbrev AreEvents : List Message → Type 0
  AreEvents = All (IsEvent u.post.client)

  append-AreEvents : (xs ys : List Message) → AreEvents xs → AreEvents ys → AreEvents (xs ++ ys)
  append-AreEvents xs ys h k = All-append (IsEvent u.post.client) xs ys h k

  capabilities_events-All :
      (now : ℕ) (ps : List CapabilitiesPayload) → AreEvents (capabilities_events u now ps)
  unfolding capabilities_events
  capabilities_events-All now [] = tt
  capabilities_events-All now (p ∷ ps) =
      append-AreEvents _ _ (publish_payload-All u.post now type_capabilities (capabilities p))
        (capabilities_events-All now ps)

  watch_event-All :
      (now : ℕ) (net : Net) (d : Daemon fl.F)
      → AreEvents
          (elim (detect_change fl u.cfg.capacity_warn_pct u.cfg.capacity_critical_pct d.watched
            (poll_cluster fl u.cfg net now)) [
              | none ↦ []
              | some reason ↦ send_health u.post now (poll_cluster fl u.cfg net now) reason
            ])
  unfolding send_health
  watch_event-All now net d =
      elim (Option-cases (
        detect_change fl u.cfg.capacity_warn_pct u.cfg.capacity_critical_pct d.watched
          (poll_cluster fl u.cfg net now))) [
            | inl e ↦ ground (arith, e)
            | inr (r, e) ↦ rw e (publish_payload-All u.post now _ _)
          ]

  act-AreEvents : (a : Act) (d : Daemon fl.F) → AreEvents d.events → AreEvents (act u a d).events
  unfolding act on_command advertised on_telemetry on_s3_tick on_audit on_watch send_s3_telemetry
      audit_act
  act-AreEvents (message m) d h = append-AreEvents _ _ h (capabilities_events-All _ _)
  act-AreEvents (beat now) d h = append-AreEvents _ _ h (send_heartbeat-All u.post u.iso u.host now)
  act-AreEvents (telemetry_received now) d h =
      telemetry_step-All ns u.post u.host (receive now) (telemetry_view u d) h
  act-AreEvents (telemetry_ticked now) d h =
      telemetry_step-All ns u.post u.host (tick now) (telemetry_view u d) h
  act-AreEvents (s3_ticked w) d h = append-AreEvents _ _ h (publish_payload-All u.post _ _ _)
  act-AreEvents (audit (polled log)) d h = h
  act-AreEvents (audit (woken now)) d h =
      audit_wake-All u.post now d.audit_offset d.queue d.events h
  act-AreEvents (watch_polled now net) d h = append-AreEvents _ _ h (watch_event-All now net d)

  acts-AreEvents :
      (more : List Act) (d : Daemon fl.F) → AreEvents d.events → AreEvents (acts u more d).events
  unfolding acts
  acts-AreEvents [] d h = h
  acts-AreEvents (a ∷ more) d h = acts-AreEvents more (act u a d) (act-AreEvents a d h)

module _ {O : Type 0} {fl : Float} {ns : Float64} (u : Setup O fl ns)
    (encodes : (e : Envelope Text) → is_ok (u.post.wire.encode e) ≡ true)
    (publishes : (t : ℕ) → u.post.wire.publish_error t ≡ none) where
  acts-outbox :
      (more : List Act) (d : Daemon fl.F)
      → (acts u more d).agent.outbox ≡ d.agent.outbox ++ answers u more d
  unfolding acts act answers on_command on_message on_telemetry on_s3_tick on_audit on_watch
  acts-outbox [] d = ground (arith, append-nil d.agent.outbox)
  acts-outbox (message m ∷ more) d = elim (Option-cases (accept u.post.wire m)) [
    | inl q ↦ ground (arith, q, acts-outbox more (on_command u m d))
    | inr (e, q) ↦
        let r = reply u.cfg u.agent u.env u.peers u.post.wire u.post.client e d.agent.state in
        ground (
          arith,
          q,
          acts-outbox more (on_command u m d),
          handle-reply u.cfg u.agent u.env u.peers u.post.wire u.post.client encodes publishes e
              d.agent,
          append_assoc d.agent.outbox (r ∷ []) (answers u more (on_command u m d)),
        )
  ]
  acts-outbox (beat now ∷ more) d = acts-outbox more (act u (beat now) d)
  acts-outbox (telemetry_received now ∷ more) d =
      acts-outbox more (act u (telemetry_received now) d)
  acts-outbox (telemetry_ticked now ∷ more) d = acts-outbox more (act u (telemetry_ticked now) d)
  acts-outbox (s3_ticked w ∷ more) d = acts-outbox more (act u (s3_ticked w) d)
  acts-outbox (audit a ∷ more) d = acts-outbox more (act u (audit a) d)
  acts-outbox (watch_polled now net ∷ more) d = acts-outbox more (act u (watch_polled now net) d)

  -- Where envelopes can be encoded and the connection takes them, over any sequence of messages and
  -- wakes of the loops: every message that is a command of this protocol gets exactly one answer, in
  -- the order of arrival, which is what `Dispatch` returns for it in the state of that moment, at the
  -- inbox that it names or else on the agent's event subject; no other message gets one, and all that
  -- the publisher sends goes to the event subject.
  pub acts_sent :
      (more : List Act) (d : Daemon fl.F)
      → All (IsEvent u.post.client) d.events
      → ((acts u more d).agent.outbox ≡ d.agent.outbox ++ answers u more d)
        × All (IsEvent u.post.client) (acts u more d).events
  acts_sent more d h = (acts-outbox more d, acts-AreEvents u more d h)
