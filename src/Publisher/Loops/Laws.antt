-- ===== src/Publisher/Loops/Laws.antt =====
-- The interval of the telemetry, and the way of the audit events from the log to the messages.
use s3_agent.Prelude.{
  if◌then◌else◌, ℕ, zero, suc, ◌-◌, ◌≤◌, ◌≡◌, ◌∙◌, refl, inl, inr, false, Option, none, some, List,
  [], ◌∷◌, ◌++◌, append-nil, append_assoc, Text, codes, length, length-append, take, is_nil, arith,
  All, Option-cases,
}
use s3_agent.Prelude.Int.{ℤ, pos, ◌≤ℤ◌}
use s3_agent.Config.{AgentConfig}
use s3_agent.Nats.{Message}
use s3_agent.S3.Types.{AuditEvent}
use s3_agent.S3.Observer.Audit.{capacity, enqueue, drain, poll, non_empty}
use s3_agent.S3.Observer.Tail.{LogFile, read_new, lines_of}
use s3_agent.S3.Observer.Audit.Laws.{mutations, enqueue_lem}
use s3_agent.System.{Float64, Host, Baseline}
use s3_agent.Publisher.Interval.{min_telemetry_interval, clamp, set_telemetry_interval}
use s3_agent.Publisher.Send.{Post, send_audit, s3_audit}
use s3_agent.Publisher.Message.{event_message, publish_payload-event_message}
use s3_agent.Publisher.Loops.{
  loop_interval, TelemetryState, TelemetryAct, set, receive, tick, telemetry_start, telemetry_step,
  telemetry_run, AuditState, AuditAct, polled, woken, audit_wake, audit_act, audit_run,
}

-- The ticker runs, and an interval that waits in the channel is at least a second.
pub record IsTicking (s : TelemetryState) : Type 0 where
  pub ticks : pos 1 ≤ℤ s.ticker
  pub waits : (d : ℤ) → s.channel ≡ some d → min_telemetry_interval ≤ℤ d

module _ {F : Type 0} (ns : Float64) (post : Post F ns.F) (host : Host ns.F) where
  pub telemetry_step-IsTicking :
      (a : TelemetryAct) (s : TelemetryState)
      → IsTicking s
      → IsTicking (telemetry_step ns post host a s)
  unfolding telemetry_step set_telemetry_interval clamp
  telemetry_step-IsTicking (set d) s h = record {
    ticks = h.ticks;
    waits = λ x p. elim (Option-cases s.channel) [
      | inl e ↦ ground (arith, e, p)
      | inr (y, e) ↦ ground (arith, e, p)
    ];
  }
  telemetry_step-IsTicking (receive now) s h = received now s.channel s.ticker s.baseline s.outbox h
    where
      received :
          (now : ℕ) (c : Option ℤ) (t : ℤ) (b : Baseline) (o : List Message)
          → IsTicking (record { channel = c; ticker = t; baseline = b; outbox = o })
          → IsTicking (
              telemetry_step ns post host
                (receive now)
                (record { channel = c; ticker = t; baseline = b; outbox = o }))
      received now none t b o h = h
      received now (some d) t b o h = record {
        ticks = omega (arith, h.waits d refl);
        waits = λ x p. cc;
      }
  telemetry_step-IsTicking (tick now) s h = record { ticks = h.ticks; waits = h.waits }

  telemetry_run-IsTicking :
      (acts : List TelemetryAct) (s : TelemetryState)
      → IsTicking s
      → IsTicking (telemetry_run ns post host acts s)
  unfolding telemetry_run
  telemetry_run-IsTicking [] s h = h
  telemetry_run-IsTicking (a ∷ acts) s h =
      telemetry_run-IsTicking acts (telemetry_step ns post host a s)
        (telemetry_step-IsTicking a s h)

  -- Whatever interval is configured, and whatever intervals are set while the loop runs: the ticker
  -- always has an interval above zero (any other makes `NewTicker` and `Reset` panic), and an
  -- interval that waits in the channel is at least a second.
  pub telemetry-IsTicking :
      (cfg : AgentConfig) (now : ℕ) (b : Baseline) (acts : List TelemetryAct)
      → IsTicking (telemetry_run ns post host acts (telemetry_start ns post host cfg now b))
  unfolding telemetry_start loop_interval
  telemetry-IsTicking cfg now b acts =
      telemetry_run-IsTicking acts (telemetry_start ns post host cfg now b)
        (record { ticks = ground arith; waits = λ d p. cc })

-- A batch, and the time at which it was sent.
abbrev pub Batch : Type 0
Batch = ℕ × List AuditEvent

pub events_of : List Batch → List AuditEvent
events_of [] = []
events_of (b ∷ bs) = b.1 ++ events_of bs

-- The messages of the batches: each is one of type "s3_audit" with the events of the batch.
pub batch_messages : {F G : Type 0} → Post F G → List Batch → List Message
unfolding event_message
batch_messages post [] = []
batch_messages post (b ∷ bs) =
    event_message post b.0 (codes "s3_audit") (s3_audit b.1) ++ batch_messages post bs

send_audit-event_message :
    {F G : Type 0} (post : Post F G) (now : ℕ) (es : List AuditEvent)
    → send_audit post now es ≡ event_message post now (codes "s3_audit") (s3_audit es)
unfolding send_audit
send_audit-event_message post now es = publish_payload-event_message post now _ _

-- The lines that a poll reads: those behind the offset that are not empty.
pub new_lines : Option LogFile → ℕ → List Text
new_lines log offset =
    let (new, next) = read_new log offset in if is_nil new then [] else non_empty (lines_of new)

module _ {F G : Type 0} (post : Post F G) (at : Text → ℤ) (retain : Text → Text → Option ℕ) where
  -- The mutations for which the channel had room, poll by poll.
  pub accepted : List AuditAct → AuditState → List AuditEvent
  unfolding audit_act
  accepted [] s = []
  accepted (polled log ∷ acts) s =
      take (capacity - length s.queue) (mutations at retain (new_lines log s.offset))
      ++ accepted acts (audit_act post at retain (polled log) s)
  accepted (woken now ∷ acts) s = accepted acts (audit_act post at retain (woken now) s)

  abbrev pub IsBatch : Batch → Type 0
  IsBatch b = is_nil b.1 ≡ false

  -- The batches that were sent over a run.
  pub record IsSent (acts : List AuditAct) (s : AuditState) (bs : List Batch) : Type 0 where
    pub messages : (audit_run post at retain acts s).outbox ≡ s.outbox ++ batch_messages post bs
    pub events :
        events_of bs ++ (audit_run post at retain acts s).queue ≡ s.queue ++ accepted acts s
    pub filled : All IsBatch bs

  take-le : (n : ℕ) (es : List AuditEvent) → length (take n es) ≤ n
  take-le zero es = omega arith
  take-le (suc n) [] = omega arith
  take-le (suc n) (e ∷ es) = omega (arith, take-le n es)

  poll-enqueue :
      (log : Option LogFile) (queue : List AuditEvent) (offset : ℕ)
      → (poll at retain log queue offset).0 ≡ enqueue at retain (new_lines log offset) queue
  unfolding poll new_lines enqueue
  poll-enqueue log queue offset = ground arith

  -- The channel after a poll.
  poll-take :
      (log : Option LogFile) (queue : List AuditEvent) (offset : ℕ)
      → length queue ≤ capacity
      → (poll at retain log queue offset).0
        ≡ queue ++ take (capacity - length queue) (mutations at retain (new_lines log offset))
  poll-take log queue offset h =
      poll-enqueue log queue offset ∙ enqueue_lem at retain (new_lines log offset) queue h

  poll-le :
      (log : Option LogFile) (queue : List AuditEvent) (offset : ℕ)
      → length queue ≤ capacity
      → length (poll at retain log queue offset).0 ≤ capacity
  poll-le log queue offset h =
      let ms = mutations at retain (new_lines log offset) in
      let room = capacity - length queue in
      rw (poll-take log queue offset h)
        (omega (arith, length-append queue (take room ms), take-le room ms))

  batches-IsSent :
      (acts : List AuditAct) (q : List AuditEvent) (n : ℕ) (o : List Message)
      → length q ≤ capacity
      → (bs : List Batch) × IsSent acts (record { queue = q; offset = n; outbox = o }) bs
  unfolding audit_run audit_act accepted events_of batch_messages audit_wake drain
  batches-IsSent [] q n o h = (
    [],
    record {
      messages = ground (arith, append-nil o);
      events = ground (arith, append-nil q);
      filled = tt;
    },
  )
  batches-IsSent (polled log ∷ acts) q n o h =
      let (q', n') = poll at retain log q n in
      let (bs, r) = batches-IsSent acts q' n' o (poll-le log q n h) in
      let s' : AuditState = record { queue = q'; offset = n'; outbox = o } in
      (
        bs,
        record {
          messages = r.messages;
          events = ground (
            arith,
            r.events,
            poll-take log q n h,
            append_assoc q (take (capacity - length q) (mutations at retain (new_lines log n)))
                (accepted acts s'),
          );
          filled = r.filled;
        },
      )
  batches-IsSent (woken now ∷ acts) [] n o h =
      let (bs, r) = batches-IsSent acts [] n o h in
      (bs, record { messages = r.messages; events = r.events; filled = r.filled })
  batches-IsSent (woken now ∷ acts) (e ∷ q) n o h =
      let o' = o ++ send_audit post now (e ∷ q) in
      let (bs, r) = batches-IsSent acts [] n o' (omega arith) in
      let s' : AuditState = record { queue = []; offset = n; outbox = o' } in
      (
        (now, e ∷ q) ∷ bs,
        record {
          messages = ground (
            arith,
            r.messages,
            send_audit-event_message post now (e ∷ q),
            append_assoc o (send_audit post now (e ∷ q)) (batch_messages post bs),
          );
          events = ground (
            arith,
            r.events,
            append_assoc (e ∷ q) (events_of bs) (audit_run post at retain acts s').queue,
          );
          filled = (refl, r.filled);
        },
      )

  -- From a channel within its capacity on, over any sequence of polls of the log and wakes of the
  -- loop: every mutation for which the channel had room is in exactly one batch or is still queued,
  -- in the order of the log; no batch is empty, and what was sent is the batches, in order, each in
  -- a message of type "s3_audit" of its own, on the agent's event subject, where it can be encoded and
  -- published.
  pub audit_run_batches :
      (acts : List AuditAct) (s : AuditState)
      → length s.queue ≤ capacity
      → (bs : List Batch) × IsSent acts s bs
  audit_run_batches acts s h = batches-IsSent acts s.queue s.offset s.outbox h
