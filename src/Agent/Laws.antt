-- ===== src/Agent/Laws.antt =====
-- What the agent does over any sequence of messages.
use s3_agent.Prelude.{
  Result, Bool, not, member, refl, ◌∙◌, ok, err, ℕ, ◌≡◌, inl, inr, true, none, some, List, [], ◌∷◌,
  ◌++◌, Text, is_ok, is_nil, if◌then◌else◌, All, arith, Result-cases, Option-cases, Bool-cases,
}
use s3_agent.Config.{AgentConfig, S3Config}
use s3_agent.Protocol.{Envelope}
use s3_agent.Nats.{Client, Wire, Message, accept, publish, publish_to_subject, evt_subject}
use s3_agent.S3.Manager.Base.{Env, World, Event}
use s3_agent.S3.Manager.Trace.Files
use s3_agent.S3.Observer.Change.{Float}
use s3_agent.Dispatcher.Types.{State, Peers}
use s3_agent.Dispatcher.Dispatch.{dispatch, respond}
use s3_agent.Dispatcher.Permitted.{Permits, admits}
use s3_agent.Dispatcher.Permitted.Answers.{respond-All}
use s3_agent.Agent.{Agent, handle, on_message, serve, start, typed}

-- The subject that an answer belongs to.
abbrev pub reply_subject : Client → Envelope Text → Text
reply_subject c e = if is_nil e.reply_to then evt_subject c else e.reply_to

-- The text of an envelope, where it can be encoded.
abbrev encoded : Result Text Text → Text
encoded (ok raw) = raw
encoded (err x) = []

module _ {O : Type 0} {fl : Float} (cfg : S3Config fl.F) (agent : AgentConfig) (env : Env)
    (peers : Peers O fl) (wire : Wire) (client : Client) where
  -- The one answer to an envelope: what `Dispatch` returns, at the inbox that the envelope names or
  -- else on the agent's event subject.
  unfoldable pub reply : Envelope Text → State → Message
  reply e s =
      let answer =
        (dispatch cfg (typed cfg agent env peers wire client) env peers client.agent_uuid e s).0 in
      (reply_subject client e, encoded (wire.encode answer))

  abbrev P : Event → Type 0
  P = Permits cfg.weed_s3_service agent.allowed_commands

  handle-All :
      (e : Envelope Text) (a : Agent)
      → All P a.state.world.trace
      → All P (handle cfg agent env peers wire client e a).state.world.trace
  unfolding handle dispatch
  handle-All e a h =
      respond-All cfg (typed cfg agent env peers wire client) env peers client.agent_uuid e a.state
        h

  serve-All :
      (ms : List Text) (a : Agent)
      → All P a.state.world.trace
      → All P (serve cfg agent env peers wire client ms a).state.world.trace
  unfolding serve on_message
  serve-All [] a h = h
  serve-All (m ∷ ms) a h = elim (Option-cases (accept wire m)) [
    | inl e ↦ ground (arith, e, serve-All ms a h)
    | inr (x, e) ↦
        ground
          (arith, e, serve-All ms (handle cfg agent env peers wire client x a) (handle-All x a h))
  ]

  -- Whatever messages arrive, and whatever the machine, the store and the network answer: from the
  -- start of the agent on, every command that it runs is the restart of the S3 service, the reload
  -- of Nginx, a reboot or a shutdown, a step of the system update, or one of the commands that are
  -- configured as allowed.
  pub serve_permitted :
      (ms : List Text) (w : World)
      → w.trace ≡ []
      → All P
          (serve cfg agent env peers wire client ms
            (start cfg agent env peers wire client w)).state.world.trace
  unfolding start
  serve_permitted ms w h =
      serve-All ms _ (Files.ensure_admin-All cfg env P (admits cfg agent env peers) w (rw h tt))

module _ {O : Type 0} {fl : Float} (cfg : S3Config fl.F) (agent : AgentConfig) (env : Env)
    (peers : Peers O fl) (wire : Wire) (client : Client)
    (encodes : (e : Envelope Text) → is_ok (wire.encode e) ≡ true)
    (publishes : (t : ℕ) → wire.publish_error t ≡ none) where
  publish_to_subject-encoded :
      (now : ℕ) (subject : Text) (e : Envelope Text)
      → publish_to_subject wire now subject e ≡ (subject, encoded (wire.encode e)) ∷ []
  unfolding publish_to_subject
  publish_to_subject-encoded now subject e = elim (Result-cases (wire.encode e)) [
    | inl (d, p) ↦ ground (arith, p, publishes now)
    | inr (x, p) ↦ ground (arith, p, encodes e)
  ]

  pub handle-reply :
      (e : Envelope Text) (a : Agent)
      → (handle cfg agent env peers wire client e a).outbox
        ≡ a.outbox ++ reply cfg agent env peers wire client e a.state ∷ []
  unfolding handle publish reply
  handle-reply e a =
      let (answer, s) =
        dispatch cfg (typed cfg agent env peers wire client) env peers client.agent_uuid e
          a.state in
      let now = s.world.clock in
      elim (Bool-cases (is_nil e.reply_to)) [
        | inl q ↦ ground (arith, q, publish_to_subject-encoded now (evt_subject client) answer)
        | inr q ↦ ground (arith, q, publish_to_subject-encoded now e.reply_to answer)
      ]

module _ {O : Type 0} {fl : Float} (cfg : S3Config fl.F) (agent : AgentConfig) (env : Env)
    (peers : Peers O fl) (wire : Wire) (client : Client) where
  -- A command that cannot be decoded or is not allowed.
  unfoldable pub is_refused : Envelope Text → Bool
  is_refused e = elim (peers.decode_command e.payload) [
    | err x ↦ true
    | ok cmd ↦ not (member cmd.operation agent.allowed_operations)
  ]

  -- A message that is dropped, or whose command is refused.
  unfoldable pub is_unlisted : Text → Bool
  unfolding is_refused
  is_unlisted m = elim (accept wire m) [ none ↦ true | some e ↦ is_refused e ]

  handle_unlisted :
      (e : Envelope Text) (a : Agent)
      → is_refused e ≡ true
      → (handle cfg agent env peers wire client e a).state ≡ a.state
  unfolding handle dispatch respond is_refused
  handle_unlisted e a h = elim (Result-cases (peers.decode_command e.payload)) [
    | inl (cmd, d) ↦ ground (arith, d, h)
    | inr (x, d) ↦ ground (arith, d)
  ]

  on_message_unlisted :
      (m : Text) (a : Agent)
      → is_unlisted m ≡ true
      → (on_message cfg agent env peers wire client m a).state ≡ a.state
  unfolding on_message is_unlisted
  on_message_unlisted m a h = elim (Option-cases (accept wire m)) [
    | inl q ↦ ground (arith, q)
    | inr (e, q) ↦ ground (arith, q, h, handle_unlisted e a)
  ]

  -- Messages that are dropped, or whose commands cannot be decoded or are not in
  -- `allowed_operations`, change nothing that the agent holds, however many arrive: no request, no
  -- command, no file, no desired state, no interval.
  pub serve_unlisted :
      (ms : List Text) (a : Agent)
      → All (λ m. is_unlisted m ≡ true) ms
      → (serve cfg agent env peers wire client ms a).state ≡ a.state
  unfolding serve
  serve_unlisted [] a h = refl
  serve_unlisted (m ∷ ms) a (h, hs) =
      serve_unlisted ms (on_message cfg agent env peers wire client m a) hs
      ∙ on_message_unlisted m a h
