-- ===== src/Daemon/Desired.antt =====
-- The desired state that a running agent keeps for `reconcile`.
use s3_agent.Prelude.{
  ◌≡◌, ◌∙◌, refl, inl, inr, true, none, some, Option, List, [], ◌∷◌, Text, codes, ok, err, ◌≟◌,
  ◌&&◌, if◌then◌else◌, member, arith, Result-cases, Option-cases, Bool-cases,
}
use s3_agent.Config.{AgentConfig, S3Config}
use s3_agent.Protocol.{CommandPayload}
use s3_agent.Nats.{Client, Wire, accept}
use s3_agent.S3.Types.{FullSyncPayload}
use s3_agent.S3.Manager.Base.{Env}
use s3_agent.S3.Observer.Change.{Float}
use s3_agent.System.{Float64}
use s3_agent.Dispatcher.Types.{State, Peers}
use s3_agent.Dispatcher.Run.{run_full_sync, run_reconcile}
use s3_agent.Dispatcher.Desired.{run_keeps_desired}
use s3_agent.Dispatcher.Dispatch.{dispatch, respond, perform, params_of}
use s3_agent.Agent.{Agent, handle, on_message, serve, typed}
use s3_agent.Daemon.{Setup, Daemon, Act, acts, messages_of}
use s3_agent.Daemon.Commands.{acts-serve}

module _ {O : Type 0} {fl : Float} (cfg : S3Config fl.F) (agent : AgentConfig) (env : Env)
    (peers : Peers O fl) (wire : Wire) (client : Client) where
  -- The payload of a command, if it is a `full_sync` that is allowed and can be decoded.
  unfoldable pub sync_of : CommandPayload → Option FullSyncPayload
  sync_of cmd =
      if member cmd.operation agent.allowed_operations && (cmd.operation ≟ codes "full_sync")
      then elim (peers.decode_full_sync cmd.params) [ err x ↦ none | ok p ↦ some p ]
      else none

  abbrev or_else : Option FullSyncPayload → Option FullSyncPayload → Option FullSyncPayload
  or_else (some p) old = some p
  or_else none old = old

  -- The desired state behind a message, by what the message says alone.
  unfoldable pub synced : Text → Option FullSyncPayload → Option FullSyncPayload
  unfolding sync_of
  synced m old = elim (accept wire m) [
    | none ↦ old
    | some e ↦ elim (peers.decode_command e.payload) [
      | err x ↦ old
      | ok cmd ↦ or_else (sync_of cmd) old
    ]
  ]

  unfoldable pub last_sync : List Text → Option FullSyncPayload → Option FullSyncPayload
  unfolding synced
  last_sync [] old = old
  last_sync (m ∷ ms) old = last_sync ms (synced m old)

  abbrev agent' : AgentConfig
  agent' = typed cfg agent env peers wire client

  perform_sync :
      (id : Text) (cmd : CommandPayload) (s : State)
      → member cmd.operation agent.allowed_operations ≡ true
      → (perform cfg agent' env peers client.agent_uuid id cmd s).1.last_desired
        ≡ or_else (sync_of cmd) s.last_desired
  unfolding perform sync_of run_full_sync run_reconcile
  perform_sync id cmd s m = elim (Bool-cases (cmd.operation ≟ codes "full_sync")) [
    | inl q ↦ ground (arith, q, m)
    | inr q ↦ elim (Result-cases (params_of cfg agent' env peers client.agent_uuid cmd.params)) [
      | inl (p, e) ↦
          ground (arith, q, m, e, run_keeps_desired cfg agent' env peers cmd.operation p s)
      | inr (x, e) ↦ ground (arith, q, m, e)
    ]
  ]

  on_message-synced :
      (m : Text) (a : Agent)
      → (on_message cfg agent env peers wire client m a).state.last_desired
        ≡ synced m a.state.last_desired
  unfolding on_message handle dispatch respond synced
  on_message-synced m a = elim (Option-cases (accept wire m)) [
    | inl q ↦ ground (arith, q)
    | inr (e, q) ↦ elim (Result-cases (peers.decode_command e.payload)) [
      | inr (x, d) ↦ ground (arith, q, d)
      | inl (cmd, d) ↦ elim (Bool-cases (member cmd.operation agent.allowed_operations)) [
        | inl n ↦ ground (arith, q, d, n, perform_sync e.id cmd a.state n)
        | inr n ↦ ground (arith, q, d, n)
      ]
    ]
  ]

  serve-synced :
      (ms : List Text) (a : Agent)
      → (serve cfg agent env peers wire client ms a).state.last_desired
        ≡ last_sync ms a.state.last_desired
  unfolding serve last_sync
  serve-synced [] a = refl
  serve-synced (m ∷ ms) a = ground (
    arith,
    serve-synced ms (on_message cfg agent env peers wire client m a),
    on_message-synced m a,
  )

module _ {O : Type 0} {fl : Float} {ns : Float64} (u : Setup O fl ns) where
  -- Over any sequence of messages and wakes of the loops, the desired state that a later `reconcile`
  -- uses is the payload of the last `full_sync` among the messages that is allowed and can be
  -- decoded, and the earlier one if there is none, whatever else was asked for or failed.
  pub acts-last_desired :
      (more : List Act) (d : Daemon fl.F)
      → (acts u more d).agent.state.last_desired
        ≡ last_sync u.cfg u.agent u.env u.peers u.post.wire u.post.client
            (messages_of more)
            d.agent.state.last_desired
  acts-last_desired more d =
      (acts-serve u more d).desired
      ∙ serve-synced u.cfg u.agent u.env u.peers u.post.wire u.post.client (messages_of more)
          d.agent
