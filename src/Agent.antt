-- ===== src/Agent.antt =====
-- cmd/agent/main.go: the parts put together. Commands arrive one after the other, as the callback of
-- one NATS subscription is called.
pub mod Laws
use s3_agent.Prelude.{
  ℕ, ◌≡◌, refl, Bool, true, false, Option, none, some, List, [], ◌∷◌, ◌++◌, Text, codes, Result, ok,
  err, is_nil, if◌then◌else◌,
}
use s3_agent.Config.{AgentConfig, S3Config}
use s3_agent.Protocol.{Envelope}
use s3_agent.Nats.{Client, Wire, Message, accept, publish, publish_to_subject}
use s3_agent.S3.Manager.Base.{Env, World}
use s3_agent.S3.Manager.Iam.{ensure_admin}
use s3_agent.S3.Observer.Change.{Float}
use s3_agent.System.{no_baseline}
use s3_agent.Dispatcher.Types.{State, Peers}
use s3_agent.Dispatcher.Dispatch.{dispatch}

-- `agentType`, with its default.
unfoldable pub agent_type_of : AgentConfig → Text
agent_type_of a = if is_nil a.agent_type then codes "storage" else a.agent_type

-- The agent and what it has published.
pub record Agent : Type 0 where
  pub state : State
  pub outbox : List Message

module _ {O : Type 0} {fl : Float} (cfg : S3Config fl.F) (agent : AgentConfig) (env : Env)
    (peers : Peers O fl) (wire : Wire) (client : Client) where
  abbrev pub typed : AgentConfig
  typed = record agent { agent_type = agent_type_of agent }

  -- The handler that `run` subscribes: the answer goes to the inbox of the caller, if there is one.
  unfoldable pub handle : Envelope Text → Agent → Agent
  unfolding publish publish_to_subject
  handle e a =
      let (answer, s) = dispatch cfg typed env peers client.agent_uuid e a.state in
      record {
        state = s;
        outbox =
            a.outbox
            ++ (if is_nil e.reply_to
                then publish wire s.world.clock client answer
                else publish_to_subject wire s.world.clock e.reply_to answer);
      }

  -- A message that arrives on the subject of the commands.
  unfoldable pub on_message : Text → Agent → Agent
  unfolding handle accept
  on_message raw a = elim (accept wire raw) [ none ↦ a | some e ↦ handle e a ]

  unfoldable pub serve : List Text → Agent → Agent
  unfolding on_message
  serve [] a = a
  serve (m ∷ ms) a = serve ms (on_message m a)

  -- The start, before the publisher runs: `EnsureAdmin`, whose error is not fatal. Nothing was
  -- published and no desired state is known.
  unfoldable pub start : World → Agent
  start w = record {
    state = record {
      world = (ensure_admin cfg env w).1;
      last_desired = none;
      telemetry_interval = none;
      published = [];
      traffic_offset = 0;
      baseline = no_baseline;
      touched = [];
    };
    outbox = [];
  }
