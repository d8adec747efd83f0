-- ===== src/Nats.antt =====
-- internal/nats/client.go: the subjects, the messages that are handed on and the ones published. The
-- connection (nats.go) and encoding/json are parameters.
use s3_agent.Prelude.{
  ℕ, Option, none, some, List, [], ◌∷◌, ◌++◌, Text, codes, Result, ok, err, is_nil, if◌then◌else◌,
}
use s3_agent.Prelude.Int.{ℤ, pos, eqb_ℤ}
use s3_agent.Config.{NatsConfig, active_url}
use s3_agent.Protocol.{Envelope}

pub record Client : Type 0 where
  pub agent_uuid : Text
  pub agent_type : Text

-- What `Connect` asks of nats.go.
pub record ConnectRequest : Type 0 where
  pub url : Text
  pub name : Text
  pub user : Text
  pub password : Text
  pub max_reconnects : ℤ
  pub reconnect_wait : ℤ

unfoldable pub connect_request : NatsConfig → Text → Text → Text → ConnectRequest
unfolding active_url
connect_request c agent_uuid agent_api_key agent_type = record {
  url = active_url c;
  name = codes "plusclouds-" ++ (agent_type ++ (codes "-agent:" ++ agent_uuid));
  user = agent_uuid;
  password = agent_api_key;
  max_reconnects = c.max_reconnects;
  reconnect_wait = c.reconnect_wait;
}

-- `Connect`; `dial` is `nats.Connect`.
unfoldable pub connect :
    (ConnectRequest → Option Text) → NatsConfig → Text → Text → Text → Result Text Client
unfolding connect_request
connect dial c agent_uuid agent_api_key agent_type =
    elim (dial (connect_request c agent_uuid agent_api_key agent_type)) [
      | some e ↦ err e
      | none ↦ ok (record {
        agent_uuid = agent_uuid;
        agent_type = if is_nil c.subject_type then agent_type else c.subject_type;
      })
    ]

-- `CmdSubject`, `EvtSubject` and `TelemetrySubject`
unfoldable pub cmd_subject : Client → Text
cmd_subject c = codes "agent." ++ (c.agent_type ++ (codes "." ++ (c.agent_uuid ++ codes ".cmd")))

unfoldable pub evt_subject : Client → Text
evt_subject c = codes "agent." ++ (c.agent_type ++ (codes "." ++ (c.agent_uuid ++ codes ".evt")))

unfoldable pub telemetry_subject : Client → Text
telemetry_subject c = c.agent_type ++ (codes "." ++ (c.agent_uuid ++ codes ".telemetry"))

-- What a subject gets.
abbrev pub Message : Type 0
Message = Text × Text

-- What the client needs of encoding/json and of the connection: the error of a publish depends on
-- the time.
pub record Wire : Type 0 where
  pub decode : Text → Result Text (Envelope Text)
  pub encode : Envelope Text → Result Text Text
  pub publish_error : ℕ → Option Text

-- The callback of `Subscribe`: the envelope that is handed to the handler, none if the message is
-- dropped.
unfoldable pub accept : Wire → Text → Option (Envelope Text)
accept wire raw = elim (wire.decode raw) [
  | err e ↦ none
  | ok e ↦ if eqb_ℤ e.v (pos 1) then some e else none
]

-- `PublishToSubject`: the messages that it sends.
unfoldable pub publish_to_subject : Wire → ℕ → Text → Envelope Text → List Message
publish_to_subject wire now subject e = elim (wire.encode e) [
  | err x ↦ []
  | ok raw ↦ elim (wire.publish_error now) [ some x ↦ [] | none ↦ (subject, raw) ∷ [] ]
]

-- `Publish`
unfoldable pub publish : Wire → ℕ → Client → Envelope Text → List Message
unfolding publish_to_subject evt_subject
publish wire now c e = publish_to_subject wire now (evt_subject c) e
