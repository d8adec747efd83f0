-- ===== src/Dispatcher/Dispatch.antt =====
-- `Dispatch` of internal/dispatcher/dispatcher.go and its result helpers.
use s3_agent.Prelude.{
  ℕ, not, ◌&&◌, Option, none, some, [], if◌then◌else◌, Text, codes, Result, ok, err, ◌≟◌, is_nil,
  member,
}
use s3_agent.Prelude.Int.{pos}
use s3_agent.Config.{AgentConfig, S3Config}
use s3_agent.Protocol.{
  Envelope, ResultPayload, CommandPayload, new_envelope, type_result, status_completed,
  status_failed, status_rejected,
}
use s3_agent.S3.Manager.Base.{Env}
use s3_agent.S3.Observer.Change.{Float}
use s3_agent.Dispatcher.Types.{
  Params, no_params, Output, Failure, State, Peers, bad_command, bad_params,
  operation_not_permitted,
}
use s3_agent.Dispatcher.Distro.{empty_params}
use s3_agent.Dispatcher.Run.{run, run_full_sync}

-- `Envelope{}`, which `New` returns with an error.
abbrev pub no_envelope : Envelope Text
no_envelope = record {
  v = pos 0;
  id = [];
  message_type = [];
  agent_type = [];
  agent_uuid = [];
  timestamp = pos 0;
  reply_to = [];
  payload = [];
}

abbrev or_no_envelope : Option (Envelope Text) → Envelope Text
or_no_envelope none = no_envelope
or_no_envelope (some e) = e

module _ {O : Type 0} {fl : Float} (cfg : S3Config fl.F) (agent : AgentConfig) (env : Env)
    (peers : Peers O fl) (agent_uuid : Text) where
  abbrev pub Payload : Type 0
  Payload = ResultPayload (Output O fl.F) Failure

  -- `ResultFor` and the helpers that log its error.
  unfoldable pub result_for : ℕ → Payload → Envelope Text
  unfolding new_envelope
  result_for now r = or_no_envelope (
      new_envelope (peers.fresh now) agent_uuid agent.agent_type type_result
        (peers.encode_result r))

  abbrev pub completed : Text → Output O fl.F → Payload
  completed id out = record {
    command_id = id;
    status = status_completed;
    message = none;
    output = some out;
  }

  abbrev pub failed : Text → Failure → Payload
  failed id e = record { command_id = id; status = status_failed; message = some e; output = none }

  abbrev pub rejected : Text → Failure → Payload
  rejected id e = record {
    command_id = id;
    status = status_rejected;
    message = some e;
    output = none;
  }

  -- `d.ok` and `d.fail`
  abbrev pub outcome : Text → Result Failure (Output O fl.F) → Payload
  outcome id (ok out) = completed id out
  outcome id (err e) = failed id e

  -- The parameters of an operation other than `full_sync`.
  unfoldable pub params_of : Text → Result Text Params
  params_of raw =
      if not (is_nil raw) && not (empty_params raw) then peers.decode_params raw else ok no_params

  -- The part of `Dispatch` behind the look-up in `allowedOps`.
  unfoldable pub perform : Text → CommandPayload → State → Payload × State
  unfolding params_of
  perform id cmd s =
      if cmd.operation ≟ codes "full_sync"
      then (let (r, s') = run_full_sync cfg agent env peers cmd.params s in (outcome id r, s'))
      else elim (params_of cmd.params) [
        | err e ↦ (rejected id (bad_params e), s)
        | ok p ↦ let (r, s') = run cfg agent env peers cmd.operation p s in (outcome id r, s')
      ]

  -- The payload of the answer and the state behind it.
  unfoldable pub respond : Envelope Text → State → Payload × State
  unfolding perform
  respond e s = elim (peers.decode_command e.payload) [
    | err m ↦ (rejected e.id (bad_command m), s)
    | ok cmd ↦
        if member cmd.operation agent.allowed_operations
        then perform e.id cmd s
        else (rejected e.id (operation_not_permitted cmd.operation), s)
  ]

  -- `Dispatch`
  unfoldable pub dispatch : Envelope Text → State → Envelope Text × State
  unfolding respond result_for
  dispatch e s = let (r, s') = respond e s in (result_for s'.world.clock r, s')
