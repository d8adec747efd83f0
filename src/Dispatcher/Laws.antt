-- ===== src/Dispatcher/Laws.antt =====
-- What `Dispatch` answers and what it leaves as it was.
use s3_agent.Prelude.{
  ◌≡◌, refl, ◌≢◌, ◌⊎◌, inl, inr, true, false, none, some, [], ◌∷◌, ◌++◌, Text, codes, Result, ok,
  err, member, ◌≟◌, Result-cases, Option-cases, Bool-cases, arith,
}
use s3_agent.Prelude.Int.{pos}
use s3_agent.Config.{AgentConfig, S3Config}
use s3_agent.Executor.{execute}
use s3_agent.Protocol.{
  new_envelope, type_result, Envelope, CommandPayload, status_completed, status_failed,
  status_rejected,
}
use s3_agent.S3.Types.{FullSyncPayload}
use s3_agent.S3.Manager.Base.{Env, ran}
use s3_agent.S3.Observer.Change.{Float}
use s3_agent.Dispatcher.Types.{
  Params, Output, Failure, State, Peers, operation_not_permitted, exec, bad_params, bad_command,
}
use s3_agent.Dispatcher.Commands.{run_exec, run_captured, run_command}
use s3_agent.Dispatcher.Run.{run, run_op, run_full_sync}
use s3_agent.Dispatcher.Dispatch.{
  no_envelope, dispatch, result_for, respond, perform, rejected, Payload, outcome, params_of,
}
use s3_agent.Dispatcher.Desired.{run_keeps_desired, full_sync_desired}

module _ {O : Type 0} {fl : Float} (cfg : S3Config fl.F) (agent : AgentConfig) (env : Env)
    (peers : Peers O fl) (agent_uuid : Text) (e : Envelope Text) (s : State) where
  -- A command whose operation is not in `allowed_operations` is rejected by name, and nothing that
  -- the agent holds changes: no request, no command, no file.
  pub respond_unlisted :
      (cmd : CommandPayload)
      → peers.decode_command e.payload ≡ ok cmd
      → member cmd.operation agent.allowed_operations ≡ false
      → respond cfg agent env peers agent_uuid e s
        ≡ (rejected cfg agent env peers agent_uuid e.id (operation_not_permitted cmd.operation), s)
  unfolding respond
  respond_unlisted cmd d m = ground (arith, d, m)

  respond_listed :
      (cmd : CommandPayload)
      → peers.decode_command e.payload ≡ ok cmd
      → member cmd.operation agent.allowed_operations ≡ true
      → respond cfg agent env peers agent_uuid e s
        ≡ perform cfg agent env peers agent_uuid e.id cmd s
  unfolding respond
  respond_listed cmd d m = ground (arith, d, m)

  respond_undecoded :
      (x : Text)
      → peers.decode_command e.payload ≡ err x
      → respond cfg agent env peers agent_uuid e s
        ≡ (rejected cfg agent env peers agent_uuid e.id (bad_command x), s)
  unfolding respond
  respond_undecoded x d = ground (arith, d)

  -- The id of the command with an output and no message (completed), or with a message and no
  -- output (failed, or rejected with the state `s` as it was).
  unfoldable pub IsAnswer : Payload cfg agent env peers agent_uuid × State → Type 0
  IsAnswer (r, s') =
      (r.command_id ≡ e.id)
      × (((r.status ≡ status_completed)
            × (r.message ≡ none)
            × ((o : Output O fl.F) × (r.output ≡ some o)))
          ⊎ ((r.status ≡ status_failed)
              × (r.output ≡ none)
              × ((f : Failure) × (r.message ≡ some f)))
          ⊎ ((r.status ≡ status_rejected)
              × (r.output ≡ none)
              × ((f : Failure) × (r.message ≡ some f))
              × (s' ≡ s)))

  outcome-IsAnswer :
      (r : Result Failure (Output O fl.F)) (s' : State)
      → IsAnswer (outcome cfg agent env peers agent_uuid e.id r, s')
  unfolding IsAnswer
  outcome-IsAnswer (ok o) s' = (refl, inl (refl, refl, (o, refl)))
  outcome-IsAnswer (err f) s' = (refl, inr (inl (refl, refl, (f, refl))))

  rejected-IsAnswer : (f : Failure) → IsAnswer (rejected cfg agent env peers agent_uuid e.id f, s)
  unfolding IsAnswer
  rejected-IsAnswer f = (refl, inr (inr (refl, refl, (f, refl), refl)))

  perform-IsAnswer :
      (cmd : CommandPayload) → IsAnswer (perform cfg agent env peers agent_uuid e.id cmd s)
  unfolding perform
  perform-IsAnswer cmd = elim (Bool-cases (cmd.operation ≟ codes "full_sync")) [
    | inl q ↦ rw q (
        outcome-IsAnswer (run_full_sync cfg agent env peers cmd.params s).0
          (run_full_sync cfg agent env peers cmd.params s).1)
    | inr q ↦ elim (Result-cases (params_of cfg agent env peers agent_uuid cmd.params)) [
      | inl (p, h) ↦
          rw (q, h)
            (outcome-IsAnswer (run cfg agent env peers cmd.operation p s).0
              (run cfg agent env peers cmd.operation p s).1)
      | inr (x, h) ↦ rw (q, h) (rejected-IsAnswer (bad_params x))
    ]
  ]

  respond-IsAnswer : IsAnswer (respond cfg agent env peers agent_uuid e s)
  respond-IsAnswer = elim (Result-cases (peers.decode_command e.payload)) [
    | inr (x, h) ↦ rw (respond_undecoded x h) (rejected-IsAnswer (bad_command x))
    | inl (cmd, h) ↦ elim (Bool-cases (member cmd.operation agent.allowed_operations)) [
      | inl m ↦ rw (respond_listed cmd h m) (perform-IsAnswer cmd)
      | inr m ↦
          rw (respond_unlisted cmd h m) (rejected-IsAnswer (operation_not_permitted cmd.operation))
    ]
  ]

  -- An allowed `full_sync` whose payload can be read makes that payload the desired state of later
  -- `reconcile` commands, whether or not the reconciliation succeeds.
  pub respond_full_sync-last_desired :
      (cmd : CommandPayload) (payload : FullSyncPayload)
      → peers.decode_command e.payload ≡ ok cmd
      → member cmd.operation agent.allowed_operations ≡ true
      → cmd.operation ≡ codes "full_sync"
      → peers.decode_full_sync cmd.params ≡ ok payload
      → (respond cfg agent env peers agent_uuid e s).1.last_desired ≡ some payload
  unfolding respond perform
  respond_full_sync-last_desired cmd payload d m n q =
      ground (arith, d, m, full_sync_desired cfg agent env peers cmd.params s payload q)

  -- A command that can be decoded and is not `full_sync` leaves the desired state as it was.
  pub respond_other-last_desired :
      (cmd : CommandPayload)
      → peers.decode_command e.payload ≡ ok cmd
      → cmd.operation ≢ codes "full_sync"
      → (respond cfg agent env peers agent_uuid e s).1.last_desired ≡ s.last_desired
  unfolding respond perform
  respond_other-last_desired cmd d n =
      grind (arith, d, run_keeps_desired cfg agent env peers cmd.operation)

  -- `exec` runs nothing, or exactly the one command that was asked for, with its arguments, and
  -- then the command is in `allowed_commands`.
  pub run_exec_allowed :
      (p : Params)
      → let w = s.world in
        let w' = (run_op cfg agent env peers exec p s).1.world in
        ((member p.command agent.allowed_commands ≡ false) × (w' ≡ w))
        ⊎ ((member p.command agent.allowed_commands ≡ true)
            × (w'.trace
                ≡ w.trace
                  ++ ran (execute p.command p.args (env.run w.clock p.command p.args)).1 ∷ []))
  unfolding run_op run_exec run_captured run_command
  run_exec_allowed p = ground arith

  -- What `Dispatch` returns: an envelope of this protocol from this agent with the encoding of the
  -- answer, or the zero envelope, without the id of the command, where the answer cannot be encoded.
  unfoldable pub IsReply : Payload cfg agent env peers agent_uuid → Envelope Text → Type 0
  IsReply r answer =
      ((payload : Text) × (peers.encode_result r ≡ some payload)
        × (answer.payload ≡ payload)
        × (answer.v ≡ pos 1)
        × (answer.message_type ≡ type_result)
        × (answer.agent_uuid ≡ agent_uuid)
        × (answer.agent_type ≡ agent.agent_type))
      ⊎ ((peers.encode_result r ≡ none) × (answer ≡ no_envelope))

  -- `Dispatch` makes one answer of every envelope, with the id of the command and in one of three
  -- ways: completed with an output and no message, or failed or rejected with a message and no
  -- output; a rejected command has left the agent as it was. Where the answer can be encoded, that
  -- encoding is what an envelope of type "result" from this agent carries; where it cannot, the zero
  -- envelope is returned, which names no command.
  pub dispatch-IsAnswer :
      let (r, s') = respond cfg agent env peers agent_uuid e s in
      IsAnswer (r, s')
      × IsReply r (dispatch cfg agent env peers agent_uuid e s).0
      × ((dispatch cfg agent env peers agent_uuid e s).1 ≡ s')
  unfolding dispatch result_for new_envelope IsReply
  dispatch-IsAnswer =
      let (r, s') = respond cfg agent env peers agent_uuid e s in
      elim (Option-cases (peers.encode_result r)) [
        | inl q ↦ (respond-IsAnswer, inr (q, ground (arith, q)), refl)
        | inr (payload, q) ↦ (
          respond-IsAnswer,
          inl (
            payload,
            q,
            ground (arith, q),
            ground (arith, q),
            ground (arith, q),
            ground (arith, q),
            ground (arith, q),
          ),
          refl,
        )
      ]
