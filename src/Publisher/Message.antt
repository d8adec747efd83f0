-- ===== src/Publisher/Message.antt =====
-- What one event of internal/publisher puts on the wire.
use s3_agent.Prelude.{
  ℕ, ◌≡◌, inl, inr, none, some, List, [], ◌∷◌, Text, ok, err, arith, Option-cases,
}
use s3_agent.Prelude.Int.{pos}
use s3_agent.Protocol.{Envelope, new_envelope}
use s3_agent.Protocol.Uuid.{new_uuid}
use s3_agent.Nats.{Message, publish, publish_to_subject, evt_subject}
use s3_agent.Publisher.Send.{Payload, Post, publish_payload}

module _ {F G : Type 0} (post : Post F G) where
  -- An envelope of this protocol from this agent, with a fresh id, around an encoded payload.
  unfoldable pub event_envelope : ℕ → (message_type body : Text) → Envelope Text
  unfolding new_uuid
  event_envelope now message_type body = record {
    v = pos 1;
    id = new_uuid (post.fresh now).random;
    message_type = message_type;
    agent_type = post.agent_type;
    agent_uuid = post.agent_uuid;
    timestamp = (post.fresh now).now;
    reply_to = [];
    payload = body;
  }

  -- The one message of an event, on the agent's event subject; none where the payload or the envelope
  -- cannot be encoded, or the connection does not take it.
  unfoldable pub event_message : ℕ → (message_type : Text) → Payload F G → List Message
  unfolding event_envelope evt_subject
  event_message now message_type payload = elim (post.encode_payload payload) [
    | none ↦ []
    | some body ↦ elim (post.wire.encode (event_envelope now message_type body)) [
      | err x ↦ []
      | ok raw ↦ elim (post.wire.publish_error now) [
        | some x ↦ []
        | none ↦ (evt_subject post.client, raw) ∷ []
      ]
    ]
  ]

  pub publish_payload-event_message :
      (now : ℕ) (message_type : Text) (payload : Payload F G)
      → publish_payload post now message_type payload ≡ event_message now message_type payload
  unfolding publish_payload publish publish_to_subject event_message event_envelope new_envelope
  publish_payload-event_message now message_type payload =
      elim (Option-cases (post.encode_payload payload)) [
        | inl q ↦ ground (arith, q)
        | inr (body, q) ↦ ground (arith, q)
      ]
