-- ===== src/Daemon/Commands.antt =====
-- What the commands do in a running agent, whatever the loops do between them.
use s3_agent.Prelude.{refl, inl, inr, List, [], ◌∷◌, Text, arith, Option-cases}
use s3_agent.Nats.{accept}
use s3_agent.S3.Observer.Change.{Float}
use s3_agent.System.{Float64}
use s3_agent.Dispatcher.Dispatch.{dispatch}
use s3_agent.Agent.{Agent, handle, on_message, serve, typed}
use s3_agent.Daemon.{
  Setup, Daemon, Act, message, beat, telemetry_received, telemetry_ticked, s3_ticked, audit,
  watch_polled, act, acts, messages_of, on_command, on_telemetry, on_s3_tick, on_audit, on_watch,
}
use s3_agent.Daemon.Shade.{AreAlike, respond-AreAlike}

module _ {O : Type 0} {fl : Float} {ns : Float64} (u : Setup O fl ns) where
  abbrev serve_all : List Text → Agent → Agent
  serve_all = serve u.cfg u.agent u.env u.peers u.post.wire u.post.client

  on_message-AreAlike :
      (m : Text) (a b : Agent)
      → AreAlike a.state b.state
      → AreAlike
          (on_message u.cfg u.agent u.env u.peers u.post.wire u.post.client m a).state
          (on_message u.cfg u.agent u.env u.peers u.post.wire u.post.client m b).state
  unfolding on_message handle dispatch
  on_message-AreAlike m a b h = elim (Option-cases (accept u.post.wire m)) [
    | inl q ↦ ground (arith, q, h)
    | inr (e, q) ↦ ground (
      arith,
      q,
      respond-AreAlike u.cfg (typed u.cfg u.agent u.env u.peers u.post.wire u.post.client) u.env
          u.peers u.post.client.agent_uuid e a.state b.state h,
    )
  ]

  pub acts-AreAlike :
      (more : List Act) (d : Daemon fl.F) (a : Agent)
      → AreAlike d.agent.state a.state
      → AreAlike (acts u more d).agent.state (serve_all (messages_of more) a).state
  unfolding acts act serve messages_of on_command on_telemetry on_s3_tick on_audit on_watch
  acts-AreAlike [] d a h = h
  acts-AreAlike (message m ∷ more) d a h =
      acts-AreAlike more (on_command u m d) _ (on_message-AreAlike m d.agent a h)
  acts-AreAlike (beat now ∷ more) d a h = acts-AreAlike more (act u (beat now) d) a h
  acts-AreAlike (telemetry_received now ∷ more) d a h =
      acts-AreAlike more (act u (telemetry_received now) d) a
        (record { worlds = h.worlds; desired = h.desired })
  acts-AreAlike (telemetry_ticked now ∷ more) d a h =
      acts-AreAlike more (act u (telemetry_ticked now) d) a
        (record { worlds = h.worlds; desired = h.desired })
  acts-AreAlike (s3_ticked w ∷ more) d a h =
      acts-AreAlike more (act u (s3_ticked w) d) a
        (record { worlds = h.worlds; desired = h.desired })
  acts-AreAlike (audit x ∷ more) d a h =
      acts-AreAlike more (act u (audit x) d) a (record { worlds = h.worlds; desired = h.desired })
  acts-AreAlike (watch_polled now net ∷ more) d a h =
      acts-AreAlike more (act u (watch_polled now net) d) a
        (record { worlds = h.worlds; desired = h.desired })

  -- Whatever the loops do between the commands, and in whatever order: the two files, the requests
  -- that the manager has sent, the commands that were run, and the desired state are those of the same
  -- messages with no loop running. The requests of the observer, which the loops do send, are no part
  -- of this: they are in `touched`.
  pub acts-serve :
      (more : List Act) (d : Daemon fl.F)
      → AreAlike (acts u more d).agent.state (serve_all (messages_of more) d.agent).state
  acts-serve more d = acts-AreAlike more d d.agent (record { worlds = refl; desired = refl })
