-- ===== src/Iso/Reader.antt =====
-- `Read` of pkg/isoconfig/reader.go and the identity that cmd/agent/main.go resolves from it. What
-- `os.ReadFile` gives and the two decoders are parameters.
use s3_agent.Prelude.{
  ◌≡◌, refl, ◌≢◌, ◌⊎◌, inl, inr, false, none, some, Text, Result, ok, err, is_nil, if◌then◌else◌,
  arith, Result-cases, Option-cases, Bool-cases,
}
use s3_agent.Config.{NatsConfig}
use s3_agent.Iso.Metadata.{VirtualMachineMetadata, IsoMetadata, vm_id, agent_api_key}

pub data FileRead : Type 0 where
  content : Text → FileRead
  missing : FileRead
  unreadable : Text → FileRead

pub data ReadError : Type 0 where
  parsing_yaml reading_yaml parsing_json reading_json : Text → ReadError

-- The two decoders.
pub record Decoders : Type 0 where
  pub yaml : Text → Result Text VirtualMachineMetadata
  pub json : Text → Result Text VirtualMachineMetadata

module _ (d : Decoders) where
  read_json : FileRead → Result ReadError IsoMetadata
  read_json (content t) = elim (d.json t) [ err e ↦ err (parsing_json e) | ok m ↦ ok (some m) ]
  read_json missing = ok none
  read_json (unreadable e) = err (reading_json e)

  -- `Read`, of metadata.yaml and metadata.json.
  unfoldable pub read : FileRead → FileRead → Result ReadError IsoMetadata
  unfolding read_json
  read (content t) j = elim (d.yaml t) [ err e ↦ err (parsing_yaml e) | ok m ↦ ok (some m) ]
  read missing j = read_json j
  read (unreadable e) j = err (reading_yaml e)

  -- The agent's id and key: those of the ISO if it can be read and has an id, else those of the
  -- configuration.
  unfoldable pub resolve_identity : NatsConfig → FileRead → FileRead → Text × Text
  resolve_identity c y j = elim (read y j) [
    | err e ↦ (c.agent_uuid, c.api_key)
    | ok m ↦ if is_nil (vm_id m) then (c.agent_uuid, c.api_key) else (vm_id m, agent_api_key m)
  ]

  -- metadata.json decides nothing unless metadata.yaml is missing: not even if metadata.yaml cannot
  -- be read or parsed.
  pub read_yaml_first : (y j k : FileRead) → y ≢ missing → read y j ≡ read y k
  unfolding read
  read_yaml_first (content t) j k h = refl
  read_yaml_first missing j k h = elim (h refl) [ ]
  read_yaml_first (unreadable e) j k h = refl

  -- The id and the key come from one place: both from the configuration, or both from the ISO, and
  -- then the id is not empty.
  pub resolve_identity_lem :
      (c : NatsConfig) (y j : FileRead)
      → (resolve_identity c y j ≡ (c.agent_uuid, c.api_key))
        ⊎ ((m : VirtualMachineMetadata) × (read y j ≡ ok (some m))
            × (is_nil m.virtual_machine_id ≡ false)
            × (resolve_identity c y j ≡ (m.virtual_machine_id, m.agent_api_key)))
  unfolding resolve_identity vm_id agent_api_key
  resolve_identity_lem c y j = elim (Result-cases (read y j)) [
    | inr (e, h) ↦ inl (ground (arith, h))
    | inl (m, h) ↦ elim (Option-cases m) [
      | inl n ↦ inl (ground (arith, h, n))
      | inr (v, n) ↦ elim (Bool-cases (is_nil v.virtual_machine_id)) [
        | inl p ↦ inl (ground (arith, h, n, p))
        | inr p ↦ inr (v, ground (arith, h, n), p, ground (arith, h, n, p))
      ]
    ]
  ]
