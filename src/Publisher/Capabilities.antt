-- ===== src/Publisher/Capabilities.antt =====
-- `sendCapabilities` of internal/publisher/publisher.go: what the agent advertises.
use s3_agent.Prelude.{
  true, false, none, some, List, [], ◌∷◌, if◌then◌else◌, Text, codes, ◌≡◌, member, is_nil, arith,
  ◌↔◌, ◌⊎◌, inl, inr, Option-cases,
}
use s3_agent.Config.{AgentConfig}
use s3_agent.Protocol.{OperationSchema, CapabilitiesPayload}
use s3_agent.Publisher.Catalog.{operation_catalog, schema_for}

-- The operations to publish: the allowed ones, or every key of the catalog when none is
-- configured. `keys` is the order in which the range over the map visits its keys.
unfoldable pub capabilities_source : List Text → AgentConfig → List Text
capabilities_source keys cfg =
    if is_nil cfg.allowed_operations then keys else cfg.allowed_operations

-- The schemas of the operations that the catalog has.
unfoldable pub schemas : List OperationSchema → List Text → List OperationSchema
schemas catalog [] = []
schemas catalog (op ∷ ops) =
    let rest = schemas catalog ops in
    elim (schema_for op catalog) [ none ↦ rest | some s ↦ s ∷ rest ]

-- The payload of `sendCapabilities`.
unfoldable pub capabilities_payload : List Text → AgentConfig → CapabilitiesPayload
unfolding capabilities_source schemas
capabilities_payload keys cfg =
    let source = capabilities_source keys cfg in
    record {
      operations = schemas operation_catalog source;
      exec_commands = if member (codes "exec") source then cfg.allowed_commands else [];
    }

schema_for-operation :
    (op : Text) (catalog : List OperationSchema) (s : OperationSchema)
    → schema_for op catalog ≡ some s
    → s.operation ≡ op
unfolding schema_for
schema_for-operation op [] s h = cc
schema_for-operation op (t ∷ catalog) s h = ground (arith, schema_for-operation op catalog s)

-- A schema stands in the list.
unfoldable pub Has : OperationSchema → List OperationSchema → Type 0
Has s [] = ⊥
Has s (t ∷ ts) = (s ≡ t) ⊎ Has s ts

-- What is advertised is named in the source and is the catalog's schema of that name.
schemas_sound :
    (catalog : List OperationSchema) (ops : List Text) (s : OperationSchema)
    → Has s (schemas catalog ops)
    → (member s.operation ops ≡ true) × (schema_for s.operation catalog ≡ some s)
unfolding schemas Has member
schemas_sound catalog [] s h = elim h [ ]
schemas_sound catalog (op ∷ ops) s h = elim (Option-cases (schema_for op catalog)) [
  | inl e ↦ ground (arith, schemas_sound catalog ops s)
  | inr (t, e) ↦
      let q : t.operation ≡ op = schema_for-operation op catalog t e in
      ground (arith, schemas_sound catalog ops s)
]

schemas_complete :
    (catalog : List OperationSchema) (ops : List Text) (op : Text) (s : OperationSchema)
    → member op ops ≡ true
    → schema_for op catalog ≡ some s
    → Has s (schemas catalog ops)
unfolding schemas Has member
schemas_complete catalog [] op s m e = cc
schemas_complete catalog (o ∷ ops) op s m e = elim (Option-cases (schema_for o catalog)) [
  | inl f ↦ ground (arith, schemas_complete catalog ops op s)
  | inr (t, f) ↦ ground (arith, schemas_complete catalog ops op s)
]

-- When operations are configured, a schema is advertised exactly when its operation is one of them
-- and the schema is the catalog's entry for it; commands are advertised only if `exec` is allowed.
pub capabilities_payload-allowed :
    (keys : List Text) (cfg : AgentConfig) (s : OperationSchema)
    → is_nil cfg.allowed_operations ≡ false
    → (Has s (capabilities_payload keys cfg).operations ↔ (
        (member s.operation cfg.allowed_operations ≡ true)
        × (schema_for s.operation operation_catalog ≡ some s)))
      × ((member (codes "exec") cfg.allowed_operations ≡ true)
          ⊎ ((capabilities_payload keys cfg).exec_commands ≡ []))
unfolding capabilities_payload capabilities_source
capabilities_payload-allowed keys cfg s h = ground (
  arith,
  schemas_sound operation_catalog cfg.allowed_operations s,
  schemas_complete operation_catalog cfg.allowed_operations s.operation s,
)

-- When no operation is configured, every entry of the catalog that the range over the catalog
-- visits is advertised.
pub capabilities_payload-fallback :
    (keys : List Text) (cfg : AgentConfig) (op : Text) (s : OperationSchema)
    → is_nil cfg.allowed_operations ≡ true
    → member op keys ≡ true
    → schema_for op operation_catalog ≡ some s
    → Has s (capabilities_payload keys cfg).operations
unfolding capabilities_payload capabilities_source
capabilities_payload-fallback keys cfg op s h m e =
    ground (arith, schemas_complete operation_catalog keys op s)
