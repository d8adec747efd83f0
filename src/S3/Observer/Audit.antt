-- ===== src/S3/Observer/Audit.antt =====
-- `auditTailer` of observer.go: the mutations that the audit log shows. The time of the float in
-- the first field, the WORM date that the gateway answers and the channel's reader are parameters.
pub mod Laws
pub mod Signed
use s3_agent.Prelude.{
  ℕ, ◌+◌, ◌≡◌, refl, Bool, true, false, not, ◌&&◌, ◌||◌, Option, none, some, List, [], ◌∷◌, ◌++◌,
  Text, codes, if◌then◌else◌, is_nil, ◌≟◌, length, ltb, ◌==◌,
}
use s3_agent.Prelude.Int.{ℤ, pos}
use s3_agent.Strings.{split_n, trim}
use s3_agent.Strings.Numbers.{parse_int}
use s3_agent.S3.Types.{AuditEvent}
use s3_agent.S3.Observer.Uri.{split_bucket_key, extract_access_key}
use s3_agent.S3.Observer.Tail.{LogFile, read_new, lines_of}
use s3_agent.S3.Observer.Traffic.{not_success}

abbrev is_mutation : Text → Bool
is_mutation method = method ≟ codes "PUT" || method ≟ codes "POST" || method ≟ codes "DELETE"

-- The capacity of the channel.
abbrev pub capacity : ℕ
capacity = 512

-- The loop of `readNewLines` over the lines, which drops empty ones.
unfoldable pub non_empty : List Text → List Text
non_empty [] = []
non_empty (l ∷ ls) = let rest = non_empty ls in if is_nil l then rest else l ∷ rest

-- `at` reads the instant of the first field: `ParseFloat`, split into seconds and nanoseconds.
module _ (at : Text → ℤ) where
  abbrev event_of : Text → Text → Text → Text → Text → Text → AuditEvent
  event_of msec method uri len addr auth =
      let (bucket, key) = split_bucket_key uri in
      record {
        bucket = bucket;
        object_key = key;
        action = if method ≟ codes "POST" then codes "PUT" else method;
        size_bytes = if method ≟ codes "DELETE" then pos 0 else parse_int len;
        retain_until = none;
        access_key = extract_access_key (trim auth 34);
        client_ip = addr;
        performed_at = at msec;
      }

  abbrev audit_of : List Text → Option AuditEvent
  audit_of (msec ∷ method ∷ uri ∷ status ∷ len ∷ addr ∷ auth ∷ more) =
      if not (is_mutation method)
      then none
      else if not_success (parse_int status)
      then none
      else if is_nil (split_bucket_key uri).0
      then none
      else some (event_of msec method uri len addr auth)
  audit_of _ = none

  -- `parseAuditLine`: seven parts, the last one with its spaces.
  unfoldable pub parse_audit_line : Text → Option AuditEvent
  parse_audit_line line = audit_of (split_n line 32 6)

  -- `queryRetainUntil` is asked for objects that were put.
  module _ (retain : Text → Text → Option ℕ) where
    abbrev with_retain : AuditEvent → AuditEvent
    with_retain e =
        if e.action ≟ codes "PUT" && not (is_nil e.object_key)
        then record e { retain_until = retain e.bucket e.object_key }
        else e

    -- A send that does not wait: the event is dropped where the channel is full.
    abbrev offer : List AuditEvent → AuditEvent → List AuditEvent
    offer queue e = if ltb (length queue) capacity then queue ++ e ∷ [] else queue

    -- The loop of `poll`; the channel is not read meanwhile.
    unfoldable pub enqueue : List Text → List AuditEvent → List AuditEvent
    unfolding parse_audit_line
    enqueue [] queue = queue
    enqueue (l ∷ ls) queue = elim (parse_audit_line l) [
      | none ↦ enqueue ls queue
      | some e ↦ enqueue ls (offer queue (with_retain e))
    ]

    -- `poll`, with the channel and the offset after it.
    unfoldable pub poll : Option LogFile → List AuditEvent → ℕ → List AuditEvent × ℕ
    unfolding enqueue non_empty read_new lines_of
    poll f queue offset =
        let (new, next) = read_new f offset in
        (if is_nil new then queue else enqueue (non_empty (lines_of new)) queue, next)

-- The buckets and the keys that a poll asks `queryRetainUntil` for, in order.
module _ (at : Text → ℤ) where
  unfoldable pub retain_queries : List Text → List (Text × Text)
  unfolding parse_audit_line
  retain_queries [] = []
  retain_queries (l ∷ ls) =
      let rest = retain_queries ls in
      elim (parse_audit_line at l) [
        | none ↦ rest
        | some e ↦
            if e.action ≟ codes "PUT" && not (is_nil e.object_key)
            then (e.bucket, e.object_key) ∷ rest
            else rest
      ]

  unfoldable pub poll_queries : Option LogFile → ℕ → List (Text × Text)
  unfolding retain_queries non_empty read_new lines_of
  poll_queries f offset =
      let new = (read_new f offset).0 in
      if is_nil new then [] else retain_queries (non_empty (lines_of new))

-- The batch of `auditLoop` of internal/publisher/publisher.go: all that is queued.
unfoldable pub drain : List AuditEvent → List AuditEvent × List AuditEvent
drain queue = (queue, [])
