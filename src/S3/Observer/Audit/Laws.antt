-- ===== src/S3/Observer/Audit/Laws.antt =====
-- Which lines become events, and what the channel holds.
use s3_agent.Prelude.{
  ℕ, ◌-◌, ◌≤◌, ◌≡◌, refl, ◌⊎◌, inl, inr, false, Option, none, some, List, [], ◌∷◌, ◌++◌, append-nil,
  append_assoc, Text, codes, is_nil, length, length-append, ltb, take, arith, Option-cases, zero,
  suc, Bool-cases, ◌<◌, ltb→lt, ltb→le,
}
use s3_agent.Prelude.Int.{ℤ, pos}
use s3_agent.Strings.{split_n}
use s3_agent.S3.Types.{AuditEvent}
use s3_agent.S3.Observer.Audit.{capacity, parse_audit_line, audit_of, enqueue, offer, with_retain}

take-nil : (n : ℕ) → take {A = AuditEvent} n [] ≡ []
take-nil zero = refl
take-nil (suc n) = refl

module _ (at : Text → ℤ) where
  audit_of_sound :
      (parts : List Text) {e : AuditEvent}
      → audit_of at parts ≡ some e
      → (is_nil e.bucket ≡ false)
        × ((e.action ≡ codes "PUT") ⊎ ((e.action ≡ codes "DELETE") × (e.size_bytes ≡ pos 0)))
  audit_of_sound [] h = cc
  audit_of_sound (a ∷ []) h = cc
  audit_of_sound (a ∷ b ∷ []) h = cc
  audit_of_sound (a ∷ b ∷ c ∷ []) h = cc
  audit_of_sound (a ∷ b ∷ c ∷ d ∷ []) h = cc
  audit_of_sound (a ∷ b ∷ c ∷ d ∷ e ∷ []) h = cc
  audit_of_sound (a ∷ b ∷ c ∷ d ∷ e ∷ f ∷ []) h = cc
  audit_of_sound (a ∷ b ∷ c ∷ d ∷ e ∷ f ∷ g ∷ more) h = ground arith

  -- An event has a bucket, and is a PUT, or a DELETE of size 0.
  pub parse_audit_line_sound :
      (line : Text) {e : AuditEvent}
      → parse_audit_line at line ≡ some e
      → (is_nil e.bucket ≡ false)
        × ((e.action ≡ codes "PUT") ⊎ ((e.action ≡ codes "DELETE") × (e.size_bytes ≡ pos 0)))
  unfolding parse_audit_line
  parse_audit_line_sound line h = audit_of_sound (split_n line 32 6) h

  module _ (retain : Text → Text → Option ℕ) where
    -- The mutations of the lines, in order.
    pub mutations : List Text → List AuditEvent
    unfolding parse_audit_line
    mutations [] = []
    mutations (l ∷ ls) = elim (parse_audit_line at l) [
      | none ↦ mutations ls
      | some e ↦ with_retain at retain e ∷ mutations ls
    ]

    offer-take :
        (queue : List AuditEvent) (e : AuditEvent) (ms : List AuditEvent)
        → length queue ≤ capacity
        → offer at retain queue e ++ take (capacity - length (offer at retain queue e)) ms
          ≡ queue ++ take (capacity - length queue) (e ∷ ms)
    offer-take queue e ms h = elim (Bool-cases (ltb (length queue) capacity)) [
      | inl room ↦
          let lt : length queue < capacity = ltb→lt (length queue) capacity room in
          let left : capacity - length queue ≡ suc (capacity - length (queue ++ e ∷ [])) =
            omega (arith, length-append queue (e ∷ [])) in
          rw (room, left)
            (append_assoc queue (e ∷ []) (take (capacity - length (queue ++ e ∷ [])) ms))
      | inr full ↦
          let ge : capacity ≤ length queue = ltb→le (length queue) capacity full in
          let left : capacity - length queue ≡ 0 = omega arith in rw (full, left) refl
    ]

    offer-le :
        (queue : List AuditEvent) (e : AuditEvent)
        → length queue ≤ capacity
        → length (offer at retain queue e) ≤ capacity
    offer-le queue e h = ground (arith, length-append queue (e ∷ []))

    -- A poll appends the mutations of its lines to the channel in order, as many of the first ones
    -- as there is room for: it never exceeds its capacity, and what it drops is the end.
    pub enqueue_lem :
        (lines : List Text) (queue : List AuditEvent)
        → length queue ≤ capacity
        → enqueue at retain lines queue ≡ queue ++ take (capacity - length queue) (mutations lines)
    unfolding enqueue mutations
    enqueue_lem [] queue h = ground (arith, append-nil queue, take-nil (capacity - length queue))
    enqueue_lem (l ∷ ls) queue h = elim (Option-cases (parse_audit_line at l)) [
      | inl e ↦ ground (arith, enqueue_lem ls queue h)
      | inr (v, e) ↦
          let queue' = offer at retain queue (with_retain at retain v) in
          ground (
            arith,
            enqueue_lem ls queue' (offer-le queue (with_retain at retain v) h),
            offer-take queue (with_retain at retain v) (mutations ls) h,
          )
    ]
