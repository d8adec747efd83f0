-- ===== src/S3/Observer/Audit/Signed.antt =====
-- The access key of an event of the audit log, and the one that the request was signed with.
use s3_agent.Prelude.{
  ℕ, suc, ◌≡◌, refl, sym, some, [], ◌∷◌, ◌++◌, append-nil, append_assoc, Text, codes, All-append,
  ◌∙◌, ap, arith, ◌≢◌,
}
use s3_agent.Prelude.Int.{ℤ}
use s3_agent.Strings.{split_n_loop, split_n, trim_left, trim_right, trim, Lacks}
use s3_agent.S3.Types.{AuditEvent}
use s3_agent.S3.Signer.{authorization, signed_headers}
use s3_agent.S3.Observer.Uri.{extract_access_key, extract_access_key-authorization, slash}
use s3_agent.S3.Observer.Audit.{parse_audit_line, audit_of}

abbrev space : ℕ
space = 32

abbrev quote : ℕ
quote = 34

split_n_loop-part :
    (cur s r : Text) (n : ℕ)
    → Lacks space s
    → split_n_loop cur (s ++ space ∷ r) space (suc n) ≡ (cur ++ s) ∷ split_n_loop [] r space n
unfolding split_n_loop
split_n_loop-part cur [] r n h = rw (append-nil cur) refl
split_n_loop-part cur (c ∷ s) r n (hc, hs) =
    ground (arith, split_n_loop-part (cur ++ c ∷ []) s r n hs, append_assoc cur (c ∷ []) s)

trim_left-plain : (b : ℕ) (s : Text) → Lacks b s → trim_left s b ≡ s
unfolding trim_left
trim_left-plain b [] h = refl
trim_left-plain b (c ∷ s) (hc, hs) = ground arith

trim_right-end : (b : ℕ) (s : Text) → Lacks b s → trim_right (s ++ b ∷ []) b ≡ s
unfolding trim_right
trim_right-end b [] h = ground arith
trim_right-end b (c ∷ s) (hc, hs) = ground (arith, trim_right-end b s hs)

-- The seven parts of a line, with the header in quotes.
abbrev pub audit_line : (msec method uri status len addr auth : Text) → Text
audit_line msec method uri status len addr auth =
    msec
    ++ space
      ∷ (method
          ++ space
            ∷ (uri
                ++ space
                  ∷ (status
                      ++ space
                        ∷ (len ++ space ∷ (addr ++ space ∷ (quote ∷ (auth ++ quote ∷ [])))))))

-- No part but the last holds a space.
abbrev pub AreParts : (msec method uri status len addr : Text) → Type 0
AreParts msec method uri status len addr =
    Lacks space msec
    × Lacks space method
    × Lacks space uri
    × Lacks space status
    × Lacks space len
    × Lacks space addr

split_n-audit_line :
    (msec method uri status len addr auth : Text)
    → AreParts msec method uri status len addr
    → split_n (audit_line msec method uri status len addr auth) space 6
      ≡ msec ∷ method ∷ uri ∷ status ∷ len ∷ addr ∷ (quote ∷ (auth ++ quote ∷ [])) ∷ []
unfolding split_n
split_n-audit_line msec method uri status len addr auth (a, b, c, d, e, f) =
    rw
      (
        split_n_loop-part [] msec _ 5 a,
        split_n_loop-part [] method _ 4 b,
        split_n_loop-part [] uri _ 3 c,
        split_n_loop-part [] status _ 2 d,
        split_n_loop-part [] len _ 1 e,
        split_n_loop-part [] addr _ 0 f,
      )
      refl

trim-quoted : (s : Text) → Lacks quote s → trim (quote ∷ (s ++ quote ∷ [])) quote ≡ s
unfolding trim trim_left
trim-quoted [] h = ground arith
trim-quoted (c ∷ s) (hc, hs) = ground (arith, trim_right-end quote (c ∷ s) (hc, hs))

authorization-Lacks :
    (access_key scope sig : Text)
    → Lacks quote access_key
    → Lacks quote scope
    → Lacks quote sig
    → Lacks quote (authorization access_key scope sig)
unfolding authorization
authorization-Lacks access_key scope sig a b c =
    let P : ℕ → Type 0 = λ x. x ≢ quote in
    let r3 : Text = codes ",Signature=" ++ sig in
    let r2 : Text = signed_headers ++ r3 in
    let r1 : Text = codes ",SignedHeaders=" ++ r2 in
    All-append P (codes "AWS4-HMAC-SHA256 Credential=") _ (ground arith) (
      All-append P access_key _ a (
        All-append P (codes "/") _ (ground arith) (
          All-append P scope r1 b (
            All-append P (codes ",SignedHeaders=") r2 (ground arith) (
              All-append P signed_headers r3 (ground arith)
                (All-append P (codes ",Signature=") sig (ground arith) c))))))

audit_of-key :
    (at : Text → ℤ) (msec method uri status len addr auth : Text) {e : AuditEvent}
    → audit_of at (msec ∷ method ∷ uri ∷ status ∷ len ∷ addr ∷ auth ∷ []) ≡ some e
    → e.access_key ≡ extract_access_key (trim auth quote)
audit_of-key at msec method uri status len addr auth h = ground arith

-- Where a line of the audit log, with its seven parts and the quoted Authorization header of a
-- request that was signed with an access key, becomes an event, the event shows that access key, if
-- the key has no slash, and neither the key, the scope nor the signature has a quote.
pub parse_audit_line-authorization :
    (at : Text → ℤ) (msec method uri status len addr access_key scope sig : Text) {e : AuditEvent}
    → AreParts msec method uri status len addr
    → Lacks slash access_key
    → Lacks quote access_key
    → Lacks quote scope
    → Lacks quote sig
    → parse_audit_line at
        (audit_line msec method uri status len addr (authorization access_key scope sig))
      ≡ some e
    → e.access_key ≡ access_key
unfolding parse_audit_line
parse_audit_line-authorization at msec method uri status len addr access_key scope sig {e} p s a b c
      h =
    let auth = authorization access_key scope sig in
    let key : extract_access_key (trim (quote ∷ (auth ++ quote ∷ [])) quote) ≡ access_key =
      ap extract_access_key (trim-quoted auth (authorization-Lacks access_key scope sig a b c))
      ∙ extract_access_key-authorization access_key scope sig s in
    let parts = split_n-audit_line msec method uri status len addr auth p in
    audit_of-key at msec method uri status len addr (quote ∷ (auth ++ quote ∷ []))
      (ap (audit_of at) (sym parts) ∙ h)
    ∙ key
