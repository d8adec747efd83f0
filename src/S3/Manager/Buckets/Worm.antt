-- ===== src/S3/Manager/Buckets/Worm.antt =====
-- The requests of `CreateWORMBucket`.
use s3_agent.Prelude.{
  ℕ, ◌≡◌, inl, inr, Bool, true, false, ◌||◌, [], ◌∷◌, ◌++◌, append_assoc, Text, codes, Result, ok,
  err, is_ok, ltb, ◌==◌, if◌then◌else◌, arith, Result-cases,
}
use mathlib.Core.List.{map-append}
use s3_agent.Config.{S3Config}
use s3_agent.S3.Types.{WormBucketSpec}
use s3_agent.S3.Signer.{Request}
use s3_agent.S3.Manager.Base.{Env, World, Response, new_request, send, sent}
use s3_agent.S3.Manager.Buckets.{
  create_worm_bucket, put_worm_bucket, put_object_lock, bucket_url, put_verb,
}
use s3_agent.S3.Manager.Buckets.Laws.{
  check_worm_valid, IsWormSpec, create_worm_bucket_invalid, create_worm_bucket_valid,
}
use s3_agent.S3.Manager.Reconcile.Plan.{summaries, summary, sign_summary, do_s3_summary}

-- Is the bucket there after an answer to its request? A conflict means that it was there already.
abbrev pub is_there : Result Text Response → Bool
is_there (ok r) = ltb r.status 300 || r.status == 409
is_there (err e) = false

module _ {F : Type 0} (cfg : S3Config F) (env : Env) where
  -- The request that makes the bucket, at a moment.
  abbrev pub worm_request : Text → ℕ → Result s3_agent.S3.Manager.Base.Error Request
  worm_request name now =
      new_request cfg env put_verb (bucket_url cfg env name)
        ((codes "x-amz-bucket-object-lock-enabled", codes "true") ∷ []) [] now

module _ {F : Type 0} (cfg : S3Config F) (env : Env)
    (parses : (t : Text) → is_ok (env.parse_url t) ≡ true) where
  put_object_lock_summary :
      (spec : WormBucketSpec) (w : World)
      → summaries (put_object_lock cfg env spec.name spec.mode spec.retention_days w).1
        ≡ summaries w ++ (put_verb, bucket_url cfg env spec.name ++ codes "?object-lock") ∷ []
  unfolding put_object_lock
  put_object_lock_summary spec w = ground (
    arith,
    do_s3_summary cfg env parses put_verb (bucket_url cfg env spec.name ++ codes "?object-lock")
        (s3_agent.S3.Manager.Buckets.object_lock_body spec.mode spec.retention_days) w,
  )

  worm_request_lem :
      (name : Text) (now : ℕ) {r : Request}
      → worm_request cfg env name now ≡ ok r
      → (r.verb ≡ put_verb) × (r.url ≡ bucket_url cfg env name)
  unfolding new_request
  worm_request_lem name now {r} h = elim (Result-cases (env.parse_url (bucket_url cfg env name))) [
    | inl (u, e) ↦ ground (
      arith,
      e,
      h,
      sign_summary cfg env parses cfg.admin_access_key cfg.admin_secret_key cfg.s3_region u
          (env.stamp now)
          (record {
            verb = put_verb;
            url = bucket_url cfg env name;
            host = u.host;
            headers = (codes "x-amz-bucket-object-lock-enabled", codes "true") ∷ [];
            body = [];
          }),
    )
    | inr (x, e) ↦ absurd (ground (arith, e, parses (bucket_url cfg env name)))
  ]

  put_worm_bucket_summary :
      (name : Text) (w : World) {r : Request}
      → worm_request cfg env name w.clock ≡ ok r
      → summaries (put_worm_bucket cfg env name w).1
        ≡ summaries w ++ (put_verb, bucket_url cfg env name) ∷ []
  unfolding put_worm_bucket send
  put_worm_bucket_summary name w {r} h =
      ground (arith, h, worm_request_lem name w.clock h, map-append summary w.trace (sent r ∷ []))

  put_worm_bucket_answered :
      (name : Text) (w : World) {r : Request} {a : Response}
      → worm_request cfg env name w.clock ≡ ok r
      → env.respond w.clock r ≡ ok a
      → (put_worm_bucket cfg env name w).0 ≡ ok a
  unfolding put_worm_bucket send
  put_worm_bucket_answered name w h q = ground (arith, h, q)

  create_worm_bucket_unanswered :
      (spec : WormBucketSpec) (w : World) {r : Request} {e : Text}
      → IsWormSpec spec
      → worm_request cfg env spec.name w.clock ≡ ok r
      → env.respond w.clock r ≡ err e
      → (create_worm_bucket cfg env spec w).1 ≡ (put_worm_bucket cfg env spec.name w).1
  unfolding create_worm_bucket put_worm_bucket send
  create_worm_bucket_unanswered spec w v h q =
      ground (arith, check_worm_valid cfg env spec w v, h, q)

  create_worm_bucket_summary :
      (spec : WormBucketSpec) (w : World) {r : Request}
      → IsWormSpec spec
      → worm_request cfg env spec.name w.clock ≡ ok r
      → summaries (create_worm_bucket cfg env spec w).1
        ≡ summaries w
          ++ (put_verb, bucket_url cfg env spec.name)
            ∷ (if is_there (env.respond w.clock r)
                then (put_verb, bucket_url cfg env spec.name ++ codes "?object-lock") ∷ []
                else [])
  create_worm_bucket_summary spec w {r} v h = elim (Result-cases (env.respond w.clock r)) [
    | inr (e, q) ↦
        rw (create_worm_bucket_unanswered spec w v h q, q) (put_worm_bucket_summary spec.name w h)
    | inl (a, q) ↦
        let w1 = (put_worm_bucket cfg env spec.name w).1 in
        ground (
          arith,
          q,
          create_worm_bucket_valid cfg env spec w a v (put_worm_bucket_answered spec.name w h q),
          put_worm_bucket_summary spec.name w h,
          put_object_lock_summary spec w1,
          append_assoc (summaries w) ((put_verb, bucket_url cfg env spec.name) ∷ [])
              ((put_verb, bucket_url cfg env spec.name ++ codes "?object-lock") ∷ []),
        )
  ]

  -- `CreateWORMBucket`, whatever the gateway answers, if every URL parses. For a specification that is not valid nothing is
  -- sent and nothing changes. For a valid one the bucket is asked for, with object lock, and then the
  -- lock is set exactly if the gateway has answered below 300 or with a conflict; no other request is
  -- sent.
  pub create_worm_bucket_requests :
      (spec : WormBucketSpec) (w : World) {r : Request}
      → worm_request cfg env spec.name w.clock ≡ ok r
      → (¬ IsWormSpec spec → (create_worm_bucket cfg env spec w).1 ≡ w)
        × (IsWormSpec spec
            → summaries (create_worm_bucket cfg env spec w).1
              ≡ summaries w
                ++ (put_verb, bucket_url cfg env spec.name)
                  ∷ (if is_there (env.respond w.clock r)
                      then (put_verb, bucket_url cfg env spec.name ++ codes "?object-lock") ∷ []
                      else []))
  create_worm_bucket_requests spec w {r} h = (
    λ n. (create_worm_bucket_invalid cfg env spec w n).1,
    λ v. create_worm_bucket_summary spec w v h,
  )
