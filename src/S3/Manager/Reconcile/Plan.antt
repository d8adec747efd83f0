-- ===== src/S3/Manager/Reconcile/Plan.antt =====
-- The requests of the bucket half of `Reconcile`, whatever the gateway answers.
use s3_agent.Prelude.{
  ◌+◌, ◌≡◌, true, false, ◌||◌, List, [], ◌∷◌, ◌++◌, map, append-nil, append_assoc, Text, codes,
  if◌then◌else◌, is_nil, is_ok, arith, member, Result-cases, inl, inr,
}
use mathlib.Core.List.{map-append}
use s3_agent.Config.{S3Config}
use s3_agent.S3.Types.{BucketSpec}
use s3_agent.S3.Signer.{Request, UrlParts, Stamp, sign}
use s3_agent.S3.Manager.Base
use s3_agent.S3.Manager.Base.{Env, World, Event, sent, ran, do_s3, new_request, send}
use s3_agent.S3.Manager.Buckets.{create_bucket, delete_bucket, bucket_url, put_verb, delete_verb}
use s3_agent.S3.Manager.Reconcile.{
  Tally, tally, bucket_names, create_buckets, delete_buckets, reconcile_buckets,
}

-- The verb and the URL of a request; no text for a command.
abbrev pub summary : Event → Text × Text
summary (sent r) = (r.verb, r.url)
summary (ran a) = ([], [])

abbrev pub summaries : World → List (Text × Text)
summaries w = map summary w.trace

module _ {F : Type 0} (cfg : S3Config F) where
  -- A PUT for each desired bucket that is missing and has a name.
  unfoldable pub puts : List Text → List BucketSpec → List (Text × Text)
  puts actual [] = []
  puts actual (s ∷ specs) =
      let rest = puts actual specs in
      if member s.name actual || is_nil s.name
      then rest
      else (put_verb, (cfg.s3_url ++ (codes "/" ++ s.name))) ∷ rest

  -- A DELETE for each bucket that is there, is not desired and has a name.
  unfoldable pub deletes : List Text → List Text → List (Text × Text)
  deletes desired [] = []
  deletes desired (n ∷ names) =
      let rest = deletes desired names in
      if member n desired || is_nil n
      then rest
      else (delete_verb, (cfg.s3_url ++ (codes "/" ++ n))) ∷ rest

module _ {F : Type 0} (cfg : S3Config F) (env : Env)
    (parses : (t : Text) → is_ok (env.parse_url t) ≡ true) where
  pub sign_summary :
      (access secret region : Text) (u : UrlParts) (t : Stamp) (r : Request)
      → ((sign env.crypto access secret region u t r).verb ≡ r.verb)
        × ((sign env.crypto access secret region u t r).url ≡ r.url)
  unfolding sign
  sign_summary access secret region u t r = ground arith

  pub do_s3_summary :
      (verb url body : Text) (w : World)
      → summaries (do_s3 cfg env verb url body w).1 ≡ summaries w ++ (verb, url) ∷ []
  unfolding do_s3
  do_s3_summary verb url body w = elim (Result-cases (env.parse_url url)) [
    | inl (u, e) ↦
        let r : Request = record {
          verb = verb;
          url = url;
          host = u.host;
          headers = [];
          body = body;
        } in
        let signed =
          sign env.crypto cfg.admin_access_key cfg.admin_secret_key cfg.s3_region u
            (env.stamp w.clock) r in
        ground (
          arith,
          e,
          sign_summary cfg.admin_access_key cfg.admin_secret_key cfg.s3_region u (env.stamp w.clock)
              r,
          map-append summary w.trace (sent signed ∷ []),
        )
    | inr (x, e) ↦ absurd (ground (arith, e, parses url))
  ]

  create_bucket_summary :
      (s : BucketSpec) (w : World)
      → summaries (create_bucket cfg env s w).1 ≡ (
          if is_nil s.name
          then summaries w
          else summaries w ++ (put_verb, bucket_url cfg env s.name) ∷ [])
  unfolding create_bucket
  create_bucket_summary s w =
      ground (arith, do_s3_summary put_verb (bucket_url cfg env s.name) [] w)

  delete_bucket_summary :
      (n : Text) (w : World)
      → summaries (delete_bucket cfg env n false w).1 ≡ (
          if is_nil n then summaries w else summaries w ++ (delete_verb, bucket_url cfg env n) ∷ [])
  unfolding delete_bucket
  delete_bucket_summary n w = ground (arith, do_s3_summary delete_verb (bucket_url cfg env n) [] w)

  create_buckets_summary :
      (actual : List Text) (specs : List BucketSpec) (t : Tally) (w : World)
      → summaries (create_buckets cfg env actual specs t w).1 ≡ summaries w ++ puts cfg actual specs
  unfolding create_buckets puts
  create_buckets_summary actual [] t w = ground (arith, append-nil (summaries w))
  create_buckets_summary actual (s ∷ specs) t w =
      let (r, w') = create_bucket cfg env s w in
      let t' =
        tally (λ t. record t { buckets_created = t.buckets_created + 1 })
          (Base.create_bucket s.name) r t in
      ground (
        arith,
        create_buckets_summary actual specs t w,
        create_buckets_summary actual specs t' w',
        create_bucket_summary s w,
        append_assoc (summaries w) ((put_verb, bucket_url cfg env s.name) ∷ [])
            (puts cfg actual specs),
      )

  delete_buckets_summary :
      (desired : List Text) (names : List Text) (t : Tally) (w : World)
      → summaries (delete_buckets cfg env desired names t w).1
        ≡ summaries w ++ deletes cfg desired names
  unfolding delete_buckets deletes
  delete_buckets_summary desired [] t w = ground (arith, append-nil (summaries w))
  delete_buckets_summary desired (n ∷ names) t w =
      let (r, w') = delete_bucket cfg env n false w in
      let t' =
        tally (λ t. record t { buckets_deleted = t.buckets_deleted + 1 }) (Base.delete_bucket n) r
          t in
      ground (
        arith,
        delete_buckets_summary desired names t w,
        delete_buckets_summary desired names t' w',
        delete_bucket_summary n w,
        append_assoc (summaries w) ((delete_verb, bucket_url cfg env n) ∷ [])
            (deletes cfg desired names),
      )

  -- Where every URL can be parsed, and whatever the gateway answers, the bucket half of `Reconcile`
  -- sends these requests in this order and no others: a PUT for each desired bucket that has a name
  -- and is not in the listing, then a DELETE for each listed bucket that has a name and is not
  -- desired.
  pub reconcile_buckets_plan :
      (desired : List BucketSpec) (actual : List Text) (t : Tally) (w : World)
      → summaries (reconcile_buckets cfg env desired actual t w).1
        ≡ summaries w ++ (puts cfg actual desired ++ deletes cfg (bucket_names desired) actual)
  unfolding reconcile_buckets
  reconcile_buckets_plan desired actual t w =
      let made = create_buckets cfg env actual desired t w in
      ground (
        arith,
        create_buckets_summary actual desired t w,
        delete_buckets_summary (bucket_names desired) actual made.0 made.1,
        append_assoc (summaries w) (puts cfg actual desired)
            (deletes cfg (bucket_names desired) actual),
      )
