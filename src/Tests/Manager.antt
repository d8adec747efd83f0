-- ===== src/Tests/Manager.antt =====
-- The manager's theorems at the fixtures.
use mathlib.Core.Option
use s3_agent.Prelude.{
  ◌≡◌, refl, ◌⊎◌, true, false, not, ◌&&◌, ◌||◌, Option, none, some, [], ◌∷◌, ◌++◌, Text, codes, ok,
  is_ok, member, if◌then◌else◌,
}
use s3_agent.S3.Manager.AtomicWrite.{Node, Dir, atomic_write, kept, atomic_write_atomic}
use s3_agent.S3.Manager.Iam.{list_iam, managed, found}
use s3_agent.S3.Manager.Iam.Contents.{identities}
use s3_agent.S3.Manager.Reconcile.{
  reconcile, reconcile_buckets, user_names, bucket_names, empty_result,
}
use s3_agent.S3.Manager.Buckets.Worm.{worm_request, is_there, create_worm_bucket_requests}
use s3_agent.S3.Manager.Buckets.Laws.{IsWormSpec}
use s3_agent.S3.Manager.Buckets.{put_verb, bucket_url, create_worm_bucket}
use s3_agent.S3.Signer.{Request, UrlParts, sign}
use s3_agent.S3.Manager.Reconcile.Names.{reconcile_names}
use s3_agent.S3.Manager.Reconcile.Plan.{reconcile_buckets_plan, summaries, puts, deletes}
use s3_agent.Tests.Fixtures.{
  worm, cfg, quiet, quiet-IsQuiet, no_faults, world, two_identities, bucket, desired,
}

reconcile_done : (reconcile cfg quiet desired world).0.1 ≡ ok tt
unfolding reconcile s3_agent.S3.Manager.Buckets.list_buckets s3_agent.S3.Manager.Base.do_s3 list_iam
    s3_agent.S3.Manager.Base.read_iam member s3_agent.Prelude.text_dec
    s3_agent.S3.Manager.Buckets.delete_bucket s3_agent.S3.Manager.Buckets.create_bucket
reconcile_done = refl

reconcile_names_example :
    Option.map (found (codes "ann")) (identities (reconcile cfg quiet desired world).1.iam.target)
    ≡ some (
        member (codes "ann") (user_names desired.iam_users)
        || (found (codes "ann") two_identities
            && not (member (codes "ann") (user_names (managed cfg two_identities)))))
reconcile_names_example =
    reconcile_names cfg quiet quiet-IsQuiet (codes "ann") desired world refl reconcile_done

reconcile_buckets_plan_example :
    summaries (reconcile_buckets cfg quiet (bucket ∷ []) (codes "old" ∷ []) empty_result world).1
    ≡ summaries world
      ++ (puts cfg (codes "old" ∷ []) (bucket ∷ [])
          ++ deletes cfg (bucket_names (bucket ∷ [])) (codes "old" ∷ []))
reconcile_buckets_plan_example =
    reconcile_buckets_plan cfg quiet (λ t. refl) (bucket ∷ []) (codes "old" ∷ []) empty_result world

abbrev old_file : Option (Node Text)
old_file = some (record { content = codes "old"; uid = 1; gid = 2; mode = 420 })

abbrev one_file : Dir Text
one_file = record { target = old_file; temp = none }

atomic_write_atomic_example :
    let result = atomic_write 0 0 no_faults (codes "new") 416 one_file in
    (result.1.target ≡ (
      if is_ok result.0
      then some (record {
        content = codes "new";
        uid = kept no_faults old_file (λ n. n.uid) 0;
        gid = kept no_faults old_file (λ n. n.gid) 0;
        mode = 416;
      })
      else old_file))
    × ((result.1.temp ≡ none) ⊎ ((false ≡ true) × (is_ok result.0 ≡ false)))
atomic_write_atomic_example = atomic_write_atomic 0 0 no_faults (codes "new") 416 old_file

abbrev no_parts : UrlParts
no_parts = record { host = codes "s"; escaped_path = bucket_url cfg quiet worm.name; query = [] }

abbrev worm_sent : Request
worm_sent =
    sign quiet.crypto cfg.admin_access_key cfg.admin_secret_key cfg.s3_region no_parts
      (quiet.stamp world.clock)
      (record {
        verb = put_verb;
        url = bucket_url cfg quiet worm.name;
        host = no_parts.host;
        headers = (codes "x-amz-bucket-object-lock-enabled", codes "true") ∷ [];
        body = [];
      })

worm_requested : worm_request cfg quiet worm.name world.clock ≡ ok worm_sent
unfolding s3_agent.S3.Manager.Base.new_request
worm_requested = refl

create_worm_bucket_requests_example :
    (¬ IsWormSpec worm → (create_worm_bucket cfg quiet worm world).1 ≡ world)
    × (IsWormSpec worm
        → summaries (create_worm_bucket cfg quiet worm world).1
          ≡ summaries world
            ++ (put_verb, bucket_url cfg quiet worm.name)
              ∷ (if is_there (quiet.respond world.clock worm_sent)
                  then (put_verb, bucket_url cfg quiet worm.name ++ codes "?object-lock") ∷ []
                  else []))
create_worm_bucket_requests_example =
    create_worm_bucket_requests cfg quiet (λ t. refl) worm world {r = worm_sent} worm_requested
