-- ===== src/S3/Observer/Retain.antt =====
-- `queryRetainUntil` of observer.go: the date until which the gateway retains an object. The HTTP
-- client and `time.Parse` are parameters.
use s3_agent.Prelude.{
  ℕ, not, Option, none, [], ◌++◌, Text, codes, Result, ok, err, is_nil, ◌==◌, if◌then◌else◌,
}
use s3_agent.Config.{S3Config}
use s3_agent.S3.Signer.{Request}
use s3_agent.S3.Manager.Base.{Env, new_request}

-- The answer to a HEAD request: its status, and the header x-amz-object-lock-retain-until-date,
-- which is empty where it is absent.
pub record HeadResponse : Type 0 where
  pub status : ℕ
  pub retain_until_date : Text

module _ {F : Type 0} (cfg : S3Config F) (env : Env) (head : Request → Result Text HeadResponse)
    (parse_time : Text → Option ℕ) where
  abbrev date_of : HeadResponse → Option ℕ
  date_of r =
      if not (r.status == 200)
      then none
      else if is_nil r.retain_until_date
      then none
      else parse_time r.retain_until_date

  unfoldable pub query_retain_until : (now : ℕ) → (bucket key : Text) → Option ℕ
  unfolding new_request
  query_retain_until now bucket key =
      let url = cfg.s3_url ++ (codes "/" ++ (bucket ++ (codes "/" ++ key))) in
      elim (new_request cfg env (codes "HEAD") url [] [] now) [
        | err e ↦ none
        | ok r ↦ elim (head r) [ err e ↦ none | ok a ↦ date_of a ]
      ]
