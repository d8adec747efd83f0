-- ===== src/S3/Signer.antt =====
-- internal/modules/s3/signer.go: AWS Signature V4. The digests of crypto/hmac and crypto/sha256,
-- and the parts of a URL by net/url, are parameters.
use s3_agent.Prelude.{◌||◌, List, [], ◌∷◌, ◌++◌, if◌then◌else◌, Text, codes, is_nil}
use s3_agent.Strings.{join}

pub record Crypto : Type 0 where
  -- HMAC-SHA256 of the key and the data.
  pub hmac : Text → Text → Text
  -- SHA-256 as lower-case hexadecimal digits.
  pub sha256_hex : Text → Text
  -- `hex.EncodeToString`
  pub hex : Text → Text

-- `req.URL.Host`, `req.URL.EscapedPath()` and `req.URL.Query().Encode()`
pub record UrlParts : Type 0 where
  pub host : Text
  pub escaped_path : Text
  pub query : Text

-- The UTC time as `20060102` and as `20060102T150405Z`.
pub record Stamp : Type 0 where
  pub date : Text
  pub datetime : Text

pub record Request : Type 0 where
  pub verb : Text
  pub url : Text
  pub host : Text
  pub headers : List (Text × Text)
  pub body : Text

abbrev set_header : Text → Text → Request → Request
set_header k v r = record r { headers = r.headers ++ (k, v) ∷ [] }

abbrev newline : Text
newline = 10 ∷ []

unfoldable pub cred_scope : Text → Text → Text
cred_scope date region = date ++ codes "/" ++ region ++ codes "/s3/aws4_request"

abbrev pub signed_headers : Text
signed_headers = codes "host;x-amz-content-sha256;x-amz-date"

-- The value of the Authorization header.
unfoldable pub authorization : Text → Text → Text → Text
unfolding cred_scope
authorization access_key scope sig =
    codes "AWS4-HMAC-SHA256 Credential="
    ++ (access_key
        ++ (codes "/"
            ++ (scope
                ++ (codes ",SignedHeaders=" ++ (signed_headers ++ (codes ",Signature=" ++ sig))))))

module _ (c : Crypto) where
  unfoldable pub derive_key : Text → Text → Text → Text → Text
  derive_key secret date region service =
      c.hmac (c.hmac (c.hmac (c.hmac (codes "AWS4" ++ secret) date) region) service)
        (codes "aws4_request")

  unfoldable pub canonical_request : Request → UrlParts → Text → Text → Text
  canonical_request r u datetime payload_hash =
      join
        (r.verb
          ∷ (if is_nil u.escaped_path then codes "/" else u.escaped_path)
          ∷ u.query
          ∷ (codes "host:"
              ++ (u.host
                  ++ (newline
                      ++ (codes "x-amz-content-sha256:"
                          ++ (payload_hash
                              ++ (newline ++ (codes "x-amz-date:" ++ (datetime ++ newline))))))))
          ∷ signed_headers
          ∷ payload_hash
          ∷ [])
        newline

  unfoldable pub string_to_sign : Request → UrlParts → Stamp → Text → Text → Text
  unfolding canonical_request cred_scope
  string_to_sign r u t region payload_hash =
      join
        (codes "AWS4-HMAC-SHA256"
          ∷ t.datetime
          ∷ cred_scope t.date region
          ∷ c.sha256_hex (canonical_request r u t.datetime payload_hash)
          ∷ [])
        newline

  abbrev default_region : Text → Text
  default_region region = if is_nil region then codes "us-east-1" else region

  -- `signAWSv4`; the body of the request is the body that is hashed.
  unfoldable pub sign : Text → Text → Text → UrlParts → Stamp → Request → Request
  unfolding derive_key string_to_sign authorization
  sign access_key secret_key region u t r =
      if is_nil access_key || is_nil secret_key
      then r
      else let reg = default_region region in
        let payload_hash = c.sha256_hex r.body in
        let dated =
          set_header (codes "x-amz-content-sha256") payload_hash
            (set_header (codes "x-amz-date") t.datetime (record r { host = u.host })) in
        let sig = c.hex (
          c.hmac (derive_key secret_key t.date reg (codes "s3"))
            (string_to_sign dated u t reg payload_hash)) in
        set_header (codes "Authorization") (authorization access_key (cred_scope t.date reg) sig)
          dated
