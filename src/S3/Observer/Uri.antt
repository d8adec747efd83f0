-- ===== src/S3/Observer/Uri.antt =====
-- `extractBucketFromURI`, `splitBucketKey` and `extractAccessKey` of observer.go.
use s3_agent.Prelude.{
  ℕ, suc, ◌+◌, All-append, ◌≡◌, refl, none, some, [], ◌∷◌, ◌++◌, Text, codes, length, take, drop,
  arith,
}
use s3_agent.Strings.{index_byte, index, has_prefix, trim_prefix, Lacks}
use s3_agent.Strings.Search.{index_byte-append, take-append}
use s3_agent.S3.Signer.{authorization, signed_headers}

abbrev pub slash : ℕ
slash = b'/'

-- `uri[:idx]` at the question mark, without the slash in front.
unfoldable pub uri_path : Text → Text
uri_path uri =
    trim_prefix (elim (index_byte uri b'?') [ none ↦ uri | some i ↦ take i uri ]) (slash ∷ [])

-- `extractBucketFromURI`
unfoldable pub extract_bucket : Text → Text
unfolding uri_path
extract_bucket uri =
    let path = uri_path uri in elim (index_byte path slash) [ none ↦ path | some i ↦ take i path ]

-- `splitBucketKey`
unfoldable pub split_bucket_key : Text → Text × Text
unfolding uri_path
split_bucket_key uri =
    let path = uri_path uri in
    elim (index_byte path slash) [ none ↦ (path, []) | some i ↦ (take i path, drop (i + 1) path) ]

abbrev pub credential_mark : Text
credential_mark = codes "Credential="

-- `extractAccessKey`
unfoldable pub extract_access_key : Text → Text
extract_access_key auth = elim (index auth credential_mark) [
  | none ↦ []
  | some i ↦
      let rest = drop (i + length credential_mark) auth in
      elim (index_byte rest slash) [ none ↦ rest | some j ↦ take j rest ]
]

-- The two ways to take a URI apart give the same bucket.
pub extract_bucket-split_bucket_key : (uri : Text) → extract_bucket uri ≡ (split_bucket_key uri).0
unfolding extract_bucket split_bucket_key
extract_bucket-split_bucket_key uri = ground arith

-- A query behind a question mark is no part of the path.
uri_path-query :
    (path query : Text) → Lacks b'?' path → uri_path (slash ∷ (path ++ b'?' ∷ query)) ≡ path
unfolding uri_path trim_prefix
uri_path-query path query h = ground (
  arith,
  index_byte-append b'?' (slash ∷ path) query (omega arith, h),
  take-append (slash ∷ path) (b'?' ∷ query),
)

drop_past : (b : ℕ) (s r : Text) → drop (suc (length s)) (s ++ b ∷ r) ≡ r
drop_past b [] r = refl
drop_past b (c ∷ s) r = drop_past b s r

-- The URI of an object, with any query, is taken apart into its bucket and its key.
pub split_bucket_key-object :
    (bucket key query : Text)
    → Lacks slash bucket
    → Lacks b'?' bucket
    → Lacks b'?' key
    → split_bucket_key (slash ∷ ((bucket ++ slash ∷ key) ++ b'?' ∷ query)) ≡ (bucket, key)
unfolding split_bucket_key
split_bucket_key-object bucket key query hs hb hk = ground (
  arith,
  uri_path-query (bucket ++ slash ∷ key) query
      (All-append _ bucket (slash ∷ key) hb (omega arith, hk)),
  index_byte-append slash bucket key hs,
  take-append bucket (slash ∷ key),
  drop_past slash bucket key,
)

pub extract_access_key-authorization :
    (access_key scope sig : Text)
    → Lacks slash access_key
    → extract_access_key (authorization access_key scope sig) ≡ access_key
unfolding extract_access_key authorization index has_prefix
extract_access_key-authorization access_key scope sig h =
    let rest =
      scope ++ (codes ",SignedHeaders=" ++ (signed_headers ++ (codes ",Signature=" ++ sig))) in
    ground (arith, index_byte-append slash access_key rest h, take-append access_key (slash ∷ rest))
