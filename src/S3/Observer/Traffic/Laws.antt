-- ===== src/S3/Observer/Traffic/Laws.antt =====
-- The counters that are reported for a bucket, and the sums over its lines.
use s3_agent.Prelude.{
  ◌≡◌, refl, ap, ◌∙◌, List, [], ◌∷◌, Text, if◌then◌else◌, is_nil, ◌≟◌, arith, Bool-cases, inl, inr,
}
use s3_agent.Prelude.Int.{ℤ, pos, add64}
use s3_agent.S3.Types.{TrafficStat}
use s3_agent.S3.Observer.Traffic.{Traffic, parse_traffic_line, add_traffic, collect}

-- A counter of a traffic record and of the entry of a bucket.
pub data Counter : Type 0 where
  bytes_in bytes_out requests : Counter

abbrev pub amount : Counter → Traffic → ℤ
amount bytes_in t = t.bytes_in
amount bytes_out t = t.bytes_out
amount requests t = pos 1

abbrev pub counter : Counter → TrafficStat → ℤ
counter bytes_in s = s.bytes_in
counter bytes_out s = s.bytes_out
counter requests s = s.requests

-- The counter that is reported for a bucket, 0 if it is not reported.
unfoldable pub reported : Counter → Text → List TrafficStat → ℤ
reported c b [] = pos 0
reported c b (s ∷ acc) = if s.bucket_name ≟ b then counter c s else reported c b acc

reported-add_traffic :
    (c : Counter) (b : Text) (t : Traffic) (acc : List TrafficStat)
    → reported c b (add_traffic t acc)
      ≡ (if t.bucket ≟ b then add64 (reported c b acc) (amount c t) else reported c b acc)
unfolding reported add_traffic
reported-add_traffic bytes_in b t [] = ground arith
reported-add_traffic bytes_out b t [] = ground arith
reported-add_traffic requests b t [] = ground arith
reported-add_traffic bytes_in b t (s ∷ acc) = ground (arith, reported-add_traffic bytes_in b t acc)
reported-add_traffic bytes_out b t (s ∷ acc) =
    ground (arith, reported-add_traffic bytes_out b t acc)
reported-add_traffic requests b t (s ∷ acc) = ground (arith, reported-add_traffic requests b t acc)

-- A value with the amount of a line added, if the line is the bucket's.
abbrev pub counted : Counter → Text → Text → ℤ → ℤ
counted c b l v =
    let t = parse_traffic_line l in
    if is_nil t.bucket then v else if t.bucket ≟ b then add64 v (amount c t) else v

-- The sum over the lines of one bucket, from a first value.
unfoldable pub total : Counter → Text → List Text → ℤ → ℤ
total c b [] v = v
total c b (l ∷ ls) v = total c b ls (counted c b l v)

-- What is reported for a bucket is what was reported before with the amounts of its own lines added
-- one by one: no line counts for another bucket, and lines without a bucket count for none.
pub reported-collect :
    (c : Counter) (b : Text) (ls : List Text) (acc : List TrafficStat)
    → reported c b (collect ls acc) ≡ total c b ls (reported c b acc)
unfolding collect total
reported-collect c b [] acc = refl
reported-collect c b (l ∷ ls) acc =
    let t = parse_traffic_line l in
    elim (Bool-cases (is_nil t.bucket)) [
      | inl e ↦ rw e (reported-collect c b ls acc)
      | inr e ↦ rw e (
          reported-collect c b ls (add_traffic t acc)
          ∙ ap (total c b ls) (reported-add_traffic c b t acc))
    ]
