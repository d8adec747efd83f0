-- ===== src/S3/Observer/Traffic/Order.antt =====
-- A traffic report as what it says of each bucket. Go ranges over the map of `flush` in any order,
-- and the report is the list that comes out.
use mathlib.Core.Logic.{∥∥₁_elim}
use mathlib.Core.Quot
use mathlib.Core.Quot.{Quot, Quot-set}
use mathlib.Core.Path.{subst}
use mathlib.Core.List.{Perm, Permᴰ}
use mathlib.Core.List.Permᴰ.{nil, cons, swap, trans}
use s3_agent.Prelude.{
  ◌≡◌, ◌≢◌, ◌∙◌, refl, ap, sym, List, [], ◌∷◌, Text, arith, All, is_nil, Bool-cases, inl, inr,
  text_dec,
}
use s3_agent.Prelude.Int.{ℤ, add64, add64_assoc, add64_comm}
use s3_agent.S3.Types.{TrafficStat}
use s3_agent.S3.Observer.Traffic.{Traffic, parse_traffic_line, add_traffic, collect}
use s3_agent.S3.Observer.Traffic.Laws.{Counter, amount, reported, counted, total, reported-collect}

-- Two lists that say the same of every bucket.
abbrev pub SameReport : List TrafficStat → List TrafficStat → Type 0
SameReport xs ys = (c : Counter) (b : Text) → reported c b xs ≡ reported c b ys

abbrev pub Report : Type 0
Report = Quot SameReport

add64_swap : (v a b : ℤ) → add64 (add64 v a) b ≡ add64 (add64 v b) a
add64_swap v a b = add64_assoc v a b ∙ (ap (add64 v) (add64_comm a b) ∙ sym (add64_assoc v b a))

counted_swap :
    (c : Counter) (b k l : Text) (v : ℤ)
    → counted c b l (counted c b k v) ≡ counted c b k (counted c b l v)
counted_swap c b k l v =
    ground (arith, add64_swap v (amount c (parse_traffic_line k)) (amount c (parse_traffic_line l)))

-- The order of the lines does not matter to a sum.
total-Perm :
    {ls ks : List Text} (c : Counter) (b : Text) (v : ℤ)
    → Permᴰ ls ks
    → total c b ls v ≡ total c b ks v
unfolding total
total-Perm c b v nil = refl
total-Perm c b v (cons {a = a} {b = a'} e p) = ground (arith, e, total-Perm c b (counted c b a v) p)
total-Perm c b v (swap {a = a} {b = x} e f) = ground (arith, e, f, counted_swap c b a x v)
total-Perm c b v (trans p q) = total-Perm c b v p ∙ total-Perm c b v q

-- No two entries of the same bucket.
abbrev New : Text → List TrafficStat → Type 0
New b = All (λ (s : TrafficStat). b ≢ s.bucket_name)

abbrev Distinct : List TrafficStat → Type 0
Distinct [] = Unit
Distinct (s ∷ acc) = New s.bucket_name acc × Distinct acc

New-Perm : {xs ys : List TrafficStat} (b : Text) → Permᴰ xs ys → New b xs → New b ys
New-Perm b nil h = tt
New-Perm b (cons e p) (h, k) =
    (λ q. h (q ∙ ap (λ (s : TrafficStat). s.bucket_name) (sym e)), New-Perm b p k)
New-Perm b (swap e f) (h, (k, r)) = (
  λ q. k (q ∙ ap (λ (s : TrafficStat). s.bucket_name) (sym f)),
  (λ q. h (q ∙ ap (λ (s : TrafficStat). s.bucket_name) (sym e)), r),
)
New-Perm b (trans p q) h = New-Perm b q (New-Perm b p h)

New-of :
    {s t : TrafficStat} (ys : List TrafficStat)
    → s ≡ t
    → New s.bucket_name ys
    → New t.bucket_name ys
New-of ys e h = subst (λ (s : TrafficStat). New s.bucket_name ys) e h

Distinct-Perm : {xs ys : List TrafficStat} → Permᴰ xs ys → Distinct xs → Distinct ys
Distinct-Perm nil h = tt
Distinct-Perm (cons e p) (h, k) = (New-of _ e (New-Perm _ p h), Distinct-Perm p k)
Distinct-Perm (swap e f) ((n, h), (k, r)) = ((λ q. n (cc), New-of _ f k), (New-of _ e h, r))
Distinct-Perm (trans p q) h = Distinct-Perm q (Distinct-Perm p h)

-- The order of the entries does not matter either, where each bucket has one.
reported-Perm : {xs ys : List TrafficStat} → Permᴰ xs ys → Distinct xs → SameReport xs ys
unfolding reported
reported-Perm nil h c b = refl
reported-Perm (cons {a = s} {b = t} e p) (h, k) c b = ground (arith, e, reported-Perm p k c b)
reported-Perm (swap {a = s} {b = t} e f) ((n, h), k) c b = ground (arith, e, f, n)
reported-Perm (trans p q) h c b = reported-Perm p h c b ∙ reported-Perm q (Distinct-Perm p h) c b

New-add_traffic :
    (b : Text) (t : Traffic) (acc : List TrafficStat)
    → b ≢ t.bucket
    → New b acc
    → New b (add_traffic t acc)
unfolding add_traffic
New-add_traffic b t [] n h = (n, tt)
New-add_traffic b t (s ∷ acc) n (h, k) = ground (arith, h, k, New-add_traffic b t acc n k)

Distinct-add_traffic :
    (t : Traffic) (acc : List TrafficStat) → Distinct acc → Distinct (add_traffic t acc)
unfolding add_traffic
Distinct-add_traffic t [] h = (tt, tt)
Distinct-add_traffic t (s ∷ acc) (h, k) = elim (text_dec s.bucket_name t.bucket) [
  | yes e ↦ ground (arith, e, h, k)
  | no n ↦ ground (arith, n, New-add_traffic s.bucket_name t acc n h, Distinct-add_traffic t acc k)
]

Distinct-collect :
    (ls : List Text) (acc : List TrafficStat) → Distinct acc → Distinct (collect ls acc)
unfolding collect
Distinct-collect [] acc h = h
Distinct-collect (l ∷ ls) acc h = elim (Bool-cases (is_nil (parse_traffic_line l).bucket)) [
  | inl e ↦ rw e (Distinct-collect ls acc h)
  | inr e ↦ rw e (
      Distinct-collect ls (add_traffic (parse_traffic_line l) acc)
        (Distinct-add_traffic (parse_traffic_line l) acc h))
]

collect-SameReport :
    (ls ks : List Text) (out : List TrafficStat)
    → Permᴰ ls ks
    → Permᴰ (collect ks []) out
    → SameReport (collect ls []) out
collect-SameReport ls ks out p q c b =
    reported-collect c b ls []
    ∙ (total-Perm c b (reported c b []) p
        ∙ (sym (reported-collect c b ks []) ∙ reported-Perm q (Distinct-collect ks [] tt) c b))

-- What is reported of a log, as a report, depends neither on the order of its lines nor on the order
-- in which Go ranges over the map of the buckets: two logs with the same lines, and any order of the
-- entries of one of them, are one report.
pub collect_report :
    (ls ks : List Text) (out : List TrafficStat)
    → Perm ls ks
    → Perm (collect ks []) out
    → ◌≡◌ {A = Report} (Quot.mk (collect ls [])) (Quot.mk out)
collect_report ls ks out p q =
    ∥∥₁_elim p (Quot-set _ _)
      (λ p'. ∥∥₁_elim q (Quot-set _ _) (λ q'. Quot.sound (collect-SameReport ls ks out p' q')))
