-- ===== src/Tests/Observer.antt =====
-- The observer's theorems at concrete logs and polls.
use mathlib.Core.Quot
use mathlib.Core.List.{reverse_perm}
use mathlib.Core.List.Perm
use s3_agent.S3.Observer.Traffic.Order.{Report, collect_report}
use s3_agent.Prelude.{
  ◌++◌, ok, Option, reverse, ◌≡◌, refl, true, false, none, some, List, [], ◌∷◌, Text, codes,
}
use s3_agent.Prelude.Int.{sub64, pos}
use s3_agent.S3.Observer.Traffic.{collect}
use s3_agent.S3.Observer.Traffic.Laws.{bytes_in, reported, total, reported-collect}
use s3_agent.S3.Observer.Change.{detect_change}
use s3_agent.S3.Observer.Change.Laws.{AreAlike, detect_change-AreAlike}
use s3_agent.S3.Observer.Poll.{get_body, Net, decode, poll_volume, VolumeInfo}
use s3_agent.S3.Observer.Poll.Laws.{IsCounted, poll_volume-IsCounted}
use s3_agent.S3.Observer.Stats.{stat_of, add_centers}
use s3_agent.S3.Observer.Stats.Laws.{all_volumes, sum_over, any_read_only, add_centers-sum_over}
use s3_agent.Tests.Fixtures.{whole, cfg, no_net, components}

abbrev access_lines : List Text
access_lines =
    codes "1.0 PUT /b/k 200 5 70" ∷ codes "1.1 GET /b/k 200 9 3" ∷ codes "1.2 PUT /c/k 500 5 7" ∷ []

reported-collect_example :
    reported bytes_in (codes "b") (collect access_lines [])
    ≡ total bytes_in (codes "b") access_lines (reported bytes_in (codes "b") [])
reported-collect_example = reported-collect bytes_in (codes "b") access_lines []

nothing_changed : detect_change whole 80 95 (some (components true)) (components true) ≡ none
unfolding detect_change
nothing_changed = refl

detect_change-AreAlike_example : AreAlike (components true) (components true)
detect_change-AreAlike_example =
    detect_change-AreAlike whole 80 95 (components true) (components true) nothing_changed

-- A volume server with a volume of each kind.
abbrev volume_net : Net
volume_net = record no_net {
  get = λ url. ok (record { status = 200; body = [] });
  volume_status = λ body. some (record {
    volumes =
        record { read_only = true; replica_count = pos 2 }
        ∷ record { read_only = false; replica_count = pos 1 }
        ∷ record { read_only = false; replica_count = pos 2 }
        ∷ [];
    disk_statuses = [];
  });
}

poll_volume-IsCounted_example :
    IsCounted
      (decode (get_body volume_net (cfg.volume_url ++ codes "/status")) volume_net.volume_status)
      (poll_volume whole cfg volume_net 0)
poll_volume-IsCounted_example = poll_volume-IsCounted whole cfg volume_net 0

abbrev volume : VolumeInfo
volume = record {
  collection = codes "b";
  size = pos 7;
  file_count = pos 3;
  delete_count = pos 1;
  read_only = false;
}

abbrev centers : List (Option (List (Option (List (List VolumeInfo)))))
centers = some (some ((volume ∷ []) ∷ []) ∷ none ∷ []) ∷ none ∷ []

add_centers-sum_over_example :
    let s = stat_of (codes "b") (add_centers centers []) in
    (s.object_count
      ≡ sum_over (codes "b") (λ v. sub64 v.file_count v.delete_count) (all_volumes centers) (pos 0))
    × (s.size_bytes ≡ sum_over (codes "b") (λ v. v.size) (all_volumes centers) (pos 0))
    × (s.degraded ≡ any_read_only (codes "b") (all_volumes centers))
add_centers-sum_over_example = add_centers-sum_over (codes "b") centers

abbrev lines_reversed : List Text
lines_reversed = reverse access_lines

collect_report_example :
    ◌≡◌ {A = Report} (Quot.mk (collect access_lines [])) (Quot.mk (collect lines_reversed []))
collect_report_example =
    collect_report access_lines lines_reversed (collect lines_reversed [])
      (Perm.symm (reverse_perm access_lines)) (Perm.refl (collect lines_reversed []))
