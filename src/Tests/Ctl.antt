-- ===== src/Tests/Ctl.antt =====
-- The theorems about s3dctl at the fixtures.
use s3_agent.Ctl.Program.{Console}
use s3_agent.Prelude.{
  ℕ, none, false, suc, ◌*◌, ◌^◌, ◌≤◌, ◌<◌, ◌≡◌, refl, some, [], ◌∷◌, ◌++◌, codes, ok, arith,
}
use s3_agent.S3.Manager.Iam.Contents.{identities}
use s3_agent.Ctl.{Files, iam_create, iam_created, run_command}
use s3_agent.Ctl.Bytes.{format_bytes, scaled, format_bytes_unit}
use s3_agent.Ctl.Laws.{all_actions, iam_create_unrestricted}
use s3_agent.Tests.Fixtures.{cfg, quiet, quiet-IsQuiet, world, two_identities}

iam_create_unrestricted_example :
    let (r, w') =
      run_command cfg quiet
        (iam_create (codes "eve") (codes "E1") (codes "s") (codes "Read:photos"))
        world in
    (r ≡ ok (iam_created (codes "eve")))
    × (identities w'.iam.target
        ≡ some (
            two_identities
            ++ record {
              name = codes "eve";
              credentials = record { access_key = codes "E1"; secret_key = codes "s" } ∷ [];
              actions = all_actions;
            }
              ∷ []))
iam_create_unrestricted_example =
    iam_create_unrestricted cfg quiet quiet-IsQuiet (codes "eve") (codes "E1") (codes "s")
      (codes "Read:photos") world refl refl

format_bytes_unit_example :
    (div : ℕ) × (exp : ℕ) × (format_bytes 5000000 ≡ scaled 5000000 div exp)
    × (exp ≤ 5)
    × (div ≡ 1024 ^ suc exp)
    × (div ≤ 5000000)
    × (5000000 < 1024 * div)
format_bytes_unit_example = format_bytes_unit 5000000 (omega arith) (omega arith)

abbrev files : Files
files = record { open_error = λ p. none; read_file = λ p. ok []; create_temp_error = λ d. none }

abbrev console : Console ℕ
console = record {
  terminal = false;
  percent = λ p. [];
  quotient = λ a b. [];
  quoted = λ t. t;
  to_upper = λ t. t;
}
