-- ===== src/Dispatcher/Distro.antt =====
-- `detectDebianDistro` and `emptyParams` of internal/dispatcher/dispatcher.go.
use s3_agent.Prelude.{
  Bool, ◌||◌, List, [], ◌∷◌, if◌then◌else◌, Text, codes, Result, ok, err, ◌≟◌, is_nil,
}
use s3_agent.Strings.{has_prefix, trim_prefix, contains, split, trim}
use s3_agent.Strings.Spaces.{trim_space}

-- `id` and `idLike`
pub record OsIds : Type 0 where
  pub id : Text
  pub id_like : Text

module _ (to_lower : Text → Text) where
  -- `strings.ToLower(strings.Trim(strings.TrimPrefix(line, key), "\""))`
  abbrev value_of : Text → Text → Text
  value_of key line = to_lower (trim (trim_prefix line key) b'"')

  -- The body of the loop over the lines.
  unfoldable pub read_line : Text → OsIds → OsIds
  read_line raw o =
      let line = trim_space raw in
      let o =
        if has_prefix line (codes "ID=")
        then record o { id = value_of (codes "ID=") line }
        else o in
      if has_prefix line (codes "ID_LIKE=")
      then record o { id_like = value_of (codes "ID_LIKE=") line }
      else o

  unfoldable pub read_lines : List Text → OsIds → OsIds
  unfolding read_line
  read_lines [] o = o
  read_lines (l ∷ ls) o = read_lines ls (read_line l o)

-- The test for Ubuntu or Debian and the name that is returned.
unfoldable pub distro_of : OsIds → Text
distro_of o =
    if o.id ≟ codes "ubuntu"
      || o.id ≟ codes "debian"
      || contains o.id_like (codes "ubuntu")
      || contains o.id_like (codes "debian")
    then (if is_nil o.id then o.id_like else o.id)
    else []

-- `detectDebianDistro`
unfoldable pub detect_debian_distro : (Text → Text) → Result Text Text → Result Text Text
unfolding read_lines distro_of
detect_debian_distro to_lower (err e) = err e
detect_debian_distro to_lower (ok text) =
    ok (distro_of (read_lines to_lower (split text b'\n') (record { id = []; id_like = [] })))

-- `emptyParams`
unfoldable pub empty_params : Text → Bool
unfolding trim_space
empty_params raw =
    let s = trim_space raw in s ≟ codes "null" || s ≟ codes "[]" || s ≟ codes "{}" || is_nil s
