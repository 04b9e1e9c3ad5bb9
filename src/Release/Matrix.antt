-- ===== src/Release/Matrix.antt =====
-- The matrix of release targets in internal/releasecompat/matrix.go.
use solomon.Prelude.{
  ◌≡◌, not, Option, none, some, List, [], ◌∷◌, ◌++◌, arith, ◌==◌, if◌then◌else◌, Result, ok, err,
  ◌>>=◌, guard, length, Text, codes, equal, elem, text_lt, fields, sort,
}

pub record Target : Type 0 where
  pub goos : Text
  pub goarch : Text
  pub runner : Text

abbrev target : Text → Text → Text → Target
target goos goarch runner = record { goos = goos; goarch = goarch; runner = runner }

abbrev pub targets : List Target
targets =
    target (codes "linux") (codes "amd64") (codes "ubuntu-latest")
    ∷ target (codes "linux") (codes "arm64") (codes "ubuntu-24.04-arm")
    ∷ target (codes "darwin") (codes "amd64") (codes "macos-15-intel")
    ∷ target (codes "darwin") (codes "arm64") (codes "macos-latest")
    ∷ target (codes "windows") (codes "amd64") (codes "windows-latest")
    ∷ []

pub data MatrixError : Type 0 where
  duplicate_target unsupported_target : Text → MatrixError
  incomplete_matrix : MatrixError

abbrev pub key : Target → Text
key t = t.goos ++ b'/' ∷ t.goarch

-- The loop of Validate: the targets seen behind it.
unfoldable pub check_targets : List Text → List Text → List Target → Result MatrixError (List Text)
check_targets available seen [] = ok seen
check_targets available seen (t ∷ ts) =
    let rest = check_targets available (key t ∷ seen) ts in
    if elem (key t) seen
    then err (duplicate_target (key t))
    else if not (elem (key t) available)
    then err (unsupported_target (key t))
    else rest

unfoldable pub validate : List Text → Result MatrixError (Unit {0})
unfolding check_targets
validate supported = do
  seen ← check_targets supported [] targets
  guard (length seen == 5) incomplete_matrix

unfoldable pub parse_platforms : Text → List Text
parse_platforms text = sort text_lt (fields text)

-- The platforms that have no support are refused; nothing else is.
pub first_missing : List Text → List Target → Option Text
first_missing available [] = none
first_missing available (t ∷ ts) =
    let rest = first_missing available ts in if elem (key t) available then rest else some (key t)

abbrev pub refused : Option Text → Result MatrixError (Unit {0})
refused none = ok tt
refused (some platform) = err (unsupported_target platform)

-- The matrix is accepted exactly when every target is supported; otherwise the error names the
-- first target that is not.
pub validate-first_missing :
    (supported : List Text) → validate supported ≡ refused (first_missing supported targets)
unfolding validate first_missing elem equal
validate-first_missing supported = ground arith
