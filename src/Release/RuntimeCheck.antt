-- ===== src/Release/RuntimeCheck.antt =====
-- The check of the local runtime in internal/runtimecheck/check.go. What filepath.IsAbs says of a
-- directory is a parameter; the mode of the working directory is a number.
use solomon.Prelude.{
  ℕ, ◌≡◌, refl, ◌↔◌, inl, inr, Bool, true, false, not, ◌&&◌, ◌||◌, Option, none, some, List, [],
  ◌∷◌, ◌++◌, map, arith, ◌==◌, if◌then◌else◌, Bool-cases, any, Text, codes, equal, split_at,
  join_with, ◌%◌, ◌/◌,
}

pub data Finding : Type 0 where
  privileged_user unsafe_path working_directory_unavailable writable_working_directory : Finding

pub record Report : Type 0 where
  pub safe : Bool
  pub findings : List Finding

-- The mode of the working directory, or none where it cannot be read. A system without user ids
-- gives any id but 0.
pub record Options : Type 0 where
  pub path : Text
  pub effective_user_id : ℕ
  pub working_directory : Option ℕ

-- filepath.SplitList where the separator is a colon
abbrev pub split_list : Text → List Text
split_list [] = []
split_list (c ∷ cs) = split_at b':' (c ∷ cs)

abbrev pub when : Bool → Finding → List Finding
when test finding = if test then finding ∷ [] else []

-- Perm()&0o022 != 0: the bits 16 and 2
abbrev pub writable_by_others : ℕ → Bool
writable_by_others mode = mode / 16 % 2 == 1 || mode / 2 % 2 == 1

abbrev pub directory_findings : Option ℕ → List Finding
directory_findings none = working_directory_unavailable ∷ []
directory_findings (some mode) = when (writable_by_others mode) writable_working_directory

abbrev pub is_unsafe : (Text → Bool) → Text → Bool
is_unsafe is_absolute directory = equal directory [] || not (is_absolute directory)

abbrev pub is_none : List Finding → Bool
is_none [] = true
is_none (f ∷ fs) = false

unfoldable pub check : (Text → Bool) → Options → Report
check is_absolute options =
    let findings =
      when (options.effective_user_id == 0) privileged_user
      ++ (when (any (is_unsafe is_absolute) (split_list options.path)) unsafe_path
          ++ directory_findings options.working_directory) in
    record { safe = is_none findings; findings = findings }

abbrev pub finding_code : Finding → Text
finding_code privileged_user = codes "privileged-user"
finding_code unsafe_path = codes "unsafe-path"
finding_code working_directory_unavailable = codes "working-directory-unavailable"
finding_code writable_working_directory = codes "writable-working-directory"

-- Report.Error: the text of the error, if there is one
unfoldable pub report_error : Report → Option Text
report_error report =
    if report.safe
    then none
    else some
        (codes "unsafe local runtime: " ++ join_with (codes ",") (map finding_code report.findings))

abbrev pub is_private : Option ℕ → Bool
is_private none = false
is_private (some mode) = not (writable_by_others mode)

checked :
    (root unsafe : Bool) (mode : Option ℕ)
    → is_none (when root privileged_user ++ (when unsafe unsafe_path ++ directory_findings mode))
      ≡ (not root && not unsafe && is_private mode)
checked true unsafe mode = refl
checked false true mode = refl
checked false false none = refl
checked false false (some mode) = ground arith

report_error-none : (report : Report) → (report_error report ≡ none) ↔ (report.safe ≡ true)
unfolding report_error
report_error-none report = elim (Bool-cases report.safe) [
  | inl safe ↦ (λ h. safe, λ h. rw safe refl)
  | inr unsafe ↦ (λ h. absurd (ground arith), λ h. absurd (cc))
]

-- A runtime is reported as safe, and then no error is given, exactly when the user is not the
-- superuser, every directory of PATH is absolute, and the working directory can be read and can be
-- written by no other user.
pub check-is_private :
    (is_absolute : Text → Bool) (options : Options)
    → ((check is_absolute options).safe ≡ (
        not (options.effective_user_id == 0)
        && not (any (is_unsafe is_absolute) (split_list options.path))
        && is_private options.working_directory))
      × ((report_error (check is_absolute options) ≡ none)
          ↔ ((check is_absolute options).safe ≡ true))
unfolding check report_error
check-is_private is_absolute options = (
  checked (options.effective_user_id == 0) (any (is_unsafe is_absolute) (split_list options.path))
      options.working_directory,
  report_error-none (check is_absolute options),
)
