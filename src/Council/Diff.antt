-- ===== src/Council/Diff.antt =====
-- `fetchDiff` of src/plugins/builtin/council/index.ts; `git` runs git with arguments, and gives its
-- output or the message of an error. The working directory is left out.
pub mod Guards
mod Tests
use cordyceps.Common.{
  ltb, leb, ◌==◌, if◌then◌else◌, ltb→lt, lt→ltb, leb→le, ==_iff, Bool-cases, Option-cases,
  String-cases, str_eq_refl, str_eq-false, by_test, length, get_elem?, take, drop, keep, any, last?,
  length-append, take-append-drop, length-take, length-drop, All, All-append, All-map,
  drop-append_of_le, take-append_of_le, drop-length-append, take-length, append-ne-nil,
  slice-append_of_le, ℕ, zero, suc, ◌+◌, ◌-◌, ◌*◌, ◌/◌, ◌%◌, ◌≤◌, ◌<◌, min, max, String, ◌≡◌, refl,
  sym, ap, ◌∙◌, ◌≢◌, ◌↔◌, ◌⊎◌, inl, inr, Bool, true, false, not, ◌&&◌, ◌||◌, Option, none, some,
  List, [], ◌∷◌, ◌++◌, map-append, append-nil, append_assoc, arith, str_eq, eq_iff, map,
}
use cordyceps.Common.Text.{Text, text, starts_with, is_nil, trim_start, trim_end}

pub record DiffParams : Type 0 where
  pub staged : Bool
  pub base : Option Text
  pub scope : Option Text

abbrev pub max_total_bytes : ℕ
max_total_bytes = 500000

abbrev pub dash : Text
dash = text "-"

-- `v !== undefined && v.startsWith("-")`
abbrev pub is_option : Option Text → Bool
is_option none = false
is_option (some t) = starts_with t dash

-- A text that is there and not empty.
abbrev pub given : Option Text → Option Text
given none = none
given (some []) = none
given (some (c ∷ t)) = some (c ∷ t)

abbrev pub fixed_args : List Text
fixed_args =
    text "diff" ∷ text "--no-color" ∷ text "--no-ext-diff" ∷ text "--no-textconv" ∷ text "-U3" ∷ []

abbrev pub end_of_options : Text
end_of_options = text "--end-of-options"

abbrev pub target_args : Bool → Option Text → List Text
target_args true base = text "--staged" ∷ end_of_options ∷ []
target_args false (some b) = end_of_options ∷ b ∷ []
target_args false none = end_of_options ∷ text "HEAD" ∷ []

abbrev pub target_label : Bool → Option Text → Text
target_label true base = text "staged changes"
target_label false (some b) = text "diff vs " ++ b
target_label false none = text "diff vs HEAD"

abbrev pub scope_args : Option Text → List Text
scope_args none = []
scope_args (some s) = text "--" ∷ s ∷ []

abbrev pub scope_label : Option Text → Text
scope_label none = []
scope_label (some s) = text " (scoped to " ++ s ++ text ")"

unfoldable pub diff_args : DiffParams → List Text
diff_args p = fixed_args ++ target_args p.staged (given p.base) ++ scope_args (given p.scope)

unfoldable pub diff_label : DiffParams → Text
diff_label p = target_label p.staged (given p.base) ++ scope_label (given p.scope)

-- What `fetchDiff` throws; the number is the length of the output.
pub data DiffError : Type 0 where
  base_is_option scope_is_option no_changes : DiffError
  git_failed : Text → DiffError
  too_large : ℕ → DiffError

abbrev pub check_output : Text → Text ⊎ Text → DiffError ⊎ (Text × Text)
check_output label (inl e) = inl (git_failed e)
check_output label (inr out) =
    if is_nil (trim_end (trim_start out))
    then inl no_changes
    else if ltb max_total_bytes (length out)
    then inl (too_large (length out))
    else inr (out, label)

unfoldable pub fetch_diff : (List Text → Text ⊎ Text) → DiffParams → DiffError ⊎ (Text × Text)
unfolding diff_args diff_label
fetch_diff git p =
    if is_option p.base
    then inl base_is_option
    else if is_option p.scope
    then inl scope_is_option
    else check_output (diff_label p) (git (diff_args p))
