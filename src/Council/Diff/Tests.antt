-- ===== src/Council/Diff/Tests.antt =====
-- Diffs of a branch and a scope.
use cordyceps.Common.{
  ltb, leb, ◌==◌, if◌then◌else◌, ltb→lt, lt→ltb, leb→le, ==_iff, Bool-cases, Option-cases,
  String-cases, str_eq_refl, str_eq-false, by_test, length, get_elem?, take, drop, keep, any, last?,
  length-append, take-append-drop, length-take, length-drop, All, All-append, All-map,
  drop-append_of_le, take-append_of_le, drop-length-append, take-length, append-ne-nil,
  slice-append_of_le, ℕ, zero, suc, ◌+◌, ◌-◌, ◌*◌, ◌/◌, ◌%◌, ◌≤◌, ◌<◌, min, max, String, ◌≡◌, refl,
  sym, ap, ◌∙◌, ◌≢◌, ◌↔◌, ◌⊎◌, inl, inr, Bool, true, false, not, ◌&&◌, ◌||◌, Option, none, some,
  List, [], ◌∷◌, ◌++◌, map-append, append-nil, append_assoc, arith, str_eq, eq_iff, map,
}
use cordyceps.Common.Text.{Text, text, is_nil, trim_start, trim_end}
use cordyceps.Council.Diff.{DiffParams, max_total_bytes, diff_args, fetch_diff, base_is_option}
use cordyceps.Council.Diff.Guards.{IsSafe, fetch_diff-IsSafe}

abbrev params : DiffParams
params = record { staged = false; base = some (text "main"); scope = some (text "src") }

abbrev git : List Text → Text ⊎ Text
git l = inr (text "+x")

option_base : fetch_diff git (record params { base = some (text "-O") }) ≡ inl base_is_option
unfolding fetch_diff
option_base = refl

fetch_diff-IsSafe_example :
    (git (diff_args params) ≡ inr (text "+x"))
    × IsSafe (diff_args params)
    × (is_nil (trim_end (trim_start (text "+x"))) ≡ false)
    × (length (text "+x") ≤ max_total_bytes)
unfolding fetch_diff cordyceps.Common.Text.trim_start cordyceps.Common.Text.trim_end
    cordyceps.Common.Text.is_space
fetch_diff-IsSafe_example =
    fetch_diff-IsSafe git params (text "+x") (text "diff vs main (scoped to src)") refl
