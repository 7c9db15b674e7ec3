-- ===== src/Core/Semver/Tests.antt =====
-- Versions and ranges.
use cordyceps.Common.{◌≡◌, refl, ◌↔◌, true, none, some}
use cordyceps.Common.Text.{text}
use cordyceps.Core.Semver.{
  ParsedVersion, ge, holds, compare_versions, parse_version, satisfies, grade_compat, unsupported,
}
use cordyceps.Core.Semver.Printed.{printed}
use cordyceps.Core.Semver.Order.{Meets, holds_iff}

abbrev version : ParsedVersion
version = record { major = 2; minor = 1; patch = 114 }

abbrev bound : ParsedVersion
bound = record { major = 2; minor = 1; patch = 100 }

in_range : satisfies (text "2.1.114") (text " >=2.1.100  <2.2.0") ≡ true
unfolding satisfies
in_range = refl

-- A version outside the range is graded as unsupported.
out_of_range : grade_compat (text "2.2.0") (text ">=2.1.100 <2.2.0") ≡ unsupported
unfolding grade_compat
out_of_range = refl

-- A pre-release suffix and build metadata together are refused.
two_suffixes : parse_version (text "1.2.3-rc.1+sha") ≡ none
unfolding parse_version
two_suffixes = refl

holds_iff_example : (holds ge (compare_versions version bound) ≡ true) ↔ Meets ge version bound
holds_iff_example = holds_iff ge version bound

read_version : parse_version (text "2.1.114-rc.1") ≡ some version
unfolding parse_version
read_version = refl

printed_version : printed version (text "-rc.1") ≡ text "2.1.114-rc.1"
printed_version = refl
