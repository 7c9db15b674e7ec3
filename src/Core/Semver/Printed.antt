-- ===== src/Core/Semver/Printed.antt =====
-- The numbers of a version are read back from their decimal notation, by a description of the notation
-- and of the suffixes that does not use the reader.
use cordyceps.Common.{
  ltb, if◌then◌else◌, All, ℕ, zero, suc, ◌+◌, ◌/◌, ◌%◌, ◌≤◌, ◌≡◌, ◌≢◌, ◌⊎◌, [], ◌∷◌, ◌++◌,
}
use cordyceps.Common.Text.{Text}
use cordyceps.Core.Semver.{ParsedVersion}

-- The decimal notation, on fuel.
abbrev pub decimal_on : ℕ → ℕ → Text
decimal_on zero n = []
decimal_on (suc f) n =
    let rest = decimal_on f (n / 10) in
    if ltb n 10 then (48 + n) ∷ [] else rest ++ (48 + n % 10) ∷ []

abbrev pub decimal : ℕ → Text
decimal n = decimal_on (suc n) n

-- `major.minor.patch` and a suffix.
abbrev pub printed : ParsedVersion → Text → Text
printed v suffix = decimal v.major ++ (46 ∷ (decimal v.minor ++ (46 ∷ (decimal v.patch ++ suffix))))

-- A letter, a digit, a dot or a dash.
abbrev pub IsSuffixChar : ℕ → Type 0
IsSuffixChar c =
    ((48 ≤ c) × (c ≤ 57))
    ⊎ (((65 ≤ c) × (c ≤ 90)) ⊎ (((97 ≤ c) × (c ≤ 122)) ⊎ ((c ≡ 46) ⊎ (c ≡ 45))))

-- Nothing, or a dash or a plus and then one such character or more, to the end.
abbrev pub IsSuffix : Text → Type 0
IsSuffix s =
    (s ≡ [])
    ⊎ ((m : ℕ) × (t : Text) × (s ≡ m ∷ t) × ((m ≡ 45) ⊎ (m ≡ 43)) × (t ≢ []) × All IsSuffixChar t)
