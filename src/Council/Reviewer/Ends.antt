-- ===== src/Council/Reviewer/Ends.antt =====
-- How a review ends.
use cordyceps.Common.{true, ◌≡◌, ◌⊎◌, Option, none, some}
use cordyceps.Common.Text.{Text}
use cordyceps.Council.Reviewer.{Services, ReviewerResult}

-- Findings that the text of a message gave, and no error, or an error and no findings.
abbrev pub IsClear : {F : Type 0} → (Text → Option F) → ReviewerResult F → Type 0
IsClear {F} extract r =
    ((f : F) × (raw : Text) × (r.findings ≡ some f)
      × (r.raw_text ≡ some raw)
      × (extract raw ≡ some f)
      × (r.error ≡ none))
    ⊎ ((e : Text) × (r.findings ≡ none) × (r.error ≡ some e))

module _ {V A : Type 0} (s : Services V A) where
  -- No agent of this id is left after a call that began in the state `v`, or one was found there and its
  -- remove threw.
  abbrev pub IsCleaned : Text → Text → V → V → Type 0
  IsCleaned prompt id v w =
      (s.get id w ≡ none)
      ⊎ ((a : A) × (s.get id v ≡ some a)
          × ((s.remove id (s.kill a (s.submit a prompt v).0).0).1 ≡ true))
