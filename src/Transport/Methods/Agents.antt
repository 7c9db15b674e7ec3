-- ===== src/Transport/Methods/Agents.antt =====
-- What the methods that act on an agent do, on every branch.
use cordyceps.Common.{String, ◌≡◌, ◌⊎◌, true, false, Option, none, some, List, [], ◌∷◌}
use cordyceps.Common.Map.{includes}
use cordyceps.Common.Int.{ℤ}
use cordyceps.Common.Text.{Text}
use cordyceps.Common.Json.{Json, prop}
use cordyceps.Transport.Types.{is_object}
use cordyceps.Transport.Rpc.{Outcome, method_error}

-- The handler went no further: the state is as it was, and the answer is this error.
abbrev pub IsRefused : {W : Type 0} → ℤ → W → W × Outcome → Type 0
IsRefused code w r = (r.0 ≡ w) × ((message : Text) × (r.1 ≡ method_error code message none))

abbrev pub HasFields : Json → List String → Type 0
HasFields p [] = Unit
HasFields p (f ∷ fs) = ((v : Json) × (prop f p ≡ some v)) × HasFields p fs

-- There are no parameters, or they are no object, or one of the fields is not there.
abbrev pub LacksFields : Option Json → List String → Type 0
LacksFields params fs =
    (params ≡ none)
    ⊎ ((p : Json) × (params ≡ some p)
        × ((is_object p ≡ false) ⊎ ((f : String) × (includes f fs ≡ true) × (prop f p ≡ none))))
