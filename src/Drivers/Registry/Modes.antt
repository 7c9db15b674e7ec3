-- ===== src/Drivers/Registry/Modes.antt =====
-- The mode that `chooseMode` picks.
use cordyceps.Common.{
  Bool-cases, Option-cases, keep, ◌≡◌, refl, ap, ◌↔◌, ◌⊎◌, inl, inr, Bool, true, false, ◌&&◌,
  Option, none, some, List, [], ◌∷◌, arith,
}
use cordyceps.Drivers.Api.{Driver, DriverMode, includes_mode, mode_eq_iff}
use cordyceps.Drivers.Registry.{viable, first, choose_mode}

-- The driver has the mode, the machine supports it and a runtime is registered for it.
abbrev pub IsViable : Driver → List DriverMode → List DriverMode → DriverMode → Type 0
IsViable d supported registered m =
    (includes_mode m d.modes ≡ true)
    × (includes_mode m supported ≡ true)
    × (includes_mode m registered ≡ true)

includes_mode-keep :
    (p : DriverMode → Bool) (m : DriverMode) (ms : List DriverMode)
    → (includes_mode m (keep p ms) ≡ true) ↔ ((includes_mode m ms ≡ true) × (p m ≡ true))
includes_mode-keep p m [] = (λ e. cc, λ e. e.0)
includes_mode-keep p m (n ∷ ms) =
    let ih = includes_mode-keep p m ms in
    (λ e. ground (arith, mode_eq_iff n m, ih), λ e. ground (arith, mode_eq_iff n m, ih))

viable_iff :
    (d : Driver) (supported registered : List DriverMode) (m : DriverMode)
    → (includes_mode m (viable d supported registered) ≡ true) ↔ IsViable d supported registered m
unfolding viable
viable_iff d supported registered m =
    let p = λ (n : DriverMode). includes_mode n supported && includes_mode n registered in
    let ih = includes_mode-keep p m d.modes in
    (λ e. ground (arith, ih.0 e), λ e. ih.1 (e.0, ground arith))

-- The first of `ms` with a property: nothing before it has the property.
abbrev pub IsFirst : (DriverMode → Bool) → DriverMode → List DriverMode → Type 0
IsFirst p m [] = ⊥
IsFirst p m (n ∷ ms) = ((p n ≡ true) × (n ≡ m)) ⊎ ((p n ≡ false) × IsFirst p m ms)

-- Supported by the machine and registered with the manager.
abbrev pub usable : List DriverMode → List DriverMode → DriverMode → Bool
usable supported registered m = includes_mode m supported && includes_mode m registered

first-keep :
    (p : DriverMode → Bool) (m : DriverMode) (ms : List DriverMode)
    → first (keep p ms) ≡ some m
    → IsFirst p m ms
first-keep p m [] h = cc
first-keep p m (n ∷ ms) h = elim (Bool-cases (p n)) [
  | inl e ↦ inl (e, ground (arith, e))
  | inr e ↦ inr (e, first-keep p m ms (ground (arith, e)))
]

first-keep-none :
    (p : DriverMode → Bool) (m : DriverMode) (ms : List DriverMode)
    → first (keep p ms) ≡ none
    → includes_mode m (keep p ms) ≡ false
first-keep-none p m [] h = refl
first-keep-none p m (n ∷ ms) h = ground (arith, first-keep-none p m ms)

includes_mode-first :
    (ms : List DriverMode) (m : DriverMode) → first ms ≡ some m → includes_mode m ms ≡ true
includes_mode-first [] m h = cc
includes_mode-first (n ∷ ms) m h = ground (arith, mode_eq_iff n m)

-- A chosen mode is one of the driver's, supported by the machine and registered; it is the
-- preferred one, or the first of the driver's usable modes because the preferred one is not among
-- them or none was preferred.
pub choose_mode-some :
    (d : Driver) (preferred : Option DriverMode) (supported registered : List DriverMode)
    (m : DriverMode)
    → choose_mode d preferred supported registered ≡ some m
    → IsViable d supported registered m
      × ((preferred ≡ some m)
          ⊎ (((p : DriverMode) → preferred ≡ some p → ¬ IsViable d supported registered p)
              × IsFirst (usable supported registered) m d.modes))
unfolding choose_mode
choose_mode-some d none supported registered m h = (
  (viable_iff d supported registered m).0 (includes_mode-first _ m h),
  inr (λ p e. cc, first-keep (usable supported registered) m d.modes (unfold viable in h)),
)
choose_mode-some d (some p) supported registered m h =
    elim (Bool-cases (includes_mode p (viable d supported registered))) [
      | inl e ↦
          let same : p ≡ m = ground (arith, e) in
          ((viable_iff d supported registered m).0 (rw same at e), inl (ap some same))
      | inr e ↦
          let found : first (viable d supported registered) ≡ some m = ground (arith, e) in
          (
            (viable_iff d supported registered m).0 (includes_mode-first _ m found),
            inr (
              λ q eq v. ground (arith, e, (viable_iff d supported registered q).1 v),
              first-keep (usable supported registered) m d.modes (unfold viable in found),
            ),
          )
    ]

choose_mode-not-IsViable :
    (d : Driver) (preferred : Option DriverMode) (supported registered : List DriverMode)
    → choose_mode d preferred supported registered ≡ none
    → (m : DriverMode) → ¬ IsViable d supported registered m
unfolding choose_mode
choose_mode-not-IsViable d none supported registered h m v = ground (
  arith,
  (viable_iff d supported registered m).1 v,
  first-keep-none (usable supported registered) m d.modes (unfold viable in h),
)
choose_mode-not-IsViable d (some p) supported registered h m v =
    elim (Bool-cases (includes_mode p (viable d supported registered))) [
      | inl e ↦ ground (arith, e)
      | inr e ↦
          let nothing : first (viable d supported registered) ≡ none = ground (arith, e) in
          ground (
            arith,
            (viable_iff d supported registered m).1 v,
            first-keep-none (usable supported registered) m d.modes (unfold viable in nothing),
          )
    ]

-- No mode is chosen exactly if none of the driver's modes is supported and registered, whatever
-- mode is preferred.
pub choose_mode-none :
    (d : Driver) (preferred : Option DriverMode) (supported registered : List DriverMode)
    → (choose_mode d preferred supported registered ≡ none)
      ↔ ((m : DriverMode) → ¬ IsViable d supported registered m)
choose_mode-none d preferred supported registered = (
  choose_mode-not-IsViable d preferred supported registered,
  λ h. elim (Option-cases (choose_mode d preferred supported registered)) [
    | inl e ↦ e
    | inr (m, e) ↦ absurd (h m (choose_mode-some d preferred supported registered m e).0)
  ],
)
