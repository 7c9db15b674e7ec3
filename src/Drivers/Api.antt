-- ===== src/Drivers/Api.antt =====
-- The parts of src/drivers/api.ts and src/agents/types.ts that the registry and the manager read.
use cordyceps.Common.{◌==◌, ℕ, String, ◌≡◌, ◌↔◌, Bool, true, false, ◌||◌, List, [], ◌∷◌, arith}

pub data DriverMode : Type 0 where
  pty exec server_ws server_http : DriverMode

abbrev rank : DriverMode → ℕ
rank pty = 0
rank exec = 1
rank server_ws = 2
rank server_http = 3

-- `===` on modes
unfoldable pub mode_eq : DriverMode → DriverMode → Bool
mode_eq a b = rank a == rank b

pub mode_eq_refl : (a : DriverMode) → mode_eq a a ≡ true
unfolding mode_eq
mode_eq_refl a = ground arith

pub mode_eq_iff : (a b : DriverMode) → (mode_eq a b ≡ true) ↔ (a ≡ b)
unfolding mode_eq
mode_eq_iff a b = (λ e. ground arith, λ e. rw e (mode_eq_refl b))

-- `modes.includes(m)`
abbrev pub includes_mode : DriverMode → List DriverMode → Bool
includes_mode m [] = false
includes_mode m (n ∷ ns) = mode_eq n m || includes_mode m ns

-- A driver, without its functions: what the registry reads. A missing `aliases` is the empty list.
pub record Driver : Type 0 where
  pub id : String
  pub aliases : List String
  pub modes : List DriverMode

-- A probe's result; the fields that no modelled code reads are left out.
pub record DriverProbe : Type 0 where
  pub available : Bool
  pub warnings : List String
  pub supported_modes : List DriverMode
