-- ===== src/Drivers/Registry.antt =====
-- src/drivers/registry.ts: drivers by id or alias, cached probes and the choice of a mode.
pub mod Names
pub mod Probes
pub mod Modes
mod Tests
use cordyceps.Common.{
  ltb, leb, ◌==◌, if◌then◌else◌, ltb→lt, lt→ltb, leb→le, ==_iff, Bool-cases, Option-cases,
  String-cases, str_eq_refl, str_eq-false, length, get_elem?, take, drop, keep, any, last?,
  length-append, take-append-drop, length-take, length-drop, All, All-append, All-map,
  drop-append_of_le, take-append_of_le, drop-length-append, take-length, append-ne-nil,
  slice-append_of_le, ℕ, zero, suc, ◌+◌, ◌-◌, ◌*◌, ◌/◌, ◌%◌, ◌≤◌, ◌<◌, min, max, String, ◌≡◌, refl,
  sym, ap, ◌∙◌, ◌≢◌, ◌↔◌, ◌⊎◌, inl, inr, Bool, true, false, not, ◌&&◌, ◌||◌, Option, none, some,
  List, [], ◌∷◌, ◌++◌, map-append, append-nil, append_assoc, arith, str_eq, eq_iff, map,
}
use cordyceps.Common.Map
use cordyceps.Common.Map.{Map, includes}
use cordyceps.Drivers.Api.{Driver, DriverMode, DriverProbe, includes_mode}

pub record DriverRegistry : Type 0 where
  pub drivers : Map Driver
  pub aliases : Map String
  pub probes : Map DriverProbe

abbrev pub empty : DriverRegistry
empty = record { drivers = []; aliases = []; probes = [] }

-- What `register` throws.
pub data RegisterError : Type 0 where
  id_taken : String → RegisterError
  alias_collides : String → RegisterError

-- The first alias that is an id or an alias already.
pub collision : DriverRegistry → List String → Option String
collision r [] = none
collision r (a ∷ as') =
    let rest = collision r as' in
    if Map.has a r.drivers || Map.has a r.aliases then some a else rest

pub put_aliases : List String → String → Map String → Map String
put_aliases [] id m = m
put_aliases (a ∷ as') id m = put_aliases as' id (Map.put a id m)

pub delete_aliases : List String → Map String → Map String
delete_aliases [] m = m
delete_aliases (a ∷ as') m = delete_aliases as' (Map.delete a m)

-- The registry is left as it was where this throws.
pub register : Driver → DriverRegistry → DriverRegistry ⊎ RegisterError
register d r =
    if Map.has d.id r.drivers then inr (id_taken d.id) else elim (collision r d.aliases) [
      | some a ↦ inr (alias_collides a)
      | none ↦ inl (record r {
        drivers = Map.put d.id d r.drivers;
        aliases = put_aliases d.aliases d.id r.aliases;
      })
    ]

pub unregister : String → DriverRegistry → DriverRegistry × Bool
unregister id r = elim (Map.get id r.drivers) [
  | none ↦ (r, false)
  | some d ↦ (
    record {
      drivers = Map.delete id r.drivers;
      aliases = delete_aliases d.aliases r.aliases;
      probes = Map.delete id r.probes;
    },
    true,
  )
]

-- An empty text is falsy.
abbrev truthy : Option String → Option String
truthy none = none
truthy (some c) = if str_eq c "" then none else some c

abbrev lookup_driver : DriverRegistry → Option String → Option Driver
lookup_driver r none = none
lookup_driver r (some c) = Map.get c r.drivers

pub resolve : String → DriverRegistry → Option Driver
resolve name r =
    lookup_driver r (
      truthy (elim (Map.get name r.drivers) [ some d ↦ some name | none ↦ Map.get name r.aliases ]))

pub canonical_id : String → DriverRegistry → Option String
canonical_id name r = if Map.has name r.drivers then some name else Map.get name r.aliases

pub list : DriverRegistry → List Driver
list r = Map.values r.drivers

-- What `probe` does at once: an answer, or a call of the driver's own `probe()`, which is awaited.
pub data ProbeStart : Type 0 where
  answers : Option DriverProbe → ProbeStart
  asks : Driver → ProbeStart

pub begin_probe : String → Bool → DriverRegistry → ProbeStart
begin_probe name refresh r = elim (resolve name r) [
  | none ↦ answers none
  | some d ↦
      if not refresh && Map.has d.id r.probes then answers (Map.get d.id r.probes) else asks d
]

-- Behind the `await`: the driver's answer has come in.
pub finish_probe : Driver → DriverProbe → DriverRegistry → DriverRegistry
finish_probe d p r = record r { probes = Map.put d.id p r.probes }

-- A probe with no other call before its driver's answer, which `ask` gives.
abbrev pub answered_by :
    (Driver → DriverProbe) → DriverRegistry → ProbeStart → DriverRegistry × Option DriverProbe
answered_by ask r (answers o) = (r, o)
answered_by ask r (asks d) = (finish_probe d (ask d) r, some (ask d))

pub probe :
    (Driver → DriverProbe) → String → Bool → DriverRegistry → DriverRegistry × Option DriverProbe
probe ask name refresh r = answered_by ask r (begin_probe name refresh r)

-- The drivers' modes that the machine supports and that a runtime is registered for.
pub viable : Driver → List DriverMode → List DriverMode → List DriverMode
viable d supported registered =
    keep (λ m. includes_mode m supported && includes_mode m registered) d.modes

abbrev pub first : List DriverMode → Option DriverMode
first [] = none
first (m ∷ ms) = some m

pub choose_mode : Driver → Option DriverMode → List DriverMode → List DriverMode → Option DriverMode
choose_mode d none supported registered = first (viable d supported registered)
choose_mode d (some p) supported registered =
    if includes_mode p (viable d supported registered)
    then some p
    else first (viable d supported registered)
