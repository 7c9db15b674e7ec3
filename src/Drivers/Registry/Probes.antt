-- ===== src/Drivers/Registry/Probes.antt =====
-- The cache of probes. A probe is two pieces, with any calls between them.
use cordyceps.Common.{
  if◌then◌else◌, Bool-cases, Option-cases, any, String, ◌≡◌, refl, ap, ◌∙◌, ◌⊎◌, inl, inr, Bool,
  false, some, List, [], ◌∷◌, arith, str_eq,
}
use cordyceps.Common.Map
use cordyceps.Common.Map.{get-put, get-put_self, get-delete}
use cordyceps.Drivers.Api.{Driver, DriverProbe}
use cordyceps.Drivers.Registry.{
  DriverRegistry, collision, register, unregister, resolve, answers, begin_probe, finish_probe,
}

-- What changes the registry: a probe that begins changes nothing, and one whose driver throws neither.
pub data Change : Type 0 where
  registers : Driver → Change
  unregisters : String → Change
  came_in : Driver → DriverProbe → Change

abbrev registered : DriverRegistry → {E : Type 0} → DriverRegistry ⊎ E → DriverRegistry
registered r (inl s) = s
registered r (inr e) = r

unfoldable pub on_change : Change → DriverRegistry → DriverRegistry
unfolding register unregister finish_probe
on_change (registers d) r = registered r (register d r)
on_change (unregisters id) r = (unregister id r).0
on_change (came_in d p) r = finish_probe d p r

unfoldable pub on_changes : List Change → DriverRegistry → DriverRegistry
unfolding on_change
on_changes [] r = r
on_changes (c ∷ cs) r = on_changes cs (on_change c r)

abbrev pub unregisters_id : String → Change → Bool
unregisters_id id (unregisters j) = str_eq j id
unregisters_id id _ = false

-- The last answer that came in for an id, or the one before all.
abbrev pub last_answer : String → DriverProbe → List Change → DriverProbe
last_answer id p [] = p
last_answer id p (came_in d q ∷ cs) = last_answer id (if str_eq d.id id then q else p) cs
last_answer id p (_ ∷ cs) = last_answer id p cs

register-probes :
    (d : Driver) (r : DriverRegistry) → (registered r (register d r)).probes ≡ r.probes
unfolding register
register-probes d r = elim (Bool-cases (Map.has d.id r.drivers)) [
  | inl e ↦ rw e refl
  | inr e ↦ elim (Option-cases (collision r d.aliases)) [
    | inl n ↦ rw (e, n) refl
    | inr (a, n) ↦ rw (e, n) refl
  ]
]

unregister-probes :
    (id j : String) (r : DriverRegistry)
    → str_eq j id ≡ false
    → Map.get id (unregister j r).0.probes ≡ Map.get id r.probes
unfolding unregister
unregister-probes id j r h = elim (Option-cases (Map.get j r.drivers)) [
  | inl n ↦ ground (arith, n)
  | inr (d, n) ↦ ground (arith, n, get-delete j id r.probes, h)
]

on_changes_probes :
    (id : String) (cs : List Change) (p : DriverProbe) (r : DriverRegistry)
    → any (unregisters_id id) cs ≡ false
    → Map.get id r.probes ≡ some p
    → Map.get id (on_changes cs r).probes ≡ some (last_answer id p cs)
unfolding on_changes finish_probe
on_changes_probes id [] p r h e = e
on_changes_probes id (registers d ∷ cs) p r h e =
    on_changes_probes id cs p (registered r (register d r)) h
      (ap (Map.get id) (register-probes d r) ∙ e)
on_changes_probes id (unregisters j ∷ cs) p r h e =
    on_changes_probes id cs p (unregister j r).0 (ground (arith, h))
      (unregister-probes id j r (ground (arith, h)) ∙ e)
on_changes_probes id (came_in d q ∷ cs) p r h e =
    on_changes_probes id cs (if str_eq d.id id then q else p) (finish_probe d q r) h (
      get-put d.id id q r.probes
      ∙ elim (Bool-cases (str_eq d.id id)) [ inl x ↦ rw x refl | inr x ↦ rw x e ])

begin_probe_hit :
    (n : String) (r : DriverRegistry) (d : Driver) (p : DriverProbe)
    → resolve n r ≡ some d
    → Map.get d.id r.probes ≡ some p
    → begin_probe n false r ≡ answers (some p)
unfolding begin_probe Map.has
begin_probe_hit n r d p h e = ground (arith, h, e)

-- When a driver's answer to a probe has come in, then, whatever registrations and answers follow, those
-- to probes that began before included, and as long as the id is not unregistered, a probe of any name
-- that then leads to the driver, and that asks for no refresh, calls no driver and gives the last answer
-- that came in for the id.
pub begin_probe-finish_probe :
    (d : Driver) (p : DriverProbe) (cs : List Change) (name : String) (r : DriverRegistry)
    → any (unregisters_id d.id) cs ≡ false
    → resolve name (on_changes cs (finish_probe d p r)) ≡ some d
    → begin_probe name false (on_changes cs (finish_probe d p r))
      ≡ answers (some (last_answer d.id p cs))
unfolding finish_probe
begin_probe-finish_probe d p cs name r h e =
    begin_probe_hit name (on_changes cs (finish_probe d p r)) d (last_answer d.id p cs) e
      (on_changes_probes d.id cs p (finish_probe d p r) h (get-put_self d.id p r.probes))
