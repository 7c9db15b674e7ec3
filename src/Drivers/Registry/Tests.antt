-- ===== src/Drivers/Registry/Tests.antt =====
-- Runs of the registry, and the theorems about it at concrete drivers.
use cordyceps.Common.{
  if◌then◌else◌, String, ◌≡◌, refl, ◌≢◌, ◌⊎◌, inl, inr, true, false, ◌||◌, Option, none, some, List,
  [], ◌∷◌, arith, str_eq, eq_iff,
}
use cordyceps.Common.Map
use cordyceps.Common.Map.{includes}
use cordyceps.Drivers.Api.{Driver, DriverMode, DriverProbe, mode_eq, pty, exec, server_http}
use cordyceps.Drivers.Registry.{
  DriverRegistry, id_taken, empty, collision, put_aliases, delete_aliases, register, unregister,
  resolve, canonical_id, answers, begin_probe, finish_probe, viable, choose_mode,
}
use cordyceps.Drivers.Registry.Names.{
  IsSound, empty-IsSound, register-IsSound, resolve-register, resolve-unregister,
}
use cordyceps.Drivers.Registry.Probes.{
  Change, registers, unregisters, came_in, on_changes, begin_probe-finish_probe,
}
use cordyceps.Drivers.Registry.Modes.{IsViable, IsFirst, usable, choose_mode-some}

running : Unit {0}
unfolding register unregister resolve canonical_id collision put_aliases delete_aliases begin_probe
    finish_probe on_changes viable choose_mode mode_eq Map.has Map.get Map.put Map.delete
running = tt

abbrev claude : Driver
claude = record { id = "claude-code"; aliases = "claude" ∷ "cc" ∷ []; modes = pty ∷ exec ∷ [] }

abbrev codex : Driver
codex = record { id = "codex"; aliases = "cx" ∷ []; modes = exec ∷ [] }

abbrev one : DriverRegistry
one = record {
  drivers = ("claude-code", claude) ∷ [];
  aliases = ("claude", "claude-code") ∷ ("cc", "claude-code") ∷ [];
  probes = [];
}

abbrev two : DriverRegistry
two = record {
  drivers = ("claude-code", claude) ∷ ("codex", codex) ∷ [];
  aliases = ("claude", "claude-code") ∷ ("cc", "claude-code") ∷ ("cx", "codex") ∷ [];
  probes = [];
}

register-claude : register claude empty ≡ inl one
unfolding running
register-claude = refl

register-codex : register codex one ≡ inl two
unfolding running
register-codex = refl

register_twice : register claude one ≡ inr (id_taken "claude-code")
unfolding running
register_twice = refl

-- A driver whose id is an alias of another one is accepted, and takes the name over.
abbrev usurper : Driver
usurper = record { id = "claude"; aliases = []; modes = exec ∷ [] }

abbrev shadowed : DriverRegistry
shadowed = record one { drivers = ("claude-code", claude) ∷ ("claude", usurper) ∷ [] }

register_shadows :
    (register usurper one ≡ inl shadowed)
    × (resolve "claude" one ≡ some claude)
    × (resolve "claude" shadowed ≡ some usurper)
unfolding running
register_shadows = (refl, refl, refl)

one-IsSound : IsSound one
one-IsSound =
    register-IsSound claude empty one empty-IsSound (λ e. ground (arith, eq_iff "claude-code" ""))
      register-claude

codex_named : ◌≢◌ {A = String} "codex" ""
codex_named = ground (arith, eq_iff "codex" "")

resolve-register_example :
    resolve "cx" two
    ≡ (if str_eq "codex" "cx" || includes "cx" ("cx" ∷ []) then some codex else resolve "cx" one)
resolve-register_example =
    resolve-register codex one two "cx" one-IsSound codex_named register-codex

two-IsSound : IsSound two
two-IsSound = register-IsSound codex one two one-IsSound codex_named register-codex

abbrev only_codex : DriverRegistry
only_codex = record { drivers = ("codex", codex) ∷ []; aliases = ("cx", "codex") ∷ []; probes = [] }

unregister-claude : unregister "claude-code" two ≡ (only_codex, true)
unfolding running
unregister-claude = refl

resolve-unregister_example :
    ((resolve "cx" only_codex ≡ none)
      ⊎ ((e : Driver) × (resolve "cx" only_codex ≡ some e) × (e.id ≢ "claude-code")))
    × ((resolve "cx" two ≡ none)
        ⊎ ((e : Driver) × (resolve "cx" two ≡ some e)
            × ((e.id ≡ "claude-code") ⊎ (resolve "cx" only_codex ≡ some e))))
resolve-unregister_example =
    resolve-unregister "claude-code" two only_codex "cx" two-IsSound unregister-claude

abbrev all_runtimes : List DriverMode
all_runtimes = pty ∷ exec ∷ server_http ∷ []

choose_pty : choose_mode claude none all_runtimes (exec ∷ pty ∷ []) ≡ some pty
unfolding running
choose_pty = refl

choose_mode-some_example :
    IsViable claude all_runtimes (exec ∷ pty ∷ []) pty
    × ((◌≡◌ {A = Option DriverMode} none (some pty))
        ⊎ (((p : DriverMode)
              → ◌≡◌ {A = Option DriverMode} none (some p)
              → ¬ IsViable claude all_runtimes (exec ∷ pty ∷ []) p)
            × IsFirst (usable all_runtimes (exec ∷ pty ∷ [])) pty (pty ∷ exec ∷ [])))
choose_mode-some_example =
    choose_mode-some claude none all_runtimes (exec ∷ pty ∷ []) pty choose_pty

abbrev installed : Driver → DriverProbe
installed d = record { available = true; warnings = []; supported_modes = d.modes }

abbrev missing : Driver → DriverProbe
missing d = record { available = false; warnings = "gone" ∷ []; supported_modes = [] }

resolve-cx : resolve "cx" two ≡ some codex
unfolding running
resolve-cx = refl

resolve-codex : resolve "codex" two ≡ some codex
unfolding running
resolve-codex = refl

-- Two probes of codex began before the first answer came.
abbrev changes : List Change
changes = came_in claude (installed claude) ∷ came_in codex (missing codex) ∷ []

begin_probe-finish_probe_example :
    begin_probe "cx" false (on_changes changes (finish_probe codex (installed codex) two))
    ≡ answers (some (missing codex))
unfolding running
begin_probe-finish_probe_example =
    begin_probe-finish_probe codex (installed codex) changes "cx" two refl refl

-- A driver is unregistered while it is probed: its answer stays for the next driver of the id.
stale_answer :
    begin_probe "codex" false
      (on_changes (unregisters "codex" ∷ came_in codex (missing codex) ∷ registers codex ∷ []) two)
    ≡ answers (some (missing codex))
unfolding running
stale_answer = refl
