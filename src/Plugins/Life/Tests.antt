-- ===== src/Plugins/Life/Tests.antt =====
-- Plugins that load, and one whose init throws.
use cordyceps.Common.{
  ltb, leb, ◌==◌, if◌then◌else◌, ltb→lt, lt→ltb, leb→le, ==_iff, Bool-cases, Option-cases,
  String-cases, str_eq_refl, str_eq-false, by_test, length, get_elem?, take, drop, keep, any, last?,
  length-append, take-append-drop, length-take, length-drop, All, All-append, All-map,
  drop-append_of_le, take-append_of_le, drop-length-append, take-length, append-ne-nil,
  slice-append_of_le, ℕ, zero, suc, ◌+◌, ◌-◌, ◌*◌, ◌/◌, ◌%◌, ◌≤◌, ◌<◌, min, max, String, ◌≡◌, refl,
  sym, ap, ◌∙◌, ◌≢◌, ◌↔◌, ◌⊎◌, inl, inr, Bool, true, false, not, ◌&&◌, ◌||◌, Option, none, some,
  List, [], ◌∷◌, ◌++◌, map-append, append-nil, append_assoc, arith, str_eq, eq_iff, map,
}
use cordyceps.Common.Map.{Map, keys}
use cordyceps.Transport.Rpc.{Handler, returns}
use cordyceps.Plugins.Life.{
  Module, LoadedPlugin, Daemon, loaded, method_taken, LoadResult, load_plugin, destroy_plugin,
}
use cordyceps.Plugins.Life.Undo.{destroy-load}

abbrev handler : Handler ℕ
handler params i w = (w, returns none)

abbrev audit : Module ℕ ℕ
audit = record {
  name = "audit";
  methods = ("audit.tail", handler) ∷ ("audit.query", handler) ∷ [];
  init = some (λ v. record {
    state = (v.0, v.1 + 1);
    disposables = (λ v. ((v.0, v.1 - 1), false)) ∷ [];
    threw = false;
  });
  destroy = none;
}

abbrev broken : Module ℕ ℕ
broken = record audit { init = some (λ v. record { state = v; disposables = []; threw = true }) }

abbrev daemon : Daemon ℕ ℕ
daemon = record { methods = ("bus.get", handler) ∷ []; rest = 0; ready = [] }

abbrev daemon_with : Daemon ℕ ℕ
daemon_with = record {
  methods = ("bus.get", handler) ∷ ("audit.tail", handler) ∷ ("audit.query", handler) ∷ [];
  rest = 1;
  ready = "audit" ∷ [];
}

abbrev audit_loaded : LoadedPlugin ℕ ℕ
audit_loaded = record {
  plugin = audit;
  registered_methods = "audit.tail" ∷ "audit.query" ∷ [];
  disposables = (λ v. ((v.0, v.1 - 1), false)) ∷ [];
}

load_audit : load_plugin true audit daemon ≡ (daemon_with, loaded audit_loaded)
unfolding load_plugin cordyceps.Common.Map.put cordyceps.Common.Map.has
load_audit = refl

-- A plugin whose init throws leaves its methods with the dispatcher, and then it cannot be loaded.
broken_methods :
    keys (load_plugin true broken daemon).0.methods ≡ "bus.get" ∷ "audit.tail" ∷ "audit.query" ∷ []
unfolding load_plugin cordyceps.Common.Map.put cordyceps.Common.Map.has
broken_methods = refl

broken_again :
    (load_plugin true audit (load_plugin true broken daemon).0).1 ≡ method_taken "audit.tail"
unfolding load_plugin cordyceps.Common.Map.put cordyceps.Common.Map.has
broken_again = refl

-- A plugin that registers a method in init, by `ctx.rpc`, leaves it there when it is destroyed.
abbrev registers : Module ℕ ℕ
registers = record audit {
  init = some (λ v. record {
    state = (v.0 ++ ("audit.extra", handler) ∷ [], v.1);
    disposables = [];
    threw = false;
  });
}

abbrev destroy_result : Daemon ℕ ℕ × LoadResult ℕ ℕ → Daemon ℕ ℕ
destroy_result (d, loaded l) = destroy_plugin l d
destroy_result (d, r) = d

leftover :
    keys (destroy_result (load_plugin true registers daemon)).methods
    ≡ "bus.get" ∷ "audit.extra" ∷ []
unfolding load_plugin destroy_plugin cordyceps.Common.Map.put cordyceps.Common.Map.has
    cordyceps.Common.Map.delete
leftover = refl

destroy-load_example : (destroy_plugin audit_loaded daemon_with).methods ≡ daemon.methods
destroy-load_example =
    destroy-load true audit daemon daemon_with daemon_with audit_loaded
      ((λ s. (refl, ((λ v. refl), tt))), tt) load_audit refl
