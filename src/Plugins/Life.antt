-- ===== src/Plugins/Life.antt =====
-- `loadPlugin`, `destroyPlugin` and `loadAll` of src/plugins/loader.ts, over the dispatcher's methods
-- and the rest `V` of the daemon. What a plugin's own code does (`init`, `destroy` and what it leaves to
-- be disposed of) is a function on both: by `ctx.rpc` it can register and unregister methods too.
pub mod Undo
mod Tests
use cordyceps.Common.{
  ltb, leb, ◌==◌, if◌then◌else◌, ltb→lt, lt→ltb, leb→le, ==_iff, Bool-cases, Option-cases,
  String-cases, str_eq_refl, str_eq-false, by_test, length, get_elem?, take, drop, keep, any, last?,
  length-append, take-append-drop, length-take, length-drop, All, All-append, All-map,
  drop-append_of_le, take-append_of_le, drop-length-append, take-length, append-ne-nil,
  slice-append_of_le, ℕ, zero, suc, ◌+◌, ◌-◌, ◌*◌, ◌/◌, ◌%◌, ◌≤◌, ◌<◌, min, max, String, ◌≡◌, refl,
  sym, ap, ◌∙◌, ◌≢◌, ◌↔◌, ◌⊎◌, inl, inr, Bool, true, false, not, ◌&&◌, ◌||◌, Option, none, some,
  List, [], ◌∷◌, ◌++◌, map-append, append-nil, append_assoc, arith, str_eq, eq_iff, map,
}
use cordyceps.Common.Map
use cordyceps.Common.Map.{Map}
use cordyceps.Transport.Rpc.{Handler, register, unregister}

-- An action of the plugin's code; `true` when it throws, which is logged.
abbrev pub Action : Type 0 → Type 0
Action V = V → V × Bool

-- What `init` does: the state, what it left to be disposed of, and whether it threw.
pub record Initialised (S : Type 0) : Type 0 where
  pub state : S
  pub disposables : List (Action S)
  pub threw : Bool

-- What a plugin's code reaches: the dispatcher's methods and the rest.
abbrev pub Reach : Type 0 → Type 0 → Type 0
Reach W V = Map (Handler W) × V

pub record Module (W V : Type 0) : Type 0 where
  pub name : String
  pub methods : List (String × Handler W)
  pub init : Option (Reach W V → Initialised (Reach W V))
  pub destroy : Option (Action (Reach W V))

pub record LoadedPlugin (W V : Type 0) : Type 0 where
  pub plugin : Module W V
  pub registered_methods : List String
  pub disposables : List (Action (Reach W V))

-- `ready` holds the names of the `plugin.ready` events.
pub record Daemon (W V : Type 0) : Type 0 where
  pub methods : Map (Handler W)
  pub rest : V
  pub ready : List String

-- How `loadPlugin` ends: it returns, or throws for a method name that is taken or since `init` threw.
pub data LoadResult (W V : Type 0) : Type 0 where
  loaded : LoadedPlugin W V → LoadResult W V
  method_taken : String → LoadResult W V
  init_failed : LoadResult W V

module _ {W : Type 0} where
  abbrev pub names_of : List (String × Handler W) → List String
  names_of [] = []
  names_of ((n, h) ∷ hs) = n ∷ names_of hs

  -- The loop over the methods: it ends at the first name that is taken.
  unfoldable pub register_methods :
      List (String × Handler W) → Map (Handler W) → Map (Handler W) × Option String
  unfolding register
  register_methods [] m = (m, none)
  register_methods ((n, h) ∷ hs) m = elim (register n h m) [
    | none ↦ (m, some n)
    | some m' ↦ register_methods hs m'
  ]

  unfoldable pub unregister_methods : List String → Map (Handler W) → Map (Handler W)
  unfolding unregister
  unregister_methods [] m = m
  unregister_methods (n ∷ ns) m = unregister_methods ns (unregister n m).0

module _ {S : Type 0} where
  abbrev pub run_init : Option (S → Initialised S) → S → Initialised S
  run_init none s = record { state = s; disposables = []; threw = false }
  run_init (some f) s = f s

  abbrev pub dispose_all : List (Action S) → S → S
  dispose_all [] s = s
  dispose_all (f ∷ fs) s = dispose_all fs (f s).0

  abbrev pub run_destroy : Option (Action S) → S → S
  run_destroy none s = s
  run_destroy (some f) s = (f s).0

module _ {W V : Type 0} where
  -- Behind the registration.
  abbrev pub finish_load :
      Module W V → Initialised (Reach W V) → Daemon W V → Daemon W V × LoadResult W V
  finish_load p i d =
      if i.threw then (record d { methods = i.state.0; rest = i.state.1 }, init_failed) else (
        record d { methods = i.state.0; rest = i.state.1; ready = d.ready ++ p.name ∷ [] },
        loaded (record {
          plugin = p;
          registered_methods = names_of p.methods;
          disposables = i.disposables;
        }),
      )

  abbrev pub after_methods :
      Module W V → Map (Handler W) × Option String → Daemon W V → Daemon W V × LoadResult W V
  after_methods p (m, some n) d = (record d { methods = m }, method_taken n)
  after_methods p (m, none) d = finish_load p (run_init p.init (m, d.rest)) d

  unfoldable pub load_plugin : Bool → Module W V → Daemon W V → Daemon W V × LoadResult W V
  unfolding register_methods
  load_plugin enabled p d =
      if enabled
      then after_methods p (register_methods p.methods d.methods) d
      else (d, loaded (record { plugin = p; registered_methods = []; disposables = [] }))

  -- The disposables, then the methods, then the plugin's `destroy`.
  abbrev pub unregister_loaded : List String → Reach W V → Reach W V
  unregister_loaded ns s = (unregister_methods ns s.0, s.1)

  unfoldable pub destroy_plugin : LoadedPlugin W V → Daemon W V → Daemon W V
  unfolding unregister_methods
  destroy_plugin l d =
      let s =
        run_destroy l.plugin.destroy (
          unregister_loaded l.registered_methods (dispose_all l.disposables (d.methods, d.rest))) in
      record d { methods = s.0; rest = s.1 }

  -- The plugins come sorted, each with whether its configuration enables it; the first error ends all.
  unfoldable pub load_each :
      List (Module W V × Bool)
      → Daemon W V
      → Daemon W V × (List (LoadedPlugin W V) ⊎ LoadResult W V)
  unfolding load_plugin
  load_each [] d = (d, inl [])
  load_each ((p, enabled) ∷ ps) d =
      let (d', r) = load_plugin enabled p d in
      let (d'', o) = load_each ps d' in
      elim r [
        | loaded l ↦ elim o [ inl ls ↦ (d'', inl (l ∷ ls)) | inr e ↦ (d'', inr e) ]
        | method_taken n ↦ (d', inr (method_taken n))
        | init_failed ↦ (d', inr init_failed)
      ]
