-- ===== src/Plugins/Life/Undo.antt =====
-- What destroying a plugin gives back to the dispatcher.
use mathlib.Core.Path.{subst}
use cordyceps.Common.{
  by_test, Bool-cases, str_eq_refl, String, ◌≡◌, refl, sym, ap, ◌∙◌, ◌⊎◌, inl, inr, Bool, true,
  false, Option, none, some, List, [], ◌∷◌, arith, str_eq,
}
use cordyceps.Common.Map.{Map, get, has, put, delete}
use cordyceps.Transport.Rpc.{Handler, register, unregister}
use cordyceps.Plugins.Life.{
  method_taken, init_failed, Action, Reach, dispose_all, run_destroy, unregister_loaded,
  Initialised, Module, LoadedPlugin, Daemon, LoadResult, loaded, names_of, register_methods,
  unregister_methods, run_init, finish_load, after_methods, load_plugin, destroy_plugin,
}

module _ {W : Type 0} where
  register-cases :
      (n : String) (h : Handler W) (m : Map (Handler W))
      → ((has n m ≡ true) × (register n h m ≡ none))
        ⊎ ((has n m ≡ false) × (register n h m ≡ some (put n h m)))
  unfolding register
  register-cases n h m = elim (Bool-cases (has n m)) [
    | inl e ↦ inl (e, rw e refl)
    | inr e ↦ inr (e, rw e refl)
  ]

  delete-put :
      (n : String) (h : Handler W) (m : Map (Handler W))
      → has n m ≡ false
      → delete n (put n h m) ≡ m
  unfolding delete put has get
  delete-put n h [] e = ground (arith, str_eq_refl n)
  delete-put n h ((j, g) ∷ m) e = elim (Bool-cases (str_eq j n)) [
    | inl q ↦ absurd (ground (arith, q, e))
    | inr q ↦ rw (q, q) (ap (λ x. (j, g) ∷ x) (delete-put n h m (ground (arith, q, e))))
  ]

  delete-delete :
      (a b : String) (m : Map (Handler W)) → delete a (delete b m) ≡ delete b (delete a m)
  unfolding delete
  delete-delete a b [] = refl
  delete-delete a b ((j, g) ∷ m) = elim (Bool-cases (str_eq j a)) [
    | inl p ↦ elim (Bool-cases (str_eq j b)) [
      | inl q ↦ ground (arith, p, q, delete-delete a b m)
      | inr q ↦ ground (arith, p, q, delete-delete a b m)
    ]
    | inr p ↦ elim (Bool-cases (str_eq j b)) [
      | inl q ↦ ground (arith, p, q, delete-delete a b m)
      | inr q ↦ ground (arith, p, q, delete-delete a b m)
    ]
  ]

  unregister_methods-delete :
      (ns : List String) (n : String) (m : Map (Handler W))
      → unregister_methods ns (delete n m) ≡ delete n (unregister_methods ns m)
  unfolding unregister_methods unregister
  unregister_methods-delete [] n m = refl
  unregister_methods-delete (k ∷ ns) n m =
      ap (unregister_methods ns) (delete-delete k n m) ∙ unregister_methods-delete ns n (delete k m)

  register_methods-cons :
      (n : String) (h : Handler W) (hs : List (String × Handler W)) (m m' : Map (Handler W))
      → register_methods ((n, h) ∷ hs) m ≡ (m', none)
      → (has n m ≡ false) × (register_methods hs (put n h m) ≡ (m', none))
  unfolding register_methods
  register_methods-cons n h hs m m' e = elim (register-cases n h m) [
    | inl (t, r) ↦ absurd (ground (arith, r, e))
    | inr (t, r) ↦ (t, ground (arith, r, e))
  ]

  -- Unregistering takes off what registering put there.
  unregister-register :
      (hs : List (String × Handler W)) (m m' : Map (Handler W))
      → register_methods hs m ≡ (m', none)
      → unregister_methods (names_of hs) m' ≡ m
  unfolding register_methods unregister_methods unregister
  unregister-register [] m m' e = sym (ap (λ r. r.0) e)
  unregister-register ((n, h) ∷ hs) m m' e =
      let (t, r) = register_methods-cons n h hs m m' e in
      unregister_methods-delete (names_of hs) n m'
      ∙ ap (delete n) (unregister-register hs (put n h m) m' r)
      ∙ delete-put n h m t

module _ {W V : Type 0} where
  -- The plugin's code registers and unregisters nothing by `ctx.rpc`: not in `init`, not in what this
  -- leaves to be disposed of, and not in `destroy`.
  abbrev pub LeavesMethods : Action (Reach W V) → Type 0
  LeavesMethods f = (s : Reach W V) → (f s).0.0 ≡ s.0

  abbrev pub AllLeaveMethods : List (Action (Reach W V)) → Type 0
  AllLeaveMethods [] = Unit
  AllLeaveMethods (f ∷ fs) = LeavesMethods f × AllLeaveMethods fs

  abbrev pub InitLeavesMethods : Option (Reach W V → Initialised (Reach W V)) → Type 0
  InitLeavesMethods none = Unit
  InitLeavesMethods (some f) =
      (s : Reach W V) → ((f s).state.0 ≡ s.0) × AllLeaveMethods (f s).disposables

  abbrev pub DestroyLeavesMethods : Option (Action (Reach W V)) → Type 0
  DestroyLeavesMethods none = Unit
  DestroyLeavesMethods (some f) = LeavesMethods f

  abbrev pub KeepsToItself : Module W V → Type 0
  KeepsToItself p = InitLeavesMethods p.init × DestroyLeavesMethods p.destroy

  run_init-methods :
      (f : Option (Reach W V → Initialised (Reach W V))) (s : Reach W V)
      → InitLeavesMethods f
      → ((run_init f s).state.0 ≡ s.0) × AllLeaveMethods (run_init f s).disposables
  run_init-methods none s h = (refl, tt)
  run_init-methods (some f) s h = h s

  dispose_all-methods :
      (fs : List (Action (Reach W V))) (s : Reach W V)
      → AllLeaveMethods fs
      → (dispose_all fs s).0 ≡ s.0
  dispose_all-methods [] s h = refl
  dispose_all-methods (f ∷ fs) s h = dispose_all-methods fs (f s).0 h.1 ∙ h.0 s

  run_destroy-methods :
      (f : Option (Action (Reach W V))) (s : Reach W V)
      → DestroyLeavesMethods f
      → (run_destroy f s).0 ≡ s.0
  run_destroy-methods none s h = refl
  run_destroy-methods (some f) s h = h s

  -- What a load leaves.
  abbrev IsLoad : Module W V → Daemon W V → Daemon W V → LoadedPlugin W V → Type 0
  IsLoad p d d' l =
      (unregister_methods l.registered_methods d'.methods ≡ d.methods)
      × AllLeaveMethods l.disposables
      × (l.plugin ≡ p)

  abbrev IsLoadResult : Module W V → Daemon W V → Daemon W V × LoadResult W V → Type 0
  IsLoadResult p d (d', loaded l) = IsLoad p d d' l
  IsLoadResult p d (d', method_taken n) = Unit
  IsLoadResult p d (d', init_failed) = Unit

  finish_load-IsLoad :
      (p : Module W V) (m : Map (Handler W)) (d : Daemon W V)
      → KeepsToItself p
      → register_methods p.methods d.methods ≡ (m, none)
      → IsLoadResult p d (finish_load p (run_init p.init (m, d.rest)) d)
  finish_load-IsLoad p m d k r =
      let i = run_init p.init (m, d.rest) in
      let (kept, quiet) = run_init-methods p.init (m, d.rest) k.0 in
      by_test (IsLoadResult p d) i.threw (λ e. tt)
        (λ e. (
          ap (unregister_methods (names_of p.methods)) kept
              ∙ unregister-register p.methods d.methods m r,
          quiet,
          refl,
        ))

  after_methods-IsLoad :
      (p : Module W V) (o : Map (Handler W) × Option String) (d : Daemon W V)
      → KeepsToItself p
      → register_methods p.methods d.methods ≡ o
      → IsLoadResult p d (after_methods p o d)
  after_methods-IsLoad p (m, some n) d k r = tt
  after_methods-IsLoad p (m, none) d k r = finish_load-IsLoad p m d k r

  load_plugin-IsLoad :
      (enabled : Bool) (p : Module W V) (d : Daemon W V)
      → KeepsToItself p
      → IsLoadResult p d (load_plugin enabled p d)
  unfolding load_plugin unregister_methods
  load_plugin-IsLoad false p d k = (refl, tt, refl)
  load_plugin-IsLoad true p d k =
      after_methods-IsLoad p (register_methods p.methods d.methods) d k refl

-- When a plugin has been loaded, enabled or not, and its own code registers and unregisters no methods
-- by `ctx.rpc`, destroying it gives the dispatcher the methods that it had before the load, whatever its
-- code does to the rest of the daemon and whatever else has happened in between, as long as the methods
-- are then those that the load left.
pub destroy-load :
    {W V : Type 0} (enabled : Bool) (p : Module W V) (d d' d'' : Daemon W V) (l : LoadedPlugin W V)
    → KeepsToItself p
    → load_plugin enabled p d ≡ (d', loaded l)
    → d''.methods ≡ d'.methods
    → (destroy_plugin l d'').methods ≡ d.methods
unfolding destroy_plugin
destroy-load enabled p d d' d'' l k e h =
    let (undone, quiet, same) = subst (IsLoadResult p d) e (load_plugin-IsLoad enabled p d k) in
    let disposed = dispose_all-methods l.disposables (d''.methods, d''.rest) quiet in
    run_destroy-methods l.plugin.destroy
      (unregister_loaded l.registered_methods (dispose_all l.disposables (d''.methods, d''.rest)))
      (subst (λ q. DestroyLeavesMethods q.destroy) (sym same) k.1)
    ∙ ap (unregister_methods l.registered_methods) (disposed ∙ h)
    ∙ undone
