-- ===== src/Agents/Manager/Spawn.antt =====
-- What a spawn does: the runtime it makes and the agents it leaves alone.
use cordyceps.Common.{
  Bool-cases, Option-cases, String, ◌≡◌, refl, ap, ◌∙◌, ◌≢◌, ◌⊎◌, inl, inr, true, false, Option,
  none, some, List, [], ◌∷◌, ◌++◌, arith,
}
use cordyceps.Common.Map
use cordyceps.Common.Map.{Map, get-put_self, get-put_ne}
use cordyceps.Common.Text.{Text}
use cordyceps.Drivers.Api.{Driver, DriverMode, DriverProbe, mode_eq, includes_mode}
use cordyceps.Drivers.Registry.{resolve, probe, choose_mode}
use cordyceps.Drivers.Registry.Modes.{IsViable, choose_mode-some}
use cordyceps.Agents.Manager.{
  Factory, FactoryOpts, AgentManager, SpawnError, unknown_driver, not_available, no_runtime,
  no_factory, id_in_use, factory_failed, SpawnOptions, find_factory, registered_modes, pick_id,
  check_id, pick_factory, check_probe, begin_spawn, finish_spawn, build, spawn,
}

Sum-cases : {X Y : Type 0} (s : X ⊎ Y) → ((x : X) × (s ≡ inl x)) ⊎ ((y : Y) × (s ≡ inr y))
Sum-cases (inl x) = inl (x, refl)
Sum-cases (inr y) = inr (y, refl)

module _ {A : Type 0} where
  find_factory-registered :
      (m : DriverMode) (fs : List (DriverMode × Factory A))
      → includes_mode m (registered_modes fs) ≡ true
      → find_factory m fs ≢ none
  unfolding find_factory registered_modes
  find_factory-registered m [] h e = ground (arith, h)
  find_factory-registered m ((k, f) ∷ fs) h e = elim (Bool-cases (mode_eq k m)) [
    | inl q ↦ ground (arith, q, e)
    | inr q ↦ find_factory-registered m fs (ground (arith, q, h)) (ground (arith, q, e))
  ]

  -- The factory call that the tests let through: the driver, its probe and the mode fit.
  pub record IsTicket (d : Driver) (p : Option DriverProbe) (g : AgentManager A) (id : String)
      (m : DriverMode) (f : Factory A) : Type 0 where
    pub probe : DriverProbe
    pub probed : p ≡ some probe
    pub available : probe.available ≡ true
    pub viable : IsViable d probe.supported_modes (registered_modes g.runtimes) m
    pub factory : find_factory m g.runtimes ≡ some f
    pub free : Map.has id g.agents ≡ false

  abbrev Refused : (FactoryOpts × Factory A) ⊎ SpawnError → Type 0
  Refused r = (e : SpawnError) × (r ≡ inr e) × ((m : DriverMode) → e ≢ no_factory m)

  abbrev Passed :
      Driver
      → Option DriverProbe
      → AgentManager A
      → String
      → (FactoryOpts × Factory A) ⊎ SpawnError
      → Type 0
  Passed d p g id r =
      (m : DriverMode) × (f : Factory A) × IsTicket d p g id m f
      × (r ≡ inl (record { id = id; driver = d; mode = m }, f))

  pick_factory-none :
      (d : Driver) (id : String) (g : AgentManager A)
      → pick_factory d none id g ≡ inr (no_runtime d.id)
  unfolding pick_factory
  pick_factory-none d id g = refl

  pick_factory-some :
      (d : Driver) (m : DriverMode) (id : String) (g : AgentManager A) (f : Factory A)
      → find_factory m g.runtimes ≡ some f
      → pick_factory d (some m) id g ≡ check_id d m f id g.agents
  unfolding pick_factory
  pick_factory-some d m id g f e = ground (arith, e)

  build-inl :
      (g : AgentManager A) (args : FactoryOpts) (f : Factory A) (a : A)
      → f args ≡ inl a
      → build g (inl (args, f)) ≡ (finish_spawn args a g, inl (args.id, a))
  unfolding build
  build-inl g args f a e = ground (arith, e)

  build-inr :
      (g : AgentManager A) (args : FactoryOpts) (f : Factory A) (e : Text)
      → f args ≡ inr e
      → build g (inl (args, f)) ≡ (g, inr (factory_failed e))
  unfolding build
  build-inr g args f err e = ground (arith, e)

  check_probe-cases :
      (d : Driver) (p : Option DriverProbe) (o : SpawnOptions) (id : String) (g : AgentManager A)
      → Passed d p g id (check_probe d p o id g) ⊎ Refused (check_probe d p o id g)
  unfolding check_probe check_id
  check_probe-cases d none o id g = inr (not_available d.id, refl, λ m e. cc)
  check_probe-cases d (some p) o id g =
      let modes = registered_modes g.runtimes in
      elim (Bool-cases p.available) [
        | inr a ↦ inr (not_available d.id, rw a refl, λ m e. cc)
        | inl a ↦ elim (Option-cases (choose_mode d o.mode p.supported_modes modes)) [
          | inl c ↦ inr (no_runtime d.id, rw (a, c) (pick_factory-none d id g), λ m e. cc)
          | inr (m, c) ↦
              let v = (choose_mode-some d o.mode p.supported_modes modes m c).0 in
              elim (Option-cases (find_factory m g.runtimes)) [
                | inl f ↦ absurd (find_factory-registered m g.runtimes v.2 f)
                | inr (f, q) ↦ elim (Bool-cases (Map.has id g.agents)) [
                  | inl h ↦
                      inr
                        (id_in_use id, rw (a, c, pick_factory-some d m id g f q, h) refl, λ m e. cc)
                  | inr h ↦ inl (
                    m,
                    f,
                    record {
                      probe = p;
                      probed = refl;
                      available = a;
                      viable = v;
                      factory = q;
                      free = h;
                    },
                    rw (a, c, pick_factory-some d m id g f q, h) refl,
                  )
                ]
              ]
        ]
      ]

  -- The manager whose registry has cached the probe.
  abbrev pub probed_by : (Driver → DriverProbe) → Driver → AgentManager A → AgentManager A
  probed_by ask d g = record g { drivers = (probe ask d.id false g.drivers).0 }

  -- A spawn that succeeds: `id` is new, and `a` is what the factory of a fitting mode made.
  abbrev pub Spawned :
      (Driver → DriverProbe)
      → String
      → String
      → AgentManager A
      → AgentManager A × ((String × A) ⊎ SpawnError)
      → Type 0
  Spawned ask name id g r =
      (d : Driver) × (m : DriverMode) × (f : Factory A) × (a : A) × (resolve name g.drivers
        ≡ some d)
      × IsTicket d ((probe ask d.id false g.drivers).1) g id m f
      × (f (record { id = id; driver = d; mode = m }) ≡ inl a)
      × (r ≡ (
        record (probed_by ask d g) {
          agents = Map.put id a g.agents;
          created = g.created ++ id ∷ [];
        },
        inl (id, a),
      ))

  -- A spawn that fails leaves agents, events and runtimes, and never for want of a factory for the
  -- mode it chose.
  abbrev pub Failed : AgentManager A → AgentManager A × ((String × A) ⊎ SpawnError) → Type 0
  Failed g r =
      (e : SpawnError) × (r.1 ≡ inr e)
      × (r.0.agents ≡ g.agents)
      × (r.0.created ≡ g.created)
      × (r.0.runtimes ≡ g.runtimes)
      × ((m : DriverMode) → e ≢ no_factory m)

  begin_spawn-some :
      (ask : Driver → DriverProbe) (name : String) (o : SpawnOptions) (names : List String)
      (fallback : String) (g : AgentManager A) (d : Driver)
      → resolve name g.drivers ≡ some d
      → begin_spawn ask name o names fallback g ≡ (
        probed_by ask d g,
        check_probe d
            ((probe ask d.id false g.drivers).1)
            o
            (pick_id o names fallback g.agents)
            (probed_by ask d g),
      )
  unfolding begin_spawn
  begin_spawn-some ask name o names fallback g d e = ground (arith, e)

  begin_spawn-none :
      (ask : Driver → DriverProbe) (name : String) (o : SpawnOptions) (names : List String)
      (fallback : String) (g : AgentManager A)
      → resolve name g.drivers ≡ none
      → begin_spawn ask name o names fallback g ≡ (g, inr (unknown_driver name))
  unfolding begin_spawn
  begin_spawn-none ask name o names fallback g e = ground (arith, e)

  -- A spawn, during which nothing else happens, either succeeds: the name stands for an available
  -- driver, the id was free, the new agent stands under it as the factory made it for a mode that
  -- the driver, the machine and the manager share, and one event tells of it. Or it fails, and the
  -- agents, the events and the runtimes are as before; the internal error does not occur.
  pub spawn_cases :
      (ask : Driver → DriverProbe) (name : String) (o : SpawnOptions) (names : List String)
      (fallback : String) (g : AgentManager A)
      → Spawned ask name (pick_id o names fallback g.agents) g (spawn ask name o names fallback g)
        ⊎ Failed g (spawn ask name o names fallback g)
  unfolding spawn build finish_spawn
  spawn_cases ask name o names fallback g = elim (Option-cases (resolve name g.drivers)) [
    | inl e ↦ inr (
        rw (begin_spawn-none ask name o names fallback g e)
          (unknown_driver name, refl, refl, refl, refl, λ m e. cc))
    | inr (d, e) ↦
        let h = probed_by ask d g in
        let id = pick_id o names fallback g.agents in
        let p = (probe ask d.id false g.drivers).1 in
        elim (check_probe-cases d p o id h) [
          | inr (err, c, n) ↦ inr (
              rw (begin_spawn-some ask name o names fallback g d e, c)
                (err, refl, refl, refl, refl, n))
          | inl (m, f, t, c) ↦ elim (Sum-cases (f (record { id = id; driver = d; mode = m }))) [
            | inl (a, q) ↦ inl (
                rw (begin_spawn-some ask name o names fallback g d e, c, q)
                  (
                    d,
                    m,
                    f,
                    a,
                    e,
                    record {
                      probe = t.probe;
                      probed = t.probed;
                      available = t.available;
                      viable = t.viable;
                      factory = t.factory;
                      free = t.free;
                    },
                    q,
                    refl,
                  ))
            | inr (err, q) ↦ inr (
                rw
                  (
                    begin_spawn-some ask name o names fallback g d e,
                    c,
                    build-inr h (record { id = id; driver = d; mode = m }) f err q,
                  )
                  (factory_failed err, refl, refl, refl, refl, λ m e. cc))
          ]
        ]
  ]

  has-get : (j : String) (a : A) (m : Map A) → Map.get j m ≡ some a → Map.has j m ≡ true
  unfolding Map.has
  has-get j a m e = rw e refl

  -- Whatever a spawn does, every agent that was there is there under its id, as it was.
  pub spawn_keeps :
      (ask : Driver → DriverProbe) (name : String) (o : SpawnOptions) (names : List String)
      (fallback : String) (g : AgentManager A) (j : String) (b : A)
      → Map.get j g.agents ≡ some b
      → Map.get j (spawn ask name o names fallback g).0.agents ≡ some b
  spawn_keeps ask name o names fallback g j b h =
      let id = pick_id o names fallback g.agents in
      elim (spawn_cases ask name o names fallback g) [
        | inl (d, m, f, a, e, t, q, r) ↦
            ap (λ x. Map.get j x.0.agents) r
            ∙ get-put_ne id j a g.agents
                (λ same. ground (arith, t.free, has-get j b g.agents h, same))
            ∙ h
        | inr (err, c, same, rest1, rest2, rest3) ↦ ap (Map.get j) same ∙ h
      ]
