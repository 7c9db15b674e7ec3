-- ===== src/Drivers/Registry/Names.antt =====
-- Which driver a name stands for, after `register` and `unregister`.
use cordyceps.Common.{
  if◌then◌else◌, Bool-cases, Option-cases, String-cases, String, ◌≡◌, refl, ◌≢◌, ◌⊎◌, inl, inr,
  true, ◌||◌, Option, none, some, List, [], ◌∷◌, arith, str_eq, eq_iff,
}
use cordyceps.Common.Map
use cordyceps.Common.Map.{Map, includes, is_some, get-put, get-delete}
use cordyceps.Drivers.Api.{Driver}
use cordyceps.Drivers.Registry.{
  DriverRegistry, collision, put_aliases, delete_aliases, register, unregister, resolve, empty,
}

-- Every alias belongs to one registered driver, and every driver has all of its aliases.
pub record IsSound (r : DriverRegistry) : Type 0 where
  pub keyed : (n : String) (d : Driver) → Map.get n r.drivers ≡ some d → d.id ≡ n
  pub named : (d : Driver) → Map.get "" r.drivers ≢ some d
  pub pointed :
      (a i : String)
      → Map.get a r.aliases ≡ some i
      → (d : Driver) × (Map.get i r.drivers ≡ some d) × (includes a d.aliases ≡ true)
  pub claimed :
      (n a : String) (d : Driver)
      → Map.get n r.drivers ≡ some d
      → includes a d.aliases ≡ true
      → Map.get a r.aliases ≡ some n

pub empty-IsSound : IsSound empty
unfolding Map.get
empty-IsSound = record {
  keyed = λ n d e. cc;
  named = λ d e. cc;
  pointed = λ a i e. cc;
  claimed = λ n a d e h. cc;
}

-- The driver of an alias, from what the two maps hold.
abbrev through : Map Driver → Option String → Option Driver
through m none = none
through m (some c) = Map.get c m

-- What `resolve` comes to in a sound registry: the id goes first.
abbrev pub owner : String → DriverRegistry → Option Driver
owner n r = elim (Map.get n r.drivers) [
  | some d ↦ some d
  | none ↦ through r.drivers (Map.get n r.aliases)
]

pub resolve-owner : (n : String) (r : DriverRegistry) → IsSound r → resolve n r ≡ owner n r
unfolding resolve
resolve-owner n r sound = elim (Option-cases (Map.get n r.drivers)) [
  | inr (d, e) ↦ ground (arith, e, eq_iff n "", sound.named d)
  | inl e ↦ elim (Option-cases (Map.get n r.aliases)) [
    | inl f ↦ ground (arith, e, f)
    | inr (c, f) ↦
        let (d, at, has) = sound.pointed n c f in
        ground (arith, e, f, at, eq_iff c "", sound.named d)
  ]
]

get-put_aliases :
    (a id : String) (as' : List String) (m : Map String)
    → Map.get a (put_aliases as' id m) ≡ (if includes a as' then some id else Map.get a m)
unfolding put_aliases
get-put_aliases a id [] m = refl
get-put_aliases a id (b ∷ as') m =
    ground (arith, get-put_aliases a id as' (Map.put b id m), get-put b a id m)

get-delete_aliases :
    (a : String) (as' : List String) (m : Map String)
    → Map.get a (delete_aliases as' m) ≡ (if includes a as' then none else Map.get a m)
unfolding delete_aliases
get-delete_aliases a [] m = refl
get-delete_aliases a (b ∷ as') m =
    ground (arith, get-delete_aliases a as' (Map.delete b m), get-delete b a m)

collision-none :
    (r : DriverRegistry) (as' : List String) (a : String)
    → collision r as' ≡ none
    → includes a as' ≡ true
    → (Map.get a r.drivers ≡ none) × (Map.get a r.aliases ≡ none)
unfolding collision Map.has
collision-none r [] a h m = cc
collision-none r (b ∷ as') a h m = ground (arith, collision-none r as' a, eq_iff b a)

abbrev added : Driver → DriverRegistry → DriverRegistry
added d r = record r {
  drivers = Map.put d.id d r.drivers;
  aliases = put_aliases d.aliases d.id r.aliases;
}

-- What a registration that did not throw has checked and done.
record Registered (d : Driver) (r s : DriverRegistry) : Type 0 where
  new_id : Map.get d.id r.drivers ≡ none
  new_aliases : collision r d.aliases ≡ none
  result : s ≡ added d r

register-Registered : (d : Driver) (r s : DriverRegistry) → register d r ≡ inl s → Registered d r s
unfolding register Map.has
register-Registered d r s h = ground arith

module _ (d : Driver) (r s : DriverRegistry) (sound : IsSound r) (done : Registered d r s)
    (named : d.id ≢ "") where
  driver_at :
      (n : String) → Map.get n s.drivers ≡ (if str_eq d.id n then some d else Map.get n r.drivers)
  driver_at n = rw done.result (get-put d.id n d r.drivers)

  alias_at :
      (a : String)
      → Map.get a s.aliases ≡ (if includes a d.aliases then some d.id else Map.get a r.aliases)
  alias_at a = rw done.result (get-put_aliases a d.id d.aliases r.aliases)

  pointed_after :
      (a i : String)
      → Map.get a s.aliases ≡ some i
      → (e : Driver) × (Map.get i s.drivers ≡ some e) × (includes a e.aliases ≡ true)
  pointed_after a i h = elim (Bool-cases (includes a d.aliases)) [
    | inl m ↦ (d, ground (arith, alias_at a, driver_at i, eq_iff d.id i), m)
    | inr m ↦
        let old : Map.get a r.aliases ≡ some i = ground (arith, alias_at a) in
        let (e, at, has) = sound.pointed a i old in
        (e, ground (arith, driver_at i, eq_iff d.id i, done.new_id), has)
  ]

  Registered-IsSound : IsSound s
  Registered-IsSound = record {
    keyed = λ n e h. ground (arith, driver_at n, eq_iff d.id n, sound.keyed n e);
    named = λ e h. ground (arith, driver_at "", eq_iff d.id "", sound.named e);
    pointed = pointed_after;
    claimed = λ n a e h k. ground (
      arith,
      driver_at n,
      alias_at a,
      eq_iff d.id n,
      sound.claimed n a e,
      collision-none r d.aliases a done.new_aliases,
    );
  }

  owner_after :
      (n : String)
      → owner n s ≡ (if str_eq d.id n || includes n d.aliases then some d else owner n r)
  owner_after n = elim (Bool-cases (includes n d.aliases)) [
    | inl m ↦ ground (
      arith,
      driver_at n,
      driver_at d.id,
      alias_at n,
      eq_iff d.id n,
      eq_iff d.id d.id,
      collision-none r d.aliases n done.new_aliases m,
    )
    | inr m ↦ elim (Option-cases (Map.get n r.aliases)) [
      | inl f ↦ ground (arith, f, driver_at n, alias_at n, eq_iff d.id n, done.new_id)
      | inr (c, f) ↦
          let (e, at, has) = sound.pointed n c f in
          ground (
            arith,
            f,
            at,
            driver_at n,
            driver_at c,
            alias_at n,
            eq_iff d.id n,
            eq_iff d.id c,
            done.new_id,
          )
    ]
  ]

-- Registering a driver with a non-empty id keeps the registry sound.
pub register-IsSound :
    (d : Driver) (r s : DriverRegistry) → IsSound r → d.id ≢ "" → register d r ≡ inl s → IsSound s
register-IsSound d r s sound named h =
    Registered-IsSound d r s sound (register-Registered d r s h) named

-- After a registration the id and the aliases of the driver stand for it, and every other name
-- stands for what it stood for.
pub resolve-register :
    (d : Driver) (r s : DriverRegistry) (n : String)
    → IsSound r
    → d.id ≢ ""
    → register d r ≡ inl s
    → resolve n s ≡ (if str_eq d.id n || includes n d.aliases then some d else resolve n r)
resolve-register d r s n sound named h =
    let done = register-Registered d r s h in
    rw (resolve-owner n s (Registered-IsSound d r s sound done named), resolve-owner n r sound)
      (owner_after d r s sound done named n)

-- What `unregister` of a registered id has done.
record Removed (id : String) (d : Driver) (r s : DriverRegistry) : Type 0 where
  at : Map.get id r.drivers ≡ some d
  drivers : s.drivers ≡ Map.delete id r.drivers
  aliases : s.aliases ≡ delete_aliases d.aliases r.aliases

unregister-Removed :
    (id : String) (r s : DriverRegistry)
    → unregister id r ≡ (s, true)
    → (d : Driver) × Removed id d r s
unfolding unregister
unregister-Removed id r s h = elim (Option-cases (Map.get id r.drivers)) [
  | inl e ↦ ground (arith, e)
  | inr (d, e) ↦ (d, record { at = e; drivers = ground (arith, e); aliases = ground (arith, e) })
]

module _ (id : String) (d : Driver) (r s : DriverRegistry) (sound : IsSound r)
    (done : Removed id d r s) where
  driver_left :
      (n : String) → Map.get n s.drivers ≡ (if str_eq id n then none else Map.get n r.drivers)
  driver_left n = rw done.drivers (get-delete id n r.drivers)

  alias_left :
      (a : String)
      → Map.get a s.aliases ≡ (if includes a d.aliases then none else Map.get a r.aliases)
  alias_left a = rw done.aliases (get-delete_aliases a d.aliases r.aliases)

  pointed_left :
      (a i : String)
      → Map.get a s.aliases ≡ some i
      → (e : Driver) × (Map.get i s.drivers ≡ some e) × (includes a e.aliases ≡ true)
  pointed_left a i h =
      let old : Map.get a r.aliases ≡ some i = ground (arith, alias_left a) in
      let (e, at, has) = sound.pointed a i old in
      (e, ground (arith, alias_left a, driver_left i, eq_iff id i, done.at, at, has), has)

  Removed-IsSound : IsSound s
  Removed-IsSound = record {
    keyed = λ n e h. ground (arith, driver_left n, sound.keyed n e);
    named = λ e h. ground (arith, driver_left "", sound.named e);
    pointed = pointed_left;
    claimed = λ n a e h k. ground (
      arith,
      driver_left n,
      alias_left a,
      eq_iff id n,
      sound.claimed n a e,
      sound.claimed id a d done.at,
    );
  }

  owner_left : (n : String) (e : Driver) → owner n r ≡ some e → e.id ≢ id → owner n s ≡ some e
  owner_left n e h other = elim (Option-cases (Map.get n r.drivers)) [
    | inr (f, at) ↦ ground (arith, at, driver_left n, eq_iff id n, sound.keyed n f at)
    | inl none_at ↦ elim (Option-cases (Map.get n r.aliases)) [
      | inl no_alias ↦ ground (arith, none_at, no_alias)
      | inr (c, alias) ↦ ground (
        arith,
        none_at,
        alias,
        driver_left n,
        alias_left n,
        driver_left c,
        eq_iff id c,
        sound.keyed c e,
        sound.claimed id n d done.at,
      )
    ]
  ]

  owner_gone : (n : String) (e : Driver) → owner n s ≡ some e → e.id ≢ id
  owner_gone n e h same = elim (Option-cases (Map.get n s.drivers)) [
    | inr (f, at) ↦ ground (arith, at, driver_left n, eq_iff id n, Removed-IsSound.keyed n f at)
    | inl none_at ↦ elim (Option-cases (Map.get n s.aliases)) [
      | inl no_alias ↦ ground (arith, none_at, no_alias)
      | inr (c, alias) ↦
          ground (arith, none_at, alias, driver_left c, eq_iff id c, Removed-IsSound.keyed c e)
    ]
  ]

-- Unregistering keeps the registry sound.
pub unregister-IsSound :
    (id : String) (r s : DriverRegistry) → IsSound r → unregister id r ≡ (s, true) → IsSound s
unregister-IsSound id r s sound h =
    let (d, done) = unregister-Removed id r s h in Removed-IsSound id d r s sound done

-- After an id is unregistered a name stands for nothing or for a driver with another id, and a name
-- that stood for a driver with another id still does.
pub resolve-unregister :
    (id : String) (r s : DriverRegistry) (n : String)
    → IsSound r
    → unregister id r ≡ (s, true)
    → ((resolve n s ≡ none) ⊎ ((e : Driver) × (resolve n s ≡ some e) × (e.id ≢ id)))
      × ((resolve n r ≡ none)
          ⊎ ((e : Driver) × (resolve n r ≡ some e) × ((e.id ≡ id) ⊎ (resolve n s ≡ some e))))
resolve-unregister id r s n sound h =
    let (d, done) = unregister-Removed id r s h in
    rw (resolve-owner n s (Removed-IsSound id d r s sound done), resolve-owner n r sound)
      (
        elim (Option-cases (owner n s)) [
          | inl e ↦ inl e
          | inr (e, at) ↦ inr (e, at, owner_gone id d r s sound done n e at)
        ],
        elim (Option-cases (owner n r)) [
          | inl e ↦ inl e
          | inr (e, at) ↦ inr (
            e,
            at,
            elim (String-cases e.id id) [
              | inl same ↦ inl same
              | inr other ↦ inr (owner_left id d r s sound done n e at other)
            ],
          )
        ],
      )
