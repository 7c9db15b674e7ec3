-- ===== src/Plugins/Sort.antt =====
-- `sortPlugins` and `topoSort` of src/plugins/loader.ts. A plugin is what they read of one; `ref`
-- tells plugin objects apart. Names compare as native texts. A degree is never lowered below 0: a
-- node whose degree is 0 has no edge left that was not counted, so ℕ stands for the source's numbers.
pub mod Edges
pub mod Wanted
pub mod Waits
pub mod Loop
pub mod Round
pub mod Taken
pub mod Start
pub mod Count
pub mod Result
mod Tests
use Prim.Native.String.{compare}
use package.text.Mathlib.Text.{is_lt}
use cordyceps.Common.{
  ltb, leb, ◌==◌, if◌then◌else◌, ltb→lt, lt→ltb, leb→le, ==_iff, Bool-cases, Option-cases,
  String-cases, str_eq_refl, str_eq-false, length, get_elem?, take, drop, keep, any, last?,
  length-append, take-append-drop, length-take, length-drop, All, All-append, All-map,
  drop-append_of_le, take-append_of_le, drop-length-append, take-length, append-ne-nil,
  slice-append_of_le, ℕ, zero, suc, ◌+◌, ◌-◌, ◌*◌, ◌/◌, ◌%◌, ◌≤◌, ◌<◌, min, max, String, ◌≡◌, refl,
  sym, ap, ◌∙◌, ◌≢◌, ◌↔◌, ◌⊎◌, inl, inr, Bool, true, false, not, ◌&&◌, ◌||◌, Option, none, some,
  List, [], ◌∷◌, ◌++◌, map-append, append-nil, append_assoc, arith, str_eq, eq_iff, map,
}
use cordyceps.Common.Int.{ℤ, leb_int, int_eq}
use cordyceps.Common.Map
use cordyceps.Common.Map.{Map, includes, add}

pub record Plugin : Type 0 where
  pub ref : ℕ
  pub name : String
  pub priority : ℤ
  pub after : List String
  pub before : List String

-- `new Set(group.map((p) => p.name))`
unfoldable pub add_names : List Plugin → List String → List String
add_names [] s = s
add_names (p ∷ ps) s = add_names ps (add p.name s)

abbrev pub name_set : List Plugin → List String
name_set group = add_names group []

abbrev pub Edges : Type 0
Edges = Map (List String)

unfoldable pub no_edges : List Plugin → Edges → Edges
no_edges [] m = m
no_edges (p ∷ ps) m = no_edges ps (Map.put p.name [] m)

-- `edges.get(name) ?? []`
unfoldable pub targets : String → Edges → List String
unfolding Map.get
targets name m = elim (Map.get name m) [ none ↦ [] | some ts ↦ ts ]

-- `edges.get(from)!.add(to)`
unfoldable pub add_edge : String → String → Edges → Edges
unfolding targets Map.put
add_edge from to m = Map.put from (add to (targets from m)) m

unfoldable pub add_after : List String → String → List String → Edges → Edges
unfolding add_edge
add_after names name [] m = m
add_after names name (dep ∷ deps) m =
    add_after names name deps (if includes dep names then add_edge dep name m else m)

unfoldable pub add_before : List String → String → List String → Edges → Edges
unfolding add_edge
add_before names name [] m = m
add_before names name (target ∷ ts) m =
    add_before names name ts (if includes target names then add_edge name target m else m)

-- The hints of the other plugins about `p`.
unfoldable pub add_hint : List String → Plugin → Plugin → Edges → Edges
unfolding add_edge
add_hint names p other m =
    if other.ref == p.ref || not (includes other.name names)
    then m
    else (let m' = if includes p.name other.before then add_edge other.name p.name m else m in
        if includes p.name other.after then add_edge p.name other.name m' else m')

unfoldable pub add_hints : List String → Plugin → List Plugin → Edges → Edges
unfolding add_hint
add_hints names p [] m = m
add_hints names p (other ∷ others) m = add_hints names p others (add_hint names p other m)

unfoldable pub build_edges : List String → List Plugin → List Plugin → Edges → Edges
unfolding add_after add_before add_hints
build_edges names all [] m = m
build_edges names all (p ∷ ps) m =
    build_edges names all ps
      (add_hints names p all (add_before names p.name p.before (add_after names p.name p.after m)))

unfoldable pub edges_of : List Plugin → List Plugin → Edges
unfolding build_edges no_edges add_names
edges_of group all = build_edges (name_set group) all group (no_edges group [])

-- `inDegree`
unfoldable pub zero_degrees : List String → Map ℕ
zero_degrees [] = []
zero_degrees (n ∷ ns) = (n, 0) ∷ zero_degrees ns

unfoldable pub count_targets : List String → Map ℕ → Map ℕ
unfolding Map.get Map.put
count_targets [] d = d
count_targets (t ∷ ts) d =
    count_targets ts (elim (Map.get t d) [ none ↦ d | some k ↦ Map.put t (k + 1) d ])

unfoldable pub count_edges : Edges → Map ℕ → Map ℕ
unfolding count_targets
count_edges [] d = d
count_edges ((n, ts) ∷ m) d = count_edges m (count_targets ts d)

-- `queue.findIndex((q) => q > target)` and `splice` or `push`.
abbrev pub precedes : String → String → Bool
precedes a b = is_lt (compare a b)

unfoldable pub insert_sorted : String → List String → List String
insert_sorted t [] = t ∷ []
insert_sorted t (q ∷ qs) = if precedes t q then t ∷ q ∷ qs else q ∷ insert_sorted t qs

-- `[...nameSet].filter((n) => inDegree.get(n) === 0).sort()`
unfoldable pub first_queue : List String → Map ℕ → List String
unfolding insert_sorted Map.get
first_queue [] d = []
first_queue (n ∷ ns) d =
    let rest = first_queue ns d in
    elim (Map.get n d) [ some zero ↦ insert_sorted n rest | _ ↦ rest ]

-- The loop over the targets of a node that was taken.
abbrev pub lower : String → Option ℕ → Map ℕ → List String → Map ℕ × List String
lower t none d queue = (d, queue)
lower t (some zero) d queue = (d, queue)
lower t (some (suc zero)) d queue = (Map.put t 0 d, insert_sorted t queue)
lower t (some (suc (suc k))) d queue = (Map.put t (suc k) d, queue)

unfoldable pub lower_all : List String → Map ℕ → List String → Map ℕ × List String
unfolding insert_sorted Map.get Map.put
lower_all [] d queue = (d, queue)
lower_all (t ∷ ts) d queue =
    let (d', queue') = lower t (Map.get t d) d queue in lower_all ts d' queue'

-- The `while` loop: the names in the order in which they are taken, behind those of `result`.
unfoldable pub take_all : ℕ → Edges → Map ℕ → List String → List String → List String
unfolding lower_all targets
take_all zero m d queue result = result
take_all (suc fuel) m d [] result = result
take_all (suc fuel) m d (name ∷ queue) result =
    let (d', queue') = lower_all (targets name m) d queue in
    take_all fuel m d' queue' (result ++ name ∷ [])

-- The last plugin of a name in `all`.
unfoldable pub by_name : String → List Plugin → Option Plugin
by_name n [] = none
by_name n (p ∷ ps) = elim (by_name n ps) [
  | some q ↦ some q
  | none ↦ if str_eq p.name n then some p else none
]

abbrev pub map_names : List Plugin → List String → List Plugin
map_names all [] = []
map_names all (n ∷ ns) =
    let rest = map_names all ns in elim (by_name n all) [ none ↦ rest | some p ↦ p ∷ rest ]

-- The names in the order found, or those that are missing, for which this throws.
unfoldable pub order_names : List Plugin → List Plugin → List String ⊎ List String
unfolding edges_of count_edges zero_degrees first_queue take_all add_names
order_names group all =
    let names = name_set group in
    let m = edges_of group all in
    let d = count_edges m (zero_degrees names) in
    let result = take_all (length names + 1) m d (first_queue names d) [] in
    if length result == length group
    then inl result
    else inr (keep (λ n. not (includes n result)) names)

unfoldable pub topo_sort : List Plugin → List Plugin → List Plugin ⊎ List String
unfolding order_names by_name
topo_sort group all = elim (order_names group all) [
  | inl names ↦ inl (map_names all names)
  | inr missing ↦ inr missing
]

-- `[...groups.keys()].sort((a, b) => a - b)`, and the group of a priority.
unfoldable pub insert_priority : ℤ → List ℤ → List ℤ
insert_priority k [] = k ∷ []
insert_priority k (j ∷ js) =
    let rest = insert_priority k js in
    if int_eq k j then j ∷ js else if leb_int k j then k ∷ j ∷ js else j ∷ rest

unfoldable pub priorities : List Plugin → List ℤ
unfolding insert_priority
priorities [] = []
priorities (p ∷ ps) = insert_priority p.priority (priorities ps)

abbrev pub group_of : ℤ → List Plugin → List Plugin
group_of k ps = keep (λ p. int_eq p.priority k) ps

unfoldable pub sort_groups : List ℤ → List Plugin → List Plugin ⊎ List String
unfolding topo_sort
sort_groups [] all = inl []
sort_groups (k ∷ ks) all =
    let rest = sort_groups ks all in
    elim (topo_sort (group_of k all) all) [
      | inr missing ↦ inr missing
      | inl ps ↦ elim rest [ inr missing ↦ inr missing | inl qs ↦ inl (ps ++ qs) ]
    ]

unfoldable pub sort_plugins : List Plugin → List Plugin ⊎ List String
unfolding sort_groups priorities
sort_plugins plugins = sort_groups (priorities plugins) plugins
