-- ===== src/Plugins/Sort/Start.antt =====
-- The graph and the state that the loop starts with.
use mathlib.Core.Path.{subst}
use cordyceps.Common.{
  ◌==◌, if◌then◌else◌, Bool-cases, Option-cases, str_eq_refl, ℕ, zero, suc, String, ◌≡◌, refl, sym,
  ap, ◌∙◌, inl, inr, Bool, true, false, ◌&&◌, ◌||◌, none, some, List, [], ◌∷◌, arith, str_eq,
  eq_iff,
}
use cordyceps.Common.Map.{includes-add, Map, get, put, includes, add, keys}
use cordyceps.Plugins.Sort.{
  Plugin, Edges, add_names, name_set, no_edges, targets, edges_of, zero_degrees, count_edges,
  first_queue, insert_sorted,
}
use cordyceps.Plugins.Sort.Waits.{
  Uniq, UniqTargets, waits, get-count_edges, get-zero_degrees, add_some,
}
use cordyceps.Plugins.Sort.Loop.{is_zero, includes-insert_sorted, insert_sorted-Uniq}
use cordyceps.Plugins.Sort.Taken.{Taken}
use cordyceps.Plugins.Sort.Round.{targets_nil}
use cordyceps.Plugins.Sort.Edges.{IsOver, add-Uniq, keys-put, UniqTargets-put, targets-put}
use cordyceps.Plugins.Sort.Wanted.{wanted, AllNamed, build_edges-IsOver, includes-build_edges}

pub add_names-Uniq : (ps : List Plugin) (s : List String) → Uniq s → Uniq (add_names ps s)
unfolding add_names
add_names-Uniq [] s u = u
add_names-Uniq (p ∷ ps) s u = add_names-Uniq ps (add p.name s) (add-Uniq p.name s u)

includes-add_names :
    (n : String) (ps : List Plugin) (s : List String)
    → includes n s ≡ true
    → includes n (add_names ps s) ≡ true
unfolding add_names
includes-add_names n [] s h = h
includes-add_names n (p ∷ ps) s h =
    includes-add_names n ps (add p.name s) (includes-add n p.name s ∙ rw h refl)

pub add_names-AllNamed : (ps : List Plugin) (s : List String) → AllNamed (add_names ps s) ps
unfolding add_names
add_names-AllNamed [] s = tt
add_names-AllNamed (p ∷ ps) s = (
  includes-add_names p.name ps (add p.name s)
      (includes-add p.name p.name s ∙ ground (arith, str_eq_refl p.name)),
  add_names-AllNamed ps (add p.name s),
)

no_edges-IsOver :
    (ps : List Plugin) (s : List String) (m : Edges)
    → IsOver s m
    → IsOver (add_names ps s) (no_edges ps m)
unfolding add_names no_edges
no_edges-IsOver [] s m w = w
no_edges-IsOver (p ∷ ps) s m w =
    no_edges-IsOver ps (add p.name s) (put p.name [] m)
      (keys-put p.name [] m ∙ ap (add p.name) w.0, UniqTargets-put p.name [] m tt w.1)

includes-no_edges :
    (ps : List Plugin) (a b : String) (m : Edges)
    → includes b (targets a m) ≡ false
    → includes b (targets a (no_edges ps m)) ≡ false
unfolding no_edges
includes-no_edges [] a b m h = h
includes-no_edges (p ∷ ps) a b m h =
    includes-no_edges ps a b (put p.name [] m)
      (ap (includes b) (targets-put p.name a [] m) ∙ ground (arith, h))

pub edges_of-IsOver : (group all : List Plugin) → IsOver (name_set group) (edges_of group all)
unfolding edges_of
edges_of-IsOver group all =
    build_edges-IsOver (name_set group) all group (no_edges group []) (add_names-AllNamed group [])
      (no_edges-IsOver group [] [] (refl, tt))

-- An edge of the graph is a hint that one of the plugins gives.
pub includes-edges_of :
    (group all : List Plugin) (a b : String)
    → includes b (targets a (edges_of group all)) ≡ wanted (name_set group) all group a b
unfolding edges_of
includes-edges_of group all a b =
    includes-build_edges (name_set group) all group a b (no_edges group [])
    ∙ ap (λ x. x || wanted (name_set group) all group a b)
        (includes-no_edges group a b [] (ap (includes b) (targets_nil a)))

first_queue-cons :
    (x : String) (ns : List String) (d : Map ℕ)
    → first_queue (x ∷ ns) d
      ≡ (if is_zero (get x d) then insert_sorted x (first_queue ns d) else first_queue ns d)
unfolding first_queue
first_queue-cons x ns d = elim (Option-cases (get x d)) [
  | inl e ↦ ground (arith, e)
  | inr (zero, e) ↦ ground (arith, e)
  | inr (suc k, e) ↦ ground (arith, e)
]

includes-first_queue :
    (n : String) (ns : List String) (d : Map ℕ)
    → includes n (first_queue ns d) ≡ includes n ns && is_zero (get n d)
unfolding first_queue
includes-first_queue n [] d = refl
includes-first_queue n (x ∷ ns) d =
    ap (includes n) (first_queue-cons x ns d) ∙ elim (Bool-cases (is_zero (get x d))) [
      | inl z ↦ rw z (
          includes-insert_sorted n x (first_queue ns d)
          ∙ rw (includes-first_queue n ns d) (elim (Bool-cases (str_eq x n)) [
            | inl q ↦
                let y : is_zero (get n d) ≡ true =
                  ap (λ k. is_zero (get k d)) (sym ((eq_iff x n).0 q)) ∙ z in
                rw (q, y) refl
            | inr q ↦ rw q refl
          ]))
      | inr z ↦ rw z (
          includes-first_queue n ns d ∙ elim (Bool-cases (str_eq x n)) [
            | inl q ↦
                let y : is_zero (get n d) ≡ false =
                  ap (λ k. is_zero (get k d)) (sym ((eq_iff x n).0 q)) ∙ z in
                rw (q, y) (ground arith)
            | inr q ↦ rw q refl
          ])
    ]

first_queue-Uniq : (ns : List String) (d : Map ℕ) → Uniq ns → Uniq (first_queue ns d)
unfolding first_queue
first_queue-Uniq [] d u = tt
first_queue-Uniq (x ∷ ns) d u =
    subst Uniq (sym (first_queue-cons x ns d)) (elim (Bool-cases (is_zero (get x d))) [
      | inl z ↦ rw z (
          insert_sorted-Uniq x (first_queue ns d) (includes-first_queue x ns d ∙ rw (u.0) refl)
            (first_queue-Uniq ns d u.1))
      | inr z ↦ rw z (first_queue-Uniq ns d u.1)
    ])

is_zero-degree :
    (name : Bool) (w : ℕ)
    → name && is_zero (if name then some w else none) ≡ name && (w == 0 && true)
is_zero-degree false w = refl
is_zero-degree true zero = refl
is_zero-degree true (suc w) = ground arith

degrees_lem :
    (name : Bool) (w : ℕ)
    → add_some w (if name then some 0 else none) ≡ (if name then some w else none)
degrees_lem true w = ap some (omega arith)
degrees_lem false w = refl

module _ (group all : List Plugin) where
  pub start_Uniq : Uniq (keys (edges_of group all))
  start_Uniq = subst Uniq (sym (edges_of-IsOver group all).0) (add_names-Uniq group [] tt)

  pub start_UniqTargets : UniqTargets (edges_of group all)
  start_UniqTargets = (edges_of-IsOver group all).1

  abbrev pub start_degrees : Map ℕ
  start_degrees = count_edges (edges_of group all) (zero_degrees (name_set group))

  get-start_degrees :
      (n : String)
      → get n start_degrees
        ≡ (if includes n (name_set group) then some (waits n (edges_of group all) []) else none)
  get-start_degrees n =
      get-count_edges n (edges_of group all) (zero_degrees (name_set group)) start_UniqTargets
      ∙ ap (add_some (waits n (edges_of group all) [])) (get-zero_degrees n (name_set group))
      ∙ degrees_lem (includes n (name_set group)) (waits n (edges_of group all) [])

  -- The state in front of the loop has the loop's invariant.
  pub start-Taken :
      Taken
        (name_set group)
        (edges_of group all)
        start_Uniq
        start_UniqTargets
        start_degrees
        (first_queue (name_set group) start_degrees)
        []
  start-Taken = record {
    degrees = get-start_degrees;
    uniq_queue = first_queue-Uniq (name_set group) start_degrees (add_names-Uniq group [] tt);
    queued = λ n.
        includes-first_queue n (name_set group) start_degrees
        ∙ ap (λ o. includes n (name_set group) && is_zero o) (get-start_degrees n)
        ∙ is_zero-degree (includes n (name_set group)) (waits n (edges_of group all) []);
    uniq_result = tt;
    known = λ n h. absurd (ground (arith, h));
    settled = λ n h. absurd (ground (arith, h));
    ordered = tt;
  }
