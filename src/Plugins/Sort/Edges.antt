-- ===== src/Plugins/Sort/Edges.antt =====
-- The edges are the hints that the plugins give.
use cordyceps.Common.{
  if◌then◌else◌, Bool-cases, String, ◌≡◌, refl, sym, ap, ◌∙◌, inl, inr, true, false, ◌&&◌, ◌||◌,
  List, [], ◌∷◌, arith, str_eq, eq_iff,
}
use cordyceps.Common.Map.{includes-add, put, includes, add, keys, get-put}
use cordyceps.Plugins.Sort.{Edges, targets, add_edge, add_after, add_before}
use cordyceps.Plugins.Sort.Waits.{Uniq, UniqTargets}
use cordyceps.Plugins.Sort.Round.{Uniq-append, targets-Uniq}

pub add-Uniq : (k : String) (s : List String) → Uniq s → Uniq (add k s)
add-Uniq k s u = elim (Bool-cases (includes k s)) [
  | inl e ↦ rw e u
  | inr e ↦ rw e (Uniq-append s k u e)
]

pub keys-put : (k : String) (v : List String) (m : Edges) → keys (put k v m) ≡ add k (keys m)
unfolding put
keys-put k v [] = refl
keys-put k v ((j, w) ∷ m) = elim (Bool-cases (str_eq j k)) [
  | inl e ↦ rw e refl
  | inr e ↦
      rw (e, keys-put k v m)
        (elim (Bool-cases (includes k (keys m))) [ inl i ↦ rw i refl | inr i ↦ rw i refl ])
]

pub UniqTargets-put :
    (k : String) (v : List String) (m : Edges) → Uniq v → UniqTargets m → UniqTargets (put k v m)
unfolding put
UniqTargets-put k v [] u t = (u, tt)
UniqTargets-put k v ((j, w) ∷ m) u t = elim (Bool-cases (str_eq j k)) [
  | inl e ↦ rw e (u, t.1)
  | inr e ↦ rw e (t.0, UniqTargets-put k v m u t.1)
]

pub targets-put :
    (k n : String) (v : List String) (m : Edges)
    → targets n (put k v m) ≡ (if str_eq k n then v else targets n m)
unfolding targets
targets-put k n v m = ground (arith, get-put k n v m)

-- A graph over these nodes.
abbrev pub IsOver : List String → Edges → Type 0
IsOver names m = (keys m ≡ names) × UniqTargets m

pub add_edge-IsOver :
    (from to : String) (names : List String) (m : Edges)
    → includes from names ≡ true
    → IsOver names m
    → IsOver names (add_edge from to m)
unfolding add_edge
add_edge-IsOver from to names m i w = (
  keys-put from (add to (targets from m)) m ∙ rw (w.0, i) refl,
  UniqTargets-put from (add to (targets from m)) m
      (add-Uniq to (targets from m) (targets-Uniq from m w.1)) w.1,
)

pub includes-add_edge :
    (from to a b : String) (m : Edges)
    → includes b (targets a (add_edge from to m))
      ≡ includes b (targets a m) || (str_eq from a && str_eq to b)
unfolding add_edge
includes-add_edge from to a b m =
    ap (includes b) (targets-put from a (add to (targets from m)) m)
    ∙ elim (Bool-cases (str_eq from a)) [
      | inl e ↦ rw e (
          includes-add b to (targets from m)
          ∙ ap (λ x. includes b (targets x m) || str_eq to b) ((eq_iff from a).0 e))
      | inr e ↦ rw e (ground arith)
    ]

pub add_after-IsOver :
    (names deps : List String) (name : String) (m : Edges)
    → IsOver names m
    → IsOver names (add_after names name deps m)
unfolding add_after
add_after-IsOver names [] name m w = w
add_after-IsOver names (d ∷ deps) name m w = elim (Bool-cases (includes d names)) [
  | inl e ↦
      rw e
        (add_after-IsOver names deps name (add_edge d name m) (add_edge-IsOver d name names m e w))
  | inr e ↦ rw e (add_after-IsOver names deps name m w)
]

pub includes-add_after :
    (names deps : List String) (name a b : String) (m : Edges)
    → includes b (targets a (add_after names name deps m))
      ≡ includes b (targets a m) || (str_eq name b && includes a deps && includes a names)
unfolding add_after
includes-add_after names [] name a b m = ground arith
includes-add_after names (d ∷ deps) name a b m = elim (Bool-cases (includes d names)) [
  | inl e ↦ rw e (
      includes-add_after names deps name a b (add_edge d name m)
      ∙ rw (includes-add_edge d name a b m) (elim (Bool-cases (str_eq d a)) [
        | inl q ↦
            let y : includes a names ≡ true =
              ap (λ x. includes x names) (sym ((eq_iff d a).0 q)) ∙ e in
            rw (q, y) (ground arith)
        | inr q ↦ rw q (ground arith)
      ]))
  | inr e ↦ rw e (
      includes-add_after names deps name a b m ∙ elim (Bool-cases (str_eq d a)) [
        | inl q ↦
            let y : includes a names ≡ false =
              ap (λ x. includes x names) (sym ((eq_iff d a).0 q)) ∙ e in
            rw (q, y) (ground arith)
        | inr q ↦ rw q (ground arith)
      ])
]

pub add_before-IsOver :
    (names ts : List String) (name : String) (m : Edges)
    → includes name names ≡ true
    → IsOver names m
    → IsOver names (add_before names name ts m)
unfolding add_before
add_before-IsOver names [] name m i w = w
add_before-IsOver names (t ∷ ts) name m i w = elim (Bool-cases (includes t names)) [
  | inl e ↦
      rw e
        (add_before-IsOver names ts name (add_edge name t m) i (add_edge-IsOver name t names m i w))
  | inr e ↦ rw e (add_before-IsOver names ts name m i w)
]

pub includes-add_before :
    (names ts : List String) (name a b : String) (m : Edges)
    → includes b (targets a (add_before names name ts m))
      ≡ includes b (targets a m) || (str_eq name a && includes b ts && includes b names)
unfolding add_before
includes-add_before names [] name a b m = ground arith
includes-add_before names (t ∷ ts) name a b m = elim (Bool-cases (includes t names)) [
  | inl e ↦ rw e (
      includes-add_before names ts name a b (add_edge name t m)
      ∙ rw (includes-add_edge name t a b m) (elim (Bool-cases (str_eq t b)) [
        | inl q ↦
            let y : includes b names ≡ true =
              ap (λ x. includes x names) (sym ((eq_iff t b).0 q)) ∙ e in
            rw (q, y) (ground arith)
        | inr q ↦ rw q (ground arith)
      ]))
  | inr e ↦ rw e (
      includes-add_before names ts name a b m ∙ elim (Bool-cases (str_eq t b)) [
        | inl q ↦
            let y : includes b names ≡ false =
              ap (λ x. includes x names) (sym ((eq_iff t b).0 q)) ∙ e in
            rw (q, y) (ground arith)
        | inr q ↦ rw q (ground arith)
      ])
]
