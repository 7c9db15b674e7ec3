-- ===== src/Plugins/Sort/Wanted.antt =====
-- The edges are the hints that the plugins give, stated without the graph.
use cordyceps.Common.{
  ◌==◌, Bool-cases, String, ◌≡◌, sym, ap, ◌∙◌, inl, inr, Bool, true, false, not, ◌&&◌, ◌||◌, List,
  [], ◌∷◌, arith, str_eq, eq_iff,
}
use cordyceps.Common.Map.{includes}
use cordyceps.Plugins.Sort.{
  Plugin, Edges, targets, add_edge, add_after, add_before, add_hint, add_hints, build_edges,
}
use cordyceps.Plugins.Sort.Edges.{
  IsOver, add_edge-IsOver, includes-add_edge, add_after-IsOver, includes-add_after,
  add_before-IsOver, includes-add_before,
}

-- `p` wants `a` in front of `b`, both of them nodes.
abbrev pub hints : List String → Plugin → String → String → Bool
hints names p a b =
    (str_eq p.name b && includes a p.after && includes a names)
    || (str_eq p.name a && includes b p.before && includes b names)

-- Another plugin `o`, with the name of a node, wants it of itself and `p`.
abbrev pub hints_of : List String → Plugin → Plugin → String → String → Bool
hints_of names p o a b =
    not (o.ref == p.ref || not (includes o.name names))
    && ((str_eq o.name a && str_eq p.name b && includes p.name o.before)
        || (str_eq p.name a && str_eq o.name b && includes p.name o.after))

abbrev pub any_hints_of : List String → Plugin → List Plugin → String → String → Bool
any_hints_of names p [] a b = false
any_hints_of names p (o ∷ os) a b = hints_of names p o a b || any_hints_of names p os a b

-- A plugin of the list or another one about it wants `a` in front of `b`.
abbrev pub wanted : List String → List Plugin → List Plugin → String → String → Bool
wanted names all [] a b = false
wanted names all (p ∷ ps) a b =
    (hints names p a b || any_hints_of names p all a b) || wanted names all ps a b

or_assoc : (x y z : Bool) → (x || y) || z ≡ x || (y || z)
or_assoc x y z = ground arith

or_nested : (x a b c d : Bool) → (((x || a) || b) || c) || d ≡ x || (((a || b) || c) || d)
or_nested x a b c d = ground arith

add_hint-IsOver :
    (names : List String) (p o : Plugin) (m : Edges)
    → includes p.name names ≡ true
    → IsOver names m
    → IsOver names (add_hint names p o m)
unfolding add_hint
add_hint-IsOver names p o m i w =
    elim (Bool-cases (o.ref == p.ref || not (includes o.name names))) [
      | inl e ↦ rw e w
      | inr e ↦ rw e (
          let k : includes o.name names ≡ true = ground (arith, e) in
          elim (Bool-cases (includes p.name o.before)) [
            | inl f ↦
                let v = add_edge-IsOver o.name p.name names m k w in
                rw f (elim (Bool-cases (includes p.name o.after)) [
                  | inl g ↦
                      rw g (add_edge-IsOver p.name o.name names (add_edge o.name p.name m) i v)
                  | inr g ↦ rw g v
                ])
            | inr f ↦ rw f (elim (Bool-cases (includes p.name o.after)) [
              | inl g ↦ rw g (add_edge-IsOver p.name o.name names m i w)
              | inr g ↦ rw g w
            ])
          ])
    ]

includes-add_hint :
    (names : List String) (p o : Plugin) (a b : String) (m : Edges)
    → includes b (targets a (add_hint names p o m))
      ≡ includes b (targets a m) || hints_of names p o a b
unfolding add_hint
includes-add_hint names p o a b m =
    elim (Bool-cases (o.ref == p.ref || not (includes o.name names))) [
      | inl e ↦ rw e (ground arith)
      | inr e ↦ rw e (elim (Bool-cases (includes p.name o.before)) [
        | inl f ↦ rw f (elim (Bool-cases (includes p.name o.after)) [
          | inl g ↦ rw g (
              includes-add_edge p.name o.name a b (add_edge o.name p.name m)
              ∙ rw (includes-add_edge o.name p.name a b m) (ground arith))
          | inr g ↦ rw g (includes-add_edge o.name p.name a b m ∙ ground arith)
        ])
        | inr f ↦ rw f (elim (Bool-cases (includes p.name o.after)) [
          | inl g ↦ rw g (includes-add_edge p.name o.name a b m ∙ ground arith)
          | inr g ↦ rw g (ground arith)
        ])
      ])
    ]

add_hints-IsOver :
    (names : List String) (p : Plugin) (os : List Plugin) (m : Edges)
    → includes p.name names ≡ true
    → IsOver names m
    → IsOver names (add_hints names p os m)
unfolding add_hints
add_hints-IsOver names p [] m i w = w
add_hints-IsOver names p (o ∷ os) m i w =
    add_hints-IsOver names p os (add_hint names p o m) i (add_hint-IsOver names p o m i w)

includes-add_hints :
    (names : List String) (p : Plugin) (os : List Plugin) (a b : String) (m : Edges)
    → includes b (targets a (add_hints names p os m))
      ≡ includes b (targets a m) || any_hints_of names p os a b
unfolding add_hints
includes-add_hints names p [] a b m = ground arith
includes-add_hints names p (o ∷ os) a b m =
    includes-add_hints names p os a b (add_hint names p o m)
    ∙ rw (includes-add_hint names p o a b m)
        (or_assoc (includes b (targets a m)) (hints_of names p o a b) (any_hints_of names p os a b))

-- Every plugin of the list is a node.
abbrev pub AllNamed : List String → List Plugin → Type 0
AllNamed names [] = Unit
AllNamed names (p ∷ ps) = (includes p.name names ≡ true) × AllNamed names ps

pub build_edges-IsOver :
    (names : List String) (all ps : List Plugin) (m : Edges)
    → AllNamed names ps
    → IsOver names m
    → IsOver names (build_edges names all ps m)
unfolding build_edges
build_edges-IsOver names all [] m i w = w
build_edges-IsOver names all (p ∷ ps) m i w =
    let after = add_after names p.name p.after m in
    let before = add_before names p.name p.before after in
    build_edges-IsOver names all ps (add_hints names p all before) i.1 (
      add_hints-IsOver names p all before i.0 (
        add_before-IsOver names p.before p.name after i.0
          (add_after-IsOver names p.after p.name m w)))

pub includes-build_edges :
    (names : List String) (all ps : List Plugin) (a b : String) (m : Edges)
    → includes b (targets a (build_edges names all ps m))
      ≡ includes b (targets a m) || wanted names all ps a b
unfolding build_edges
includes-build_edges names all [] a b m = ground arith
includes-build_edges names all (p ∷ ps) a b m =
    let after = add_after names p.name p.after m in
    let before = add_before names p.name p.before after in
    includes-build_edges names all ps a b (add_hints names p all before)
    ∙ rw
        (
          includes-add_hints names p all a b before,
          includes-add_before names p.before p.name a b after,
          includes-add_after names p.after p.name a b m,
        )
        (or_nested (includes b (targets a m))
          (str_eq p.name b && includes a p.after && includes a names)
          (str_eq p.name a && includes b p.before && includes b names)
          (any_hints_of names p all a b) (wanted names all ps a b))

hints-known :
    (names : List String) (p : Plugin) (a b : String)
    → includes p.name names ≡ true
    → hints names p a b ≡ true
    → includes b names ≡ true
hints-known names p a b i h = elim (Bool-cases (str_eq p.name b)) [
  | inl q ↦ ap (λ x. includes x names) (sym ((eq_iff p.name b).0 q)) ∙ i
  | inr q ↦ ground (arith, h, q)
]

hints_of-known :
    (names : List String) (p o : Plugin) (a b : String)
    → includes p.name names ≡ true
    → hints_of names p o a b ≡ true
    → includes b names ≡ true
hints_of-known names p o a b i h = elim (Bool-cases (str_eq p.name b)) [
  | inl q ↦ ap (λ x. includes x names) (sym ((eq_iff p.name b).0 q)) ∙ i
  | inr q ↦
      ap (λ x. includes x names) (sym ((eq_iff o.name b).0 (ground (arith, h, q))))
      ∙ ground (arith, h)
]

any_hints_of-known :
    (names : List String) (p : Plugin) (os : List Plugin) (a b : String)
    → includes p.name names ≡ true
    → any_hints_of names p os a b ≡ true
    → includes b names ≡ true
any_hints_of-known names p [] a b i h = absurd (ground (arith, h))
any_hints_of-known names p (o ∷ os) a b i h = elim (Bool-cases (hints_of names p o a b)) [
  | inl e ↦ hints_of-known names p o a b i e
  | inr e ↦ any_hints_of-known names p os a b i (ground (arith, h, e))
]

-- Hints are about nodes alone.
pub wanted-known :
    (names : List String) (all ps : List Plugin) (a b : String)
    → AllNamed names ps
    → wanted names all ps a b ≡ true
    → includes b names ≡ true
wanted-known names all [] a b i h = absurd (ground (arith, h))
wanted-known names all (p ∷ ps) a b i h = elim (Bool-cases (hints names p a b)) [
  | inl e ↦ hints-known names p a b i.0 e
  | inr e ↦ elim (Bool-cases (any_hints_of names p all a b)) [
    | inl f ↦ any_hints_of-known names p all a b i.0 f
    | inr f ↦ wanted-known names all ps a b i.1 (ground (arith, h, e, f))
  ]
]
