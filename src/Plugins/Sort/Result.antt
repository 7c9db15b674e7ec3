-- ===== src/Plugins/Sort/Result.antt =====
-- What `topoSort` returns and when it throws.
use mathlib.Core.Path.{subst}
use cordyceps.Common.{
  false, ◌==◌, ==_iff, Bool-cases, str_eq_refl, length, keep, ◌+◌, ◌<◌, String, ◌≡◌, refl, sym, ap,
  ◌∙◌, ◌≢◌, ◌⊎◌, inl, inr, Bool, true, not, ◌&&◌, List, [], ◌∷◌, arith, str_eq, eq_iff,
}
use cordyceps.Common.Map.{includes}
use cordyceps.Plugins.Sort.{Plugin, name_set, edges_of, take_all, first_queue, order_names}
use cordyceps.Plugins.Sort.Waits.{Uniq}
use cordyceps.Plugins.Sort.Taken.{IsComplete, take_all-IsComplete}
use cordyceps.Plugins.Sort.Round.{remaining}
use cordyceps.Plugins.Sort.Wanted.{wanted, wanted-known}
use cordyceps.Plugins.Sort.Start.{
  add_names-Uniq, add_names-AllNamed, edges_of-IsOver, includes-edges_of, start_Uniq,
  start_UniqTargets, start_degrees, start-Taken,
}
use cordyceps.Plugins.Sort.Count.{
  length-remaining, remaining_nil, none_remains, length-add_names_le, waits_from, comes_before,
  Ordered-comes_before,
}

module _ (group all : List Plugin) where
  abbrev names : List String
  names = name_set group

  abbrev taken : List String
  taken =
      take_all (length names + 1) (edges_of group all) (start_degrees group all)
        (first_queue names (start_degrees group all)) []

  taken-IsComplete :
      IsComplete names
        (edges_of group all)
        (start_Uniq group all)
        (start_UniqTargets group all)
        taken
  taken-IsComplete =
      take_all-IsComplete names (edges_of group all) (start_Uniq group all)
        (start_UniqTargets group all) (length names + 1) (start_degrees group all)
        (first_queue names (start_degrees group all)) [] (start-Taken group all)
        (omega (arith, remaining_nil names))

  taken-remaining : length taken + remaining names taken ≡ length names
  taken-remaining =
      length-remaining names taken (add_names-Uniq group [] tt) taken-IsComplete.uniq_result
        taken-IsComplete.known

  order_names-cases :
      ((length taken ≡ length group) × (order_names group all ≡ inl taken))
      ⊎ ((length taken ≢ length group)
          × (order_names group all ≡ inr (keep (λ n. not (includes n taken)) names)))
  unfolding order_names
  order_names-cases = elim (Bool-cases (length taken == length group)) [
    | inl e ↦ inl ((==_iff (length taken) (length group)).0 e, ground (arith, e))
    | inr e ↦ inr (λ h. ground (arith, e, h), ground (arith, e))
  ]

  all_taken :
      (n : String) → length taken ≡ length group → includes n names ≡ true → includes n taken ≡ true
  all_taken n e i =
      none_remains n names taken (omega (arith, taken-remaining, e, length-add_names_le group [])) i

  order_names-inl :
      (result : List String)
      → order_names group all ≡ inl result
      → (length taken ≡ length group) × (taken ≡ result)
  order_names-inl result e = elim order_names-cases [
    | inl (l, f) ↦ (l, ground (arith, sym f ∙ e))
    | inr (l, f) ↦ absurd (ground (arith, sym f ∙ e))
  ]

  order_names-inr :
      (missing : List String)
      → order_names group all ≡ inr missing
      → (length taken ≢ length group) × (keep (λ n. not (includes n taken)) names ≡ missing)
  order_names-inr missing e = elim order_names-cases [
    | inl (l, f) ↦ absurd (ground (arith, sym f ∙ e))
    | inr (l, f) ↦ (l, ground (arith, sym f ∙ e))
  ]

includes-keep :
    (n : String) (p : String → Bool) (xs : List String)
    → includes n (keep p xs) ≡ includes n xs && p n
includes-keep n p [] = refl
includes-keep n p (x ∷ xs) = elim (Bool-cases (str_eq x n)) [
  | inl q ↦ rw (sym ((eq_iff x n).0 q)) (elim (Bool-cases (p x)) [
    | inl e ↦ ground (arith, e, str_eq_refl x)
    | inr e ↦ ground (arith, e, includes-keep x p xs)
  ])
  | inr q ↦ ground (arith, q, includes-keep n p xs)
]

length-keep :
    (names result : List String)
    → length (keep (λ n. not (includes n result)) names) ≡ remaining names result
length-keep [] result = refl
length-keep (n ∷ names) result = ground (arith, length-keep names result)

-- When topoSort finds an order of a group's names, a name comes in front of another one whenever a
-- plugin of the group asks for it by `after` or `before` about a name of the group, or another
-- plugin, with a name of the group, asks for it about itself and that plugin.
pub order_names-wanted :
    (group all : List Plugin) (result : List String) (a b : String)
    → order_names group all ≡ inl result
    → wanted (name_set group) all group a b ≡ true
    → comes_before a b result ≡ true
order_names-wanted group all result a b e w =
    let (l, f) = order_names-inl group all result e in
    let known = wanted-known (name_set group) all group a b (add_names-AllNamed group []) w in
    ap (comes_before a b) (sym f)
    ∙ Ordered-comes_before a b (edges_of group all) [] (taken group all)
        (taken-IsComplete group all).ordered (includes-edges_of group all a b ∙ w) refl
        (all_taken group all b l known)

-- When topoSort finds an order, it holds the names of the group and no other, each once.
pub order_names-Uniq :
    (group all : List Plugin) (result : List String)
    → order_names group all ≡ inl result
    → Uniq result
      × (length result ≡ length group)
      × ((n : String) → includes n result ≡ includes n (name_set group))
order_names-Uniq group all result e =
    let (l, f) = order_names-inl group all result e in
    let complete = taken-IsComplete group all in
    (
      subst Uniq f complete.uniq_result,
      ap length (sym f) ∙ l,
      λ n. ap (includes n) (sym f) ∙ elim (Bool-cases (includes n (name_set group))) [
        | inl i ↦ rw i (all_taken group all n l i)
        | inr i ↦ elim (Bool-cases (includes n (taken group all))) [
          | inl j ↦ absurd (ground (arith, complete.known n j, i))
          | inr j ↦ rw (i, j) refl
        ]
      ],
    )

missing_waits :
    (group all : List Plugin) (missing : List String) (b : String)
    → order_names group all ≡ inr missing
    → includes b missing ≡ true
    → (a : String) × (includes a missing ≡ true) × (wanted (name_set group) all group a b ≡ true)
missing_waits group all missing b e i =
    let (l, f) = order_names-inr group all missing e in
    let left : (n : String)
        → includes n missing ≡ includes n (name_set group) && not (includes n (taken group all)) =
      λ n.
        ap (includes n) (sym f)
        ∙ includes-keep n (λ n. not (includes n (taken group all))) (name_set group) in
    let known : includes b (name_set group) && not (includes b (taken group all)) ≡ true =
      sym (left b) ∙ i in
    let waiting =
      (taken-IsComplete group all).stuck b (ground (arith, known)) (ground (arith, known)) in
    let (a, node, new, edge) =
      waits_from b (edges_of group all) (taken group all) (start_Uniq group all) waiting in
    let member : includes a (name_set group) ≡ true =
      ap (includes a) (sym (edges_of-IsOver group all).0) ∙ node in
    (a, left a ∙ ground (arith, member, new), sym (includes-edges_of group all a b) ∙ edge)

-- With distinct names in the group, at least one name is missing when topoSort throws.
order_names-missing_some :
    (group all : List Plugin) (missing : List String)
    → length (name_set group) ≡ length group
    → order_names group all ≡ inr missing
    → 0 < length missing
order_names-missing_some group all missing d e =
    let (l, f) = order_names-inr group all missing e in
    let left = length-keep (name_set group) (taken group all) in
    ground (arith, ap length (sym f) ∙ left, taken-remaining group all, l, d)

-- When topoSort throws for a group whose names are distinct, some name is missing, and every missing
-- name is wanted behind a name that is missing too: the missing names hold a cycle of wishes.
pub order_names-missing :
    (group all : List Plugin) (missing : List String) (b : String)
    → length (name_set group) ≡ length group
    → order_names group all ≡ inr missing
    → (0 < length missing)
      × ((includes b missing ≡ false)
          ⊎ ((a : String) × (includes a missing ≡ true)
              × (wanted (name_set group) all group a b ≡ true)))
order_names-missing group all missing b d e = (
  order_names-missing_some group all missing d e,
  elim (Bool-cases (includes b missing)) [
    | inl i ↦ inr (missing_waits group all missing b e i)
    | inr i ↦ inl i
  ],
)
