-- ===== src/Plugins/Sort/Count.antt =====
-- Counting the names that the loop has taken.
use cordyceps.Common.{
  if◌then◌else◌, Bool-cases, str_eq_refl, length, length-append, ◌+◌, ◌≤◌, ◌<◌, String, ◌≡◌, refl,
  sym, ap, ◌∙◌, inl, inr, Bool, true, false, not, ◌&&◌, List, [], ◌∷◌, ◌++◌, arith, str_eq, eq_iff,
}
use cordyceps.Common.Map.{includes-append, includes, keys, add}
use cordyceps.Plugins.Sort.{Plugin, Edges, add_names, targets}
use cordyceps.Plugins.Sort.Waits.{Uniq, waits, targets-cons}
use cordyceps.Plugins.Sort.Round.{Ordered, remaining, targets_nil}

pub remaining_nil : (names : List String) → remaining names [] ≡ length names
remaining_nil [] = refl
remaining_nil (n ∷ names) = ground (arith, remaining_nil names)

remaining_absent :
    (x : String) (names xs : List String)
    → includes x names ≡ false
    → remaining names (x ∷ xs) ≡ remaining names xs
remaining_absent x [] xs h = refl
remaining_absent x (n ∷ names) xs h =
    ground (arith, h, remaining_absent x names xs, eq_iff n x, eq_iff x n)

remaining-cons :
    (x : String) (names xs : List String)
    → Uniq names
    → includes x names ≡ true
    → includes x xs ≡ false
    → remaining names (x ∷ xs) + 1 ≡ remaining names xs
remaining-cons x [] xs u h g = absurd (ground (arith, h))
remaining-cons x (n ∷ names) xs u h g = elim (Bool-cases (str_eq n x)) [
  | inl q ↦
      let same = (eq_iff n x).0 q in
      let y : includes x names ≡ false = ap (λ k. includes k names) (sym same) ∙ u.0 in
      let z : includes n xs ≡ false = ap (λ k. includes k xs) same ∙ g in
      let w : str_eq x n ≡ true = ap (λ k. str_eq k n) (sym same) ∙ str_eq_refl n in
      ground (arith, w, z, remaining_absent x names xs y)
  | inr q ↦ ground (arith, h, q, remaining-cons x names xs u.1, g, eq_iff n x, eq_iff x n)
]

-- Names without repetition: those taken and those that remain are all.
pub length-remaining :
    (names xs : List String)
    → Uniq names
    → Uniq xs
    → ((n : String) → includes n xs ≡ true → includes n names ≡ true)
    → length xs + remaining names xs ≡ length names
length-remaining names [] u v k = omega (arith, remaining_nil names)
length-remaining names (x ∷ xs) u v k =
    let rest = length-remaining names xs u v.1 (λ n i. k n (ground (arith, i))) in
    omega (arith, rest, remaining-cons x names xs u (k x (ground (arith, str_eq_refl x))) v.0)

pub none_remains :
    (n : String) (names xs : List String)
    → remaining names xs ≡ 0
    → includes n names ≡ true
    → includes n xs ≡ true
none_remains n [] xs r h = absurd (ground (arith, h))
none_remains n (x ∷ names) xs r h = elim (Bool-cases (str_eq x n)) [
  | inl q ↦ ap (λ k. includes k xs) (sym ((eq_iff x n).0 q)) ∙ ground (arith, r)
  | inr q ↦ none_remains n names xs (ground (arith, r)) (ground (arith, h, q))
]

pub length-add_names_le :
    (ps : List Plugin) (s : List String) → length (add_names ps s) ≤ length s + length ps
unfolding add_names
length-add_names_le [] s = omega arith
length-add_names_le (p ∷ ps) s =
    ground (arith, length-add_names_le ps (add p.name s), length-append s (p.name ∷ []))

-- A node in front of which something waits has a node that points at it and was not taken.
pub waits_from :
    (n : String) (m : Edges) (done : List String)
    → Uniq (keys m)
    → 0 < waits n m done
    → (a : String) × (includes a (keys m) ≡ true)
      × (includes a done ≡ false)
      × (includes n (targets a m) ≡ true)
waits_from n [] done u w = absurd (omega (arith, w))
waits_from n ((b, ts) ∷ m) done u w = elim (Bool-cases (includes n ts && not (includes b done))) [
  | inl h ↦ (
    b,
    ground (arith, str_eq_refl b),
    ground (arith, h),
    ap (includes n) (targets-cons b b ts m) ∙ ground (arith, h, str_eq_refl b),
  )
  | inr h ↦
      let (a, i, g, t) = waits_from n m done u.1 (ground (arith, w, h)) in
      (
        a,
        ground (arith, i),
        g,
        ap (includes n) (targets-cons a b ts m) ∙ elim (Bool-cases (str_eq b a)) [
          | inl q ↦
              let y : includes a (keys m) ≡ false =
                ap (λ k. includes k (keys m)) (sym ((eq_iff b a).0 q)) ∙ u.0 in
              absurd (ground (arith, i, y))
          | inr q ↦ rw q t
        ],
      )
]

-- Nothing waits: everything that points at the node was taken.
pub waits_none :
    (a n : String) (m : Edges) (done : List String)
    → includes n (targets a m) ≡ true
    → waits n m done ≡ 0
    → includes a done ≡ true
waits_none a n [] done t w = absurd (ground (arith, ap (includes n) (sym (targets_nil a)) ∙ t))
waits_none a n ((b, ts) ∷ m) done t w = elim (Bool-cases (str_eq b a)) [
  | inl q ↦
      let i : includes n ts ≡ true =
        ground (arith, ap (includes n) (sym (targets-cons a b ts m)) ∙ t, q) in
      ap (λ k. includes k done) (sym ((eq_iff b a).0 q)) ∙ ground (arith, i, w)
  | inr q ↦
      waits_none a n m done (ground (arith, ap (includes n) (sym (targets-cons a b ts m)) ∙ t, q))
        (ground (arith, w))
]

-- `a` comes in front of `b`.
abbrev pub comes_before : String → String → List String → Bool
comes_before a b [] = false
comes_before a b (x ∷ xs) = if str_eq x a then includes b xs else comes_before a b xs

pub Ordered-comes_before :
    (a b : String) (m : Edges) (seen xs : List String)
    → Ordered m seen xs
    → includes b (targets a m) ≡ true
    → includes a seen ≡ false
    → includes b xs ≡ true
    → comes_before a b xs ≡ true
Ordered-comes_before a b m seen [] o t s i = absurd (ground (arith, i))
Ordered-comes_before a b m seen (x ∷ xs) o t s i = elim (Bool-cases (str_eq x b)) [
  | inl q ↦
      let w : waits b m seen ≡ 0 = ap (λ k. waits k m seen) (sym ((eq_iff x b).0 q)) ∙ o.0 in
      absurd (ground (arith, waits_none a b m seen t w, s))
  | inr q ↦
      let j : includes b xs ≡ true = ground (arith, i, q) in
      elim (Bool-cases (str_eq x a)) [
        | inl r ↦ rw r j
        | inr r ↦ rw r (
            Ordered-comes_before a b m (seen ++ x ∷ []) xs o.1 t
              (includes-append a seen (x ∷ []) ∙ ground (arith, s, r)) j)
      ]
]
