-- ===== src/Plugins/Sort/Loop.antt =====
-- The loop takes every node that can be taken, each behind the nodes that point at it.
use cordyceps.Common.{
  if◌then◌else◌, Bool-cases, ℕ, zero, suc, String, ◌≡◌, refl, sym, ap, ◌∙◌, inl, inr, Bool, true,
  false, ◌&&◌, ◌||◌, Option, none, some, List, [], ◌∷◌, arith, str_eq, eq_iff,
}
use cordyceps.Common.Map.{Map, get, includes, get-put}
use cordyceps.Plugins.Sort.{insert_sorted, precedes, lower, lower_all}
use cordyceps.Plugins.Sort.Waits.{Uniq}

pub includes-insert_sorted :
    (n t : String) (q : List String) → includes n (insert_sorted t q) ≡ str_eq t n || includes n q
unfolding insert_sorted
includes-insert_sorted n t [] = refl
includes-insert_sorted n t (x ∷ q) = elim (Bool-cases (precedes t x)) [
  | inl e ↦ rw e refl
  | inr e ↦ rw e (ground (arith, includes-insert_sorted n t q))
]

pub insert_sorted-Uniq :
    (t : String) (q : List String) → includes t q ≡ false → Uniq q → Uniq (insert_sorted t q)
unfolding insert_sorted
insert_sorted-Uniq t [] h u = (refl, tt)
insert_sorted-Uniq t (x ∷ q) h u = elim (Bool-cases (precedes t x)) [
  | inl e ↦ rw e (h, u)
  | inr e ↦ rw e (
    ground (arith, h, u.0, includes-insert_sorted x t q, eq_iff t x, eq_iff x t),
    insert_sorted-Uniq t q (ground (arith, h)) u.1,
  )
]

abbrev pub less : Option ℕ → Option ℕ
less none = none
less (some zero) = some zero
less (some (suc k)) = some k

abbrev pub is_one : Option ℕ → Bool
is_one (some (suc zero)) = true
is_one _ = false

abbrev pub is_zero : Option ℕ → Bool
is_zero (some zero) = true
is_zero _ = false

-- What lowering the degree of one node does.
lower-get :
    (n t : String) (o : Option ℕ) (d : Map ℕ) (q : List String)
    → get t d ≡ o
    → get n (lower t o d q).0 ≡ (if str_eq t n then less (get n d) else get n d)
lower-get n t none d q e = elim (Bool-cases (str_eq t n)) [
  | inl s ↦
      let x : get n d ≡ none = ap (λ x. get x d) (sym ((eq_iff t n).0 s)) ∙ e in rw (s, x) refl
  | inr s ↦ rw s refl
]
lower-get n t (some zero) d q e = elim (Bool-cases (str_eq t n)) [
  | inl s ↦
      let x : get n d ≡ some zero = ap (λ x. get x d) (sym ((eq_iff t n).0 s)) ∙ e in rw (s, x) refl
  | inr s ↦ rw s refl
]
lower-get n t (some (suc zero)) d q e = get-put t n 0 d ∙ elim (Bool-cases (str_eq t n)) [
  | inl s ↦
      let x : get n d ≡ some 1 = ap (λ x. get x d) (sym ((eq_iff t n).0 s)) ∙ e in rw (s, x) refl
  | inr s ↦ rw s refl
]
lower-get n t (some (suc (suc k))) d q e = get-put t n (suc k) d ∙ elim (Bool-cases (str_eq t n)) [
  | inl s ↦
      let x : get n d ≡ some (suc (suc k)) = ap (λ x. get x d) (sym ((eq_iff t n).0 s)) ∙ e in
      rw (s, x) refl
  | inr s ↦ rw s refl
]

lower-queue :
    (n t : String) (o : Option ℕ) (d : Map ℕ) (q : List String)
    → includes n (lower t o d q).1 ≡ includes n q || (str_eq t n && is_one o)
lower-queue n t none d q = ground arith
lower-queue n t (some zero) d q = ground arith
lower-queue n t (some (suc zero)) d q = ground (arith, includes-insert_sorted n t q)
lower-queue n t (some (suc (suc k))) d q = ground arith

-- Every node of the queue has degree 0.
abbrev pub AreZero : List String → Map ℕ → Type 0
AreZero q d = (n : String) → includes n q ≡ true → is_zero (get n d) ≡ true

lower-Uniq :
    (t : String) (o : Option ℕ) (d : Map ℕ) (q : List String)
    → get t d ≡ o
    → AreZero q d
    → Uniq q
    → Uniq (lower t o d q).1
lower-Uniq t none d q e z u = u
lower-Uniq t (some zero) d q e z u = u
lower-Uniq t (some (suc zero)) d q e z u =
    insert_sorted-Uniq t q
      (elim (Bool-cases (includes t q)) [ inl i ↦ absurd (ground (arith, z t i, e)) | inr i ↦ i ]) u
lower-Uniq t (some (suc (suc k))) d q e z u = u

zero-less : (o : Option ℕ) → is_zero o || is_one o ≡ true → is_zero (less o) ≡ true
zero-less none h = absurd (ground (arith, h))
zero-less (some zero) h = refl
zero-less (some (suc zero)) h = refl
zero-less (some (suc (suc k))) h = absurd (ground (arith, h))

lower-AreZero :
    (t : String) (o : Option ℕ) (d : Map ℕ) (q : List String)
    → get t d ≡ o
    → AreZero q d
    → AreZero (lower t o d q).1 (lower t o d q).0
lower-AreZero t o d q e z n i =
    let j : includes n q || (str_eq t n && is_one o) ≡ true = sym (lower-queue n t o d q) ∙ i in
    elim (Bool-cases (str_eq t n)) [
      | inl s ↦
          let x : get n d ≡ o = ap (λ x. get x d) (sym ((eq_iff t n).0 s)) ∙ e in
          ap is_zero (lower-get n t o d q e)
          ∙ rw (s, x)
              (zero-less o (elim (Bool-cases (includes n q)) [
                | inl a ↦ ground (arith, ap is_zero (sym x) ∙ z n a)
                | inr a ↦ ground (arith, j, s, a)
              ]))
      | inr s ↦ ap is_zero (lower-get n t o d q e) ∙ rw s (z n (ground (arith, j, s)))
    ]

-- What the loop over the targets does.
pub lower_all-get :
    (n : String) (ts : List String) (d : Map ℕ) (q : List String)
    → Uniq ts
    → get n (lower_all ts d q).0 ≡ (if includes n ts then less (get n d) else get n d)
unfolding lower_all
lower_all-get n [] d q u = refl
lower_all-get n (t ∷ ts) d q u =
    let r = lower t (get t d) d q in
    lower_all-get n ts r.0 r.1 u.1 ∙ elim (Bool-cases (str_eq t n)) [
      | inl s ↦
          let y : includes n ts ≡ false = ap (λ x. includes x ts) (sym ((eq_iff t n).0 s)) ∙ u.0 in
          rw (s, y) (lower-get n t (get t d) d q refl ∙ rw s refl)
      | inr s ↦
          let y : get n r.0 ≡ get n d = lower-get n t (get t d) d q refl ∙ rw s refl in
          rw (s, y) refl
    ]

pub lower_all-queue :
    (n : String) (ts : List String) (d : Map ℕ) (q : List String)
    → Uniq ts
    → includes n (lower_all ts d q).1 ≡ includes n q || (includes n ts && is_one (get n d))
unfolding lower_all
lower_all-queue n [] d q u = ground arith
lower_all-queue n (t ∷ ts) d q u =
    let r = lower t (get t d) d q in
    lower_all-queue n ts r.0 r.1 u.1 ∙ elim (Bool-cases (str_eq t n)) [
      | inl s ↦
          let same = (eq_iff t n).0 s in
          let y : includes n ts ≡ false = ap (λ x. includes x ts) (sym same) ∙ u.0 in
          rw (lower-queue n t (get t d) d q, s, y, ap (λ x. get x d) same) (ground arith)
      | inr s ↦
          let y : get n r.0 ≡ get n d = lower-get n t (get t d) d q refl ∙ rw s refl in
          rw (lower-queue n t (get t d) d q, s, y) (ground arith)
    ]

pub lower_all-Uniq :
    (ts : List String) (d : Map ℕ) (q : List String)
    → AreZero q d
    → Uniq q
    → Uniq (lower_all ts d q).1
unfolding lower_all
lower_all-Uniq [] d q z u = u
lower_all-Uniq (t ∷ ts) d q z u =
    lower_all-Uniq ts (lower t (get t d) d q).0 (lower t (get t d) d q).1
      (lower-AreZero t (get t d) d q refl z) (lower-Uniq t (get t d) d q refl z u)
