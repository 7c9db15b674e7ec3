-- ===== src/Plugins/Sort/Waits.antt =====
-- Degrees: how many nodes that were not taken point at a node.
use cordyceps.Common.{
  if◌then◌else◌, Bool-cases, Option-cases, str_eq_refl, ℕ, ◌+◌, String, ◌≡◌, refl, sym, ap, ◌∙◌,
  inl, inr, Bool, true, false, not, ◌&&◌, Option, none, some, List, [], ◌∷◌, ◌++◌, arith, str_eq,
  eq_iff,
}
use cordyceps.Common.Map.{includes-append, Map, get, put, includes, keys, get-put}
use cordyceps.Plugins.Sort.{Edges, targets, zero_degrees, count_targets, count_edges}

-- No text twice.
abbrev pub Uniq : List String → Type 0
Uniq [] = Unit
Uniq (x ∷ xs) = (includes x xs ≡ false) × Uniq xs

-- The nodes that point at `n` and are not among `done`.
abbrev pub waits : String → Edges → List String → ℕ
waits n [] done = 0
waits n ((a, ts) ∷ m) done =
    (if includes n ts && not (includes a done) then 1 else 0) + waits n m done

-- Every node has its targets once.
abbrev pub UniqTargets : Edges → Type 0
UniqTargets [] = Unit
UniqTargets ((a, ts) ∷ m) = Uniq ts × UniqTargets m

abbrev pub add_some : ℕ → Option ℕ → Option ℕ
add_some k none = none
add_some k (some j) = some (j + k)

add_some-add_some : (a b : ℕ) (o : Option ℕ) → add_some a (add_some b o) ≡ add_some (b + a) o
add_some-add_some a b none = refl
add_some-add_some a b (some k) = ap some (omega arith)

abbrev one_if : Bool → ℕ
one_if b = if b then 1 else 0

get-count_targets :
    (n : String) (ts : List String) (d : Map ℕ)
    → Uniq ts
    → get n (count_targets ts d) ≡ add_some (one_if (includes n ts)) (get n d)
unfolding count_targets
get-count_targets n [] d u = elim (Option-cases (get n d)) [
  | inl e ↦ rw e refl
  | inr (k, e) ↦ rw e (ap some (omega arith))
]
get-count_targets n (t ∷ ts) d u = elim (Option-cases (get t d)) [
  | inl e ↦ rw e (
      get-count_targets n ts d u.1 ∙ elim (Bool-cases (str_eq t n)) [
        | inl q ↦
            let x : get n d ≡ none = ap (λ x. get x d) (sym ((eq_iff t n).0 q)) ∙ e in rw x refl
        | inr q ↦ rw q refl
      ])
  | inr (k, e) ↦ rw e (
      get-count_targets n ts (put t (k + 1) d) u.1
      ∙ rw (get-put t n (k + 1) d) (elim (Bool-cases (str_eq t n)) [
        | inl q ↦
            let same = (eq_iff t n).0 q in
            let x : get n d ≡ some k = ap (λ x. get x d) (sym same) ∙ e in
            let y : includes n ts ≡ false = ap (λ x. includes x ts) (sym same) ∙ u.0 in
            rw (q, x, y) (ap some (omega arith))
        | inr q ↦ rw q refl
      ]))
]

waits_nil-cons :
    (n a : String) (ts : List String) (m : Edges)
    → waits n ((a, ts) ∷ m) [] ≡ one_if (includes n ts) + waits n m []
waits_nil-cons n a ts m = ground arith

pub get-count_edges :
    (n : String) (m : Edges) (d : Map ℕ)
    → UniqTargets m
    → get n (count_edges m d) ≡ add_some (waits n m []) (get n d)
unfolding count_edges
get-count_edges n [] d u = elim (Option-cases (get n d)) [
  | inl e ↦ rw e refl
  | inr (k, e) ↦ rw e (ap some (omega arith))
]
get-count_edges n ((a, ts) ∷ m) d u =
    get-count_edges n m (count_targets ts d) u.1
    ∙ ap (add_some (waits n m [])) (get-count_targets n ts d u.0)
    ∙ add_some-add_some (waits n m []) (one_if (includes n ts)) (get n d)
    ∙ ap (λ k. add_some k (get n d)) (sym (waits_nil-cons n a ts m))

pub get-zero_degrees :
    (n : String) (names : List String)
    → get n (zero_degrees names) ≡ (if includes n names then some 0 else none)
unfolding zero_degrees get
get-zero_degrees n [] = refl
get-zero_degrees n (x ∷ xs) = ground (arith, get-zero_degrees n xs)

waits_other :
    (n a : String) (m : Edges) (done : List String)
    → includes a (keys m) ≡ false
    → waits n m (done ++ a ∷ []) ≡ waits n m done
waits_other n a [] done h = refl
waits_other n a ((b, ts) ∷ m) done h =
    ground
      (arith, h, waits_other n a m done, includes-append b done (a ∷ []), eq_iff a b, eq_iff b a)

targets_absent : (a : String) (m : Edges) → includes a (keys m) ≡ false → targets a m ≡ []
unfolding targets get
targets_absent a [] h = refl
targets_absent a ((b, ts) ∷ m) h = ground (arith, h, targets_absent a m)

targets_head : (a : String) (ts : List String) (m : Edges) → targets a ((a, ts) ∷ m) ≡ ts
unfolding targets get
targets_head a ts m = ground (arith, str_eq_refl a)

targets_tail :
    (a b : String) (ts : List String) (m : Edges)
    → str_eq b a ≡ false
    → targets a ((b, ts) ∷ m) ≡ targets a m
unfolding targets get
targets_tail a b ts m h = ground (arith, h)

-- Taking a node takes one off the degrees of its targets.
pub waits-append :
    (n a : String) (m : Edges) (done : List String)
    → Uniq (keys m)
    → includes a done ≡ false
    → waits n m (done ++ a ∷ []) + one_if (includes n (targets a m)) ≡ waits n m done
waits-append n a [] done u h = rw (targets_absent a [] refl) (omega arith)
waits-append n a ((b, ts) ∷ m) done u h = elim (Bool-cases (str_eq b a)) [
  | inl q ↦
      let same = (eq_iff b a).0 q in
      let rest : waits n m (done ++ a ∷ []) ≡ waits n m done =
        waits_other n a m done (ap (λ x. includes x (keys m)) (sym same) ∙ u.0) in
      let gone : includes b (done ++ a ∷ []) ≡ true =
        includes-append b done (a ∷ []) ∙ ground (arith, eq_iff a b, same) in
      let old : includes b done ≡ false = ap (λ x. includes x done) same ∙ h in
      let t : targets a ((b, ts) ∷ m) ≡ ts =
        ap (λ x. targets x ((b, ts) ∷ m)) (sym same) ∙ targets_head b ts m in
      rw (t, gone, rest, old) (ground arith)
  | inr q ↦
      let rest = waits-append n a m done u.1 h in
      let left : includes b (done ++ a ∷ []) ≡ includes b done =
        includes-append b done (a ∷ []) ∙ ground (arith, eq_iff a b, eq_iff b a, q) in
      rw (targets_tail a b ts m q, left) (omega (arith, rest))
]

pub targets-cons :
    (a b : String) (ts : List String) (m : Edges)
    → targets a ((b, ts) ∷ m) ≡ (if str_eq b a then ts else targets a m)
unfolding targets get
targets-cons a b ts m = ground arith
