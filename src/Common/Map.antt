-- ===== src/Common/Map.antt =====
-- A JavaScript `Map` (or a plain object) with text keys: the entries in the order in which their
-- keys were first set. A `Set` of texts is a list without repetitions, below.
use Prim.Native.String.{String}
use mathlib.Core.Path.{◌≡◌, refl, sym, ap, ◌∙◌}
use mathlib.Core.Logic.{◌≢◌, inl, inr}
use mathlib.Core.Bool.{Bool, true, false, ◌||◌}
use mathlib.Core.Option.{Option, none, some}
use mathlib.Core.List.{List, [], ◌∷◌, ◌++◌}
use native.Mathlib.Omega.{arith}
use text.Mathlib.Text.{◌==◌ as str_eq}
use text.Mathlib.TextEquality.{eq_iff}
use cordyceps.Common.Tests.{if◌then◌else◌, Bool-cases, str_eq_refl, str_eq-false}

abbrev pub Map {ℓ} : Type ℓ → Type ℓ
Map V = List (String × V)

abbrev pub is_some {ℓ} : {A : Type ℓ} → Option A → Bool
is_some none = false
is_some (some a) = true

module _ {ℓ} {V : Type ℓ} where
  unfoldable pub get : String → Map V → Option V
  get k [] = none
  get k ((j, v) ∷ m) = if str_eq j k then some v else get k m

  unfoldable pub has : String → Map V → Bool
  unfolding get
  has k m = is_some (get k m)

  unfoldable pub put : String → V → Map V → Map V
  put k v [] = (k, v) ∷ []
  put k v ((j, w) ∷ m) = if str_eq j k then (j, v) ∷ m else (j, w) ∷ put k v m

  unfoldable pub delete : String → Map V → Map V
  delete k [] = []
  delete k ((j, w) ∷ m) = let rest = delete k m in if str_eq j k then rest else (j, w) ∷ rest

  abbrev pub keys : Map V → List String
  keys [] = []
  keys ((j, v) ∷ m) = j ∷ keys m

  abbrev pub values : Map V → List V
  values [] = []
  values ((j, v) ∷ m) = v ∷ values m

  pub get-put :
      (k j : String) (v : V) (m : Map V)
      → get j (put k v m) ≡ (if str_eq k j then some v else get j m)
  unfolding get put
  get-put k j v [] = refl
  get-put k j v ((i, w) ∷ m) = ground (arith, eq_iff k j, eq_iff i k, eq_iff i j, get-put k j v m)

  pub get-delete :
      (k j : String) (m : Map V) → get j (delete k m) ≡ (if str_eq k j then none else get j m)
  unfolding get delete
  get-delete k j [] = ground arith
  get-delete k j ((i, w) ∷ m) = ground (arith, get-delete k j m, eq_iff i k, eq_iff i j, eq_iff k j)

  pub get-put_self : (k : String) (v : V) (m : Map V) → get k (put k v m) ≡ some v
  get-put_self k v m = simp (get-put, str_eq_refl)

  pub get-put_ne : (k j : String) (v : V) (m : Map V) → k ≢ j → get j (put k v m) ≡ get j m
  get-put_ne k j v m h = simp (get-put, str_eq-false k j h)

  pub get-delete_self : (k : String) (m : Map V) → get k (delete k m) ≡ none
  get-delete_self k m = simp (get-delete, str_eq_refl)

  pub get-delete_ne : (k j : String) (m : Map V) → k ≢ j → get j (delete k m) ≡ get j m
  get-delete_ne k j m h = simp (get-delete, str_eq-false k j h)

-- `list.includes(k)` and `set.has(k)`.
abbrev pub includes : String → List String → Bool
includes k [] = false
includes k (j ∷ l) = str_eq j k || includes k l

-- `set.add(k)`.
abbrev pub add : String → List String → List String
add k s = if includes k s then s else s ++ (k ∷ [])

-- `set.delete(k)`.
abbrev pub without : String → List String → List String
without k [] = []
without k (j ∷ l) = let rest = without k l in if str_eq j k then rest else j ∷ rest

pub includes-append :
    (x : String) (xs ys : List String) → includes x (xs ++ ys) ≡ includes x xs || includes x ys
includes-append x [] ys = refl
includes-append x (y ∷ xs) ys = ground (arith, includes-append x xs ys)

pub includes-add :
    (x k : String) (s : List String) → includes x (add k s) ≡ includes x s || str_eq k x
includes-add x k s = elim (Bool-cases (includes k s)) [
  | inl e ↦ rw e (elim (Bool-cases (str_eq k x)) [
    | inl q ↦
        let y : includes x s ≡ true = ap (λ x. includes x s) (sym ((eq_iff k x).0 q)) ∙ e in
        rw (q, y) refl
    | inr q ↦ rw q (ground arith)
  ])
  | inr e ↦ rw e (includes-append x s (k ∷ []) ∙ ground arith)
]
