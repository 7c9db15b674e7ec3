-- ===== src/Plugins/Sort/Round.antt =====
-- What one round of the loop does to the order, the names left, the degrees and the queue.
use cordyceps.Common.{
  ◌==◌, if◌then◌else◌, Bool-cases, ℕ, zero, suc, ◌+◌, ◌≤◌, ◌<◌, String, ◌≡◌, refl, sym, ap, ◌∙◌,
  ◌⊎◌, inl, inr, Bool, true, false, not, ◌&&◌, ◌||◌, Option, none, some, List, [], ◌∷◌, ◌++◌,
  append-nil, append_assoc, arith, str_eq, eq_iff,
}
use cordyceps.Common.Map.{get, includes, includes-append}
use cordyceps.Plugins.Sort.{Edges, targets}
use cordyceps.Plugins.Sort.Waits.{Uniq, UniqTargets, waits, targets-cons}
use cordyceps.Plugins.Sort.Loop.{less, is_one}

-- Nothing that points at a node of the list is missing in front of it; `seen` comes before the list.
abbrev pub Ordered : Edges → List String → List String → Type 0
Ordered m seen [] = Unit
Ordered m seen (n ∷ r) = (waits n m seen ≡ 0) × Ordered m (seen ++ n ∷ []) r

pub Ordered-append :
    (m : Edges) (seen r : List String) (n : String)
    → Ordered m seen r
    → waits n m (seen ++ r) ≡ 0
    → Ordered m seen (r ++ n ∷ [])
Ordered-append m seen [] n o w = (ap (waits n m) (sym (append-nil seen)) ∙ w, tt)
Ordered-append m seen (x ∷ r) n o w = (
  o.0,
  Ordered-append m (seen ++ x ∷ []) r n o.1 (ap (waits n m) (append_assoc seen (x ∷ []) r) ∙ w),
)

pub Uniq-append :
    (r : List String) (n : String) → Uniq r → includes n r ≡ false → Uniq (r ++ n ∷ [])
Uniq-append [] n u h = (refl, tt)
Uniq-append (x ∷ r) n u h = (
  ground (arith, includes-append x r (n ∷ []), u.0, h, eq_iff x n, eq_iff n x),
  Uniq-append r n u.1 (ground (arith, h)),
)

pub targets_nil : (a : String) → targets a [] ≡ []
unfolding targets get
targets_nil a = refl

pub targets-Uniq : (a : String) (m : Edges) → UniqTargets m → Uniq (targets a m)
targets-Uniq a [] u = rw (targets_nil a) tt
targets-Uniq a ((b, ts) ∷ m) u =
    rw (targets-cons a b ts m)
      (elim (Bool-cases (str_eq b a)) [ inl q ↦ rw q u.0 | inr q ↦ rw q (targets-Uniq a m u.1) ])

-- The names that were not taken.
abbrev pub remaining : List String → List String → ℕ
remaining [] result = 0
remaining (n ∷ names) result = (if includes n result then 0 else 1) + remaining names result

pub remaining-append_le :
    (names result : List String) (a : String)
    → remaining names (result ++ a ∷ []) ≤ remaining names result
remaining-append_le [] result a = omega arith
remaining-append_le (n ∷ names) result a =
    ground (arith, includes-append n result (a ∷ []), remaining-append_le names result a)

pub remaining-append :
    (names result : List String) (a : String)
    → includes a names ≡ true
    → includes a result ≡ false
    → remaining names (result ++ a ∷ []) < remaining names result
remaining-append [] result a h g = absurd (ground (arith, h))
remaining-append (n ∷ names) result a h g = ground (
  arith,
  h,
  g,
  includes-append n result (a ∷ []),
  remaining-append_le names result a,
  remaining-append names result a,
  eq_iff n a,
  eq_iff a n,
)

pub is_one-some : (w : ℕ) → is_one (some w) ≡ (w == 1)
is_one-some zero = refl
is_one-some (suc zero) = refl
is_one-some (suc (suc w)) = ground arith

less-suc : (k : ℕ) → less (some (k + 1)) ≡ some k
less-suc k = ground arith

-- The degree behind the loop over the targets.
pub degree_lem :
    (target name : Bool) (w w' : ℕ) (o : Option ℕ)
    → o ≡ (if name then some w else none)
    → w' + (if target then 1 else 0) ≡ w
    → (if target then less o else o) ≡ (if name then some w' else none)
degree_lem true true w w' o e h = ap less (e ∙ ap some (sym h)) ∙ less-suc w'
degree_lem true false w w' o e h = rw e refl
degree_lem false name w w' o e h = e ∙ ap (λ k. if name then some k else none) (omega (arith, h))

-- The queue behind it: `old` is whether the node was in it, `taken` whether it is the node taken.
pub queue_lem :
    (old target name done taken : Bool) (w w' : ℕ) (o : Option ℕ)
    → o ≡ (if name then some w else none)
    → w' + (if target then 1 else 0) ≡ w
    → taken || old ≡ name && (w == 0 && not done)
    → not (taken && old) ≡ true
    → (done || taken ≡ false) ⊎ (w ≡ 0)
    → old || (target && is_one o) ≡ name && (w' == 0 && not (done || taken))
queue_lem old target false done taken w w' o e h q f z = rw e (ground (arith, q))
queue_lem old true true done taken w w' o e h q f z =
    rw (e, is_one-some w) (ground (arith, h, q, f, z))
queue_lem old false true done taken w w' o e h q f z = ground (arith, h, q, f, z)
