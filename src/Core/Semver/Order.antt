-- ===== src/Core/Semver/Order.antt =====
-- The comparison is the lexicographic order.
use cordyceps.Common.{
  ltb, ◌==◌, ltb→lt, ==_iff, Bool-cases, ◌<◌, ◌≡◌, refl, sym, ◌↔◌, ◌⊎◌, inl, inr, true, arith,
}
use cordyceps.Core.Semver.{
  ParsedVersion, negative, zero_sign, positive, compare_versions, Op, ge, gt, le, lt, eq, holds,
}

-- The lexicographic order.
abbrev pub Less : ParsedVersion → ParsedVersion → Type 0
Less a b =
    (a.major < b.major)
    ⊎ ((a.major ≡ b.major) × ((a.minor < b.minor) ⊎ ((a.minor ≡ b.minor) × (a.patch < b.patch))))

abbrev pub Same : ParsedVersion → ParsedVersion → Type 0
Same a b = (a.major ≡ b.major) × (a.minor ≡ b.minor) × (a.patch ≡ b.patch)

abbrev pub Meets : Op → ParsedVersion → ParsedVersion → Type 0
Meets ge v t = Less t v ⊎ Same v t
Meets gt v t = Less t v
Meets le v t = Less v t ⊎ Same v t
Meets lt v t = Less v t
Meets eq v t = Same v t

-- Of any two versions one comes first or they are the same, and the comparison tells which.
compare_versions-cases :
    (a b : ParsedVersion)
    → ((compare_versions a b ≡ negative) × Less a b)
      ⊎ (((compare_versions a b ≡ zero_sign) × Same a b)
          ⊎ ((compare_versions a b ≡ positive) × Less b a))
unfolding compare_versions
compare_versions-cases a b = elim (Bool-cases (a.major == b.major)) [
  | inr e ↦ elim (Bool-cases (ltb a.major b.major)) [
    | inl l ↦ inl (rw (e, l) refl, inl (ltb→lt a.major b.major l))
    | inr l ↦ inr (inr (rw (e, l) refl, inl (ground (arith, e, l))))
  ]
  | inl e ↦
      let p = (==_iff a.major b.major).0 e in
      elim (Bool-cases (a.minor == b.minor)) [
        | inr f ↦ elim (Bool-cases (ltb a.minor b.minor)) [
          | inl l ↦ inl (rw (e, f, l) refl, inr (p, inl (ltb→lt a.minor b.minor l)))
          | inr l ↦ inr (inr (rw (e, f, l) refl, inr (sym p, inl (ground (arith, f, l)))))
        ]
        | inl f ↦
            let q = (==_iff a.minor b.minor).0 f in
            elim (Bool-cases (ltb a.patch b.patch)) [
              | inl l ↦ inl (rw (e, f, l) refl, inr (p, inr (q, ltb→lt a.patch b.patch l)))
              | inr l ↦ elim (Bool-cases (a.patch == b.patch)) [
                | inl g ↦ inr (inl (rw (e, f, l, g) refl, (p, q, (==_iff a.patch b.patch).0 g)))
                | inr g ↦
                    inr (inr (rw (e, f, l, g) refl, inr (sym p, inr (sym q, ground (arith, g, l)))))
              ]
            ]
      ]
]

holds-negative :
    (op : Op) (v t : ParsedVersion) → Less v t → (holds op negative ≡ true) ↔ Meets op v t
holds-negative ge v t l = ground (arith, l)
holds-negative gt v t l = ground (arith, l)
holds-negative le v t l = (λ h. inl l, λ h. refl)
holds-negative lt v t l = (λ h. l, λ h. refl)
holds-negative eq v t l = ground (arith, l)

holds-zero : (op : Op) (v t : ParsedVersion) → Same v t → (holds op zero_sign ≡ true) ↔ Meets op v t
holds-zero ge v t s = (λ h. inr s, λ h. refl)
holds-zero gt v t s = ground (arith, s)
holds-zero le v t s = (λ h. inr s, λ h. refl)
holds-zero lt v t s = ground (arith, s)
holds-zero eq v t s = (λ h. s, λ h. refl)

holds-positive :
    (op : Op) (v t : ParsedVersion) → Less t v → (holds op positive ≡ true) ↔ Meets op v t
holds-positive ge v t l = (λ h. inl l, λ h. refl)
holds-positive gt v t l = (λ h. l, λ h. refl)
holds-positive le v t l = ground (arith, l)
holds-positive lt v t l = ground (arith, l)
holds-positive eq v t l = ground (arith, l)

-- A term of a range lets a version through exactly where its operator asks for its place in the
-- lexicographic order of the three numbers.
pub holds_iff :
    (op : Op) (v t : ParsedVersion) → (holds op (compare_versions v t) ≡ true) ↔ Meets op v t
holds_iff op v t = elim (compare_versions-cases v t) [
  | inl (e, l) ↦ rw e (holds-negative op v t l)
  | inr (inl (e, s)) ↦ rw e (holds-zero op v t s)
  | inr (inr (e, l)) ↦ rw e (holds-positive op v t l)
]
