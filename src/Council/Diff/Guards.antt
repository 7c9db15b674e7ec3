-- ===== src/Council/Diff/Guards.antt =====
-- The arguments of git and the output that is accepted.
use cordyceps.Common.{
  ltb, Bool-cases, Option-cases, length, ◌≤◌, ◌≡◌, refl, sym, ap, ◌∙◌, ◌⊎◌, inl, inr, false, Option,
  none, some, List, [], ◌∷◌, ◌++◌, arith,
}
use cordyceps.Common.Text.{Text, text, starts_with, is_nil, trim_start, trim_end}
use cordyceps.Council.Diff.{
  DiffParams, max_total_bytes, dash, is_option, given, fixed_args, end_of_options, scope_args,
  diff_args, diff_label, DiffError, check_output, fetch_diff,
}

-- No argument of the list can be an option of git: it does not begin with a dash, or is the two dashes
-- in front of the paths.
abbrev pub ArePlain : List Text → Type 0
ArePlain [] = Unit
ArePlain (a ∷ l) = ((starts_with a dash ≡ false) ⊎ (a ≡ text "--")) × ArePlain l

plain_given :
    (o : Option Text) (t : Text)
    → is_option o ≡ false
    → given o ≡ some t
    → starts_with t dash ≡ false
plain_given none t h e = absurd (ground (arith, e))
plain_given (some []) t h e = absurd (ground (arith, e))
plain_given (some (c ∷ s)) t h e = ap (λ o. is_option o) (sym e) ∙ h

scope-ArePlain : (o : Option Text) → is_option o ≡ false → ArePlain (scope_args (given o))
scope-ArePlain none h = tt
scope-ArePlain (some []) h = tt
scope-ArePlain (some (c ∷ s)) h = (inr refl, (inl h, tt))

-- The arguments that a caller chooses come behind --end-of-options and cannot be options.
abbrev pub IsSafe : List Text → Type 0
IsSafe l =
    (front : List Text) × (back : List Text) × (l ≡ front ++ end_of_options ∷ back)
    × ((front ≡ fixed_args) ⊎ (front ≡ fixed_args ++ text "--staged" ∷ []))
    × ArePlain back

diff_args-IsSafe :
    (p : DiffParams) → is_option p.base ≡ false → is_option p.scope ≡ false → IsSafe (diff_args p)
unfolding diff_args
diff_args-IsSafe p b c = elim (Bool-cases p.staged) [
  | inl e ↦ (
    fixed_args ++ text "--staged" ∷ [],
    scope_args (given p.scope),
    rw e refl,
    inr refl,
    scope-ArePlain p.scope c,
  )
  | inr e ↦ elim (Option-cases (given p.base)) [
    | inl g ↦ (
      fixed_args,
      text "HEAD" ∷ scope_args (given p.scope),
      rw (e, g) refl,
      inl refl,
      (inl refl, scope-ArePlain p.scope c),
    )
    | inr (t, g) ↦ (
      fixed_args,
      t ∷ scope_args (given p.scope),
      rw (e, g) refl,
      inl refl,
      (inl (plain_given p.base t b g), scope-ArePlain p.scope c),
    )
  ]
]

abbrev diff_of : DiffError ⊎ (Text × Text) → Text × Text
diff_of (inl e) = ([], [])
diff_of (inr r) = r

check_output-inr :
    (label : Text) (r : Text ⊎ Text) (out l : Text)
    → check_output label r ≡ inr (out, l)
    → (r ≡ inr out)
      × (is_nil (trim_end (trim_start out)) ≡ false)
      × (ltb max_total_bytes (length out) ≡ false)
      × (l ≡ label)
check_output-inr label (inl e) out l h = absurd (ground (arith, h))
check_output-inr label (inr t) out l h = elim (Bool-cases (is_nil (trim_end (trim_start t)))) [
  | inl e ↦ absurd (ground (arith, h, e))
  | inr e ↦ elim (Bool-cases (ltb max_total_bytes (length t))) [
    | inl f ↦ absurd (ground (arith, h, e, f))
    | inr f ↦
        let kept : check_output label (inr t) ≡ inr (t, label) = rw (e, f) refl in
        let same = ap diff_of (sym kept ∙ h) in
        let out_same : t ≡ out = ap (λ r. r.0) same in
        (
          ap inr out_same,
          ap (λ x. is_nil (trim_end (trim_start x))) (sym out_same) ∙ e,
          ap (λ x. ltb max_total_bytes (length x)) (sym out_same) ∙ f,
          sym (ap (λ r. r.1) same),
        )
  ]
]

-- A diff that fetchDiff returns is what git gave for arguments in which all that the caller chose comes
-- behind --end-of-options and cannot be an option; it is not blank and not longer than 500000.
pub fetch_diff-IsSafe :
    (git : List Text → Text ⊎ Text) (p : DiffParams) (out label : Text)
    → fetch_diff git p ≡ inr (out, label)
    → (git (diff_args p) ≡ inr out)
      × IsSafe (diff_args p)
      × (is_nil (trim_end (trim_start out)) ≡ false)
      × (length out ≤ max_total_bytes)
unfolding fetch_diff
fetch_diff-IsSafe git p out label h = elim (Bool-cases (is_option p.base)) [
  | inl e ↦ absurd (ground (arith, h, e))
  | inr e ↦ elim (Bool-cases (is_option p.scope)) [
    | inl f ↦ absurd (ground (arith, h, e, f))
    | inr f ↦
        let (r, b, s, l) =
          check_output-inr (diff_label p) (git (diff_args p)) out label (ground (arith, h, e, f)) in
        (r, diff_args-IsSafe p e f, b, ground (arith, s))
  ]
]
