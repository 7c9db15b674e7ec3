-- ===== src/Core/Semver/Ranges.antt =====
-- Ranges are conjunctions, and the numbers of a version are read back.
use cordyceps.Common.{
  if◌then◌else◌, Bool-cases, Option-cases, All, ℕ, ◌≡◌, refl, ap, ◌∙◌, ◌≢◌, inl, inr, Bool, true,
  false, not, ◌&&◌, none, some, List, [], ◌∷◌, ◌++◌, arith,
}
use cordyceps.Common.Text.{Text, is_space, is_nil, push_front, push_front-ne-nil}
use cordyceps.Core.Semver.{
  ParsedVersion, is_digit, span_digits, value_from, number, is_suffix, parse_version, starts_word,
  words, meets_term, meets_all, meets_terms, satisfies,
}

abbrev space : ℕ
space = 32

starts_word-append : (s t : Text) → starts_word (s ++ space ∷ t) ≡ starts_word s
unfolding is_space
starts_word-append [] t = refl
starts_word-append (c ∷ s) t = refl

words-ne-nil : (s : Text) → starts_word s ≡ true → words s ≢ []
unfolding words
words-ne-nil [] h = absurd (ground (arith, h))
words-ne-nil (c ∷ s) h = elim (Bool-cases (is_space c)) [
  | inl e ↦ absurd (ground (arith, e, h))
  | inr e ↦ elim (Bool-cases (starts_word s)) [
    | inl w ↦ rw (e, w) (push_front-ne-nil c (words s))
    | inr w ↦ rw (e, w) (λ p. cc)
  ]
]

push_front-append :
    (c : ℕ) (ps qs : List Text) → ps ≢ [] → push_front c (ps ++ qs) ≡ push_front c ps ++ qs
push_front-append c [] qs h = absurd (h refl)
push_front-append c (p ∷ ps) qs h = refl

words-append : (s t : Text) → words (s ++ space ∷ t) ≡ words s ++ words t
unfolding words
words-append [] t = refl
words-append (c ∷ s) t = elim (Bool-cases (is_space c)) [
  | inl e ↦ rw e (words-append s t)
  | inr e ↦ elim (Bool-cases (starts_word s)) [
    | inl w ↦
        rw (e, starts_word-append s t, w)
          (ap (push_front c) (words-append s t)
            ∙ push_front-append c (words s) (words t) (words-ne-nil s w))
    | inr w ↦ rw (e, starts_word-append s t, w) (ap (λ l. (c ∷ []) ∷ l) (words-append s t))
  ]
]

meets_all-append :
    (v : ParsedVersion) (ps qs : List Text)
    → meets_all v (ps ++ qs) ≡ meets_all v ps && meets_all v qs
unfolding meets_all
meets_all-append v [] qs = refl
meets_all-append v (p ∷ ps) qs = elim (Bool-cases (meets_term v p)) [
  | inl e ↦ rw e (meets_all-append v ps qs)
  | inr e ↦ rw e refl
]

meets_terms-append :
    (v : ParsedVersion) (ps qs : List Text)
    → ps ≢ []
    → qs ≢ []
    → meets_terms v (ps ++ qs) ≡ meets_terms v ps && meets_terms v qs
meets_terms-append v [] qs h g = absurd (h refl)
meets_terms-append v (p ∷ ps) [] h g = absurd (g refl)
meets_terms-append v (p ∷ ps) (q ∷ qs) h g = meets_all-append v (p ∷ ps) (q ∷ qs)

satisfies-some :
    (version range : Text) (v : ParsedVersion)
    → parse_version version ≡ some v
    → satisfies version range ≡ meets_terms v (words range)
unfolding satisfies
satisfies-some version range v e = ground (arith, e)

satisfies-none :
    (version range : Text) → parse_version version ≡ none → satisfies version range ≡ false
unfolding satisfies
satisfies-none version range e = ground (arith, e)

-- Two ranges that are not blank, written with a space between them, ask for both.
pub satisfies-append :
    (version r q : Text)
    → words r ≢ []
    → words q ≢ []
    → satisfies version (r ++ space ∷ q) ≡ satisfies version r && satisfies version q
satisfies-append version r q h g = elim (Option-cases (parse_version version)) [
  | inl e ↦ rw (satisfies-none version (r ++ space ∷ q) e, satisfies-none version r e) refl
  | inr (v, e) ↦
      rw
        (
          satisfies-some version (r ++ space ∷ q) v e,
          satisfies-some version r v e,
          satisfies-some version q v e,
          words-append r q,
        )
        (meets_terms-append v (words r) (words q) h g)
]

-- A run of digits, followed by something that is no digit.
abbrev pub AreDigits : Text → Type 0
AreDigits = All (λ c. is_digit c ≡ true)

abbrev pub ends_number : Text → Bool
ends_number [] = true
ends_number (c ∷ s) = not (is_digit c)

span_digits-append :
    (ds s : Text) → AreDigits ds → ends_number s ≡ true → span_digits (ds ++ s) ≡ (ds, s)
unfolding span_digits
span_digits-append [] [] h e = refl
span_digits-append [] (c ∷ s) h e = elim (Bool-cases (is_digit c)) [
  | inl q ↦ absurd (ground (arith, q, e))
  | inr q ↦ rw q refl
]
span_digits-append (d ∷ ds) s h e = rw (span_digits-append ds s h.1 e, h.0) refl

pub number-append :
    (ds s : Text)
    → is_nil ds ≡ false
    → AreDigits ds
    → ends_number s ≡ true
    → number (ds ++ s) ≡ some (value_from 0 ds, s)
unfolding number
number-append ds s n h e = rw (span_digits-append ds s h e, n) refl

pub parse_version-steps :
    (v s1 s2 s3 : Text) (x y z : ℕ)
    → number v ≡ some (x, 46 ∷ s1)
    → number s1 ≡ some (y, 46 ∷ s2)
    → number s2 ≡ some (z, s3)
    → parse_version v
      ≡ (if is_suffix s3 then some (record { major = x; minor = y; patch = z }) else none)
unfolding parse_version
parse_version-steps v s1 s2 s3 x y z e f g = ground (arith, e, f, g)

-- Three runs of digits with dots between them are read as the three numbers where what is behind the
-- last run is nothing or a pre-release or build suffix, and as no version where it is anything else
-- (what is behind the last run does not begin with a digit).
pub parse_version-append :
    (a b c suffix : Text)
    → (is_nil a ≡ false) × AreDigits a
    → (is_nil b ≡ false) × AreDigits b
    → (is_nil c ≡ false) × AreDigits c
    → ends_number suffix ≡ true
    → parse_version (a ++ (46 ∷ (b ++ (46 ∷ (c ++ suffix))))) ≡ (
        if is_suffix suffix
        then some
            (record { major = value_from 0 a; minor = value_from 0 b; patch = value_from 0 c })
        else none)
unfolding is_digit
parse_version-append a b c suffix ha hb hc hs =
    parse_version-steps (a ++ (46 ∷ (b ++ (46 ∷ (c ++ suffix))))) (b ++ (46 ∷ (c ++ suffix)))
      (c ++ suffix) suffix (value_from 0 a) (value_from 0 b) (value_from 0 c)
      (number-append a (46 ∷ (b ++ (46 ∷ (c ++ suffix)))) ha.0 ha.1 refl)
      (number-append b (46 ∷ (c ++ suffix)) hb.0 hb.1 refl) (number-append c suffix hc.0 hc.1 hs)
