-- ===== src/Core/Semver.antt =====
-- src/core/semver.ts, over text as lists of code units. Numbers are exact here.
pub mod Order
pub mod Ranges
pub mod Printed
mod Tests
use cordyceps.Common.{
  ltb, leb, ◌==◌, if◌then◌else◌, ltb→lt, lt→ltb, leb→le, ==_iff, Bool-cases, Option-cases,
  String-cases, str_eq_refl, str_eq-false, length, get_elem?, take, drop, keep, any, last?,
  length-append, take-append-drop, length-take, length-drop, All, All-append, All-map,
  drop-append_of_le, take-append_of_le, drop-length-append, take-length, append-ne-nil,
  slice-append_of_le, ℕ, zero, suc, ◌+◌, ◌-◌, ◌*◌, ◌/◌, ◌%◌, ◌≤◌, ◌<◌, min, max, String, ◌≡◌, refl,
  sym, ap, ◌∙◌, ◌≢◌, ◌↔◌, ◌⊎◌, inl, inr, Bool, true, false, not, ◌&&◌, ◌||◌, Option, none, some,
  List, [], ◌∷◌, ◌++◌, map-append, append-nil, append_assoc, arith, str_eq, eq_iff, map,
}
use cordyceps.Common.Text.{Text, text, is_space, is_nil, push_front, starts_with, same}

infixl 20 ◌>>=◌
abbrev ◌>>=◌ : {A B : Type 0} → Option A → (A → Option B) → Option B
none >>= f = none
some a >>= f = f a

pub record ParsedVersion : Type 0 where
  pub major : ℕ
  pub minor : ℕ
  pub patch : ℕ

unfoldable pub is_digit : ℕ → Bool
is_digit c = leb 48 c && leb c 57

-- `\d*`: the digits in front, and the rest.
unfoldable pub span_digits : Text → Text × Text
unfolding is_digit
span_digits [] = ([], [])
span_digits (c ∷ s) =
    let (ds, rest) = span_digits s in if is_digit c then (c ∷ ds, rest) else ([], c ∷ s)

-- `parseInt(ds, 10)`, with the value of what came before.
abbrev pub value_from : ℕ → Text → ℕ
value_from n [] = n
value_from n (c ∷ ds) = value_from (n * 10 + (c - 48)) ds

-- `(\d+)`
unfoldable pub number : Text → Option (ℕ × Text)
unfolding span_digits
number s =
    let (ds, rest) = span_digits s in if is_nil ds then none else some (value_from 0 ds, rest)

-- `\.`
abbrev pub skip_dot : Text → Option Text
skip_dot [] = none
skip_dot (c ∷ s) = if c == 46 then some s else none

-- `[0-9A-Za-z.-]`
abbrev pub is_suffix_char : ℕ → Bool
is_suffix_char c =
    (leb 48 c && leb c 57)
    || (leb 65 c && leb c 90)
    || (leb 97 c && leb c 122)
    || c == 46
    || c == 45

abbrev pub all_suffix : Text → Bool
all_suffix [] = true
all_suffix (c ∷ s) = is_suffix_char c && all_suffix s

-- `(?:[-+][0-9A-Za-z.-]+)?$`
abbrev pub is_suffix : Text → Bool
is_suffix [] = true
is_suffix (c ∷ s) = (c == 45 || c == 43) && not (is_nil s) && all_suffix s

unfoldable pub parse_version : Text → Option ParsedVersion
unfolding number
parse_version v = do
  (major, s1) ← number v
  s2 ← skip_dot s1
  (minor, s3) ← number s2
  s4 ← skip_dot s3
  (patch, s5) ← number s4
  if is_suffix s5 then some (record { major = major; minor = minor; patch = patch }) else none

-- `a - b` of the source, by its sign: an `Ordering`.
pub data Sign : Type 0 where
  negative zero_sign positive : Sign

abbrev pub sign : ℕ → ℕ → Sign
sign a b = if ltb a b then negative else if a == b then zero_sign else positive

unfoldable pub compare_versions : ParsedVersion → ParsedVersion → Sign
compare_versions a b =
    if not (a.major == b.major)
    then sign a.major b.major
    else if not (a.minor == b.minor)
    then sign a.minor b.minor
    else sign a.patch b.patch

pub data Op : Type 0 where
  ge gt le lt eq : Op

-- The `switch` on the operator: whether the term lets the version through.
abbrev pub holds : Op → Sign → Bool
holds ge negative = false
holds ge _ = true
holds gt positive = true
holds gt _ = false
holds le positive = false
holds le _ = true
holds lt negative = true
holds lt _ = false
holds eq zero_sign = true
holds eq _ = false

-- `(>=|<=|>|<|=)?` in front of a term; no operator stands for `=`.
unfoldable pub split_op : Text → Op × Text
split_op [] = (eq, [])
split_op (c ∷ s) =
    if c == 62
    then (if starts_with s (61 ∷ []) then (ge, drop 1 s) else (gt, s))
    else if c == 60
    then (if starts_with s (61 ∷ []) then (le, drop 1 s) else (lt, s))
    else if c == 61
    then (eq, s)
    else (eq, c ∷ s)

unfoldable pub meets_term : ParsedVersion → Text → Bool
unfolding split_op parse_version compare_versions
meets_term v term =
    let (op, target) = split_op term in
    elim (parse_version target) [ none ↦ false | some t ↦ holds op (compare_versions v t) ]

abbrev pub starts_word : Text → Bool
starts_word [] = false
starts_word (c ∷ s) = not (is_space c)

-- `range.trim().split(/\s+/).filter(Boolean)`: the runs of code units that are no white space.
unfoldable pub words : Text → List Text
unfolding is_space
words [] = []
words (c ∷ s) =
    let rest = words s in
    if is_space c then rest else if starts_word s then push_front c rest else (c ∷ []) ∷ rest

-- The loop over the terms.
unfoldable pub meets_all : ParsedVersion → List Text → Bool
unfolding meets_term
meets_all v [] = true
meets_all v (t ∷ ts) = let rest = meets_all v ts in if meets_term v t then rest else false

abbrev pub meets_terms : ParsedVersion → List Text → Bool
meets_terms v [] = false
meets_terms v (t ∷ ts) = meets_all v (t ∷ ts)

unfoldable pub satisfies : Text → Text → Bool
unfolding meets_all words parse_version
satisfies version range = elim (parse_version version) [
  | none ↦ false
  | some v ↦ meets_terms v (words range)
]

pub data Compat : Type 0 where
  supported untested unsupported any_version : Compat

-- A missing or empty text is falsy.
unfoldable pub grade_compat : Text → Text → Compat
unfolding satisfies
grade_compat detected range =
    if is_nil range
    then any_version
    else if is_nil detected
    then untested
    else if satisfies detected range
    then supported
    else unsupported
