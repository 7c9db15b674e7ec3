-- ===== src/Common/Text.antt =====
-- Text that a program walks: the list of its UTF-16 code units, with JavaScript's `split`, `join`,
-- `trim` and `startsWith`.
use Prim.Native.Char.{code}
use Prim.Native.Nat.{ℕ}
use Prim.Native.String.{String}
use mathlib.Core.Path.{◌≡◌, refl, sym, ap, ap₂, ◌∙◌}
use mathlib.Core.Logic.{◌≢◌, inl, inr}
use mathlib.Core.Bool.{Bool, true, false, ◌&&◌, ◌||◌}
use mathlib.Core.List.{List, [], ◌∷◌, ◌++◌, append_assoc, reverse}
use native.Mathlib.Omega.{arith}
use cordyceps.Common.Tests.{◌==◌, if◌then◌else◌, leb, Bool-cases, ==_iff}

abbrev pub Text : Type 0
Text = List ℕ

-- The code units of a literal (all of them are below 65536 here).
abbrev pub text : String → Text
text String.[] = []
text (String.◌∷◌ c s) = code c ∷ text s

abbrev pub same : Text → Text → Bool
same [] [] = true
same (a ∷ s) (b ∷ t) = a == b && same s t
same _ _ = false

abbrev pub starts_with : Text → Text → Bool
starts_with s [] = true
starts_with [] (b ∷ t) = false
starts_with (a ∷ s) (b ∷ t) = a == b && starts_with s t

abbrev pub newline : ℕ
newline = 10

-- The white space that `trim` and `\s` know.
unfoldable pub is_space : ℕ → Bool
is_space c =
    (leb 9 c && leb c 13)
    || c == 32
    || c == 160
    || c == 5760
    || (leb 8192 c && leb c 8202)
    || c == 8232
    || c == 8233
    || c == 8239
    || c == 8287
    || c == 12288
    || c == 65279

abbrev pub is_nil : Text → Bool
is_nil [] = true
is_nil (c ∷ s) = false

unfoldable pub trim_start : Text → Text
unfolding is_space
trim_start [] = []
trim_start (c ∷ s) = let rest = trim_start s in if is_space c then rest else c ∷ s

unfoldable pub trim_end : Text → Text
unfolding trim_start
trim_end s = reverse (trim_start (reverse s))

unfoldable pub trim : Text → Text
unfolding trim_end
trim s = trim_end (trim_start s)

-- Puts one code unit in front of the first piece.
abbrev pub push_front : ℕ → List Text → List Text
push_front c [] = (c ∷ []) ∷ []
push_front c (p ∷ ps) = (c ∷ p) ∷ ps

-- `s.split(sep)` for a separator of one code unit: at least one piece.
unfoldable pub split : ℕ → Text → List Text
split sep [] = [] ∷ []
split sep (c ∷ s) = if c == sep then [] ∷ split sep s else push_front c (split sep s)

-- `pieces.join(sep)`.
abbrev pub join : ℕ → List Text → Text
join sep [] = []
join sep (p ∷ []) = p
join sep (p ∷ q ∷ ps) = p ++ (sep ∷ join sep (q ∷ ps))

join-cons_empty : (sep : ℕ) (ps : List Text) → ps ≢ [] → join sep ([] ∷ ps) ≡ sep ∷ join sep ps
join-cons_empty sep [] h = absurd (h refl)
join-cons_empty sep (p ∷ ps) h = refl

join-push_front : (sep c : ℕ) (ps : List Text) → join sep (push_front c ps) ≡ c ∷ join sep ps
join-push_front sep c [] = refl
join-push_front sep c (p ∷ []) = refl
join-push_front sep c (p ∷ q ∷ ps) = refl

pub push_front-ne-nil : (c : ℕ) (ps : List Text) → push_front c ps ≢ []
push_front-ne-nil c [] e = cc
push_front-ne-nil c (p ∷ ps) e = cc

pub split-ne-nil : (sep : ℕ) (s : Text) → split sep s ≢ []
unfolding split
split-ne-nil sep [] e = cc
split-ne-nil sep (c ∷ s) e = ground (arith, push_front-ne-nil c (split sep s))

-- Joining the pieces of a text with the separator gives the text.
pub join-split : (sep : ℕ) (s : Text) → join sep (split sep s) ≡ s
unfolding split
join-split sep [] = refl
join-split sep (c ∷ s) = elim (Bool-cases (c == sep)) [
  | inl e ↦ rw e (
      join-cons_empty sep (split sep s) (split-ne-nil sep s)
      ∙ ap₂ (λ (x : ℕ) (xs : Text). x ∷ xs) (sym ((==_iff c sep).0 e)) (join-split sep s))
  | inr e ↦ rw e (join-push_front sep c (split sep s) ∙ ap (λ t. c ∷ t) (join-split sep s))
]

-- Two runs of pieces, joined one by one and then together, join as their concatenation.
pub join-append :
    (sep : ℕ) (ps qs : List Text)
    → ps ≢ []
    → qs ≢ []
    → join sep (ps ++ qs) ≡ join sep ps ++ (sep ∷ join sep qs)
join-append sep [] qs hp hq = absurd (hp refl)
join-append sep (p ∷ []) [] hp hq = absurd (hq refl)
join-append sep (p ∷ []) (q ∷ qs) hp hq = refl
join-append sep (p ∷ p' ∷ ps) qs hp hq =
    ap (λ t. p ++ (sep ∷ t)) (join-append sep (p' ∷ ps) qs (λ e. cc) hq)
    ∙ sym (append_assoc p (sep ∷ join sep (p' ∷ ps)) (sep ∷ join sep qs))
