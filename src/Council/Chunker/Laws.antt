-- ===== src/Council/Chunker/Laws.antt =====
-- What a reader of the chunks of `chunkByLines` relies on.
use mathlib.Core.Path.{ap₂}
use cordyceps.Common.{
  leb, Bool-cases, length, take, drop, length-append, All, All-append, All-map, drop-length-append,
  take-length, append-ne-nil, slice-append_of_le, ℕ, suc, ◌+◌, ◌-◌, ◌≤◌, ◌≡◌, refl, sym, ap, ◌∙◌,
  ◌≢◌, ◌⊎◌, inl, inr, List, [], ◌∷◌, ◌++◌, map-append, arith, map,
}
use cordyceps.Common.Text.{Text, newline, split, join, join-split, join-append, split-ne-nil}
use cordyceps.Council.Chunker.{Piece, Chunk, number, pieces, chunk_by_lines}
use cordyceps.Council.Chunker.Cover.{Covers, push, empty, piece_of, pieces-Covers}

abbrev pub texts : List Piece → List Text
texts = map (λ p. p.text)

-- There is a chunk exactly if there is a line.
Covers-cases :
    {ps : List Piece} {lines : List Text}
    → Covers ps lines
    → ((ps ≡ []) × (lines ≡ [])) ⊎ ((ps ≢ []) × (lines ≢ []))
Covers-cases empty = inl (refl, refl)
Covers-cases (push {ps = ps} {lines = lines} [] c ne e f) = absurd (ne refl)
Covers-cases (push {ps = ps} {lines = lines} (g ∷ gs) c ne e f) =
    inr (λ p. append-ne-nil ps _ [] (sym e ∙ p), λ p. append-ne-nil lines g gs (sym f ∙ p))

join-texts_push :
    (ps : List Piece) (lines group : List Text)
    → join newline (texts ps) ≡ join newline lines
    → ((ps ≡ []) × (lines ≡ [])) ⊎ ((ps ≢ []) × (lines ≢ []))
    → group ≢ []
    → join newline (texts (ps ++ piece_of (length lines) group ∷ []))
      ≡ join newline (lines ++ group)
join-texts_push ps lines group ih (inl (e, f)) ne = rw (e, f)
join-texts_push [] lines group ih (inr (h, k)) ne = absurd (h refl)
join-texts_push (p ∷ ps) lines group ih (inr (h, k)) ne =
    let last = piece_of (length lines) group ∷ [] in
    ap (join newline) (map-append (λ (q : Piece). q.text) (p ∷ ps) last)
    ∙ join-append newline (texts (p ∷ ps)) (join newline group ∷ []) (λ e. cc) (λ e. cc)
    ∙ ap (λ t. t ++ (newline ∷ join newline group)) ih
    ∙ sym (join-append newline lines group k ne)

pub Covers-join :
    {ps : List Piece} {lines : List Text}
    → Covers ps lines
    → join newline (texts ps) ≡ join newline lines
Covers-join empty = refl
Covers-join (push {ps = ps} {lines = lines} group c ne e f) =
    rw (e, f) (join-texts_push ps lines group (Covers-join c) (Covers-cases c) ne)

-- Every chunk starts on the line behind the one before it; the first on line `from`, and the line
-- behind the last is `to`.
abbrev pub Tiles : ℕ → List Piece → ℕ → Type 0
Tiles from [] to = from ≡ to
Tiles from (p ∷ ps) to = (p.start_line ≡ from) × Tiles (p.end_line + 1) ps to

Tiles-append :
    (from mid to : ℕ) (ps qs : List Piece)
    → Tiles from ps mid
    → Tiles mid qs to
    → Tiles from (ps ++ qs) to
Tiles-append from mid to [] qs h k = rw h k
Tiles-append from mid to (p ∷ ps) qs h k = (h.0, Tiles-append (p.end_line + 1) mid to ps qs h.1 k)

-- The text of the piece is that of its lines.
abbrev pub IsSlice : List Text → Piece → Type 0
IsSlice lines p =
    (1 ≤ p.start_line)
    × (p.start_line ≤ p.end_line)
    × (p.end_line ≤ length lines)
    × (p.text ≡ join newline (take (p.end_line + 1 - p.start_line) (drop (p.start_line - 1) lines)))

Covers-Tiles :
    {ps : List Piece} {lines : List Text} → Covers ps lines → Tiles 1 ps (length lines + 1)
Covers-Tiles empty = refl
Covers-Tiles (push [] c ne e f) = absurd (ne refl)
Covers-Tiles (push {ps = ps} {lines = lines} (g ∷ gs) c ne e f) =
    rw (e, f)
      (Tiles-append 1 (length lines + 1) (length (lines ++ g ∷ gs) + 1) ps
        (piece_of (length lines) (g ∷ gs) ∷ []) (Covers-Tiles c)
        (omega (arith, length-append {0} lines (g ∷ gs))))

IsSlice-append : (lines more : List Text) (p : Piece) → IsSlice lines p → IsSlice (lines ++ more) p
IsSlice-append lines more p (a, b, c, d) = (
  a,
  b,
  omega (arith, length-append {0} lines more),
  d
      ∙ ap (join newline) (
          sym (
            slice-append_of_le (p.start_line - 1) (p.end_line + 1 - p.start_line) lines more
              (omega arith))),
)

piece_of-IsSlice :
    (lines group : List Text)
    → group ≢ []
    → IsSlice (lines ++ group) (piece_of (length lines) group)
piece_of-IsSlice lines [] ne = absurd (ne refl)
piece_of-IsSlice lines (g ∷ gs) ne =
    let n = length lines in
    let m = length (g ∷ gs) in
    let count : (n + 1 + m - 1) + 1 - (n + 1) ≡ m = omega arith in
    let from : n + 1 - 1 ≡ n = omega arith in
    (
      omega arith,
      omega arith,
      omega (arith, length-append {0} lines (g ∷ gs)),
      ap (join newline) (
          sym (
            ap₂ (λ (a b : ℕ). take a (drop b (lines ++ g ∷ gs))) count from
            ∙ ap (take m) (drop-length-append lines (g ∷ gs))
            ∙ take-length (g ∷ gs))),
    )

Covers-IsSlice : {ps : List Piece} {lines : List Text} → Covers ps lines → All (IsSlice lines) ps
Covers-IsSlice empty = tt
Covers-IsSlice (push {ps = ps} {lines = lines} group c ne e f) =
    rw (e, f)
      (All-append (IsSlice (lines ++ group)) ps (piece_of (length lines) group ∷ [])
        (All-map (IsSlice lines) (IsSlice (lines ++ group)) ps (IsSlice-append lines group)
          (Covers-IsSlice c))
        (piece_of-IsSlice lines group ne, tt))

abbrev pub piece_list : List Chunk → List Piece
piece_list = map (λ c. c.piece)

pub pieces-number : (i total : ℕ) (ps : List Piece) → piece_list (number i total ps) ≡ ps
unfolding number
pieces-number i total [] = refl
pieces-number i total (p ∷ ps) = ap (λ l. p ∷ l) (pieces-number (i + 1) total ps)

-- The one chunk of a source that fits.
abbrev whole : Text → Piece
whole source = record { text = source; start_line = 1; end_line = length (split newline source) }

pub piece_list-cases :
    (source : Text) (max_bytes : ℕ)
    → (piece_list (chunk_by_lines source max_bytes) ≡ whole source ∷ [])
      ⊎ (piece_list (chunk_by_lines source max_bytes) ≡ pieces source max_bytes)
unfolding chunk_by_lines
piece_list-cases source max_bytes = elim (Bool-cases (leb (length source) max_bytes)) [
  | inl e ↦ inl (rw e)
  | inr e ↦ inr (rw e (pieces-number 0 _ (pieces source max_bytes)))
]

pub length_pos {ℓ} : {A : Type ℓ} (ls : List A) → ls ≢ [] → 1 ≤ length ls
length_pos [] h = absurd (h refl)
length_pos (l ∷ ls) h = omega arith

whole-IsSlice : (source : Text) → IsSlice (split newline source) (whole source)
whole-IsSlice source =
    let lines = split newline source in
    let count : length lines + 1 - 1 ≡ length lines = omega arith in
    (
      omega arith,
      length_pos lines (split-ne-nil newline source),
      omega arith,
      rw (count, take-length lines, join-split newline source),
    )

-- Joining the texts of the chunks with newlines gives back the source, for every size limit.
pub chunk_by_lines_lossless :
    (source : Text) (max_bytes : ℕ)
    → join newline (texts (piece_list (chunk_by_lines source max_bytes))) ≡ source
chunk_by_lines_lossless source max_bytes = elim (piece_list-cases source max_bytes) [
  | inl e ↦ rw e
  | inr e ↦ rw e (Covers-join (pieces-Covers source max_bytes) ∙ join-split newline source)
]

-- The line ranges of the chunks follow one another without gap or overlap from line 1 to the last
-- line of the source, and the text of each chunk is that of the lines of its range.
pub chunk_by_lines_ranges :
    (source : Text) (max_bytes : ℕ)
    → Tiles 1 (piece_list (chunk_by_lines source max_bytes)) (length (split newline source) + 1)
      × All (IsSlice (split newline source)) (piece_list (chunk_by_lines source max_bytes))
chunk_by_lines_ranges source max_bytes = elim (piece_list-cases source max_bytes) [
  | inl e ↦ rw e ((refl, refl), (whole-IsSlice source, tt))
  | inr e ↦
      let covers = pieces-Covers source max_bytes in
      rw e (Covers-Tiles covers, Covers-IsSlice covers)
]

-- The chunks carry consecutive indices from `i`, and all of them the same total.
abbrev pub Numbered : ℕ → ℕ → List Chunk → Type 0
Numbered i total [] = Unit
Numbered i total (c ∷ cs) = (c.index ≡ i) × (c.total ≡ total) × Numbered (i + 1) total cs

number-Numbered : (i total : ℕ) (ps : List Piece) → Numbered i total (number i total ps)
unfolding number
number-Numbered i total [] = tt
number-Numbered i total (p ∷ ps) = (refl, refl, number-Numbered (i + 1) total ps)

length-number : (i total : ℕ) (ps : List Piece) → length (number i total ps) ≡ length ps
unfolding number
length-number i total [] = refl
length-number i total (p ∷ ps) = ap suc (length-number (i + 1) total ps)

pieces-ne-nil : (source : Text) (max_bytes : ℕ) → pieces source max_bytes ≢ []
pieces-ne-nil source max_bytes = elim (Covers-cases (pieces-Covers source max_bytes)) [
  | inl (e, f) ↦ absurd (split-ne-nil newline source f)
  | inr (e, f) ↦ e
]

-- There is at least one chunk; the chunks are numbered from 0, and each records how many there are.
pub chunk_by_lines-Numbered :
    (source : Text) (max_bytes : ℕ)
    → (1 ≤ length (chunk_by_lines source max_bytes))
      × Numbered 0 (length (chunk_by_lines source max_bytes)) (chunk_by_lines source max_bytes)
unfolding chunk_by_lines
chunk_by_lines-Numbered source max_bytes = elim (Bool-cases (leb (length source) max_bytes)) [
  | inl e ↦ rw e (omega arith, (refl, refl, tt))
  | inr e ↦
      let ps = pieces source max_bytes in
      rw (e, length-number 0 (length ps) ps)
        (length_pos ps (pieces-ne-nil source max_bytes), number-Numbered 0 (length ps) ps)
]
