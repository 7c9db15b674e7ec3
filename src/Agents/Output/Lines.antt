-- ===== src/Agents/Output/Lines.antt =====
-- How the output is cut into chunks makes no difference.
use cordyceps.Common.{
  ◌==◌, Bool-cases, length, ℕ, zero, suc, ◌+◌, ◌<◌, ◌≡◌, refl, sym, ◌⊎◌, inl, inr, none, some, List,
  [], ◌∷◌, ◌++◌, append-nil, append_assoc, arith,
}
use cordyceps.Common.Text.{Text, newline, trim_end, split}
use cordyceps.Agents.Output.{
  ParseOutput, text, json, jsonl, Emission, feed, message, cut_line, nonempty, drain, on_data,
  on_exit, output_from, output,
}

abbrev pub concat : List Text → Text
concat [] = []
concat (t ∷ ts) = t ++ concat ts

-- The lines of a text that are not empty, fed one by one.
abbrev pub feeds : List Text → List Emission
feeds [] = []
feeds (l ∷ ls) = nonempty feed l ++ feeds ls

-- A text splits at its first newline, whatever comes behind it.
cut_line-split :
    (s t : Text)
    → ((cut_line s ≡ none) × (split newline s ≡ s ∷ []))
      ⊎ ((line : Text) × (rest : Text) × (cut_line s ≡ some (line, rest))
          × (split newline (s ++ t) ≡ line ∷ split newline (rest ++ t))
          × (length rest < length s))
unfolding cut_line split
cut_line-split [] t = inl (refl, refl)
cut_line-split (c ∷ s) t = elim (Bool-cases (c == newline)) [
  | inl e ↦ inr ([], s, rw e, rw e, omega arith)
  | inr e ↦ elim (cut_line-split s t) [
    | inl (f, g) ↦ inl (ground (arith, e, f), rw (e, g))
    | inr (line, rest, f, g, l) ↦ inr (c ∷ line, rest, ground (arith, e, f), rw (e, g), omega arith)
  ]
]

drain-none : (fuel : ℕ) (buf : Text) → cut_line buf ≡ none → drain (suc fuel) buf ≡ ([], buf)
unfolding drain
drain-none fuel buf e = ground (arith, e)

drain-some :
    (fuel : ℕ) (buf line rest : Text)
    → cut_line buf ≡ some (line, rest)
    → drain (suc fuel) buf ≡ (nonempty feed line ++ (drain fuel rest).0, (drain fuel rest).1)
unfolding drain
drain-some fuel buf line rest e = ground (arith, e)

-- With fuel for every code unit the loop ends without a newline in the buffer, and the lines it has
-- fed are those of the text, whatever comes behind it.
drain_lem :
    (fuel : ℕ) (buf t : Text)
    → length buf < fuel
    → (cut_line ((drain fuel buf).1) ≡ none)
      × (feeds (split newline (buf ++ t))
          ≡ (drain fuel buf).0 ++ feeds (split newline ((drain fuel buf).1 ++ t)))
drain_lem zero buf t h = absurd (omega arith)
drain_lem (suc fuel) buf t h = elim (cut_line-split buf t) [
  | inl (f, g) ↦ (rw (drain-none fuel buf f, f) refl, rw (drain-none fuel buf f) refl)
  | inr (line, rest, f, g, l) ↦
      let (ih1, ih2) = drain_lem fuel rest t (omega arith) in
      (
        rw (drain-some fuel buf line rest f, ih1) refl,
        rw (drain-some fuel buf line rest f, g, ih2, append_assoc) refl,
      )
]

feeds-none : (s : Text) → cut_line s ≡ none → feeds (split newline s) ≡ nonempty feed s
feeds-none s e = elim (cut_line-split s []) [
  | inl (f, g) ↦ rw (g, append-nil)
  | inr (line, rest, f, g, l) ↦ absurd (ground (arith, e, f))
]

output_from-jsonl :
    (chunks : List Text) (buf : Text)
    → cut_line buf ≡ none
    → output_from jsonl chunks buf ≡ feeds (split newline (buf ++ concat chunks)) ++ feed [] ∷ []
unfolding output_from on_data on_exit
output_from-jsonl [] buf h = rw (append-nil, feeds-none buf h)
output_from-jsonl (chunk ∷ chunks) buf h =
    let (d1, d2) =
      drain_lem (length (buf ++ chunk) + 1) (buf ++ chunk) (concat chunks) (omega arith) in
    rw (
      output_from-jsonl chunks ((drain (length (buf ++ chunk) + 1) (buf ++ chunk)).1) d1,
      sym (append_assoc buf chunk (concat chunks)),
      d2,
      append_assoc,
    )

output_from-text :
    (chunks : List Text) (buf : Text)
    → output_from text chunks buf ≡ on_exit text (buf ++ concat chunks)
unfolding output_from on_data
output_from-text [] buf = rw append-nil
output_from-text (chunk ∷ chunks) buf = rw (output_from-text chunks (buf ++ chunk), append_assoc)

output_from-json :
    (chunks : List Text) (buf : Text)
    → output_from json chunks buf ≡ on_exit json (buf ++ concat chunks)
unfolding output_from on_data
output_from-json [] buf = rw append-nil
output_from-json (chunk ∷ chunks) buf = rw (output_from-json chunks (buf ++ chunk), append_assoc)

-- What the emissions of a process are, as a function of all it wrote.
abbrev pub whole : ParseOutput → Text → List Emission
whole jsonl s = feeds (split newline s) ++ feed [] ∷ []
whole text s = nonempty message (trim_end s)
whole json s = nonempty feed s ++ feed [] ∷ []

-- When all output of a process comes in before its exit is reported, then, however the output is cut
-- into chunks, a JSON-lines driver gets every line of the whole output that is not empty, in order, the
-- last one without a newline included, and then the empty feed; a text driver gives one message, the
-- whole output without trailing white space, or none when that is empty; a JSON driver gets the whole
-- output in one feed, and the empty feed.
pub output-concat :
    (mode : ParseOutput) (chunks : List Text) → output mode chunks ≡ whole mode (concat chunks)
unfolding output cut_line on_exit
output-concat jsonl chunks = output_from-jsonl chunks [] refl
output-concat text chunks = output_from-text chunks []
output-concat json chunks = output_from-json chunks []
