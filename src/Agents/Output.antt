-- ===== src/Agents/Output.antt =====
-- How `runChild` of src/agents/exec-controller.ts turns the output of a process into calls of the
-- parser and messages: a JSON-lines driver is fed line by line, the others at the end. The loop over
-- the lines of a buffer is that of src/agents/server-http-controller.ts too.
pub mod Lines
mod Tests
use cordyceps.Common.{
  ltb, leb, ◌==◌, if◌then◌else◌, ltb→lt, lt→ltb, leb→le, ==_iff, Bool-cases, Option-cases,
  String-cases, str_eq_refl, str_eq-false, length, get_elem?, take, drop, keep, any, last?,
  length-append, take-append-drop, length-take, length-drop, All, All-append, All-map,
  drop-append_of_le, take-append_of_le, drop-length-append, take-length, append-ne-nil,
  slice-append_of_le, ℕ, zero, suc, ◌+◌, ◌-◌, ◌*◌, ◌/◌, ◌%◌, ◌≤◌, ◌<◌, min, max, String, ◌≡◌, refl,
  sym, ap, ◌∙◌, ◌≢◌, ◌↔◌, ◌⊎◌, inl, inr, Bool, true, false, not, ◌&&◌, ◌||◌, Option, none, some,
  List, [], ◌∷◌, ◌++◌, map-append, append-nil, append_assoc, arith, str_eq, eq_iff, map,
}
use cordyceps.Common.Text.{Text, newline, is_nil, trim_end}

-- `parseOutput` of the ExecSpec.
pub data ParseOutput : Type 0 where
  text json jsonl : ParseOutput

-- What the controller does with output: `feedChunk`, or a message of its own.
pub data Emission : Type 0 where
  feed : Text → Emission
  message : Text → Emission

-- `indexOf("\n")` and the two slices: the text in front of the first newline and behind it.
pub cut_line : Text → Option (Text × Text)
cut_line [] = none
cut_line (c ∷ s) =
    let rest = cut_line s in
    if c == newline
    then some ([], s)
    else elim rest [ none ↦ none | some (line, more) ↦ some (c ∷ line, more) ]

abbrev nonempty : (Text → Emission) → Text → List Emission
nonempty f t = if is_nil t then [] else f t ∷ []

-- The `while` loop over the buffer: the lines that are fed, and what stays in the buffer.
pub drain : ℕ → Text → List Emission × Text
drain zero buf = ([], buf)
drain (suc fuel) buf = elim (cut_line buf) [
  | none ↦ ([], buf)
  | some (line, rest) ↦ let (es, left) = drain fuel rest in (nonempty feed line ++ es, left)
]

-- A chunk of stdout comes. Each round of the loop takes a newline off the buffer.
pub on_data : ParseOutput → Text → Text → List Emission × Text
on_data jsonl chunk buf = drain (length (buf ++ chunk) + 1) (buf ++ chunk)
on_data text chunk buf = ([], buf ++ chunk)
on_data json chunk buf = ([], buf ++ chunk)

-- The process exits with `buf` in the buffer.
pub on_exit : ParseOutput → Text → List Emission
on_exit text buf = nonempty message (trim_end buf)
on_exit json buf = nonempty feed buf ++ feed [] ∷ []
on_exit jsonl buf = nonempty feed buf ++ feed [] ∷ []

-- A process that writes these chunks, all of which come in before its exit is reported.
pub output_from : ParseOutput → List Text → Text → List Emission
output_from mode [] buf = on_exit mode buf
output_from mode (chunk ∷ chunks) buf =
    let (es, left) = on_data mode chunk buf in es ++ output_from mode chunks left

pub output : ParseOutput → List Text → List Emission
output mode chunks = output_from mode chunks []
