-- ===== src/Core/Env.antt =====
-- src/core/env.ts: the lines of an env file and what they add to the environment. A line is a list
-- of code units; keys are text too.
pub mod Lines
mod Tests
use cordyceps.Common.{
  ltb, leb, ◌==◌, if◌then◌else◌, ltb→lt, lt→ltb, leb→le, ==_iff, Bool-cases, Option-cases,
  String-cases, str_eq_refl, str_eq-false, length, get_elem?, take, drop, keep, any, last?,
  length-append, take-append-drop, length-take, length-drop, All, All-append, All-map,
  drop-append_of_le, take-append_of_le, drop-length-append, take-length, append-ne-nil,
  slice-append_of_le, ℕ, zero, suc, ◌+◌, ◌-◌, ◌*◌, ◌/◌, ◌%◌, ◌≤◌, ◌<◌, min, max, String, ◌≡◌, refl,
  sym, ap, ◌∙◌, ◌≢◌, ◌↔◌, ◌⊎◌, inl, inr, Bool, true, false, not, ◌&&◌, ◌||◌, Option, none, some,
  List, [], ◌∷◌, ◌++◌, map-append, append-nil, append_assoc, arith, str_eq, eq_iff, map,
}
use cordyceps.Common.Text.{
  Text, text, newline, is_space, is_nil, trim, trim_start, trim_end, split, same, starts_with,
}

-- `[A-Za-z_]` and `[A-Za-z0-9_]`
abbrev pub is_key_start : ℕ → Bool
is_key_start c = (leb 65 c && leb c 90) || (leb 97 c && leb c 122) || c == 95

abbrev pub is_key_char : ℕ → Bool
is_key_char c = is_key_start c || (leb 48 c && leb c 57)

unfoldable pub span_key : Text → Text × Text
span_key [] = ([], [])
span_key (c ∷ s) =
    let (k, rest) = span_key s in if is_key_char c then (c ∷ k, rest) else ([], c ∷ s)

-- `([A-Za-z_][A-Za-z0-9_]*)=(.*)$`. The dot stands for no line separator.
abbrev is_separator : ℕ → Bool
is_separator c = c == 10 || c == 13 || c == 8232 || c == 8233

abbrev value_of : Text → Text → Option (Text × Text)
value_of key [] = none
value_of key (c ∷ v) = if c == 61 && not (any is_separator v) then some (key, v) else none

unfoldable pub key_value : Text → Option (Text × Text)
unfolding span_key
key_value [] = none
key_value (c ∷ s) =
    let (k, rest) = span_key s in if is_key_start c then value_of (c ∷ k) rest else none

abbrev head_is_space : Text → Bool
head_is_space [] = false
head_is_space (c ∷ s) = is_space c

-- The optional `export\s+`. A key cannot hold white space, so one reading at most succeeds.
unfoldable pub skip_export : Text → Text
unfolding trim_start is_space
skip_export s =
    if starts_with s (text "export") && head_is_space (drop 6 s) then trim_start (drop 6 s) else s

-- `LINE_RE`
unfoldable pub match_line : Text → Option (Text × Text)
unfolding skip_export key_value
match_line line = key_value (skip_export (trim_start line))

-- The text in front of the first `c`, if there is one.
unfoldable pub before : ℕ → Text → Option Text
before c [] = none
before c (d ∷ s) =
    let rest = before c s in
    if d == c then some [] else elim rest [ none ↦ none | some t ↦ some (d ∷ t) ]

-- The text in front of the first `" #"`, if there is one.
unfoldable pub before_comment : Text → Option Text
before_comment [] = none
before_comment (d ∷ s) =
    let rest = before_comment s in
    if d == 32 && starts_with s (35 ∷ [])
    then some []
    else elim rest [ none ↦ none | some t ↦ some (d ∷ t) ]

-- A quoted value, given without its first quote: an unclosed one is taken to the end.
abbrev pub unquote : ℕ → Text → Text
unquote q s = elim (before q s) [ none ↦ s | some t ↦ t ]

-- `hashIdx > 0`: a comment that begins the value is kept.
abbrev pub strip_comment : Text → Text
strip_comment v = elim (before_comment v) [ none ↦ v | some [] ↦ v | some t ↦ t ]

abbrev pub quote_of : Text → Option (ℕ × Text)
quote_of (c ∷ d ∷ s) = if c == 34 || c == 39 then some (c, d ∷ s) else none
quote_of _ = none

unfoldable pub clean_value : Text → Text
unfolding before before_comment trim
clean_value v = elim (quote_of v) [ some (q, s) ↦ unquote q s | none ↦ trim (strip_comment v) ]

-- `raw.replace(/\r$/, "")`
unfoldable pub drop_cr : Text → Text
drop_cr [] = []
drop_cr (c ∷ []) = if c == 13 then [] else c ∷ []
drop_cr (c ∷ d ∷ s) = c ∷ drop_cr (d ∷ s)

unfoldable pub is_blank_or_comment : Text → Bool
unfolding trim
is_blank_or_comment line = is_nil (trim line) || starts_with (trim line) (35 ∷ [])

unfoldable pub parse_line : Text → Option (Text × Text)
unfolding drop_cr is_blank_or_comment match_line clean_value
parse_line raw =
    let line = drop_cr raw in
    if is_blank_or_comment line
    then none
    else elim (match_line line) [ none ↦ none | some (k, v) ↦ some (k, clean_value v) ]

-- Environments and the result of parsing: the last value of a key counts, its first place.
abbrev pub Vars : Type 0
Vars = List (Text × Text)

unfoldable pub get_var : Text → Vars → Option Text
get_var k [] = none
get_var k ((j, v) ∷ m) = if same j k then some v else get_var k m

unfoldable pub put_var : Text → Text → Vars → Vars
put_var k v [] = (k, v) ∷ []
put_var k v ((j, w) ∷ m) = if same j k then (j, v) ∷ m else (j, w) ∷ put_var k v m

-- A plain object does not store a text under `__proto__`.
abbrev pub proto : Text
proto = text "__proto__"

unfoldable pub put_parsed : Option (Text × Text) → Vars → Vars
unfolding put_var
put_parsed none m = m
put_parsed (some (k, v)) m = if same k proto then m else put_var k v m

unfoldable pub parse_lines : List Text → Vars → Vars
unfolding parse_line put_parsed
parse_lines [] out = out
parse_lines (l ∷ ls) out = parse_lines ls (put_parsed (parse_line l) out)

unfoldable pub parse_env_file : Text → Vars
unfolding parse_lines split
parse_env_file content = parse_lines (split newline content) []

-- What `loadEnvFile` reports of a file.
pub record EnvLoadResult : Type 0 where
  pub loaded : List Text
  pub skipped_already_set : List Text

-- The loop over the parsed variables.
unfoldable pub fill : Vars → Vars → Vars × EnvLoadResult
unfolding get_var put_var
fill [] env = (env, record { loaded = []; skipped_already_set = [] })
fill ((k, v) ∷ parsed) env = elim (get_var k env) [
  | some w ↦
      let (e, r) = fill parsed env in
      (e, record r { skipped_already_set = k ∷ r.skipped_already_set })
  | none ↦ let (e, r) = fill parsed (put_var k v env) in (e, record r { loaded = k ∷ r.loaded })
]

-- The loop over the candidate paths: `read` gives the content of a file that exists and can be
-- read.
unfoldable pub load_first :
    (Text → Option Text) → List Text → Vars → Vars × Option (Text × EnvLoadResult)
unfolding fill parse_env_file
load_first read [] env = (env, none)
load_first read (path ∷ paths) env = elim (read path) [
  | none ↦ load_first read paths env
  | some content ↦ let (e, r) = fill (parse_env_file content) env in (e, some (path, r))
]
