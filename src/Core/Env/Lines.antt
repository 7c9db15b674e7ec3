-- ===== src/Core/Env/Lines.antt =====
-- What a file adds to the environment.
use cordyceps.Common.{
  if◌then◌else◌, Bool-cases, Option-cases, All, ◌≡◌, refl, sym, ap, ◌∙◌, ◌↔◌, inl, inr, true, false,
  Option, none, some, List, [], ◌∷◌, ◌++◌, arith,
}
use cordyceps.Common.Text.{Text, newline, same, split}
use cordyceps.Core.Env.{
  Vars, proto, put_parsed, get_var, put_var, parse_line, parse_lines, parse_env_file, fill,
  load_first,
}

same_refl : (s : Text) → same s s ≡ true
same_refl [] = refl
same_refl (c ∷ s) = ground (arith, same_refl s)

same-eq : (s t : Text) → same s t ≡ true → s ≡ t
same-eq [] [] h = refl
same-eq [] (b ∷ t) h = absurd (ground (arith, h))
same-eq (a ∷ s) [] h = absurd (ground (arith, h))
same-eq (a ∷ s) (b ∷ t) h = ground (arith, same-eq s t)

same_iff : (s t : Text) → (same s t ≡ true) ↔ (s ≡ t)
same_iff s t = (same-eq s t, λ e. ap (same s) (sym e) ∙ same_refl s)

get_var-put_var :
    (k j v : Text) (m : Vars)
    → get_var j (put_var k v m) ≡ (if same k j then some v else get_var j m)
unfolding get_var put_var
get_var-put_var k j v [] = refl
get_var-put_var k j v ((i, w) ∷ m) =
    ground (arith, same_iff k j, same_iff i k, same_iff i j, get_var-put_var k j v m)

-- The value of a key in a list of lines: that of the last line that sets the key.
abbrev pub last_value : Text → List Text → Option Text → Option Text
last_value k [] o = o
last_value k (l ∷ ls) o =
    last_value k ls
      (elim (parse_line l) [ none ↦ o | some (j, v) ↦ if same j k then some v else o ])

get_var-put_parsed :
    (j k v : Text) (m : Vars)
    → same k proto ≡ false
    → get_var k (put_parsed (some (j, v)) m) ≡ (if same j k then some v else get_var k m)
unfolding put_parsed
get_var-put_parsed j k v m h = elim (Bool-cases (same j proto)) [
  | inl e ↦ elim (Bool-cases (same j k)) [
    | inl q ↦
        let here : same j proto ≡ false = ap (λ i. same i proto) (same-eq j k q) ∙ h in
        absurd (ground (arith, e, here))
    | inr q ↦ rw (e, q) refl
  ]
  | inr e ↦ rw e (get_var-put_var j k v m)
]

parse_lines_lem :
    (k : Text) (ls : List Text) (out : Vars)
    → same k proto ≡ false
    → get_var k (parse_lines ls out) ≡ last_value k ls (get_var k out)
unfolding parse_lines put_parsed
parse_lines_lem k [] out h = refl
parse_lines_lem k (l ∷ ls) out h = elim (Option-cases (parse_line l)) [
  | inl e ↦ rw e (parse_lines_lem k ls out h)
  | inr ((j, v), e) ↦ rw e (
      parse_lines_lem k ls (put_parsed (some (j, v)) out) h
      ∙ ap (last_value k ls) (get_var-put_parsed j k v out h))
]

-- A parsed file gives each key but `__proto__` the value of the last line that sets it, and no other key
-- a value.
pub parse_env_file_lem :
    (k content : Text)
    → same k proto ≡ false
    → get_var k (parse_env_file content) ≡ last_value k (split newline content) none
unfolding parse_env_file get_var
parse_env_file_lem k content h = parse_lines_lem k (split newline content) [] h

-- The second, where there is no first.
abbrev pub first_of : Option Text → Option Text → Option Text
first_of none o = o
first_of (some v) o = some v

first_of-none : (o : Option Text) → first_of o none ≡ o
first_of-none none = refl
first_of-none (some v) = refl

fill-some :
    (k v w : Text) (parsed env : Vars)
    → get_var k env ≡ some w
    → fill ((k, v) ∷ parsed) env ≡ (
      (fill parsed env).0,
      record ((fill parsed env).1) {
        skipped_already_set = k ∷ (fill parsed env).1.skipped_already_set;
      },
    )
unfolding fill
fill-some k v w parsed env e = ground (arith, e)

fill-none :
    (k v : Text) (parsed env : Vars)
    → get_var k env ≡ none
    → fill ((k, v) ∷ parsed) env ≡ (
      (fill parsed (put_var k v env)).0,
      record ((fill parsed (put_var k v env)).1) {
        loaded = k ∷ (fill parsed (put_var k v env)).1.loaded;
      },
    )
unfolding fill
fill-none k v parsed env e = ground (arith, e)

-- After a file is loaded a key has the value it had in the environment before; a key that had none
-- has the one of the file, if the file sets it.
pub fill_lem :
    (k : Text) (parsed env : Vars)
    → get_var k (fill parsed env).0 ≡ first_of (get_var k env) (get_var k parsed)
unfolding get_var fill
fill_lem k [] env = sym (first_of-none (get_var k env))
fill_lem k ((j, v) ∷ parsed) env = elim (Option-cases (get_var j env)) [
  | inl e ↦
      rw
        (fill-none j v parsed env e, fill_lem k parsed (put_var j v env), get_var-put_var j k v env)
        (elim (Bool-cases (same j k)) [
          | inl q ↦ rw (q, ap (λ x. get_var x env) (sym (same-eq j k q)) ∙ e) refl
          | inr q ↦ rw q refl
        ])
  | inr (w, e) ↦
      rw (fill-some j v w parsed env e, fill_lem k parsed env)
        (elim (Bool-cases (same j k)) [
          | inl q ↦ rw (q, ap (λ x. get_var x env) (sym (same-eq j k q)) ∙ e) refl
          | inr q ↦ rw q refl
        ])
]

-- Only the first path that can be read counts: whatever the paths behind it hold, the environment
-- and the report are those of that file alone.
pub load_first-append :
    (read : Text → Option Text) (missing more : List Text) (path content : Text) (env : Vars)
    → All (λ p. read p ≡ none) missing
    → read path ≡ some content
    → load_first read (missing ++ path ∷ more) env
      ≡ ((fill (parse_env_file content) env).0, some (path, (fill (parse_env_file content) env).1))
unfolding load_first
load_first-append read [] more path content env h e = ground (arith, e)
load_first-append read (p ∷ missing) more path content env h e =
    ground (arith, h.0, load_first-append read missing more path content env h.1 e)
