-- ===== src/Core/Env/Tests.antt =====
-- Lines and files.
use cordyceps.Common.{◌≡◌, refl, Option, none, some, [], ◌∷◌, ◌++◌}
use cordyceps.Common.Text.{Text, text, newline, split}
use cordyceps.Core.Env.{Vars, get_var, parse_line, parse_env_file, load_first, fill}
use cordyceps.Core.Env.Lines.{last_value, parse_env_file_lem, load_first-append}

exported : parse_line (text "export A_1=two # c") ≡ some (text "A_1", text "two")
unfolding parse_line
exported = refl

quoted : parse_line (text "B='x # y' z") ≡ some (text "B", text "x # y")
unfolding parse_line
quoted = refl

-- A comment that begins the value is kept.
kept_comment : parse_line (text "C= # c") ≡ some (text "C", text "# c")
unfolding parse_line
kept_comment = refl

abbrev file : Text
file = text "A=1" ++ newline ∷ text "B=2" ++ newline ∷ text "A=3"

abbrev shell : Vars
shell = (text "B", text "0") ∷ []

-- Only the path of one code unit exists.
abbrev read : Text → Option Text
read (c ∷ []) = some file
read _ = none

parse_env_file_lem_example :
    get_var (text "A") (parse_env_file file) ≡ last_value (text "A") (split newline file) none
parse_env_file_lem_example = parse_env_file_lem (text "A") file refl

load_first-append_example :
    load_first read (text "xx" ∷ text "y" ∷ text "z" ∷ []) shell
    ≡ ((fill (parse_env_file file) shell).0, some (text "y", (fill (parse_env_file file) shell).1))
load_first-append_example =
    load_first-append read (text "xx" ∷ []) (text "z" ∷ []) (text "y") file shell (refl, tt) refl

-- What a plain object does with the key `__proto__`.
no_proto : parse_env_file (text "__proto__=1") ≡ []
unfolding parse_env_file
no_proto = refl
