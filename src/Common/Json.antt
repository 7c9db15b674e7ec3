-- ===== src/Common/Json.antt =====
-- JSON values as `JSON.parse` gives them, and the reads that JavaScript code makes of them. A
-- missing field is `undefined`, here `none`. Numbers are natural numbers: the code reads counts.
use Prim.Native.Nat.{ℕ}
use Prim.Native.String.{String}
use mathlib.Core.Bool.{Bool, true, false, not}
use mathlib.Core.Option.{Option, none, some}
use package.text.Mathlib.Text.{◌==◌ as str_eq}
use cordyceps.Common.Tests.{◌==◌, if◌then◌else◌}
use cordyceps.Common.Text.{Text, same, is_nil, text}

mutual
  pub data Json : Type 0 where
    null : Json
    bool : Bool → Json
    num : ℕ → Json
    str : Text → Json
    arr : Items → Json
    obj : Fields → Json

  pub data Items : Type 0 where
    nil : Items
    cons : Json → Items → Items

  pub data Fields : Type 0 where
    end : Fields
    field : String → Json → Fields → Fields

-- The first field of a name (`JSON.parse` keeps one field of each name).
abbrev pub find_field : String → Fields → Option Json
find_field k end = none
find_field k (field j v fs) = if str_eq j k then some v else find_field k fs

-- `v.k` for a `v` that is not `null`
abbrev pub prop : String → Json → Option Json
prop k (obj fs) = find_field k fs
prop k _ = none

-- `v?.k`
abbrev pub prop? : String → Option Json → Option Json
prop? k none = none
prop? k (some v) = prop k v

abbrev pub is_null : Json → Bool
is_null null = true
is_null _ = false

-- `if (v)`
abbrev pub truthy : Option Json → Bool
truthy none = false
truthy (some null) = false
truthy (some (bool b)) = b
truthy (some (num n)) = not (n == 0)
truthy (some (str s)) = not (is_nil s)
truthy (some (arr xs)) = true
truthy (some (obj fs)) = true

-- `v === "s"`
abbrev pub is_text : String → Option Json → Bool
is_text s (some (str t)) = same t (text s)
is_text s _ = false

-- `typeof v === "string"`, with the text
abbrev pub text_of : Option Json → Option Text
text_of (some (str t)) = some t
text_of _ = none

-- `v === true`, `v === false`
abbrev pub is_bool : Bool → Option Json → Bool
is_bool b (some (bool true)) = b
is_bool b (some (bool false)) = not b
is_bool b _ = false

-- `v ?? 0` for a count; a value that is no number counts nothing.
abbrev pub count_of : Option Json → ℕ
count_of (some (num n)) = n
count_of _ = 0

-- `v ?? d`
abbrev pub or_else : Option Json → Json → Json
or_else none d = d
or_else (some null) d = d
or_else (some v) d = v
