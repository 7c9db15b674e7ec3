-- ===== src/Transport/Types.antt =====
-- The JSON-RPC messages and error codes of src/transport/types.ts.
use cordyceps.Common.{Bool, true, false, ◌&&◌, Option, none, some}
use cordyceps.Common.Int.{ℤ, minus}
use cordyceps.Common.Text.{Text}
use cordyceps.Common.Json.{Json, num, str, arr, obj, prop, is_text}

-- Error codes are negative.
abbrev pub parse_error : ℤ
parse_error = minus 32700

abbrev pub invalid_request : ℤ
invalid_request = minus 32600

abbrev pub method_not_found : ℤ
method_not_found = minus 32601

abbrev pub invalid_params : ℤ
invalid_params = minus 32602

abbrev pub internal_error : ℤ
internal_error = minus 32603

-- `id` is `null` where the request could not be read.
pub data Response : Type 0 where
  success : (result : Json) → (id : Json) → Response
  error : (code : ℤ) → (message : Text) → (info : Option Json) → (id : Json) → Response

abbrev pub response_id : Response → Json
response_id (success r i) = i
response_id (error c m d i) = i

abbrev is_string : Option Json → Bool
is_string (some (str t)) = true
is_string _ = false

abbrev is_id : Option Json → Bool
is_id (some (num n)) = true
is_id (some (str t)) = true
is_id _ = false

abbrev is_undefined : Option Json → Bool
is_undefined none = true
is_undefined (some v) = false

-- `typeof msg === "object"` and not `null`.
abbrev pub is_object : Json → Bool
is_object (arr xs) = true
is_object (obj fs) = true
is_object _ = false

unfoldable pub is_request : Json → Bool
is_request m =
    is_object m
    && is_text "2.0" (prop "jsonrpc" m)
    && is_string (prop "method" m)
    && is_id (prop "id" m)

unfoldable pub is_notification : Json → Bool
is_notification m =
    is_object m
    && is_text "2.0" (prop "jsonrpc" m)
    && is_string (prop "method" m)
    && is_undefined (prop "id" m)
