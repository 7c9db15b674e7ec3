-- ===== src/Transport/Rpc.antt =====
-- The dispatcher of src/transport/rpc.ts and the socket's message handler of
-- src/transport/server.ts. A handler may change the state `W`; how a request names its method is
-- text, and the methods are kept under their names.
pub mod Answers
pub mod Register
mod Tests
use cordyceps.Common.{
  ltb, leb, ◌==◌, if◌then◌else◌, ltb→lt, lt→ltb, leb→le, ==_iff, Bool-cases, Option-cases,
  String-cases, str_eq_refl, str_eq-false, length, get_elem?, take, drop, keep, any, last?,
  length-append, take-append-drop, length-take, length-drop, All, All-append, All-map,
  drop-append_of_le, take-append_of_le, drop-length-append, take-length, append-ne-nil,
  slice-append_of_le, ℕ, zero, suc, ◌+◌, ◌-◌, ◌*◌, ◌/◌, ◌%◌, ◌≤◌, ◌<◌, min, max, String, ◌≡◌, refl,
  sym, ap, ◌∙◌, ◌≢◌, ◌↔◌, ◌⊎◌, inl, inr, Bool, true, false, not, ◌&&◌, ◌||◌, Option, none, some,
  List, [], ◌∷◌, ◌++◌, map-append, append-nil, append_assoc, arith, str_eq, eq_iff, map,
}
use cordyceps.Common.Map
use cordyceps.Common.Map.{Map}
use cordyceps.Common.Int.{ℤ}
use cordyceps.Common.Text.{Text, text, same}
use cordyceps.Common.Json.{Json, null, str, prop, or_else}
use cordyceps.Transport.Types.{
  Response, success, error, parse_error, invalid_request, method_not_found, internal_error,
  is_request, is_notification,
}
use cordyceps.Transport.Sessions.{Sessions, send_frame, response, update}

-- How a handler ends: `JsonRpcMethodError` carries its code, any other exception only its message.
pub data Outcome : Type 0 where
  returns : Option Json → Outcome
  method_error : (code : ℤ) → (message : Text) → (info : Option Json) → Outcome
  throws : Text → Outcome

-- The parameters, the client's id and the state.
abbrev pub Handler : Type 0 → Type 0
Handler W = Option Json → ℕ → W → W × Outcome

unfoldable pub respond : Outcome → Json → Response
respond (returns r) id = success (or_else r null) id
respond (method_error code message info) id = error code message info id
respond (throws message) id = error internal_error (text "Internal error") (some (str message)) id

abbrev pub method_text : Json → Text
method_text raw = elim (prop "method" raw) [ some (str t) ↦ t | _ ↦ [] ]

abbrev pub request_id : Json → Json
request_id raw = or_else (prop "id" raw) null

module _ {W : Type 0} where
  unfoldable pub register : String → Handler W → Map (Handler W) → Option (Map (Handler W))
  register name h methods = if Map.has name methods then none else some (Map.put name h methods)

  unfoldable pub unregister : String → Map (Handler W) → Map (Handler W) × Bool
  unregister name methods = (Map.delete name methods, Map.has name methods)

  -- `this.methods.get(req.method)` for a name that came as text.
  unfoldable pub find_method : Text → Map (Handler W) → Option (Handler W)
  find_method t [] = none
  find_method t ((name, h) ∷ methods) = if same t (text name) then some h else find_method t methods

  unfoldable pub call : Option (Handler W) → Json → ℕ → W → W × Option Response
  call none raw client w = (
    w,
    some (
        error method_not_found (text "Method not found: " ++ method_text raw) none
          (request_id raw)),
  )
  call (some h) raw client w =
      let (w', o) = h (prop "params" raw) client w in (w', some (respond o (request_id raw)))

  unfoldable pub dispatch : Map (Handler W) → ℕ → Json → W → W × Option Response
  dispatch methods client raw w =
      if is_notification raw
      then (w, none)
      else if is_request raw
      then call (find_method (method_text raw) methods) raw client w
      else (w, some (error invalid_request (text "Invalid Request") none null))

-- `session.send` to the client of an id.
pub reply : ℕ → Option Response → Sessions → Sessions
reply i none d = d
reply i (some r) d = record d { clients = update i (send_frame (response r)) d.clients }

-- A frame comes over the socket of a client. The state is the set of clients and all the rest.
pub on_message :
    {V : Type 0}
    → (Text → Option Json)
    → Map (Handler (Sessions × V))
    → ℕ
    → Text
    → Sessions × V
    → Sessions × V
on_message json_parse methods i raw w = elim (json_parse raw) [
  | none ↦ (reply i (some (error parse_error (text "Parse error") none null)) w.0, w.1)
  | some v ↦ let (w', r) = dispatch methods i v w in (reply i r w'.0, w'.1)
]
