-- ===== src/Transport/Rpc/Tests.antt =====
-- Requests at a table with one method.
use cordyceps.Common.{
  if◌then◌else◌, ℕ, ◌+◌, String, ◌≡◌, refl, ◌⊎◌, true, false, none, some, [], ◌∷◌,
}
use cordyceps.Common.Map.{Map, has}
use cordyceps.Common.Text.{text, same}
use cordyceps.Common.Json.{Json, null, num, str, obj, end, field, prop}
use cordyceps.Transport.Types.{
  Response, success, error, invalid_request, method_not_found, is_request, is_notification,
  response_id,
}
use cordyceps.Transport.Rpc.{
  returns, throws, Handler, register, unregister, find_method, respond, method_text, call, dispatch,
}
use cordyceps.Transport.Rpc.Answers.{dispatch_answers}
use cordyceps.Transport.Rpc.Register.{dispatch-register, dispatch-unregister}

-- Counts its calls.
abbrev tick : Handler ℕ
tick params client w = (w + 1, returns (some (num w)))

abbrev fail : Handler ℕ
fail params client w = (w, throws (text "no"))

abbrev methods : Map (Handler ℕ)
methods = ("tick", tick) ∷ []

abbrev request : String → Json
request m =
    obj
      (field "jsonrpc" (str (text "2.0")) (field "method" (str (text m)) (field "id" (num 7) end)))

tick_answer : dispatch methods 1 (request "tick") 3 ≡ (4, some (success (num 3) (num 7)))
unfolding dispatch is_notification is_request find_method call respond
tick_answer = refl

dispatch_answers_example :
    ((is_notification (request "tick") ≡ true)
      × (dispatch methods 1 (request "tick") 3 ≡ (3, none)))
    ⊎ (((is_request (request "tick") ≡ true)
          × ((r : Response) × ((dispatch methods 1 (request "tick") 3).1 ≡ some r)
              × (prop "id" (request "tick") ≡ some (response_id r))))
        ⊎ ((is_notification (request "tick") ≡ false)
            × (is_request (request "tick") ≡ false)
            × (dispatch methods 1 (request "tick") 3
                ≡ (3, some (error invalid_request (text "Invalid Request") none null)))))
dispatch_answers_example = dispatch_answers methods 1 (request "tick") 3

dispatch-register_example :
    ((has "fail" methods ≡ true) × (register "fail" fail methods ≡ none))
    ⊎ ((has "fail" methods ≡ false)
        × ((after : Map (Handler ℕ)) × (register "fail" fail methods ≡ some after)
            × (dispatch after 1 (request "fail") 3 ≡ (
                if same (method_text (request "fail")) (text "fail")
                then call (some fail) (request "fail") 1 3
                else dispatch methods 1 (request "fail") 3))))
unfolding is_request
dispatch-register_example = dispatch-register "fail" fail methods 1 (request "fail") 3 refl

dispatch-unregister_example :
    dispatch (unregister "tick" methods).0 1 (request "tick") 3
    ≡ (3, some (error method_not_found (text "Method not found: tick") none (num 7)))
unfolding is_request
dispatch-unregister_example = dispatch-unregister "tick" methods 1 (request "tick") 3 refl
