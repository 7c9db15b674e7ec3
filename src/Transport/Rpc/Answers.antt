-- ===== src/Transport/Rpc/Answers.antt =====
-- Every request is answered once, with its own id, and methods are independent of each other.
use cordyceps.Common.{
  Bool-cases, Option-cases, ℕ, ◌≡◌, refl, sym, ap, ◌∙◌, ◌⊎◌, inl, inr, true, false, Option, none,
  some, arith,
}
use cordyceps.Common.Map.{Map}
use cordyceps.Common.Text.{text}
use cordyceps.Common.Json.{Json, null, num, str, arr, obj, bool, prop}
use cordyceps.Transport.Types.{
  Response, error, invalid_request, is_request, is_notification, response_id,
}
use cordyceps.Transport.Rpc.{
  Outcome, returns, method_error, throws, Handler, find_method, respond, method_text, request_id,
  call, dispatch,
}

pub is_request-or_notification : (raw : Json) → is_request raw ≡ true → is_notification raw ≡ false
unfolding is_request is_notification
is_request-or_notification raw h = elim (Option-cases (prop "id" raw)) [
  | inl e ↦ ground (arith, h, e)
  | inr (i, e) ↦ ground (arith, e)
]

request_id-prop : (raw : Json) → is_request raw ≡ true → prop "id" raw ≡ some (request_id raw)
unfolding is_request
request_id-prop raw h = elim (Option-cases (prop "id" raw)) [
  | inl e ↦ ground (arith, h, e)
  | inr (null, e) ↦ ground (arith, h, e)
  | inr (bool b, e) ↦ ground (arith, h, e)
  | inr (num n, e) ↦ rw e refl
  | inr (str t, e) ↦ rw e refl
  | inr (arr xs, e) ↦ ground (arith, h, e)
  | inr (obj fs, e) ↦ ground (arith, h, e)
]

respond-id : (o : Outcome) (i : Json) → response_id (respond o i) ≡ i
unfolding respond
respond-id (returns r) i = refl
respond-id (method_error c m d) i = refl
respond-id (throws m) i = refl

module _ {W : Type 0} where
  call-id :
      (h : Option (Handler W)) (raw : Json) (c : ℕ) (w : W)
      → (r : Response) × ((call h raw c w).1 ≡ some r) × (response_id r ≡ request_id raw)
  unfolding call
  call-id none raw c w = (_, refl, refl)
  call-id (some h) raw c w = (_, refl, respond-id ((h (prop "params" raw) c w).1) (request_id raw))

  pub dispatch-request :
      (methods : Map (Handler W)) (c : ℕ) (raw : Json) (w : W)
      → is_request raw ≡ true
      → dispatch methods c raw w ≡ call (find_method (method_text raw) methods) raw c w
  unfolding dispatch
  dispatch-request methods c raw w h = rw (is_request-or_notification raw h, h) refl

  -- A message is a notification, and then nothing is answered and no handler runs; or a request,
  -- and then there is exactly one answer, which carries the request's id; or neither, and then the
  -- answer is the error "Invalid Request" without an id, and no handler runs.
  pub dispatch_answers :
      (methods : Map (Handler W)) (c : ℕ) (raw : Json) (w : W)
      → ((is_notification raw ≡ true) × (dispatch methods c raw w ≡ (w, none)))
        ⊎ (((is_request raw ≡ true)
              × ((r : Response) × ((dispatch methods c raw w).1 ≡ some r)
                  × (prop "id" raw ≡ some (response_id r))))
            ⊎ ((is_notification raw ≡ false)
                × (is_request raw ≡ false)
                × (dispatch methods c raw w
                    ≡ (w, some (error invalid_request (text "Invalid Request") none null)))))
  unfolding dispatch
  dispatch_answers methods c raw w = elim (Bool-cases (is_notification raw)) [
    | inl e ↦ inl (e, rw e refl)
    | inr e ↦ elim (Bool-cases (is_request raw)) [
      | inl f ↦
          let (r, a, b) = call-id (find_method (method_text raw) methods) raw c w in
          inr (inl (f, (r, rw (e, f) a, request_id-prop raw f ∙ ap some (sym b))))
      | inr f ↦ inr (inr (e, f, rw (e, f) refl))
    ]
  ]
