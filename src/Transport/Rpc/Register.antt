-- ===== src/Transport/Rpc/Register.antt =====
-- Methods come and go without an effect on the others.
use Prim.Native.Char.{code}
use package.text.Mathlib.TextEquality.{Char-path}
use mathlib.Core.Path.{ap₂}
use cordyceps.Common.{
  if◌then◌else◌, ==_iff, Bool-cases, str_eq_refl, ℕ, String, ◌≡◌, refl, sym, ap, ◌∙◌, ◌⊎◌, inl, inr,
  true, false, none, some, [], ◌∷◌, ◌++◌, arith, str_eq, eq_iff,
}
use cordyceps.Common.Map.{Map, get, put, delete, has}
use cordyceps.Common.Text.{Text, text, same}
use cordyceps.Common.Json.{Json}
use cordyceps.Transport.Types.{error, method_not_found, is_request}
use cordyceps.Transport.Rpc.{
  Handler, register, unregister, find_method, method_text, request_id, call, dispatch,
}
use cordyceps.Transport.Rpc.Answers.{dispatch-request}

text-injective : (s t : String) → same (text s) (text t) ≡ true → s ≡ t
text-injective String.[] String.[] h = refl
text-injective String.[] (String.◌∷◌ d t) h = absurd (ground (arith, h))
text-injective (String.◌∷◌ c s) String.[] h = absurd (ground (arith, h))
text-injective (String.◌∷◌ c s) (String.◌∷◌ d t) h =
    ap₂ String.◌∷◌ (Char-path c d ((==_iff (code c) (code d)).0 (ground (arith, h))))
      (text-injective s t (ground (arith, h)))

same-eq : (s t : Text) → same s t ≡ true → s ≡ t
same-eq [] [] h = refl
same-eq [] (b ∷ t) h = absurd (ground (arith, h))
same-eq (a ∷ s) [] h = absurd (ground (arith, h))
same-eq (a ∷ s) (b ∷ t) h = ground (arith, same-eq s t)

same_name : (t : Text) (a b : String) → same t (text a) ≡ true → same t (text b) ≡ true → a ≡ b
same_name t a b h k =
    text-injective a b (ap (λ u. same u (text b)) (sym (same-eq t (text a) h)) ∙ k)

module _ {W : Type 0} where
  find_method-put :
      (t : Text) (name : String) (h : Handler W) (ms : Map (Handler W))
      → has name ms ≡ false
      → find_method t (put name h ms) ≡ (if same t (text name) then some h else find_method t ms)
  unfolding find_method put has get
  find_method-put t name h [] e = refl
  find_method-put t name h ((j, g) ∷ ms) e = elim (Bool-cases (str_eq j name)) [
    | inl f ↦ absurd (ground (arith, e, f))
    | inr f ↦ elim (Bool-cases (same t (text j))) [
      | inl a ↦ elim (Bool-cases (same t (text name))) [
        | inl b ↦ absurd (ground (arith, f, (eq_iff j name).1 (same_name t j name a b)))
        | inr b ↦ rw (f, a, b) refl
      ]
      | inr a ↦ rw (f, a) (find_method-put t name h ms (ground (arith, e, f)))
    ]
  ]

  find_method-delete :
      (t : Text) (name : String) (ms : Map (Handler W))
      → find_method t (delete name ms) ≡ (if same t (text name) then none else find_method t ms)
  unfolding find_method delete
  find_method-delete t name [] = ground arith
  find_method-delete t name ((j, g) ∷ ms) = elim (Bool-cases (str_eq j name)) [
    | inl f ↦
        rw ((eq_iff j name).0 f, str_eq_refl name) (ground (arith, find_method-delete t name ms))
    | inr f ↦ elim (Bool-cases (same t (text j))) [
      | inl a ↦ elim (Bool-cases (same t (text name))) [
        | inl b ↦ absurd (ground (arith, f, (eq_iff j name).1 (same_name t j name a b)))
        | inr b ↦ rw (f, a, b) refl
      ]
      | inr a ↦ rw (f, a) (find_method-delete t name ms)
    ]
  ]

  -- Registration succeeds exactly for a name that is free, and then a request for the name is
  -- served by the new handler and every other request as before.
  pub dispatch-register :
      (name : String) (h : Handler W) (ms : Map (Handler W)) (c : ℕ) (raw : Json) (w : W)
      → is_request raw ≡ true
      → ((has name ms ≡ true) × (register name h ms ≡ none))
        ⊎ ((has name ms ≡ false)
            × ((after : Map (Handler W)) × (register name h ms ≡ some after)
                × (dispatch after c raw w ≡ (
                    if same (method_text raw) (text name)
                    then call (some h) raw c w
                    else dispatch ms c raw w))))
  unfolding register
  dispatch-register name h ms c raw w q = elim (Bool-cases (has name ms)) [
    | inl e ↦ inl (e, rw e refl)
    | inr e ↦ inr (
      e,
      (
        put name h ms,
        rw e refl,
        dispatch-request (put name h ms) c raw w q
            ∙ ap (λ o. call o raw c w) (find_method-put (method_text raw) name h ms e)
            ∙ elim (Bool-cases (same (method_text raw) (text name))) [
              | inl b ↦ rw b refl
              | inr b ↦ rw b (sym (dispatch-request ms c raw w q))
            ],
      ),
    )
  ]

  -- After unregistering a method a request for it gets the error "Method not found" with the
  -- request's id and runs no handler; every other request is served as before.
  pub dispatch-unregister :
      (name : String) (ms : Map (Handler W)) (c : ℕ) (raw : Json) (w : W)
      → is_request raw ≡ true
      → dispatch (unregister name ms).0 c raw w ≡ (
          if same (method_text raw) (text name)
          then (
            w,
            some (
                error method_not_found
                  (text "Method not found: " ++ method_text raw)
                  none
                  (request_id raw)),
          )
          else dispatch ms c raw w)
  unfolding unregister call
  dispatch-unregister name ms c raw w q =
      dispatch-request (delete name ms) c raw w q
      ∙ ap (λ o. call o raw c w) (find_method-delete (method_text raw) name ms)
      ∙ elim (Bool-cases (same (method_text raw) (text name))) [
        | inl b ↦ rw b refl
        | inr b ↦ rw b (sym (dispatch-request ms c raw w q))
      ]
