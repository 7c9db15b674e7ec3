-- ===== src/Agents/Http/Stream.antt =====
-- What `performRequest` asks for and what it feeds of the response. The loop over the lines of the
-- buffer is that of a JSON-lines process; a body that is not streamed is fed at the end, as the output
-- of a JSON process.
use cordyceps.Common.{
  ◌==◌, if◌then◌else◌, ℕ, ◌≡◌, refl, ap, Bool, true, false, not, ◌||◌, Option, none, some, List, [],
  ◌∷◌, ◌++◌, arith,
}
use cordyceps.Common.Text.{Text, text, starts_with}
use cordyceps.Agents.Output.{json, jsonl, Emission, feed, output}

abbrev pub slash : ℕ
slash = 47

-- `baseUrl.replace(/\/$/, "")`
unfoldable pub drop_slash : Text → Text
drop_slash [] = []
drop_slash (c ∷ []) = if c == slash then [] else c ∷ []
drop_slash (c ∷ d ∷ s) = c ∷ drop_slash (d ∷ s)

unfoldable pub request_url : Text → Text → Text
unfolding drop_slash
request_url base path =
    drop_slash base ++ (if starts_with path (slash ∷ []) then path else slash ∷ path)

-- `includes` of a text
unfoldable pub has_text : Text → Text → Bool
has_text part [] = starts_with [] part
has_text part (c ∷ s) = starts_with (c ∷ s) part || has_text part s

-- The response of `fetch`; `body` holds the decoded chunks.
pub record Response : Type 0 where
  pub ok : Bool
  pub content_type : Text
  pub body : Option (List Text)

unfoldable pub is_streamed : Text → Bool
unfolding has_text
is_streamed t = has_text (text "x-ndjson") t || has_text (text "stream") t

-- The feeds of a response that comes in whole; `none` is the error of a bad status.
unfoldable pub read_response : Response → Option (List Emission)
unfolding is_streamed
read_response r =
    if r.ok
    then elim r.body [
      | none ↦ some (feed [] ∷ [])
      | some chunks ↦ some (output (if is_streamed r.content_type then jsonl else json) chunks)
    ]
    else none

-- A text that does not end in a slash.
abbrev pub ends_plain : Text → Bool
ends_plain [] = true
ends_plain (c ∷ []) = not (c == slash)
ends_plain (c ∷ d ∷ s) = ends_plain (d ∷ s)

drop_slash_plain : (s : Text) → ends_plain s ≡ true → drop_slash s ≡ s
unfolding drop_slash
drop_slash_plain [] h = refl
drop_slash_plain (c ∷ []) h = ground (arith, h)
drop_slash_plain (c ∷ d ∷ s) h = ap (λ t. c ∷ t) (drop_slash_plain (d ∷ s) h)

drop_slash-append : (s : Text) → drop_slash (s ++ slash ∷ []) ≡ s
unfolding drop_slash
drop_slash-append [] = refl
drop_slash-append (c ∷ []) = refl
drop_slash-append (c ∷ d ∷ s) = ap (λ t. c ∷ t) (drop_slash-append (d ∷ s))

-- The request goes to the base and the path with one slash between them, whether the base ends in
-- one, or the path begins with one, or both, or neither, for a base that has no second slash at its
-- end and a path that has no second one in front.
pub request_url-slash :
    (base path : Text)
    → ends_plain base ≡ true
    → starts_with path (slash ∷ []) ≡ false
    → (request_url base path ≡ base ++ slash ∷ path)
      × (request_url (base ++ slash ∷ []) path ≡ base ++ slash ∷ path)
      × (request_url base (slash ∷ path) ≡ base ++ slash ∷ path)
      × (request_url (base ++ slash ∷ []) (slash ∷ path) ≡ base ++ slash ∷ path)
unfolding request_url
request_url-slash base path h p = (
  rw (drop_slash_plain base h, p) refl,
  rw (drop_slash-append base, p) refl,
  rw (drop_slash_plain base h) refl,
  rw (drop_slash-append base) refl,
)
