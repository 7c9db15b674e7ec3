-- ===== src/Drivers/Parsers/Step.antt =====
-- What the three parsers share.
use cordyceps.Common.{
  if◌then◌else◌, Bool-cases, String, ◌≡◌, refl, sym, ap, ◌∙◌, ◌≢◌, inl, inr, true, false, Option,
  none, some, List, [], ◌∷◌, ◌++◌, append_assoc, arith, map,
}
use cordyceps.Common.Text.{Text, text, same, is_nil, trim}
use cordyceps.Common.Json.{Json, null, bool, num, arr, obj, str, field, end, is_text, is_null}
use cordyceps.Agents.Types.{AgentState, starting, AssistantMessage, ParserEvent, ParseResult}

-- A call of `feed`: its result and the scratch that it leaves, or the TypeError of a read from
-- `null`, which nothing in `feed` catches.
pub data Fed (S : Type 0) : Type 0 where
  fed : ParseResult → S → Fed S
  throws : Fed S

-- `{ state, events, messages }` with nothing found
abbrev pub quiet : AgentState → ParseResult
quiet s = record { state = s; changed = false; events = []; messages = [] }

-- `{ text }`
abbrev pub text_object : Text → Json
text_object t = obj (field "text" (str t) end)

abbrev pub event : String → Json → ParserEvent
event k d = record { kind = k; payload = d }

-- `initialState()` up to the driver's own mode
abbrev pub initial_state : String → AgentState
initial_state mode = record {
  status = starting;
  model = str [];
  mode = "default";
  last_message = none;
  tokens = 0;
  extra = ("mode", str (text mode)) ∷ [];
}

-- What a sequence of calls of `feed` leaves, as a controller makes them: the messages in order.
pub data Ran (S : Type 0) : Type 0 where
  ran : AgentState → S → List AssistantMessage → Ran S
  threw : Ran S

abbrev pub more : {S : Type 0} → List AssistantMessage → Ran S → Ran S
more ms threw = threw
more ms (ran s scratch ns) = ran s scratch (ms ++ ns)

unfoldable pub run : {C S : Type 0} → (C → AgentState → S → Fed S) → List C → AgentState → S → Ran S
run feed [] s scratch = ran s scratch []
run feed (chunk ∷ chunks) s scratch = elim (feed chunk s scratch) [
  | throws ↦ threw
  | fed r after ↦ more r.messages (run feed chunks r.state after)
]

abbrev pub message_texts : List AssistantMessage → List Text
message_texts = map (λ m. m.text)

-- The value of a chunk: `none` if it is white space only, or if `JSON.parse` throws.
unfoldable pub decoded : (Text → Option Json) → Text → Option Json
decoded json_parse chunk = if is_nil (trim chunk) then none else json_parse (trim chunk)

-- The values that the function finds, in order.
abbrev pub found {ℓ} : {C : Type 0} {A : Type ℓ} → (C → Option A) → List C → List A
found f [] = []
found f (c ∷ cs) = elim (f c) [ none ↦ found f cs | some a ↦ a ∷ found f cs ]

-- A chunk with the time at which it comes.
pub record Timed : Type 0 where
  pub now : Text
  pub chunk : Text

abbrev pub last_or {ℓ} : {A : Type ℓ} → A → List A → A
last_or a [] = a
last_or a (b ∷ bs) = last_or b bs

same-eq : (s t : Text) → same s t ≡ true → s ≡ t
same-eq [] [] h = refl
same-eq [] (b ∷ t) h = cc
same-eq (a ∷ s) [] h = cc
same-eq (a ∷ s) (b ∷ t) h = ground (arith, same-eq s t)

-- A value is one text at most.
pub is_text_unique :
    (a b : String) (v : Option Json) → is_text a v ≡ true → is_text b v ≡ true → text a ≡ text b
is_text_unique a b (some (str t)) h k = sym (same-eq t (text a) h) ∙ same-eq t (text b) k
is_text_unique a b none h k = cc
is_text_unique a b (some null) h k = cc
is_text_unique a b (some (bool c)) h k = cc
is_text_unique a b (some (num n)) h k = cc
is_text_unique a b (some (arr xs)) h k = cc
is_text_unique a b (some (obj fs)) h k = cc

pub is_text_other :
    (a b : String) (v : Option Json) → is_text a v ≡ true → text a ≢ text b → is_text b v ≡ false
is_text_other a b v h ne = elim (Bool-cases (is_text b v)) [
  | inl e ↦ absurd (ne (is_text_unique a b v h e))
  | inr e ↦ e
]

abbrev pub to_list {ℓ} : {A : Type ℓ} → Option A → List A
to_list none = []
to_list (some a) = a ∷ []

-- What the function finds in the value of a chunk.
abbrev pub of_chunk {ℓ} : {A : Type ℓ} → (Json → Option A) → (Text → Option Json) → Timed → Option A
of_chunk f json_parse c = elim (decoded json_parse c.chunk) [ none ↦ none | some ev ↦ f ev ]

pub found-cons {ℓ} :
    {C : Type 0} {A : Type ℓ} (f : C → Option A) (c : C) (cs : List C)
    → found f (c ∷ cs) ≡ to_list (f c) ++ found f cs
found-cons f c cs = ground arith

pub last_or-append {ℓ} :
    {A : Type ℓ} (a : A) (xs ys : List A) → last_or a (xs ++ ys) ≡ last_or (last_or a xs) ys
last_or-append a [] ys = refl
last_or-append a (x ∷ xs) ys = last_or-append x xs ys

-- A chunk is null where it decodes to `null`.
pub is_null-of_ne : (ev : Json) → some ev ≢ some null → is_null ev ≡ false
is_null-of_ne null h = absurd (h refl)
is_null-of_ne (bool b) h = refl
is_null-of_ne (num n) h = refl
is_null-of_ne (str s) h = refl
is_null-of_ne (arr xs) h = refl
is_null-of_ne (obj fs) h = refl

pub is_null-eq : (ev : Json) → is_null ev ≡ true → ev ≡ null
is_null-eq null h = refl
is_null-eq (bool b) h = cc
is_null-eq (num n) h = cc
is_null-eq (str s) h = cc
is_null-eq (arr xs) h = cc
is_null-eq (obj fs) h = cc

pub run-cons :
    {C S : Type 0} (feed : C → AgentState → S → Fed S) (c : C) (cs : List C) (s t : AgentState)
    (before between after : S) (r : ParseResult) (ns : List AssistantMessage)
    → feed c s before ≡ fed r between
    → run feed cs r.state between ≡ ran t after ns
    → run feed (c ∷ cs) s before ≡ ran t after (r.messages ++ ns)
unfolding run
run-cons feed c cs s t before between after r ns e f = ground (arith, e, f)

pub run-cons-threw :
    {C S : Type 0} (feed : C → AgentState → S → Fed S) (c : C) (cs : List C) (s : AgentState)
    (before : S)
    → feed c s before ≡ throws
    → run feed (c ∷ cs) s before ≡ threw
unfolding run
run-cons-threw feed c cs s before e = ground (arith, e)

abbrev pub concat : List Text → Text
concat [] = []
concat (t ∷ ts) = t ++ concat ts

pub concat-append : (ss ts : List Text) → concat (ss ++ ts) ≡ concat ss ++ concat ts
concat-append [] ts = refl
concat-append (s ∷ ss) ts =
    ap (λ t. s ++ t) (concat-append ss ts) ∙ sym (append_assoc s (concat ss) (concat ts))

abbrev pub fed_of : {S : Type 0} → ParseResult × S → Fed S
fed_of (r, scratch) = fed r scratch

pub of_chunk-none {ℓ} :
    {A : Type ℓ} (f : Json → Option A) (json_parse : Text → Option Json) (c : Timed)
    → decoded json_parse c.chunk ≡ none
    → of_chunk f json_parse c ≡ none
of_chunk-none f json_parse c e = ground (arith, e)

pub of_chunk-some {ℓ} :
    {A : Type ℓ} (f : Json → Option A) (json_parse : Text → Option Json) (c : Timed) (ev : Json)
    → decoded json_parse c.chunk ≡ some ev
    → of_chunk f json_parse c ≡ f ev
of_chunk-some f json_parse c ev e = ground (arith, e)

-- Two steps that account for all text, `before` and what they take in against what they emit and
-- `after`, do so together.
pub accounts_trans :
    (a b c : Text) (ms ns got more : List Text)
    → concat ms ++ b ≡ a ++ concat got
    → concat ns ++ c ≡ b ++ concat more
    → concat (ms ++ ns) ++ c ≡ a ++ concat (got ++ more)
accounts_trans a b c ms ns got more k l =
    ap (λ t. t ++ c) (concat-append ms ns)
    ∙ append_assoc (concat ms) (concat ns) c
    ∙ ap (λ t. concat ms ++ t) l
    ∙ sym (append_assoc (concat ms) b (concat more))
    ∙ ap (λ t. t ++ concat more) k
    ∙ append_assoc a (concat got) (concat more)
    ∙ ap (λ t. a ++ t) (sym (concat-append got more))
