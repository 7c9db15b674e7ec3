-- ===== src/Council/Reviewer.antt =====
-- `runOneReviewer` and `runChair` of src/plugins/builtin/council/index.ts with the choice of the mode,
-- over the agents of the daemon: `V` is its state and `A` an agent. `extract` is `extractFindings`.
pub mod Ends
mod Tests
use cordyceps.Common.{
  ltb, leb, ◌==◌, if◌then◌else◌, ltb→lt, lt→ltb, leb→le, ==_iff, Bool-cases, Option-cases,
  String-cases, str_eq_refl, str_eq-false, by_test, length, get_elem?, take, drop, keep, any, last?,
  length-append, take-append-drop, length-take, length-drop, All, All-append, All-map,
  drop-append_of_le, take-append_of_le, drop-length-append, take-length, append-ne-nil,
  slice-append_of_le, ℕ, zero, suc, ◌+◌, ◌-◌, ◌*◌, ◌/◌, ◌%◌, ◌≤◌, ◌<◌, min, max, String, ◌≡◌, refl,
  sym, ap, ◌∙◌, ◌≢◌, ◌↔◌, ◌⊎◌, inl, inr, Bool, true, false, not, ◌&&◌, ◌||◌, Option, none, some,
  List, [], ◌∷◌, ◌++◌, map-append, append-nil, append_assoc, arith, str_eq, eq_iff, map,
}
use cordyceps.Common.Text.{Text, text}

-- The fields of a profile that the council reads: `mode`, where it is not empty, and whether one of
-- `resume`, `continue`, `sessionId` and `isolateConfig` is there.
pub record Profile : Type 0 where
  pub mode : Option String
  pub resume : Bool
  pub continue : Bool
  pub session_id : Bool
  pub isolate_config : Bool
  pub model : Option Text

pub record ReviewerSpec : Type 0 where
  pub driver : String
  pub profile : Option Profile

unfoldable pub profile_has_claude_pty_only_field : Option Profile → Bool
profile_has_claude_pty_only_field none = false
profile_has_claude_pty_only_field (some p) =
    p.resume || p.continue || p.session_id || p.isolate_config

abbrev pub is_claude : String → Bool
is_claude d = str_eq d "claude" || str_eq d "claude-code"

unfoldable pub default_mode_for : String → String
default_mode_for d = if str_eq d "ollama" || str_eq d "ol" then "server-http" else "exec"

abbrev pub explicit_mode : Option Profile → Option String
explicit_mode none = none
explicit_mode (some p) = p.mode

unfoldable pub resolve_council_mode : ReviewerSpec → String
unfolding profile_has_claude_pty_only_field default_mode_for
resolve_council_mode s = elim (explicit_mode s.profile) [
  | some m ↦ m
  | none ↦
      if is_claude s.driver && profile_has_claude_pty_only_field s.profile
      then "pty"
      else default_mode_for s.driver
]

unfoldable pub driver_supports_tools : String → String → Bool
driver_supports_tools d mode =
    if str_eq mode "pty" && is_claude d
    then true
    else str_eq mode "exec" && (str_eq d "codex" || str_eq d "gemini" || is_claude d)

-- What the council calls of the manager and of an agent. `inl` is the message of what a call throws;
-- a spawn gives the id that the manager assigned and a submit the text of the message, if any. The
-- Boolean of `kill` and `remove` is whether they throw.
pub record Services (V A : Type 0) : Type 0 where
  pub spawn : Text → ReviewerSpec → String → V → V × (Text ⊎ Text)
  pub get : Text → V → Option A
  pub submit : A → Text → V → V × (Text ⊎ Option Text)
  pub kill : A → V → V × Bool
  pub remove : Text → V → V × Bool

-- Where a chunk lies that is one of several.
pub record ChunkMeta : Type 0 where
  pub index : ℕ
  pub lines : Option (ℕ × ℕ)

pub record ReviewerResult (F : Type 0) : Type 0 where
  pub name : Text
  pub driver : String
  pub chunk : Option ChunkMeta
  pub findings : Option F
  pub raw_text : Option Text
  pub error : Option Text

abbrev pub no_array : Text
no_array = text "reviewer output did not contain a parseable JSON findings array"

abbrev pub no_lookup : Text
no_lookup = text "spawn succeeded but agent lookup failed"

abbrev pub no_chair_lookup : Text
no_chair_lookup = text "chair spawn succeeded but lookup failed"

abbrev pub without_lines : Option ChunkMeta → Option ChunkMeta
without_lines none = none
without_lines (some m) = some (record m { lines = none })

abbrev pub text_or_empty : Option Text → Text
text_or_empty none = []
text_or_empty (some t) = t

module _ {F : Type 0} (name : Text) (spec : ReviewerSpec) (chunk : Option ChunkMeta) where
  -- The result of the `catch`.
  abbrev pub failed : Text → ReviewerResult F
  failed e = record {
    name = name;
    driver = spec.driver;
    chunk = without_lines chunk;
    findings = none;
    raw_text = none;
    error = some e;
  }

  abbrev pub found : Text → Option F → ReviewerResult F
  found raw none = record {
    name = name;
    driver = spec.driver;
    chunk = chunk;
    findings = none;
    raw_text = some raw;
    error = some no_array;
  }
  found raw (some f) = record {
    name = name;
    driver = spec.driver;
    chunk = chunk;
    findings = some f;
    raw_text = some raw;
    error = none;
  }

  abbrev pub review_result : (Text → Option F) → Text ⊎ Option Text → ReviewerResult F
  review_result extract (inl e) = failed e
  review_result extract (inr m) = found (text_or_empty m) (extract (text_or_empty m))

module _ {V A : Type 0} (s : Services V A) where
  -- The `finally` of an agent that was looked up: both calls are made, and what they throw is ignored.
  abbrev pub clean_up : Text → A → V → V
  clean_up id a v = (s.remove id (s.kill a v).0).0

  -- The `try` behind the spawn, and the `finally`; `r` makes the result and `lost` is the message when
  -- the agent is not found.
  abbrev pub use_agent :
      {B : Type 0} → (Text ⊎ Option Text → B) → Text → Text → Text → Option A → V → V × B
  use_agent r lost id prompt none v = (v, r (inl lost))
  use_agent r lost id prompt (some a) v =
      let (v', o) = s.submit a prompt v in (clean_up id a v', r o)

  abbrev pub after_spawn :
      {B : Type 0} → (Text ⊎ Option Text → B) → Text → Text → V × (Text ⊎ Text) → V × B
  after_spawn r lost prompt (v, inl e) = (v, r (inl e))
  after_spawn r lost prompt (v, inr id) = use_agent r lost id prompt (s.get id v) v

  unfoldable pub run_one_reviewer :
      {F : Type 0}
      → (Text → Option F)
      → Text
      → ReviewerSpec
      → Option ChunkMeta
      → Text
      → V
      → V × ReviewerResult F
  unfolding resolve_council_mode
  run_one_reviewer extract name spec chunk prompt v =
      after_spawn (review_result name spec chunk extract) no_lookup prompt
        (s.spawn name spec (resolve_council_mode spec) v)

  -- The synthesis, or the message of an error.
  abbrev pub chair_result : Text ⊎ Option Text → Text ⊎ Text
  chair_result (inl e) = inl e
  chair_result (inr none) = inr (text "(chair produced no output)")
  chair_result (inr (some t)) = inr t

  unfoldable pub run_chair : Text → ReviewerSpec → Text → V → V × (Text ⊎ Text)
  unfolding resolve_council_mode
  run_chair name spec prompt v =
      after_spawn chair_result no_chair_lookup prompt
        (s.spawn name spec (resolve_council_mode spec) v)
