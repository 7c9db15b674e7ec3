-- ===== src/Agents/Feed.antt =====
-- What the controllers of src/agents have in common: the state that is mirrored to the bus,
-- `feedChunk`, `setStatus`, `publishState` and the exit. The driver's parser is an argument. Of the
-- state of an agent the controllers read `status` and `blocking`; `rest` is the parser's.
pub mod Steps
pub mod Mirror
pub mod Waiters
use cordyceps.Common.{
  ltb, leb, ◌==◌, if◌then◌else◌, ltb→lt, lt→ltb, leb→le, ==_iff, Bool-cases, Option-cases,
  String-cases, str_eq_refl, str_eq-false, length, get_elem?, take, drop, keep, any, last?,
  length-append, take-append-drop, length-take, length-drop, All, All-append, All-map,
  drop-append_of_le, take-append_of_le, drop-length-append, take-length, append-ne-nil,
  slice-append_of_le, ℕ, zero, suc, ◌+◌, ◌-◌, ◌*◌, ◌/◌, ◌%◌, ◌≤◌, ◌<◌, min, max, String, ◌≡◌, refl,
  sym, ap, ◌∙◌, ◌≢◌, ◌↔◌, ◌⊎◌, inl, inr, Bool, true, false, not, ◌&&◌, ◌||◌, Option, none, some,
  List, [], ◌∷◌, ◌++◌, map-append, append-nil, append_assoc, arith, str_eq, eq_iff, map,
}
use cordyceps.Agents.Types.{Status, idle, exited, ParserEvent, AssistantMessage}

pub record State (R : Type 0) : Type 0 where
  pub status : Status
  pub blocking : Option String
  pub rest : R

-- What `parser.feed` returns. `changed` tells whether the state is a new object.
pub record Parsed (R : Type 0) : Type 0 where
  pub state : State R
  pub changed : Bool
  pub events : List ParserEvent
  pub messages : List AssistantMessage

-- What a controller emits, to its listeners and on the bus. `published` sets the bus's copy of the
-- state too.
pub data Emission (R : Type 0) : Type 0 where
  published : State R → Emission R
  output : String → Emission R
  reported : ParserEvent → Emission R
  told : AssistantMessage → Emission R
  blocked : String → Emission R
  idled : State R → Emission R
  ended : ℕ → Emission R

-- `bus_state` is the value of `agent.<id>.state` on the bus, `resolved` what `exitPromise` has
-- resolved to, and `log` holds the emissions in order.
pub record Agent (R : Type 0) : Type 0 where
  pub state : State R
  pub transcript : List AssistantMessage
  pub bus_state : State R
  pub log : List (Emission R)
  pub has_exited : Bool
  pub exit_code : Option ℕ
  pub resolved : Option ℕ

abbrev pub same_status : Status → Status → Bool
same_status Status.starting Status.starting = true
same_status Status.idle Status.idle = true
same_status Status.busy Status.busy = true
same_status Status.blocked Status.blocked = true
same_status Status.exited Status.exited = true
same_status Status.unknown Status.unknown = true
same_status _ _ = false

abbrev resolve : ℕ → Option ℕ → Option ℕ
resolve code none = some code
resolve code (some c) = some c

module _ {R : Type 0} where
  abbrev pub emit : Emission R → Agent R → Agent R
  emit e a = record a { log = a.log ++ e ∷ [] }

  -- `this._state = s` and `publishState()`
  abbrev pub publish : State R → Agent R → Agent R
  publish s a = record a { state = s; bus_state = s; log = a.log ++ published s ∷ [] }

  -- What the constructors leave.
  abbrev pub new_agent : State R → Agent R
  new_agent s = record {
    state = s;
    transcript = [];
    bus_state = s;
    log = published s ∷ [];
    has_exited = false;
    exit_code = none;
    resolved = none;
  }

  abbrev pub with_status : Status → State R → State R
  with_status t s = record s { status = t }

  unfoldable pub set_status : Status → Agent R → Agent R
  set_status t a = if same_status a.state.status t then a else publish (with_status t a.state) a

  -- The loops over the parser's events and messages.
  abbrev pub report_all : List ParserEvent → Agent R → Agent R
  report_all [] a = a
  report_all (e ∷ es) a = report_all es (emit (reported e) a)

  abbrev pub tell : AssistantMessage → Agent R → Agent R
  tell m a = emit (told m) (record a { transcript = a.transcript ++ m ∷ [] })

  abbrev pub tell_all : List AssistantMessage → Agent R → Agent R
  tell_all [] a = a
  tell_all (m ∷ ms) a = tell_all ms (tell m a)

  abbrev pub emit_blocked : Option String → Agent R → Agent R
  emit_blocked none a = a
  emit_blocked (some b) a = emit (blocked b) a

  abbrev pub emit_idle : Agent R → Agent R
  emit_idle a = if same_status a.state.status idle then emit (idled a.state) a else a

  abbrev pub take_state : Parsed R → Agent R → Agent R
  take_state r a = if r.changed then publish r.state a else a

  unfoldable pub feed_chunk : (String → State R → Parsed R) → String → Agent R → Agent R
  feed_chunk parse chunk a =
      let r = parse chunk a.state in
      let b = tell_all r.messages (report_all r.events (take_state r a)) in
      emit_idle (emit_blocked b.state.blocking b)

  -- The exit: `onPtyExit`, `onConnectionClosed` behind its test, and the end of `kill`.
  unfoldable pub finish : ℕ → Agent R → Agent R
  finish code a =
      let b =
        publish (with_status exited a.state)
          (record a { has_exited = true; exit_code = some code }) in
      record (emit (ended code) b) { resolved = resolve code b.resolved }
