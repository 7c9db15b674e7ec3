-- ===== src/Agents/Types.antt =====
-- The state of an agent, of src/agents/types.ts, and what a parser gives back, of
-- src/drivers/api.ts. Of `AgentState` only the fields are kept that the JSON parsers and the
-- controllers for processes read or write.
use cordyceps.Common.{ℕ, String, Option, List, Bool}
use cordyceps.Common.Text.{Text}
use cordyceps.Common.Json.{Json}
use cordyceps.Common.Map.{Map}

pub data Status : Type 0 where
  starting idle busy blocked exited unknown : Status

pub record AgentState : Type 0 where
  pub status : Status
  pub model : Json
  pub mode : String
  pub last_message : Option Text
  pub tokens : ℕ
  pub extra : Map Json

pub record AssistantMessage : Type 0 where
  pub text : Text
  pub ts : Text
  pub tokens : Option ℕ

pub record ParserEvent : Type 0 where
  pub kind : String
  pub payload : Json

-- `changed` tells whether the state is a new object: the controllers compare by identity.
pub record ParseResult : Type 0 where
  pub state : AgentState
  pub changed : Bool
  pub events : List ParserEvent
  pub messages : List AssistantMessage
