-- ===== src/Council/Reviewer/Tests.antt =====
-- Reviews over a manager that keeps its agents in a list.
use cordyceps.Common.{
  if◌then◌else◌, Bool, List, [], ◌∷◌, ◌++◌, ℕ, ◌≡◌, refl, inr, true, false, Option, none, some,
}
use cordyceps.Common.Text.{Text, text, same}
use cordyceps.Council.Reviewer.{
  ReviewerSpec, Services, resolve_council_mode, default_mode_for, driver_supports_tools,
  run_one_reviewer,
}

-- Whether an agent has exited, by its id.
abbrev Agents : Type 0
Agents = List (Text × Bool)

abbrev look_up : Text → Agents → Option Bool
look_up id [] = none
look_up id ((k, x) ∷ l) = let rest = look_up id l in if same k id then some x else rest

abbrev mark : Text → Agents → Agents
mark id [] = []
mark id ((k, x) ∷ l) = let rest = mark id l in if same k id then (k, true) ∷ rest else (k, x) ∷ rest

abbrev drop_agent : Text → Agents → Agents
drop_agent id [] = []
drop_agent id ((k, x) ∷ l) = let rest = drop_agent id l in if same k id then rest else (k, x) ∷ rest

-- An agent that has not exited is not removed.
abbrev remove_found : Text → Option Bool → Agents → Agents × Bool
remove_found id none v = (v, true)
remove_found id (some false) v = (v, true)
remove_found id (some true) v = (drop_agent id v, false)

abbrev manager : Services Agents Text
manager = record {
  spawn = λ name spec mode v. (v ++ (name, false) ∷ [], inr name);
  get = λ id v. elim (look_up id v) [ none ↦ none | some x ↦ some id ];
  submit = λ a prompt v. (v, inr (some (text "no array here")));
  kill = λ a v. (mark a v, false);
  remove = λ id v. remove_found id (look_up id v) v;
}

abbrev extract : Text → Option ℕ
extract t = none

abbrev spec : ReviewerSpec
spec = record { driver = "claude"; profile = none }

abbrev resuming : ReviewerSpec
resuming = record {
  driver = "claude";
  profile = some (record {
    mode = none;
    resume = true;
    continue = false;
    session_id = false;
    isolate_config = false;
    model = none;
  });
}

-- A Claude profile with a field for the terminal alone is spawned in a terminal, where the default
-- mode of its driver, by which the prompt is chosen, is exec.
resuming_mode : resolve_council_mode resuming ≡ "pty"
unfolding resolve_council_mode
resuming_mode = refl

resuming_default : default_mode_for resuming.driver ≡ "exec"
unfolding default_mode_for
resuming_default = refl

short_name_tools : driver_supports_tools "cx" (default_mode_for "cx") ≡ false
unfolding driver_supports_tools default_mode_for
short_name_tools = refl

-- Beside an agent that runs.
abbrev others : Agents
others = (text "other", false) ∷ []

-- Only the other agent is left.
review_leaves : (run_one_reviewer manager extract (text "r") spec none (text "p") others).0 ≡ others
unfolding run_one_reviewer
review_leaves = refl
