-- ===== src/Agent/Results.antt =====
-- Results of tool runs: backend-python/app/ai/agent/executor/result_aggregator.py.
pub mod Names
use chatbot_react_python_nod.Prelude.{
  String, ◌==◌, Bool, List, [], ◌∷◌, ◌++◌, if◌then◌else◌, mem, all, any, select,
}
use chatbot_react_python_nod.Agent.Models.{ToolCall, ToolResult}
use chatbot_react_python_nod.Agent.Exn.{Result, ok, err, validation_error}

pub record ToolRunRecord : Type 0 where
  pub step_id : String
  pub call : ToolCall
  pub result : ToolResult

-- `ToolRunRecord(…)`: the step id is not empty
unfoldable pub new_record : String → ToolCall → ToolResult → Result ToolRunRecord
new_record step_id call result =
    if step_id == ""
    then err validation_error
    else ok (record { step_id = step_id; call = call; result = result })

-- `AggregatedToolResults` is its list of records
unfoldable pub names_from : List String → List String → List ToolRunRecord → List String
unfolding mem
names_from seen names [] = names
names_from seen names (r ∷ rs) =
    let known = names_from seen names rs in
    let new = names_from (r.call.name ∷ seen) (names ++ r.call.name ∷ []) rs in
    if mem r.call.name seen then known else new

unfoldable pub tools_used : List ToolRunRecord → List String
unfolding names_from
tools_used records = names_from [] [] records

unfoldable pub all_succeeded : List ToolRunRecord → Bool
unfolding all
all_succeeded records = all (λ r. r.result.success) records

unfoldable pub any_succeeded : List ToolRunRecord → Bool
unfolding any
any_succeeded records = any (λ r. r.result.success) records

unfoldable pub results_for_step : String → List ToolRunRecord → List ToolRunRecord
unfolding select
results_for_step step_id records = select (λ r. r.step_id == step_id) records
