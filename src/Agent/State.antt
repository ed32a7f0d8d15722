-- ===== src/Agent/State.antt =====
-- The state of one agent execution and its lifecycle: backend-python/app/ai/agent/models/state.py
-- and the methods of `AgentStateManager` in backend-python/app/ai/agent/state/manager.py.
pub mod Lifecycle
pub mod Budget
mod Examples
use chatbot_react_python_nod.Prelude.{
  ℕ, zero, suc, ◌+◌, ◌≤◌, String, ◌≡◌, Bool, true, false, not, ◌||◌, ◌&&◌, Option, none, some, List,
  [], ◌∷◌, ◌++◌, ltb, leb, nat_eq, if◌then◌else◌, mem, codes, lower, occurs, any, select,
}
use chatbot_react_python_nod.Json.{Json}
use chatbot_react_python_nod.Agent.Models.{Status, AgentConfig, AgentContext, resolved}
use chatbot_react_python_nod.Agent.Exn.{Result, ok, err, invalid_transition, iteration_limit}

abbrev pub Metadata : Type 0
Metadata = List (String × Json)

pub record State : Type 0 where
  pub execution_id : String
  pub status : Status
  pub current_iteration : ℕ
  pub max_iterations : ℕ
  pub tools_used : List String
  pub reflection_count : ℕ
  pub retry_count : ℕ
  pub parallel_tools_count : ℕ
  pub iteration_limit_reached : Bool
  pub error_message : Option String
  pub metadata : Metadata

abbrev status_tag : Status → ℕ
status_tag Status.created = 0
status_tag Status.planning = 1
status_tag Status.executing = 2
status_tag Status.reflecting = 3
status_tag Status.completed = 4
status_tag Status.failed = 5

abbrev pub status_eq : Status → Status → Bool
status_eq a b = nat_eq (status_tag a) (status_tag b)

-- `target in allowed`
abbrev has_status : Status → List Status → Bool
has_status t [] = false
has_status t (a ∷ r) = status_eq t a || has_status t r

abbrev terminal_statuses : List Status
terminal_statuses = Status.completed ∷ Status.failed ∷ []

unfoldable pub valid_transitions : Status → List Status
valid_transitions Status.created = Status.planning ∷ Status.failed ∷ []
valid_transitions Status.planning = Status.executing ∷ Status.completed ∷ Status.failed ∷ []
valid_transitions Status.executing =
    Status.planning ∷ Status.reflecting ∷ Status.completed ∷ Status.failed ∷ []
valid_transitions Status.reflecting =
    Status.planning ∷ Status.executing ∷ Status.completed ∷ Status.failed ∷ []
valid_transitions Status.completed = []
valid_transitions Status.failed = []

abbrev pub secret_key_fragments : List String
secret_key_fragments = "secret" ∷ "password" ∷ "token" ∷ "api_key" ∷ "authorization" ∷ []

unfoldable pub is_secret_key : String → Bool
unfolding any occurs lower
is_secret_key key = any (λ fragment. occurs (codes fragment) (lower key)) secret_key_fragments

unfoldable pub redact_secrets : Metadata → Metadata
unfolding select is_secret_key
redact_secrets metadata = select (λ e. not (is_secret_key e.0)) metadata

-- `to_dict`: the record again, less the entries of `metadata` under secret keys
unfoldable pub to_dict : State → State
unfolding redact_secrets
to_dict s = record s { metadata = redact_secrets s.metadata }

unfoldable pub has_remaining_iterations : State → Bool
has_remaining_iterations s = ltb s.current_iteration s.max_iterations

unfoldable pub is_at_iteration_limit : State → Bool
is_at_iteration_limit s = s.iteration_limit_reached || leb s.max_iterations s.current_iteration

-- `create_initial_state` after `store.create`
unfoldable pub initial_state : AgentContext → Option AgentConfig → State
initial_state context config = record {
  execution_id = context.execution_id;
  status = Status.created;
  current_iteration = 0;
  max_iterations = (resolved config).max_iterations;
  tools_used = [];
  reflection_count = 0;
  retry_count = 0;
  parallel_tools_count = 0;
  iteration_limit_reached = false;
  error_message = none;
  metadata = context.metadata;
}

-- the message is kept only with the status FAILED
abbrev failure_message : Status → Option String → Option String → Option String
failure_message Status.failed (some m) old = some m
failure_message _ _ old = old

unfoldable pub transition : State → Status → Option String → Result State
unfolding valid_transitions
transition s target error_message =
    if has_status s.status terminal_statuses
    then err (invalid_transition s.status target)
    else if not (has_status target (valid_transitions s.status))
    then err (invalid_transition s.status target)
    else ok (record s {
      status = target;
      error_message = failure_message target error_message s.error_message;
    })

unfoldable pub ensure_iterations_remaining : State → Result (Unit {0})
unfolding is_at_iteration_limit
ensure_iterations_remaining s =
    if is_at_iteration_limit s then err (iteration_limit s.max_iterations) else ok tt

abbrev next_cycle : State → State
next_cycle s = record s {
  current_iteration = s.current_iteration + 1;
  iteration_limit_reached = leb s.max_iterations (s.current_iteration + 1);
}

unfoldable pub begin_iteration : State → Result State
unfolding ensure_iterations_remaining
begin_iteration s = elim (ensure_iterations_remaining s) [
  | ok _ ↦ ok (next_cycle s)
  | err e ↦ err e
]

unfoldable pub record_tool_used : State → String → State
record_tool_used s name =
    if mem name s.tools_used then s else record s { tools_used = s.tools_used ++ name ∷ [] }

unfoldable pub record_reflection : State → State
record_reflection s = record s { reflection_count = s.reflection_count + 1 }

unfoldable pub record_retry : State → State
record_retry s = record s { retry_count = s.retry_count + 1 }

-- a count is never negative here, so `count <= 0` is `count == 0`
unfoldable pub record_parallel_tools : State → ℕ → State
record_parallel_tools s count =
    if leb count 0 then s else record s { parallel_tools_count = s.parallel_tools_count + count }

unfoldable pub mark_iteration_limit_reached : State → State
mark_iteration_limit_reached s = record s { iteration_limit_reached = true }
