-- ===== src/Agent/Resolver.antt =====
-- The order in which planned tool steps run: `resolve_step_batches` of
-- backend-python/app/ai/agent/executor/dependency_resolver.py. A set of step ids is a list without
-- repetitions.
mod Examples
pub mod Sets
pub mod Rounds
pub mod Distinct
pub mod Unique
pub mod Fuel
pub mod Ends
pub mod Order
use Prim.Native.Nat.{Ordering}
use Prim.Native.String.{compare, ◌++◌}
use mathlib.Core.List
use chatbot_react_python_nod.Prelude.{
  ℕ, zero, suc, ◌+◌, String, ◌==◌, Bool, true, false, not, Option, none, some, List, [], ◌∷◌,
  if◌then◌else◌, nat_eq, length, is_empty, select, mem, Dict, lookup, insert, map,
}
use chatbot_react_python_nod.Agent.Models.{StepAction, PlannedStep}
use chatbot_react_python_nod.Agent.Exn.{Result, ok, err, agent_error, other_error}

abbrev pub is_tool_step : PlannedStep → Bool
is_tool_step s = elim s.action [ StepAction.tool_call ↦ true | _ ↦ false ]

-- `set.add` and `set.discard`
unfoldable pub add : String → List String → List String
unfolding mem
add k s = if mem k s then s else k ∷ s

unfoldable pub discard : String → List String → List String
unfolding select
discard k s = select (λ x. not (x == k)) s

-- `set(xs)`
unfoldable pub to_set : List String → List String
unfolding add
to_set [] = []
to_set (x ∷ xs) = add x (to_set xs)

abbrev pub text_le : String → String → Bool
text_le a b = elim (compare a b) [ Ordering.gt ↦ false | _ ↦ true ]

pub insert_sorted : String → List String → List String
insert_sorted a [] = a ∷ []
insert_sorted a (b ∷ bs) =
    let rest = insert_sorted a bs in if text_le a b then a ∷ b ∷ bs else b ∷ rest

unfoldable pub sorted : List String → List String
unfolding insert_sorted
sorted [] = []
sorted (a ∷ as_) = insert_sorted a (sorted as_)

-- the set at a key; every key that the resolver looks up is there
unfoldable pub at_key : String → Dict (List String) → List String
unfolding lookup
at_key k d = elim (lookup k d) [ none ↦ [] | some s ↦ s ]

-- `{step.step_id: step for step in tool_steps}`
unfoldable pub index_from : Dict PlannedStep → List PlannedStep → Dict PlannedStep
unfolding insert
index_from d [] = d
index_from d (s ∷ ss) = index_from (insert s.step_id s d) ss

-- the first dependency that names no step
unknown_in : Dict PlannedStep → List String → Option String
unfolding lookup
unknown_in d [] = none
unknown_in d (x ∷ xs) =
    let rest = unknown_in d xs in elim (lookup x d) [ none ↦ some x | some _ ↦ rest ]

first_unknown : Dict PlannedStep → List PlannedStep → Option (String × String)
unfolding unknown_in
first_unknown d [] = none
first_unknown d (s ∷ ss) =
    let rest = first_unknown d ss in
    elim (unknown_in d s.depends_on) [ some x ↦ some (s.step_id, x) | none ↦ rest ]

unfoldable pub pending_from : Dict (List String) → List PlannedStep → Dict (List String)
unfolding insert to_set
pending_from d [] = d
pending_from d (s ∷ ss) = pending_from (insert s.step_id (to_set s.depends_on) d) ss

pub no_dependents : Dict (List String) → List PlannedStep → Dict (List String)
unfolding insert
no_dependents d [] = d
no_dependents d (s ∷ ss) = no_dependents (insert s.step_id [] d) ss

pub add_dependents : String → List String → Dict (List String) → Dict (List String)
unfolding insert add at_key
add_dependents id [] d = d
add_dependents id (x ∷ xs) d = add_dependents id xs (insert x (add id (at_key x d)) d)

unfoldable pub dependents_from : List PlannedStep → Dict (List String) → Dict (List String)
unfolding add_dependents
dependents_from [] d = d
dependents_from (s ∷ ss) d = dependents_from ss (add_dependents s.step_id s.depends_on d)

-- the ids with nothing pending, in the order of the dictionary
unfoldable pub ready_ids : Dict (List String) → List String
ready_ids [] = []
ready_ids ((k, s) ∷ d) = let rest = ready_ids d in if is_empty s then k ∷ rest else rest

-- what is pending, and what is ready for the next round
abbrev pub Round : Type 0
Round = Dict (List String) × List String

unfoldable pub release : String → List String → Round → Round
unfolding insert discard at_key
release id [] r = r
release id (d ∷ ds) (pending, ready) =
    let left = discard id (at_key d pending) in
    release id ds (insert d left pending, if is_empty left then List.◌++◌ ready (d ∷ []) else ready)

unfoldable pub visit : Dict (List String) → List String → Round → Round
unfolding release sorted at_key
visit dependents [] r = r
visit dependents (id ∷ ids) r = visit dependents ids (release id (sorted (at_key id dependents)) r)

unfoldable pub pick : Dict PlannedStep → List String → List PlannedStep
unfolding lookup
pick d [] = []
pick d (id ∷ ids) = let rest = pick d ids in elim (lookup id d) [ some s ↦ s ∷ rest | none ↦ rest ]

-- `while ready`: the batches, or nothing if the fuel runs out
unfoldable pub levels :
    ℕ
    → Dict PlannedStep
    → Dict (List String)
    → Dict (List String)
    → List String
    → Option (List (List PlannedStep))
unfolding visit pick
levels zero steps dependents pending ready = none
levels (suc fuel) steps dependents pending [] = some []
levels (suc fuel) steps dependents pending (id ∷ ids) =
    let (pending', ready') = visit dependents (id ∷ ids) (pending, []) in
    elim (levels fuel steps dependents pending' ready') [
      | none ↦ none
      | some batches ↦ some (pick steps (id ∷ ids) ∷ batches)
    ]

abbrev pub visited : List (List PlannedStep) → ℕ
visited [] = 0
visited (b ∷ bs) = length b + visited bs

unfoldable pub run_levels : List PlannedStep → Option (List (List PlannedStep))
unfolding levels ready_ids dependents_from no_dependents pending_from index_from sorted
run_levels steps =
    let pending = pending_from [] steps in
    levels (suc (suc (length steps))) (index_from [] steps)
      (dependents_from steps (no_dependents [] steps)) pending (sorted (ready_ids pending))

abbrev pub unknown_message : String → String → String
unknown_message s d = "Planned step '" ++ s ++ "' depends on unknown step '" ++ d ++ "'"

unfoldable pub resolve_step_batches : List PlannedStep → Result (List (List PlannedStep))
unfolding select index_from first_unknown run_levels
resolve_step_batches steps =
    let tool_steps = select is_tool_step steps in
    let by_id = index_from [] tool_steps in
    if is_empty tool_steps
    then ok []
    else if not (nat_eq (length by_id) (length tool_steps))
    then err (agent_error "Planned tool steps must have unique step_id values")
    else elim (first_unknown by_id tool_steps) [
      | some (s, d) ↦ err (agent_error (unknown_message s d))
      | none ↦ elim (run_levels tool_steps) [
        | none ↦ err (other_error "out of fuel")
        | some batches ↦
            if not (nat_eq (visited batches) (length tool_steps))
            then err (agent_error "Circular dependency detected among planned tool steps")
            else ok batches
      ]
    ]
