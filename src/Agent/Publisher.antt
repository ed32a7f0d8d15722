-- ===== src/Agent/Publisher.antt =====
-- Progress events and where they go: the factories of backend-python/app/ai/agent/models/events.py with
-- their checks, and the publishers of backend-python/app/ai/agent/streaming/publisher.py.
use chatbot_react_python_nod.Prelude.{
  String, Bool, true, false, not, ◌&&◌, Option, none, some, List, [], ◌∷◌, ◌++◌, ◌==◌,
  if◌then◌else◌, Bool-cases, inl, inr, ◌≡◌,
}
use chatbot_react_python_nod.Agent.Models.{
  Event, start, planned, tool_start, tool_end, token, reflected, complete, error,
}
use chatbot_react_python_nod.Agent.Exn.{Result, ok, err, validation_error, publisher_closed}

abbrev filled : String → Bool
filled s = not (s == "")

-- the texts that must not be empty: the execution id, a tool's name and call id, an error's code and
-- message
unfoldable pub is_well_formed : Event → Bool
is_well_formed (start x) = filled x
is_well_formed (planned x i) = filled x
is_well_formed (tool_start x name id) = filled name && filled id && filled x
is_well_formed (tool_end x name id success) = filled name && filled id && filled x
is_well_formed (token x content) = filled x
is_well_formed (reflected x d reason) = filled x
is_well_formed (complete x reason used) = filled x
is_well_formed (error x code message) = filled code && filled message && filled x

unfoldable pub new_event : Event → Result Event
unfolding is_well_formed
new_event e = if is_well_formed e then ok e else err validation_error

-- an accepted event is the event itself
pub new_event-same : (e v : Event) → new_event e ≡ ok v → v ≡ e
unfolding new_event
new_event-same e v h = elim (Bool-cases (is_well_formed e)) [
  | inl good ↦ cc (h, (let p : new_event e ≡ ok e = rw (good, new_event) in p))
  | inr bad ↦ cc (h, (let p : new_event e ≡ err validation_error = rw (bad, new_event) in p))
]

-- `InMemoryStreamPublisher`, `QueueStreamPublisher` with what stands in its queue, where `none` is the
-- end mark, and `NoOpStreamPublisher`
pub data Publisher : Type 0 where
  in_memory : List Event → Bool → Publisher
  queue : List (Option Event) → Bool → Publisher
  no_op : Publisher

unfoldable pub publish : Publisher → Event → Result Publisher
publish (in_memory events true) e = err publisher_closed
publish (in_memory events false) e = ok (in_memory (events ++ e ∷ []) false)
publish (queue items true) e = err publisher_closed
publish (queue items false) e = ok (queue (items ++ some e ∷ []) false)
publish no_op e = ok no_op

unfoldable pub close : Publisher → Publisher
close (in_memory events closed) = in_memory events true
close (queue items true) = queue items true
close (queue items false) = queue (items ++ none ∷ []) true
close no_op = no_op

-- the events before the last one
abbrev pub IsProgress : Event → Type 0
IsProgress (complete x reason used) = ⊥
IsProgress (error x code message) = ⊥
IsProgress _ = Unit
