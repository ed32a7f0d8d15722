-- ===== src/Agent/World/Streamed.antt =====
-- What stands in the queue of an execution's publisher, and what publishing an event adds.
use mathlib.Core.List.{map-append}
use chatbot_react_python_nod.Prelude.{
  String, ◌≡◌, refl, sym, ap, false, Option, some, List, [], ◌∷◌, ◌++◌, map, if◌then◌else◌,
  Bool-cases, inl, inr, arith, All, All-append,
}
use chatbot_react_python_nod.Agent.Models.{Event}
use chatbot_react_python_nod.Agent.Exn.{ok, err, validation_error}
use chatbot_react_python_nod.Agent.Publisher.{
  Publisher, queue, publish, new_event, is_well_formed, IsProgress,
}
use chatbot_react_python_nod.Agent.World.{World, emit, ◌>>=◌}
use chatbot_react_python_nod.Agent.World.Triples.{Triple}
use chatbot_react_python_nod.Agent.World.Keeps.{IsStable}

-- The queue is open, and holds events of which `F` is true.
abbrev pub Holds : (List Event → Type 0) → World → Type 0
Holds F w = (es : List Event) × F es × (w.publisher ≡ queue (map some es) false)

-- events that end in `e`, which is the only one that may end an execution
abbrev pub EndsIn : Event → List Event → Type 0
EndsIn e es = (before : List Event) × All IsProgress before × (es ≡ before ++ e ∷ [])

abbrev pub Open : World → Type 0
Open = Holds (All IsProgress)

pub emit-run :
    (e : Event) (w : World) (items : List (Option Event))
    → w.publisher ≡ queue items false
    → emit e w ≡ (
        if is_well_formed e
        then (ok tt, record w { publisher = queue (items ++ some e ∷ []) false })
        else (err validation_error, w))
unfolding emit ◌>>=◌ publish new_event
emit-run e w items h = ground arith

push : (e : Event) (es : List Event) → map some es ++ some e ∷ [] ≡ map some (es ++ e ∷ [])
push e es = sym (map-append some es (e ∷ []))

pub emit-Triple :
    (e : Event)
    → Triple Open (emit e) (λ _. Holds (EndsIn e)) (λ y w. (y ≡ validation_error) × Open w)
emit-Triple e = record {
  at = λ w o.
      let (es, all, h) = o in
      elim (Bool-cases (is_well_formed e)) [
        | inl good ↦
            rw (emit-run e w (map some es) h, good)
              (es ++ e ∷ [], (es, all, refl), ap (λ l. queue l false) (push e es))
        | inr bad ↦ rw (emit-run e w (map some es) h, bad) (refl, (es, all, h))
      ];
}

published-Open :
    (w : World) (q : Publisher) (e : Event) (es : List Event)
    → IsProgress e
    → publish w.publisher e ≡ ok q
    → All IsProgress es
    → w.publisher ≡ queue (map some es) false
    → Open (record w { publisher = q })
unfolding publish
published-Open w q e es g p all h =
    (es ++ e ∷ [], All-append IsProgress es (e ∷ []) all (g, tt), ground (arith, push e es))

pub Open-IsStable : (x : String) → IsStable x Open
Open-IsStable x = record {
  published = λ w q e g p h. published-Open w q e h.0 g p h.1 h.2;
  written = λ w es h. h;
  called = λ w h. h;
  paused = λ w ds h. h;
}
