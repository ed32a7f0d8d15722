-- ===== src/Agent/Answer/Words.antt =====
-- The tokens of a precomputed text.
use Prim.Native.String.{◌++◌}
use mathlib.Core.List
use chatbot_react_python_nod.Prelude.{
  String, ◌≡◌, refl, sym, ap, ◌∙◌, false, Option, some, List, [], ◌∷◌, ◌==◌, concat, split_space,
  Bool-cases, inl, inr, append-nil, append_assoc, eq_iff, spaced, spaced-split_space, Worded,
  split_space-Worded,
}
use chatbot_react_python_nod.Agent.Models.{Event, token}
use chatbot_react_python_nod.Agent.Exn.{ok}
use chatbot_react_python_nod.Agent.Publisher.{queue, is_well_formed}
use chatbot_react_python_nod.Agent.World.{World, emit, ◌>>=◌, pure}
use chatbot_react_python_nod.Agent.World.Streamed.{emit-run}
use chatbot_react_python_nod.Agent.Answer.{emit_words, emit_final_content_as_tokens}
use chatbot_react_python_nod.Agent.Answer.Tokens.{tokens}

module _ (x : String) (named : (x == "") ≡ false) where
  -- the world with these items in its open queue
  abbrev queued : World → List (Option Event) → World
  queued w items = record w { publisher = queue items false }

  emit_one :
      (t : String) (w : World) (items : List (Option Event))
      → emit (token x t) (queued w items)
        ≡ (ok tt, queued w (List.◌++◌ items (some (token x t) ∷ [])))
  unfolding is_well_formed
  emit_one t w items = rw (emit-run (token x t) (queued w items) items refl, named) refl

  emit_words-run :
      (ws : List String) (w : World) (items : List (Option Event))
      → emit_words x ws (queued w items)
        ≡ (ok tt, queued w (List.◌++◌ items (tokens x (spaced ws))))
  unfolding emit_words ◌>>=◌ pure
  emit_words-run [] w items = rw (append-nil items) refl
  emit_words-run (v ∷ []) w items = emit_one v w items
  emit_words-run (v ∷ u ∷ ws) w items = rw (emit_one (v ++ " ") w items) (
      emit_words-run (u ∷ ws) w (List.◌++◌ items (some (token x (v ++ " ")) ∷ []))
      ∙ ap (λ l. (ok tt, queued w l))
          (append_assoc items (some (token x (v ++ " ")) ∷ []) (tokens x (spaced (u ∷ ws)))))

  whole :
      (content : String) (w : World) (items : List (Option Event))
      → (ts : List String) × (concat ts ≡ content)
        × Worded ts
        × (emit_final_content_as_tokens x content (queued w items)
            ≡ (ok tt, queued w (List.◌++◌ items (tokens x ts))))
  unfolding emit_final_content_as_tokens concat pure
  whole content w items = elim (Bool-cases (content == "")) [
    | inl void ↦ ([], sym ((eq_iff content "").0 void), tt, rw (void, append-nil items) refl)
    | inr text ↦ (
      spaced (split_space content),
      spaced-split_space content,
      split_space-Worded content,
      rw text (emit_words-run (split_space content) w items),
    )
  ]

-- For an execution with a name, and into an open queue, precomputed text is published without an
-- error, whole and word by word: the tokens added to the queue make it up, in turn; each but the last is a
-- text without spaces with one space after it, and the last is a text without spaces (such a text may be
-- empty, where spaces follow each other). Nothing else changes.
pub emit_final_content_as_tokens-whole :
    (x content : String) (w : World) (items : List (Option Event))
    → (x == "") ≡ false
    → w.publisher ≡ queue items false
    → (ts : List String) × (concat ts ≡ content)
      × Worded ts
      × (emit_final_content_as_tokens x content w
          ≡ (ok tt, record w { publisher = queue (List.◌++◌ items (tokens x ts)) false }))
emit_final_content_as_tokens-whole x content w items named q =
    let (ts, e, words, run) = whole x named content w items in
    let same : record w { publisher = queue items false } ≡ w =
      ap (λ p. record w { publisher = p }) (sym q) in
    (ts, e, words, ap (emit_final_content_as_tokens x content) (sym same) ∙ run)
