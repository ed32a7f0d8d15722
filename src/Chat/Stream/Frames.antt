-- ===== src/Chat/Stream/Frames.antt =====
-- What the loop over a provider's stream has sent is what it has collected.
use chatbot_react_python_nod.Prelude.{
  ℕ, suc, ◌≡◌, sym, ap, ◌∙◌, String, ◌==◌, false, Option, List, [], ◌∷◌, ◌++◌, map, All, All-append,
  Bool-cases, inl, inr,
}
use mathlib.Core.List.{map-append}
use chatbot_react_python_nod.Chat.Stream.{
  Pull, chunk, failed, delta, StreamEnv, Collected, take_chunk, pump,
}
use chatbot_react_python_nod.Chat.Turn.{ChatSettings}

abbrev pub IsText : String → Type 0
IsText s = (s == "") ≡ false

-- one frame for each piece of text, and no piece is empty
abbrev pub IsSent : Collected → Type 0
IsSent c = (c.frames ≡ map delta c.pieces) × All IsText c.pieces

take_chunk-IsSent :
    (content : String) (reason : Option String) (c : Collected)
    → IsSent c
    → IsSent (take_chunk content reason c)
unfolding take_chunk
take_chunk-IsSent content reason c (frames, texts) = elim (Bool-cases (content == "")) [
  | inl e ↦ rw e (frames, texts)
  | inr e ↦ rw e (
    ap (λ r. r ++ delta content ∷ []) frames ∙ sym (map-append delta c.pieces (content ∷ [])),
    All-append IsText c.pieces (content ∷ []) texts (e, tt),
  )
]

module _ (env : StreamEnv) (settings : ChatSettings) where
  pub pump-IsSent :
      (n : ℕ) (ps : List Pull) (c : Collected) → IsSent c → IsSent (pump env settings n ps c).1
  unfolding pump
  pump-IsSent n [] c sent = elim (Bool-cases (env.is_disconnected n)) [
    | inl e ↦ rw (pump, e) sent
    | inr e ↦ rw (pump, e) sent
  ]
  pump-IsSent n (failed x ∷ ps) c sent = elim (Bool-cases (env.is_disconnected n)) [
    | inl e ↦ rw (pump, e) sent
    | inr e ↦ rw (pump, e) sent
  ]
  pump-IsSent n (chunk s f ∷ ps) c sent = elim (Bool-cases (env.is_disconnected n)) [
    | inl e ↦ rw (pump, e) sent
    | inr e ↦
        rw (pump, e) (pump-IsSent (suc n) ps (take_chunk s f c) (take_chunk-IsSent s f c sent))
  ]
