-- ===== src/Chat/StreamExamples.antt =====
-- The theorems on streamed turns at a reply in two pieces.
use chatbot_react_python_nod.Prelude.{
  ◌≡◌, refl, String, false, none, some, List, [], ◌∷◌, ◌++◌, map, All, concat,
}
use chatbot_react_python_nod.Documents.Ask.{ProviderName}
use chatbot_react_python_nod.Chat.Turn.{ChatState}
use chatbot_react_python_nod.Chat.Complete.Gapless.{Gapless}
use chatbot_react_python_nod.Chat.Samples.{visitor, settings, answering, start, turn, start-Gapless}
use chatbot_react_python_nod.Chat.Stream.{
  Pull, chunk, Frame, delta, StreamEnv, StreamPrep, prepare_turn, prepare_stream, stream_chat,
}
use chatbot_react_python_nod.Chat.Stream.Frames.{IsText}
use chatbot_react_python_nod.Chat.Stream.Tells.{TellsOf, stream_chat-Tells}
use chatbot_react_python_nod.Chat.Stream.InTurn.{streaming-Gapless}

abbrev two_pieces : List Pull
two_pieces = chunk "Hel" none ∷ chunk "" none ∷ chunk "lo." (some "length") ∷ []

abbrev sending : List Pull → StreamEnv
sending pulls = record {
  chat = answering;
  stream_chat = λ n name messages model temperature limit. pulls;
  is_disconnected = λ n. false;
}

abbrev prep : StreamPrep
prep = record { turn = turn; idempotent_reply = none }

abbrev prepared_state : ChatState
prepared_state = (prepare_turn (sending two_pieces) settings turn start).1

stream_chat-Tells_example :
    (pieces : List String) × (last : List Frame) × ((stream_chat
        (sending two_pieces)
        settings
        prep
        prepared_state).0
      ≡ Frame.start 1 ∷ (map delta pieces ++ last))
    × All IsText pieces
    × TellsOf turn
        (concat pieces)
        last
        prepared_state.tables.messages
        (stream_chat (sending two_pieces) settings prep prepared_state).1.tables.messages
stream_chat-Tells_example = stream_chat-Tells (sending two_pieces) settings prep prepared_state refl

streaming-Gapless_example :
    let st' =
      (prepare_stream
        (sending two_pieces)
        settings
        ProviderName.openai
        "model-1"
        turn.request
        visitor
        start).1 in
    Gapless st'.tables × Gapless (stream_chat (sending two_pieces) settings prep st').1.tables
streaming-Gapless_example =
    streaming-Gapless (sending two_pieces) settings ProviderName.openai "model-1" turn.request
      visitor start prep start-Gapless
