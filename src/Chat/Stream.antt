-- ===== src/Chat/Stream.antt =====
-- A turn of a chat that is kept, streamed to its client: `ChatService.prepare_stream`, `stream_chat` and
-- `_persist_stream_result` of backend-python/app/services/chat_service.py. A provider's stream is the list of
-- what it yields; the client's connection is asked for before each pull. The id that all frames carry and the
-- log are left out, and so is a client that leaves while a frame is sent.
pub mod Frames
pub mod Rows
pub mod Tells
pub mod InTurn
use mathlib.Core.List
use chatbot_react_python_nod.Prelude.{
  ℕ, suc, ◌+◌, String, ◌==◌, Bool, true, false, Option, none, some, List, [], ◌∷◌, if◌then◌else◌,
  is_empty, concat,
}
use chatbot_react_python_nod.Documents.Ask.{ProviderName, ChatMessageSchema}
use chatbot_react_python_nod.Documents.Prompt.{text_or}
use chatbot_react_python_nod.Chat.Store.{
  Tables, MessageStatus, ChatMessage, allocate_seq, find_by_client_message_id, get_message_by_seq,
  mark_last_message_at, list_messages_after_seq, get_latest_summary,
}
use chatbot_react_python_nod.Chat.Usage.{Caller}
use chatbot_react_python_nod.Chat.Errors.{
  ChatServiceError, Exception, other, normalize_chat_error, empty_provider_response,
}
use chatbot_react_python_nod.Chat.Turn.{
  ChatRequest, ChatSettings, ChatState, ProviderCompletion, ChatEnv, Reply, refused, Draft,
  with_tables, append_message, user_draft, assistant_draft, maybe_set_session_title, called,
}
use chatbot_react_python_nod.Chat.Summary.{Turn, covered_by, token_limit, maybe_summarize}
use chatbot_react_python_nod.Chat.Admission.{turned_away, admitted, admit}
use chatbot_react_python_nod.Chat.Complete.{count_reply, unwritten}

-- a chunk with its content and its finish reason, or an exception in place of a chunk
pub data Pull : Type 0 where
  chunk : String → Option String → Pull
  failed : Exception → Pull

pub data Frame : Type 0 where
  start : ℕ → Frame
  delta : String → Frame
  end_frame : String → Frame
  error_frame : String → String → Frame

pub record StreamEnv : Type 0 where
  pub chat : ChatEnv
  pub stream_chat :
      ℕ → ProviderName → List ChatMessageSchema → String → String → Option ℕ → List Pull
  pub is_disconnected : ℕ → Bool

-- what the loop has collected and sent
pub record Collected : Type 0 where
  pub pieces : List String
  pub finish_reason : String
  pub frames : List Frame

-- how the loop ends: the client is gone, the stream is at its end, or an exception
pub data Ending : Type 0 where
  gone : Ending
  drained : Ending
  broken : Exception → Ending

-- how the reply is written: it is, or an exception after which the database can still be used or not
pub data Persisted : Type 0 where
  saved : Persisted
  unsaved : Exception → Bool → Persisted

-- `_StreamPrep`, with what an earlier turn has for the client's message
pub record StreamPrep : Type 0 where
  pub turn : Turn
  pub idempotent_reply : Option (String × Option String)

-- a stream that is not opened, or one that is prepared
pub data Prepared : Type 0 where
  not_opened : Reply → Prepared
  prepared : StreamPrep → Prepared

abbrev pub value_error : Exception
value_error = other false false "valueerror"

abbrev pub index_error : Exception
index_error = other false false "indexerror"

abbrev pub integrity_error : Exception
integrity_error = other false false "integrityerror"

unfoldable pub take_chunk : String → Option String → Collected → Collected
take_chunk content reason c = record {
  pieces = if content == "" then c.pieces else List.◌++◌ c.pieces (content ∷ []);
  finish_reason = text_or reason c.finish_reason;
  frames = if content == "" then c.frames else List.◌++◌ c.frames (delta content ∷ []);
}

-- the content of the stored reply, or nothing if there is none
abbrev pub stored_reply : Option ChatMessage → String × Option String
stored_reply none = ("", none)
stored_reply (some m) = (m.content, m.finish_reason)

-- the client's message, if it was sent before
unfoldable pub prior_of : ℕ → Option String → Tables → Option ChatMessage
prior_of id none t = none
prior_of id (some key) t = find_by_client_message_id id key t

abbrev pub row_draft : Turn → String → Option String → MessageStatus → Draft
row_draft t content reason status =
    assistant_draft t.session.id content t.provider t.model status reason

abbrev pub error_of : ChatServiceError → Frame
error_of e = error_frame e.error_code e.error_message

module _ (env : StreamEnv) (settings : ChatSettings) where
  -- the loop over the provider's stream
  unfoldable pub pump : ℕ → List Pull → Collected → Ending × Collected
  pump n [] c = if env.is_disconnected n then (gone, c) else (drained, c)
  pump n (p ∷ ps) c = elim (env.is_disconnected n) [
    | true ↦ (gone, c)
    | false ↦ elim p [
      | failed e ↦ (broken e, c)
      | chunk content reason ↦ pump (suc n) ps (take_chunk content reason c)
    ]
  ]

  -- `allocate_seq` raises a ValueError, `add_message` an IntegrityError
  abbrev pub append_error : ℕ → Tables → Persisted
  append_error id t = elim (allocate_seq id t) [
    | none ↦ unsaved value_error true
    | some x ↦ unsaved integrity_error false
  ]

  -- `pending[-1]` raises an IndexError, `add_summary` an IntegrityError
  abbrev pub summary_error : Turn → Tables → Persisted
  summary_error t tables =
      if is_empty (
        list_messages_after_seq t.session.id (covered_by (get_latest_summary t.session.id tables))
          tables)
      then unsaved index_error true
      else unsaved integrity_error false

  -- usage, quota and summary of a reply that is complete
  unfoldable pub persist_complete :
      Turn → String → Option String → ChatState → Persisted × ChatState
  persist_complete t content reason st =
      elim (append_message t.session.id (row_draft t content reason MessageStatus.complete)
        st.tables) [
          | none ↦ (append_error t.session.id st.tables, st)
          | some (seq, tables) ↦
              let marked =
                count_reply env.chat settings t
                  (record { content = content; finish_reason = reason; usage = none }) seq tables
                  st in
              elim (maybe_summarize env.chat settings t marked) [
                | none ↦ (summary_error t marked.tables, marked)
                | some done ↦ (saved, done)
              ]
        ]

  -- another status than `complete`
  unfoldable pub persist_partial :
      Turn → String → Option String → MessageStatus → ChatState → Persisted × ChatState
  persist_partial t content reason status st =
      elim (append_message t.session.id (row_draft t content reason status) st.tables) [
        | none ↦ (append_error t.session.id st.tables, st)
        | some (seq, tables) ↦ (saved, with_tables (mark_last_message_at t.session.id tables) st)
      ]

  -- the `except` clause: the error is written if the database can be used, and sent
  unfoldable pub recover : Turn → String → Exception → Bool → ChatState → List Frame × ChatState
  recover t content e usable st =
      let (result, st') = persist_partial t content none MessageStatus.error st in
      (error_of (normalize_chat_error e) ∷ [], if usable then st' else st)

  -- the last frames, if the reply is written
  unfoldable pub conclude :
      Turn → String → List Frame → Persisted × ChatState → List Frame × ChatState
  conclude t content frames (saved, st) = (frames, st)
  conclude t content frames (unsaved e usable, st) = recover t content e usable st

  unfoldable pub settle_stream : Turn → Ending → Collected → ChatState → List Frame × ChatState
  settle_stream t gone c st =
      conclude t (concat c.pieces) []
        (persist_partial t (concat c.pieces) (some "interrupted") MessageStatus.interrupted st)
  settle_stream t drained c st =
      if is_empty c.pieces
      then conclude t (concat c.pieces) (error_of empty_provider_response ∷ [])
          (persist_partial t "" none MessageStatus.error st)
      else conclude t (concat c.pieces) (end_frame c.finish_reason ∷ [])
          (persist_complete t (concat c.pieces) (some c.finish_reason) st)
  settle_stream t (broken e) c st = recover t (concat c.pieces) e true st

  abbrev pub nothing_yet : Collected
  nothing_yet = record { pieces = []; finish_reason = "stop"; frames = [] }

  abbrev pub pulled : Turn → ChatState → Ending × Collected
  pulled t st =
      pump 0
        (env.stream_chat st.calls t.provider (t.request.first ∷ t.request.rest) t.model
          t.request.temperature (token_limit env.chat settings t))
        nothing_yet

  unfoldable pub generate_stream : Turn → ChatState → List Frame × ChatState
  generate_stream t st =
      let (ending, c) = pulled t st in
      let (last, st') = settle_stream t ending c (called st) in (List.◌++◌ c.frames last, st')

  -- what is stored for a message that was sent before
  abbrev pub repeated : String → Option String → List Frame
  repeated content reason =
      let ended : List Frame = end_frame (text_or reason "stop") ∷ [] in
      if content == "" then ended else delta content ∷ ended

  unfoldable pub stream_chat : StreamPrep → ChatState → List Frame × ChatState
  stream_chat prep st = elim prep.idempotent_reply [
    | some (content, reason) ↦ (start prep.turn.session.id ∷ repeated content reason, st)
    | none ↦
        let (frames, st') = generate_stream prep.turn st in
        (start prep.turn.session.id ∷ frames, st')
  ]

  -- the message is written before the stream opens
  unfoldable pub prepare_turn : Turn → ChatState → Prepared × ChatState
  prepare_turn t st = elim (prior_of t.session.id t.request.client_message_id st.tables) [
    | some prior ↦ (
      prepared (record {
        turn = t;
        idempotent_reply =
            some (stored_reply (get_message_by_seq t.session.id (prior.seq + 1) st.tables));
      }),
      st,
    )
    | none ↦
        elim (append_message t.session.id
          (user_draft t.session.id t.prompt_text t.request.client_message_id) st.tables) [
            | none ↦ (not_opened (unwritten env.chat settings t.session.id st.tables), st)
            | some (seq, tables) ↦ (
              prepared (record { turn = t; idempotent_reply = none }),
              with_tables (maybe_set_session_title t.session t.prompt_text tables) st,
            )
          ]
  ]

  unfoldable pub prepare_stream :
      ProviderName → String → ChatRequest → Caller → ChatState → Prepared × ChatState
  prepare_stream provider model request caller st =
      let (admission, st') = admit settings provider model request caller st in
      elim admission [
        | turned_away e ↦ (not_opened (refused e), st')
        | admitted t ↦ prepare_turn t st'
      ]
