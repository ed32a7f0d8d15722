-- ===== src/Chat/Examples.antt =====
-- The theorems on chat turns at a guest's first message, and at one whose provider fails.
use chatbot_react_python_nod.Prelude.{
  nat_eq, select, Bool-cases, inl, inr, ℕ, ◌≤◌, ◌≡◌, refl, ◌⊎◌, String, Bool, true, false, Option,
  none, some, List, ◌∷◌, if◌then◌else◌,
}
use chatbot_react_python_nod.Tools.Schema.{user}
use chatbot_react_python_nod.Documents.Ask.{ProviderName}
use chatbot_react_python_nod.Chat.Store.{
  get_owned_session, owns, ordered_by_seq, find_session, first_where, ChatSession, Tables,
}
use chatbot_react_python_nod.Chat.Usage.{
  Caller, TokenSettings, resolve_max_tokens, effective_guest_max_output_tokens,
}
use chatbot_react_python_nod.Chat.Usage.Capped.{AtMost, Limited, resolve_max_tokens-guest}
use chatbot_react_python_nod.Chat.Errors.{db_unavailable, provider_timeout, other}
use chatbot_react_python_nod.Chat.Turn.{
  ChatRequest, ChatSettings, ChatState, completed, raised, Completion, ChatEnv, ChatResponse,
  responded, refused,
}
use chatbot_react_python_nod.Chat.Summary.{Turn}
use chatbot_react_python_nod.Chat.Complete.{run_turn, complete_chat}
use chatbot_react_python_nod.Chat.Complete.Gapless.{Gapless}
use chatbot_react_python_nod.Chat.Complete.InTurn.{complete_chat-Gapless}
use chatbot_react_python_nod.Chat.Complete.Replay.{run_turn-refused}
use chatbot_react_python_nod.Chat.Complete.Resent.{Again, complete_chat-replayed}
use chatbot_react_python_nod.Chat.Samples.{
  tokens, visitor, settings, answering, timing_out, start, turn, start-Gapless,
}

resolve_max_tokens-guest_example :
    let limit = resolve_max_tokens (some visitor) tokens none (some ProviderName.anthropic) in
    Limited (effective_guest_max_output_tokens tokens) limit
    × AtMost limit (resolve_max_tokens none tokens none (some ProviderName.anthropic))
    × (effective_guest_max_output_tokens tokens ≤ 1024)
    × (effective_guest_max_output_tokens tokens ≤ 512)
resolve_max_tokens-guest_example =
    resolve_max_tokens-guest tokens visitor none (some ProviderName.anthropic) refl

abbrev hello : ChatResponse
hello = record { content = "Hello."; model = "model-1"; provider = "openai"; session_id = 1 }

abbrev answered_state : ChatState
answered_state =
    (complete_chat answering settings ProviderName.openai "model-1" turn.request visitor start).1

-- a user to whom the guest is linked
abbrev owner : Caller
owner = record { kind = user; user_id = some "u1"; guest_id = none }

complete_chat-replayed_example : Again turn.request owner hello answered_state (
    complete_chat answering settings ProviderName.anthropic "model-2" turn.request owner
      answered_state)
unfolding complete_chat run_turn chatbot_react_python_nod.Chat.Complete.generate
    chatbot_react_python_nod.Chat.Admission.admit chatbot_react_python_nod.Chat.Admission.gated
    chatbot_react_python_nod.Chat.Turn.maybe_check_quota
    chatbot_react_python_nod.Chat.Turn.last_user_content
    chatbot_react_python_nod.Chat.Turn.resolve_session chatbot_react_python_nod.Chat.Turn.count_of
    chatbot_react_python_nod.Chat.Turn.last_message
    chatbot_react_python_nod.Chat.Store.get_default_guest_session
    chatbot_react_python_nod.Chat.Store.get_owned_session chatbot_react_python_nod.Chat.Store.owns
    chatbot_react_python_nod.Chat.Complete.settle_completion
    chatbot_react_python_nod.Chat.Complete.finish chatbot_react_python_nod.Chat.Complete.fail
    chatbot_react_python_nod.Chat.Summary.maybe_summarize
    chatbot_react_python_nod.Chat.Complete.count_reply
    chatbot_react_python_nod.Chat.Turn.append_message chatbot_react_python_nod.Chat.Turn.replay_of
    chatbot_react_python_nod.Chat.Turn.maybe_set_session_title
    chatbot_react_python_nod.Chat.Turn.maybe_record_quota
    chatbot_react_python_nod.Chat.Turn.guest_of chatbot_react_python_nod.Chat.Store.first_where
    chatbot_react_python_nod.Chat.Store.find_session
    chatbot_react_python_nod.Chat.Store.update_where
    chatbot_react_python_nod.Chat.Store.allocate_seq chatbot_react_python_nod.Chat.Store.add_message
    chatbot_react_python_nod.Chat.Store.find_by_client_message_id
    chatbot_react_python_nod.Chat.Store.get_message_by_seq
    chatbot_react_python_nod.Chat.Store.mark_last_message_at
    chatbot_react_python_nod.Chat.Store.update_title
    chatbot_react_python_nod.Chat.Store.list_messages_after_seq
    chatbot_react_python_nod.Chat.Store.get_latest_summary
    chatbot_react_python_nod.Chat.Store.ordered_by_seq
    chatbot_react_python_nod.Chat.Store.insert_by_seq chatbot_react_python_nod.Chat.Store.latest_of
    chatbot_react_python_nod.Chat.Usage.derive_session_title
    chatbot_react_python_nod.Chat.Usage.first_line chatbot_react_python_nod.Chat.Usage.squeeze
    chatbot_react_python_nod.Chat.Usage.first_characters
    chatbot_react_python_nod.Chat.Errors.normalize_chat_error chatbot_react_python_nod.Prelude.strip
    chatbot_react_python_nod.Prelude.any chatbot_react_python_nod.Prelude.select
    chatbot_react_python_nod.Prelude.occurs chatbot_react_python_nod.Prelude.insert
    chatbot_react_python_nod.Prelude.lookup chatbot_react_python_nod.Prelude.is_space
complete_chat-replayed_example =
    complete_chat-replayed answering settings ProviderName.openai ProviderName.anthropic "model-1"
      "model-2" turn.request turn.request visitor owner "m1" start answered_state hello refl refl
      refl refl

complete_chat-Gapless_example :
    Gapless
      (complete_chat answering settings ProviderName.openai "model-1" turn.request visitor
        start).1.tables
complete_chat-Gapless_example =
    complete_chat-Gapless answering settings ProviderName.openai "model-1" turn.request visitor
      start start-Gapless

abbrev failed_state : ChatState
failed_state = (run_turn timing_out settings turn start).1

run_turn-refused_example :
    ((failed_state ≡ start) × (provider_timeout ≡ db_unavailable))
    ⊎ ((r' : ChatResponse) × (run_turn timing_out settings turn failed_state
          ≡ (responded r', failed_state))
        × (r'.content ≡ ""))
unfolding run_turn chatbot_react_python_nod.Chat.Complete.generate
    chatbot_react_python_nod.Chat.Complete.settle_completion
    chatbot_react_python_nod.Chat.Complete.finish chatbot_react_python_nod.Chat.Complete.fail
    chatbot_react_python_nod.Chat.Summary.maybe_summarize
    chatbot_react_python_nod.Chat.Complete.count_reply
    chatbot_react_python_nod.Chat.Turn.append_message chatbot_react_python_nod.Chat.Turn.replay_of
    chatbot_react_python_nod.Chat.Turn.maybe_set_session_title
    chatbot_react_python_nod.Chat.Turn.maybe_record_quota
    chatbot_react_python_nod.Chat.Turn.guest_of chatbot_react_python_nod.Chat.Store.first_where
    chatbot_react_python_nod.Chat.Store.find_session
    chatbot_react_python_nod.Chat.Store.update_where
    chatbot_react_python_nod.Chat.Store.allocate_seq chatbot_react_python_nod.Chat.Store.add_message
    chatbot_react_python_nod.Chat.Store.find_by_client_message_id
    chatbot_react_python_nod.Chat.Store.get_message_by_seq
    chatbot_react_python_nod.Chat.Store.mark_last_message_at
    chatbot_react_python_nod.Chat.Store.update_title
    chatbot_react_python_nod.Chat.Store.list_messages_after_seq
    chatbot_react_python_nod.Chat.Store.get_latest_summary
    chatbot_react_python_nod.Chat.Store.ordered_by_seq
    chatbot_react_python_nod.Chat.Store.insert_by_seq chatbot_react_python_nod.Chat.Store.latest_of
    chatbot_react_python_nod.Chat.Usage.derive_session_title
    chatbot_react_python_nod.Chat.Usage.first_line chatbot_react_python_nod.Chat.Usage.squeeze
    chatbot_react_python_nod.Chat.Usage.first_characters
    chatbot_react_python_nod.Chat.Errors.normalize_chat_error chatbot_react_python_nod.Prelude.strip
    chatbot_react_python_nod.Prelude.any chatbot_react_python_nod.Prelude.select
    chatbot_react_python_nod.Prelude.occurs chatbot_react_python_nod.Prelude.insert
    chatbot_react_python_nod.Prelude.lookup chatbot_react_python_nod.Prelude.is_space
run_turn-refused_example =
    run_turn-refused timing_out settings turn turn "m1" start failed_state provider_timeout refl
      refl refl refl
