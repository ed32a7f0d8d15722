-- ===== src/Chat/ToolLoop.antt =====
-- The tool loop of a chat turn: `ToolChatService._run_tool_loop` and its helpers in
-- backend-python/app/services/tool_chat_service.py.
-- The tools run through the executor of Tools/Executor, over worlds `W`. The models are parameters; their
-- calls are numbered, and `asked` logs the conversations that they were given. The callback for activities
-- writes to a list.
pub mod Dialogue
pub mod Asked
pub mod Guests
use mathlib.Core.List
use chatbot_react_python_nod.Prelude.{
  ℕ, zero, suc, String, ◌==◌, Bool, true, false, ◌&&◌, ◌||◌, Option, none, some, List, [], ◌∷◌, map,
  if◌then◌else◌, is_empty, select, mem, strip,
}
use chatbot_react_python_nod.Json.{Json, null, bool, str, obj, Fields, end, field, dumps}
use chatbot_react_python_nod.Agent.Models.{Role}
use chatbot_react_python_nod.Tools.Schema.{user, guest, ToolExecutionContext, get_field}
use chatbot_react_python_nod.Tools.Registry.{Registry, get_schemas_for_llm}
use chatbot_react_python_nod.Tools.Executor.{
  Handler, Outcome, answered, propagated, interrupted, execute,
}
use chatbot_react_python_nod.Documents.Ask.{ProviderName, ChatMessageSchema, name_of}
use chatbot_react_python_nod.Documents.Prompt.{text_or}
use chatbot_react_python_nod.Chat.Usage.{Caller, ProviderUsage, resolve_max_tokens}
use chatbot_react_python_nod.Chat.Errors.{
  ChatServiceError, Exception, other, normalize_chat_error, empty_provider_response,
  validation_error,
}
use chatbot_react_python_nod.Chat.Turn.{
  ChatRequest, ChatSettings, ChatState, ProviderCompletion, Completion, completed, raised, ChatEnv,
  called,
}
use Prim.Native.String.{◌++◌}
use chatbot_react_python_nod.Chat.ToolCalls.{
  ProviderToolCall, ProviderToolCompletion, ToolCompletion, AnnouncedCall, LoopMessage,
  ToolLoopResult, LoopEnd, ToolEnv, ToolState, Progress, guest_tool_denied_message,
  tool_iteration_limit_message, supports_tool_calling, function_name, named_in, schema_allowed,
  allowed_schemas, announced_call, assistant_message, build_loop_messages, used_once,
  denied_payload, CallEnd, RoundEnd, forbidden, payload_of, may_not_call, fallback_of, usage_of,
  given, refused, plain, announced, tool_result, settled, stopped, cancelled, told, type_error,
  stopped_outside, went_on, round_type_error, round_stopped,
}

module _ (W : Type 0) (clock : W → ℕ) (render : Json → String) (tools : Registry (Handler W)) where
  abbrev pub told_activity : Bool → String → ProviderToolCall → ToolState W → ToolState W
  told_activity on_activity what call st =
      if on_activity && call.name == "web_search"
      then record {
        chat = st.chat;
        world = st.world;
        activity = List.◌++◌ st.activity (what ∷ []);
        asked = st.asked;
      }
      else st

  abbrev pub in_world : W → ToolState W → ToolState W
  in_world w st = record { chat = st.chat; world = w; activity = st.activity; asked = st.asked }

  -- a call of a caller who may make it; the last activity is told however it ends
  unfoldable pub call_tool :
      Option String → Bool → ProviderToolCall → ToolState W → CallEnd × ToolState W
  call_tool request_id on_activity call st =
      let before = told_activity on_activity "web_search" call st in
      let (outcome, w) =
        execute W clock render tools
          (record { name = call.name; arguments = call.arguments; call_id = some call.id })
          (record { caller = user; request_id = request_id }) before.world in
      (payload_of outcome, told_activity on_activity "thinking" call (in_world w before))

  unfoldable pub execute_tool_call :
      Option String → Option Caller → Bool → ProviderToolCall → ToolState W → CallEnd × ToolState W
  execute_tool_call request_id caller on_activity call st =
      if may_not_call caller
      then (told denied_payload true, st)
      else call_tool request_id on_activity call st

  abbrev pub answered_with : ProviderToolCall → String → Bool → Progress → Progress
  answered_with call text denied p = record {
    messages = List.◌++◌ p.messages (tool_result call.id text ∷ []);
    tools_used = used_once call.name p.tools_used;
    guest_denied = denied || p.guest_denied;
  }

  -- the calls of one completion, in turn
  unfoldable pub run_calls :
      Option String
      → Option Caller
      → Bool
      → List ProviderToolCall
      → Progress
      → ToolState W
      → RoundEnd × ToolState W
  run_calls request_id caller on_activity [] p st = (went_on p, st)
  run_calls request_id caller on_activity (call ∷ calls) p st =
      let (end_, st') = execute_tool_call request_id caller on_activity call st in
      elim end_ [
        | told text denied ↦
            run_calls request_id caller on_activity calls (answered_with call text denied p) st'
        | type_error ↦ (round_type_error, st')
        | stopped_outside ↦ (round_stopped, st')
      ]

  abbrev pub announce : ProviderToolCompletion → Progress → Progress
  announce c p = record {
    messages = List.◌++◌ p.messages (assistant_message c ∷ []);
    tools_used = p.tools_used;
    guest_denied = false;
  }

  abbrev pub result_of : String → Option String → Option ProviderUsage → Progress → ToolLoopResult
  result_of content reason usage p = record {
    content = content;
    finish_reason = reason;
    usage = usage;
    tools_used = p.tools_used;
  }

  -- a request to the model is logged and counted
  abbrev pub asking : List LoopMessage → ToolState W → ToolState W
  asking messages st = record {
    chat = called st.chat;
    world = st.world;
    activity = st.activity;
    asked = List.◌++◌ st.asked (messages ∷ []);
  }

  module _ (env : ToolEnv) (provider : ProviderName) (model : String) (temperature : String) where
    abbrev pub ask : List Json → Progress → ToolState W → ToolCompletion
    ask schemas p st =
        env.complete_chat_with_tools st.chat.calls provider p.messages model schemas temperature

    abbrev pub run_round :
        Option Caller
        → Bool
        → ProviderToolCompletion
        → Progress
        → ToolState W
        → RoundEnd × ToolState W
    run_round caller on_activity c p st =
        run_calls env.request_id caller on_activity c.tool_calls (announce c p)
          (asking p.messages st)

    -- `for iteration in range(max_tool_iterations)`, with the last completion
    unfoldable pub iterate :
        ℕ
        → List Json
        → Option Caller
        → Bool
        → Progress
        → Option ProviderToolCompletion
        → ToolState W
        → LoopEnd × ToolState W
    iterate zero schemas caller on_activity p last st =
        (settled (result_of (fallback_of last) (some "tool_iteration_cap") (usage_of last) p), st)
    iterate (suc n) schemas caller on_activity p last st = elim (ask schemas p st) [
      | refused e ↦ (stopped (normalize_chat_error e), asking p.messages st)
      | given c ↦ elim (is_empty c.tool_calls) [
        | true ↦ (
          settled (result_of (text_or c.content "") c.finish_reason c.usage p),
          asking p.messages st,
        )
        | false ↦
            let (end_, st') = run_round caller on_activity c p st in
            elim end_ [
              | round_type_error ↦
                  (stopped (normalize_chat_error (other false false "typeerror")), st')
              | round_stopped ↦ (cancelled, st')
              | went_on p' ↦ elim (p'.guest_denied && may_not_call caller) [
                | true ↦
                    (settled (result_of guest_tool_denied_message (some "stop") c.usage p'), st')
                | false ↦ iterate n schemas caller on_activity p' (some c) st'
              ]
            ]
      ]
    ]

    -- without a tool to offer the model is asked as in a plain turn, but with no caller
    abbrev pub untooled : Completion → LoopEnd
    untooled (raised e) = stopped (normalize_chat_error e)
    untooled (completed c) = settled (record {
      content = c.content;
      finish_reason = c.finish_reason;
      usage = c.usage;
      tools_used = [];
    })

    unfoldable pub complete_untooled :
        ChatSettings → ChatRequest → ToolState W → LoopEnd × ToolState W
    complete_untooled settings request st = (
      untooled (
          env.chat.complete_chat st.chat.calls provider (request.first ∷ request.rest) model
            temperature (resolve_max_tokens none settings.tokens none (some provider))),
      record {
        chat = called st.chat;
        world = st.world;
        activity = st.activity;
        asked = List.◌++◌ st.asked (map plain (request.first ∷ request.rest) ∷ []);
      },
    )

    abbrev pub opening : ChatRequest → Progress
    opening request = record {
      messages = build_loop_messages env.tool_prompt request;
      tools_used = [];
      guest_denied = false;
    }

    unfoldable pub run_tool_loop :
        ChatSettings
        → ℕ
        → ChatRequest
        → Option Caller
        → Bool
        → Option (List String)
        → ToolState W
        → LoopEnd × ToolState W
    run_tool_loop settings max_tool_iterations request caller on_activity allowed_tool_names st =
        let schemas = allowed_schemas allowed_tool_names (get_schemas_for_llm tools) in
        if is_empty schemas
        then complete_untooled settings request st
        else if supports_tool_calling provider
        then iterate max_tool_iterations schemas caller on_activity (opening request) none st
        else (
          stopped (
              validation_error
                ("Tool calling is not supported for provider '" ++ name_of provider ++ "'.")),
          st,
        )
