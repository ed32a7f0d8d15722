-- ===== src/Chat/Samples.antt =====
-- Sample data for the tests on chats: a guest's session without messages, and models that answer or fail.
use chatbot_react_python_nod.Prelude.{
  nat_eq, select, Bool-cases, inl, inr, refl, true, false, none, some, [], ◌∷◌,
}
use chatbot_react_python_nod.Agent.Models.{Role}
use chatbot_react_python_nod.Tools.Schema.{guest}
use chatbot_react_python_nod.Documents.Ask.{ProviderName}
use chatbot_react_python_nod.Chat.Store.{find_session, first_where, ChatSession}
use chatbot_react_python_nod.Chat.Usage.{Caller, TokenSettings}
use chatbot_react_python_nod.Chat.Errors.{other}
use chatbot_react_python_nod.Chat.Turn.{
  ChatSettings, ChatState, completed, raised, Completion, ChatEnv,
}
use chatbot_react_python_nod.Chat.Summary.{Turn}
use chatbot_react_python_nod.Chat.Complete.Gapless.{Gapless}

abbrev pub tokens : TokenSettings
tokens = record {
  default_max_tokens = none;
  guest_max_output_tokens = 1024;
  demo_mode_strict = true;
  anthropic_max_tokens = 4096;
}

abbrev pub visitor : Caller
visitor = record { kind = guest; user_id = none; guest_id = some "g1" }

abbrev pub settings : ChatSettings
settings = record {
  llm_provider = ProviderName.openai;
  default_model = λ name. "model-1";
  tokens = tokens;
  guest_daily_message_quota = 5;
  summary_trigger_message_count = 20;
}

abbrev pub provider : Completion → ChatEnv
provider answer = record {
  complete_chat = λ n name messages model temperature limit. answer;
  summarize_system = "Summarize.";
  summarize_user = λ transcript. transcript;
}

abbrev pub answering : ChatEnv
answering = provider (completed (record { content = "Hello."; finish_reason = none; usage = none }))

abbrev pub timing_out : ChatEnv
timing_out = provider (raised (other true false "timeouterror"))

abbrev pub session : ChatSession
session = record {
  id = 1;
  user_id = none;
  guest_id = some "g1";
  title = none;
  next_seq = 1;
  last_message_at = none;
}

abbrev pub start : ChatState
start = record {
  tables = record {
    sessions = session ∷ [];
    messages = [];
    summaries = [];
    linked = ("g1", "u1") ∷ [];
    fresh = 2;
    now = 0;
  };
  events = [];
  counts = [];
  calls = 0;
}

abbrev pub turn : Turn
turn = record {
  provider = ProviderName.openai;
  model = "model-1";
  caller = visitor;
  session = session;
  request = record {
    first = (Role.user, "Hi");
    rest = [];
    temperature = "0.7";
    session_id = some 1;
    client_message_id = some "m1";
  };
  prompt_text = "Hi";
}

-- no message, and the session's next number is 1
pub start-Gapless : Gapless start.tables
unfolding find_session first_where select
start-Gapless id = elim (Bool-cases (nat_eq 1 id)) [
  | inl e ↦ rw (find_session, e) refl
  | inr e ↦ rw (find_session, e) refl
]
