-- ===== src/Tools/Echo.antt =====
-- backend-python/app/ai/tools/stubs/echo.py: the definition and the handler of the echo tool.
use chatbot_react_python_nod.Prelude.{true, none, some, [], Option}
use chatbot_react_python_nod.Json.{Json, str, arr, obj, cons, nil, end, field}
use chatbot_react_python_nod.Tools.Schema.{ToolDefinition, get_field}
use chatbot_react_python_nod.Tools.Executor.{Run, returned, raised, Handler}

abbrev pub echo_tool_definition : ToolDefinition
echo_tool_definition = record {
  name = "echo";
  description = "Echo a message back to the caller";
  parameters = field "type" (str "object") (
      field "properties" (obj (field "message" (obj (field "type" (str "string") end)) end))
        (field "required" (arr (cons (str "message") nil)) end));
}

-- a missing message is a KeyError
abbrev pub echo_of : Option Json → Run
echo_of none = raised
echo_of (some message) = returned (record {
  result = record {
    success = true;
    result = obj (field "echo" message end);
    error = none;
    error_code = none;
  };
  metadata = [];
})

abbrev pub echo_handler : {W : Type 0} → Handler W
echo_handler w arguments context = (echo_of (get_field "message" arguments), w)
