-- ===== src/Chat/Examples.antt =====
-- Chats with the coder.
use langgraph_agents.Base.{◌≡◌, refl, true, false, none, [], ◌∷◌, text, text_eq, ◌⊎◌}
use langgraph_agents.State.{agent_of_name}
use langgraph_agents.Llm.Examples.{small, nothing_spent}
use langgraph_agents.Chat.{
  ChatCompletionRequest, ChatDeployment, ChatState, user_role, tool_role, persona, chat_completions,
  unknown_model, messages_empty, deltas, stream_response, delta, stop, done, converted,
  human_message,
}
use langgraph_agents.Chat.Audit.{
  IsAudited, IsCall, chat_completions-IsAudited, chat_completions-IsCall,
}

abbrev deployment : ChatDeployment
deployment = record {
  world = small;
  load_persona = λ agent. persona (text "You write code.");
  task_id = text "openwebui-1";
  log_ok = true;
  invoke = λ m lc. none;
  astream = λ m lc. (text "a" ∷ [] ∷ text "b" ∷ [], true);
}

abbrev request : ChatCompletionRequest
request = record {
  model = text "coder";
  messages =
      record { role = user_role; content = text "hi" }
      ∷ record { role = tool_role; content = text "x" }
      ∷ [];
  stream = false;
}

abbrev start : ChatState
start = record { memory = nothing_spent; activity = []; calls = [] }

unknown :
    (chat_completions deployment (record request { model = text "gpt" }) start).0 ≡ unknown_model
unfolding chat_completions agent_of_name text_eq
unknown = refl

empty : (chat_completions deployment (record request { messages = [] }) start).0 ≡ messages_empty
unfolding chat_completions agent_of_name text_eq
empty = refl

tools_dropped : converted request.messages ≡ human_message (text "hi") ∷ []
unfolding converted
tools_dropped = refl

streamed :
    stream_response (text "a" ∷ [] ∷ text "b" ∷ [], true)
    ≡ delta (text "a") ∷ delta (text "b") ∷ stop ∷ done ∷ []
unfolding stream_response deltas
streamed = refl

chat_completions-IsAudited_example :
    IsAudited deployment request start (chat_completions deployment request start).1
chat_completions-IsAudited_example = chat_completions-IsAudited deployment request start

chat_completions-IsCall_example :
    ((chat_completions deployment request start).1.calls ≡ [])
    ⊎ IsCall deployment request start (chat_completions deployment request start).1.calls
chat_completions-IsCall_example = chat_completions-IsCall deployment request start
