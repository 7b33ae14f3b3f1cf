-- ===== src/Chat.antt =====
-- src/agents/api/chat_completions.py: the OpenAI-shaped chat with one agent, past the fleet graph. The
-- deployment's personas, the provider's answers, the minted task id and the success of a write to the
-- activity log are arguments; `calls` lists the requests that leave the process. The rendering of the
-- JSON envelopes is left out.
pub mod Audit
pub mod Examples
use langgraph_agents.Base.{
  Bool, true, false, Option, none, some, List, [], ◌∷◌, ◌++◌, if◌then◌else◌, take, map, Text, text,
  text_or,
}
use langgraph_agents.State.{AgentId, all_agent_ids, agent_of_name, agent_name, ActionClass, class_a}
use langgraph_agents.Llm.{World, Memory, Model, LlmError, Result, ok, err, llm}

pub data Role : Type 0 where
  system_role user_role assistant_role tool_role : Role

pub record ChatMessage : Type 0 where
  pub role : Role
  pub content : Text

pub record ChatCompletionRequest : Type 0 where
  pub model : Text
  pub messages : List ChatMessage
  pub stream : Bool

pub data LcMessage : Type 0 where
  system_message human_message ai_message : (content : Text) → LcMessage

unfoldable pub list_models : List Text
list_models = map agent_name all_agent_ids

abbrev pub to_lc_message : Role → Text → List LcMessage → List LcMessage
to_lc_message system_role content rest = system_message content ∷ rest
to_lc_message user_role content rest = human_message content ∷ rest
to_lc_message assistant_role content rest = ai_message content ∷ rest
to_lc_message tool_role content rest = rest

unfoldable pub converted : List ChatMessage → List LcMessage
converted [] = []
converted (m ∷ ms) = to_lc_message m.role m.content (converted ms)

abbrev pub to_lc_messages : List ChatMessage → Text → List LcMessage
to_lc_messages messages persona = system_message persona ∷ converted messages

abbrev pub user_content : Role → Text → Text → Text
user_content user_role content found = content
user_content _ content found = found

-- The content of the last message of the user, or `found`.
unfoldable pub last_user : Text → List ChatMessage → Text
last_user found [] = found
last_user found (m ∷ ms) = last_user (user_content m.role m.content found) ms

unfoldable pub summary : List ChatMessage → Text
summary ms = take 200 (text_or (some (last_user [] ms)) (text "(no user prompt)"))

pub data AuditOutcome : Type 0 where
  success error : AuditOutcome

pub record ActivityLogEntry : Type 0 where
  pub agent : AgentId
  pub task_id : Text
  pub action_class : ActionClass
  pub summary : Text
  pub outcome : AuditOutcome

pub data Persona : Type 0 where
  persona : Text → Persona
  file_not_found value_error : Persona

pub record ChatDeployment : Type 0 where
  pub world : World
  pub load_persona : AgentId → Persona
  pub task_id : Text
  pub log_ok : Bool
  pub invoke : Model → List LcMessage → Option Text
  pub astream : Model → List LcMessage → List Text × Bool

pub record ChatState : Type 0 where
  pub memory : Memory
  pub activity : List ActivityLogEntry
  pub calls : List (Model × List LcMessage)

pub data Chunk : Type 0 where
  delta : Text → Chunk
  stop : Chunk
  done : Chunk

pub data ChatResponse : Type 0 where
  unknown_model : ChatResponse  -- 404
  messages_empty : ChatResponse  -- 400
  persona_not_loaded : ChatResponse  -- 503
  persona_raised : ChatResponse
  factory_raised : LlmError → ChatResponse
  call_raised : ChatResponse
  completion : (model content : Text) → ChatResponse
  streaming : (model : Text) → List Chunk → ChatResponse

unfoldable pub deltas : List Text → List Chunk
deltas [] = []
deltas ([] ∷ ts) = deltas ts
deltas ((c ∷ t) ∷ ts) = delta (c ∷ t) ∷ deltas ts

-- The chunks of a stream, which ends early where the provider raises.
unfoldable pub stream_response : List Text × Bool → List Chunk
stream_response (ts, ended) = deltas ts ++ (if ended then stop ∷ done ∷ [] else [])

module _ (d : ChatDeployment) where
  abbrev pub entry : AgentId → List ChatMessage → AuditOutcome → ActivityLogEntry
  entry agent ms outcome = record {
    agent = agent;
    task_id = d.task_id;
    action_class = class_a;
    summary = text "[openwebui] " ++ summary ms;
    outcome = outcome;
  }

  -- A write to the activity log that fails is only logged.
  abbrev pub audit : AgentId → List ChatMessage → AuditOutcome → ChatState → ChatState
  audit agent ms outcome st =
      if d.log_ok then record st { activity = st.activity ++ entry agent ms outcome ∷ [] } else st

  abbrev pub called : Model → List LcMessage → ChatState → ChatState
  called m lc st = record st { calls = st.calls ++ (m, lc) ∷ [] }

  abbrev pub on_answer :
      ChatCompletionRequest → AgentId → Option Text → ChatState → ChatResponse × ChatState
  on_answer req agent none st = (call_raised, audit agent req.messages error st)
  on_answer req agent (some content) st =
      (completion req.model content, audit agent req.messages success st)

  abbrev pub on_factory :
      ChatCompletionRequest
      → AgentId
      → List LcMessage
      → Result × Memory
      → ChatState
      → ChatResponse × ChatState
  on_factory req agent lc (err e, mem) st = (factory_raised e, record st { memory = mem })
  on_factory req agent lc (ok m, mem) st =
      if req.stream
      then (
        streaming req.model (stream_response (d.astream m lc)),
        called m lc (audit agent req.messages success (record st { memory = mem })),
      )
      else on_answer req agent (d.invoke m lc) (called m lc (record st { memory = mem }))

  abbrev pub on_persona :
      ChatCompletionRequest → AgentId → Persona → ChatState → ChatResponse × ChatState
  on_persona req agent file_not_found st = (persona_not_loaded, st)
  on_persona req agent value_error st = (persona_raised, st)
  on_persona req agent (persona p) st =
      on_factory req agent (to_lc_messages req.messages p) (llm d.world agent none false st.memory)
        st

  abbrev pub on_model :
      ChatCompletionRequest
      → Option AgentId
      → List ChatMessage
      → ChatState
      → ChatResponse × ChatState
  on_model req none ms st = (unknown_model, st)
  on_model req (some agent) [] st = (messages_empty, st)
  on_model req (some agent) (m ∷ ms) st = on_persona req agent (d.load_persona agent) st

  unfoldable pub chat_completions : ChatCompletionRequest → ChatState → ChatResponse × ChatState
  chat_completions req st = on_model req (agent_of_name req.model) req.messages st
