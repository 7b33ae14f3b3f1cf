-- ===== src/Chat/Audit.antt =====
-- What a chat leaves behind: its line in the activity log, and its call of a model.
use langgraph_agents.Base.{
  ◌≡◌, refl, ap, sym, ◌∙◌, ◌⊎◌, inl, inr, false, Bool-cases, Option, none, some, List, [], ◌∷◌,
  ◌++◌, if◌then◌else◌, map, Text,
}
use mathlib.Core.List.{append-nil}
use langgraph_agents.State.{AgentId, agent_of_name}
use langgraph_agents.Llm.{Memory, Model, Result, ok, err, llm}
use langgraph_agents.Llm.Gates.{IsClaude, ClaudePermitted, llm-ClaudePermitted}
use langgraph_agents.Chat.{
  ChatMessage, ChatCompletionRequest, LcMessage, to_lc_messages, ActivityLogEntry, AuditOutcome,
  success, error, Persona, persona, file_not_found, value_error, ChatDeployment, ChatState, entry,
  called, audit, on_answer, on_factory, on_persona, on_model, chat_completions,
}

-- What the log says of a call: a stream is logged before it starts, and so as a success.
abbrev pub outcome_of :
    ChatDeployment → ChatCompletionRequest → Model × List LcMessage → AuditOutcome
outcome_of d req call =
    if req.stream
    then success
    else elim (d.invoke call.0 call.1) [ none ↦ error | some content ↦ success ]

-- The calls that were made, and one line for each of them.
abbrev pub IsAudited : ChatDeployment → ChatCompletionRequest → ChatState → ChatState → Type 0
IsAudited d req st after =
    (made : List (Model × List LcMessage)) × (log : List ActivityLogEntry) × (after.calls
      ≡ st.calls ++ made)
    × (after.activity ≡ st.activity ++ log)
    × (map (λ e. e.outcome) log ≡ (if d.log_ok then map (outcome_of d req) made else []))

-- The one call of a chat: the model is the one that the factory gives the agent, the persona of the
-- agent comes first, and Claude is called only behind the gates of the factory.
abbrev pub IsCall :
    ChatDeployment → ChatCompletionRequest → ChatState → List (Model × List LcMessage) → Type 0
IsCall d req st calls =
    (agent : AgentId) × (p : Text) × (m : Model) × (agent_of_name req.model ≡ some agent)
    × (d.load_persona agent ≡ persona p)
    × ((llm d.world agent none false st.memory).0 ≡ ok m)
    × (calls ≡ st.calls ++ (m, to_lc_messages req.messages p) ∷ [])
    × (IsClaude (ok m) → ClaudePermitted d.world agent st.memory.acc)

module _ (d : ChatDeployment) (req : ChatCompletionRequest) (st : ChatState) where
  audit-calls :
      (agent : AgentId) (o : AuditOutcome) (after : ChatState)
      → (audit d agent req.messages o after).calls ≡ after.calls
  audit-calls agent o after = elim (Bool-cases d.log_ok) [ inl l ↦ rw l refl | inr l ↦ rw l refl ]

  after-calls :
      (agent : AgentId) (m : Model) (lc : List LcMessage) (mem : Memory) (answer : Option Text)
      → (on_answer d req agent answer (called d m lc (record st { memory = mem }))).1.calls
        ≡ st.calls ++ (m, lc) ∷ []
  after-calls agent m lc mem none =
      audit-calls agent error (called d m lc (record st { memory = mem }))
  after-calls agent m lc mem (some content) =
      audit-calls agent success (called d m lc (record st { memory = mem }))

  factory-calls :
      (agent : AgentId) (m : Model) (lc : List LcMessage) (mem : Memory)
      → (on_factory d req agent lc (ok m, mem) st).1.calls ≡ st.calls ++ (m, lc) ∷ []
  factory-calls agent m lc mem = elim (Bool-cases req.stream) [
    | inl e ↦ rw e (
        ap (λ calls. calls ++ (m, lc) ∷ [])
          (audit-calls agent success (record st { memory = mem })))
    | inr e ↦ rw e (after-calls agent m lc mem (d.invoke m lc))
  ]

  quiet-IsAudited : (mem : Memory) → IsAudited d req st (record st { memory = mem })
  quiet-IsAudited mem = elim (Bool-cases d.log_ok) [
    | inl l ↦ ([], [], sym (append-nil st.calls), sym (append-nil st.activity), rw l refl)
    | inr l ↦ ([], [], sym (append-nil st.calls), sym (append-nil st.activity), rw l refl)
  ]

  -- One call and its line, in either order.
  call-IsAudited :
      (agent : AgentId) (m : Model) (lc : List LcMessage) (o : AuditOutcome) (after : ChatState)
      → after.calls ≡ st.calls ++ (m, lc) ∷ []
      → after.activity ≡ st.activity ++ (if d.log_ok then entry d agent req.messages o ∷ [] else [])
      → o ≡ outcome_of d req (m, lc)
      → IsAudited d req st after
  call-IsAudited agent m lc o after c a e = elim (Bool-cases d.log_ok) [
    | inl l ↦ (
      (m, lc) ∷ [],
      entry d agent req.messages o ∷ [],
      c,
      a ∙ rw l refl,
      rw l (ap (λ x. x ∷ []) e),
    )
    | inr l ↦ ((m, lc) ∷ [], [], c, a ∙ rw l refl, rw l refl)
  ]

  audit-activity :
      (agent : AgentId) (o : AuditOutcome) (after : ChatState)
      → (audit d agent req.messages o after).activity
        ≡ after.activity ++ (if d.log_ok then entry d agent req.messages o ∷ [] else [])
  audit-activity agent o after = elim (Bool-cases d.log_ok) [
    | inl l ↦ rw l refl
    | inr l ↦ rw l (sym (append-nil after.activity))
  ]

  answer-activity :
      (agent : AgentId) (m : Model) (lc : List LcMessage) (answer : Option Text) (after : ChatState)
      → (on_answer d req agent answer after).1.activity
        ≡ after.activity
          ++ (if d.log_ok
              then entry d agent req.messages
                  (elim answer [ none ↦ error | some content ↦ success ])
                ∷ []
              else [])
  answer-activity agent m lc none after = audit-activity agent error after
  answer-activity agent m lc (some content) after = audit-activity agent success after

  factory-activity :
      (agent : AgentId) (m : Model) (lc : List LcMessage) (mem : Memory)
      → (on_factory d req agent lc (ok m, mem) st).1.activity
        ≡ st.activity
          ++ (if d.log_ok then entry d agent req.messages (outcome_of d req (m, lc)) ∷ [] else [])
  factory-activity agent m lc mem = elim (Bool-cases req.stream) [
    | inl e ↦ simp (e) (audit-activity agent success (record st { memory = mem }))
    | inr e ↦
        simp (e)
          (answer-activity agent m lc (d.invoke m lc) (called d m lc (record st { memory = mem })))
  ]

  factory-IsAudited :
      (agent : AgentId) (lc : List LcMessage) (r : Result × Memory)
      → IsAudited d req st (on_factory d req agent lc r st).1
  factory-IsAudited agent lc (err e, mem) = quiet-IsAudited mem
  factory-IsAudited agent lc (ok m, mem) =
      call-IsAudited agent m lc (outcome_of d req (m, lc))
        (on_factory d req agent lc (ok m, mem) st).1 (factory-calls agent m lc mem)
        (factory-activity agent m lc mem) refl

  persona-IsAudited :
      (agent : AgentId) (p : Persona) → IsAudited d req st (on_persona d req agent p st).1
  persona-IsAudited agent file_not_found = quiet-IsAudited st.memory
  persona-IsAudited agent value_error = quiet-IsAudited st.memory
  persona-IsAudited agent (persona p) =
      factory-IsAudited agent (to_lc_messages req.messages p)
        (llm d.world agent none false st.memory)

  model-IsAudited :
      (agent : Option AgentId) (ms : List ChatMessage)
      → IsAudited d req st (on_model d req agent ms st).1
  model-IsAudited none ms = quiet-IsAudited st.memory
  model-IsAudited (some agent) [] = quiet-IsAudited st.memory
  model-IsAudited (some agent) (m ∷ ms) = persona-IsAudited agent (d.load_persona agent)

  -- A chat leaves one line in the activity log, if the log can be written, for each call of a model
  -- and no other: an error where a call that is not streamed raised, and a success otherwise, also
  -- where a stream breaks off.
  pub chat_completions-IsAudited : IsAudited d req st (chat_completions d req st).1
  unfolding chat_completions
  chat_completions-IsAudited = model-IsAudited (agent_of_name req.model) req.messages

  factory-IsCall :
      (agent : AgentId) (p : Text) (r : Result × Memory)
      → agent_of_name req.model ≡ some agent
      → d.load_persona agent ≡ persona p
      → (llm d.world agent none false st.memory).0 ≡ r.0
      → (IsClaude r.0 → ClaudePermitted d.world agent st.memory.acc)
      → ((on_factory d req agent (to_lc_messages req.messages p) r st).1.calls ≡ st.calls)
        ⊎ IsCall d req st (on_factory d req agent (to_lc_messages req.messages p) r st).1.calls
  factory-IsCall agent p (err e, mem) named loaded made permitted = inl refl
  factory-IsCall agent p (ok m, mem) named loaded made permitted = inr (
    agent,
    p,
    m,
    named,
    loaded,
    made,
    factory-calls agent m (to_lc_messages req.messages p) mem,
    permitted,
  )

  persona-IsCall :
      (agent : AgentId) (p : Persona)
      → agent_of_name req.model ≡ some agent
      → d.load_persona agent ≡ p
      → ((on_persona d req agent p st).1.calls ≡ st.calls)
        ⊎ IsCall d req st (on_persona d req agent p st).1.calls
  persona-IsCall agent file_not_found named loaded = inl refl
  persona-IsCall agent value_error named loaded = inl refl
  persona-IsCall agent (persona p) named loaded =
      factory-IsCall agent p (llm d.world agent none false st.memory) named loaded refl
        (llm-ClaudePermitted d.world agent none false st.memory)

  model-IsCall :
      (agent : Option AgentId) (ms : List ChatMessage)
      → agent_of_name req.model ≡ agent
      → ((on_model d req agent ms st).1.calls ≡ st.calls)
        ⊎ IsCall d req st (on_model d req agent ms st).1.calls
  model-IsCall none ms named = inl refl
  model-IsCall (some agent) [] named = inl refl
  model-IsCall (some agent) (m ∷ ms) named = persona-IsCall agent (d.load_persona agent) named refl

  -- A chat calls no model or one: that which the factory gives the agent that the request names, with the agent's persona
  -- before the messages of the request; Claude is called only where the master switch is on, a key is
  -- set, the data is not restricted and each of the caps has room.
  pub chat_completions-IsCall :
      ((chat_completions d req st).1.calls ≡ st.calls)
      ⊎ IsCall d req st (chat_completions d req st).1.calls
  unfolding chat_completions
  chat_completions-IsCall = model-IsCall (agent_of_name req.model) req.messages refl
