-- ===== src/Observability/Callback.antt =====
-- `LangGraphMetricsCallback` of src/agents/observability.py: one handler per model, whose runs may
-- overlap. A run id is a number, an instant a number of a fixed unit of the monotonic clock. What
-- `record_llm_call` sends to Prometheus is a list of samples; the accumulators are updated with it.
pub mod Runs
use langgraph_agents.Base.{
  ℕ, zero, suc, ◌+◌, ◌-◌, Option, none, some, List, [], ◌∷◌, ◌++◌, or_else, Text, get, put, remove,
  ℕ_eq,
}
use langgraph_agents.State.{AgentId}
use langgraph_agents.Router.{ModelGroup}
use langgraph_agents.Observability.{Accumulators, record_llm_call, compute_anthropic_cost}

-- The fields of a provider's usage that are read: Anthropic's names, then those of Ollama and OpenAI.
pub record Usage : Type 0 where
  pub input_tokens : Option ℕ
  pub prompt_tokens : Option ℕ
  pub output_tokens : Option ℕ
  pub completion_tokens : Option ℕ

-- `response.llm_output`, with its two places for the usage.
pub record LlmOutput : Type 0 where
  pub token_usage : Option Usage
  pub usage : Option Usage

abbrev pub no_usage : Usage
no_usage = record {
  input_tokens = none;
  prompt_tokens = none;
  output_tokens = none;
  completion_tokens = none;
}

abbrev pub usage_of : Option LlmOutput → Usage
usage_of none = no_usage
usage_of (some o) = or_else o.token_usage (or_else o.usage no_usage)

-- `a or b or 0`
abbrev pub tokens : Option ℕ → Option ℕ → ℕ
tokens none b = or_else b 0
tokens (some zero) b = or_else b 0
tokens (some (suc n)) b = suc n

pub data CallOutcome : Type 0 where
  success error : CallOutcome

pub record CallSample : Type 0 where
  pub run_id : ℕ
  pub outcome : CallOutcome
  pub tokens_in : ℕ
  pub tokens_out : ℕ
  pub cost : ℕ
  pub duration : ℕ

-- A handler with the runs that it has seen start.
pub record Handler : Type 0 where
  pub agent : AgentId
  pub group : ModelGroup
  pub model : Text
  pub starts : List (ℕ × ℕ)

pub record Telemetry : Type 0 where
  pub handler : Handler
  pub samples : List CallSample
  pub acc : Accumulators

pub data RunEvent : Type 0 where
  on_start : (run_id now : ℕ) → RunEvent
  on_llm_end : (run_id now : ℕ) → Option LlmOutput → RunEvent
  on_llm_error : (run_id now : ℕ) → RunEvent

abbrev pub run_of : RunEvent → ℕ
run_of (on_start r now) = r
run_of (on_llm_end r now o) = r
run_of (on_llm_error r now) = r

-- `self._starts.pop(run_id, now)`, subtracted from now.
abbrev pub duration_of : Handler → (run_id now : ℕ) → ℕ
duration_of h r now = now - or_else (get h.starts r) now

abbrev pub popped : Handler → ℕ → Handler
popped h r = record h { starts = remove h.starts r }

abbrev pub success_sample : Handler → (run_id now : ℕ) → Usage → CallSample
success_sample h r now u =
    let tokens_in = tokens u.input_tokens u.prompt_tokens in
    let tokens_out = tokens u.output_tokens u.completion_tokens in
    record {
      run_id = r;
      outcome = success;
      tokens_in = tokens_in;
      tokens_out = tokens_out;
      cost = compute_anthropic_cost h.model tokens_in tokens_out;
      duration = duration_of h r now;
    }

abbrev pub error_sample : Handler → (run_id now : ℕ) → CallSample
error_sample h r now = record {
  run_id = r;
  outcome = error;
  tokens_in = 0;
  tokens_out = 0;
  cost = 0;
  duration = duration_of h r now;
}

abbrev pub total_cost : List CallSample → ℕ
total_cost [] = 0
total_cost (s ∷ ss) = s.cost + total_cost ss

module _ (today : ℕ) (task_id : Option Text) where
  abbrev pub emitted : Telemetry → ℕ → CallSample → Telemetry
  emitted t r s = record {
    handler = popped t.handler r;
    samples = t.samples ++ s ∷ [];
    acc = record_llm_call today task_id t.handler.agent t.handler.group s.cost t.acc;
  }

  unfoldable pub handle : RunEvent → Telemetry → Telemetry
  handle (on_start r now) t = record t {
    handler = record t.handler { starts = put t.handler.starts r now };
  }
  handle (on_llm_end r now o) t = emitted t r (success_sample t.handler r now (usage_of o))
  handle (on_llm_error r now) t = emitted t r (error_sample t.handler r now)

  unfoldable pub handle_all : List RunEvent → Telemetry → Telemetry
  handle_all [] t = t
  handle_all (e ∷ es) t = handle_all es (handle e t)
