-- ===== src/Observability/Examples.antt =====
-- The accumulators of observability.py at concrete calls.
use langgraph_agents.Base.{◌≡◌, refl, [], ◌∷◌, text, starts_with, none, some}
use langgraph_agents.State.{coder}
use langgraph_agents.Router.{claude}
use langgraph_agents.Base.{◌+◌, ◌-◌, ◌++◌, get, ℕ_eq}
use langgraph_agents.Observability.Callback.{
  Telemetry, LlmOutput, no_usage, CallSample, on_start, on_llm_end, on_llm_error, handle,
  handle_all, total_cost,
}
use langgraph_agents.Observability.Callback.Runs.{ended, handle_all-run, handle_all-cost}
use langgraph_agents.Observability.{Accumulators, compute_anthropic_cost, price}

-- One entry that is twenty days old, and one of the day before.
abbrev accumulators : Accumulators
accumulators = record {
  task_spend = (text "t1", 3) ∷ [];
  agent_daily_spend = ((coder, 80), 9) ∷ ((coder, 99), 4) ∷ [];
  task_served_groups = [];
  claude_cost = 16;
}

opus_cost : compute_anthropic_cost (text "claude-opus-4-7") 1000 200 ≡ 3000000
unfolding compute_anthropic_cost price starts_with
opus_cost = refl

unpriced_cost : compute_anthropic_cost (text "llama3") 1000 200 ≡ 0
unfolding compute_anthropic_cost price starts_with
unpriced_cost = refl

abbrev telemetry : Telemetry
telemetry = record {
  handler = record { agent = coder; group = claude; model = text "claude-opus-4-7"; starts = [] };
  samples = [];
  acc = accumulators;
}

abbrev output : LlmOutput
output = record {
  token_usage = none;
  usage = some (record no_usage { input_tokens = some 1000; output_tokens = some 200 });
}

-- A second run starts in between, and fails.
handle_all-run_example :
    let before =
      handle_all 100 none
        (on_start 2 15 ∷ on_llm_error 2 18 ∷ [])
        (handle 100 none (on_start 1 10) telemetry) in
    (s : CallSample) × ((handle 100 none (ended (some (some output)) 1 40) before).samples
      ≡ before.samples ++ s ∷ [])
    × (s.run_id ≡ 1)
    × (s.duration ≡ 40 - 10)
    × (get (handle 100 none (ended (some (some output)) 1 40) before).handler.starts 1 ≡ none)
handle_all-run_example =
    handle_all-run 100 none 1 10 40 (some (some output)) (on_start 2 15 ∷ on_llm_error 2 18 ∷ [])
      telemetry (refl, (refl, tt))

handle_all-cost_example :
    let es = on_start 1 10 ∷ on_llm_end 1 40 (some output) ∷ [] in
    (handle_all 100 none es telemetry).acc.claude_cost + 0
    ≡ 16 + total_cost (handle_all 100 none es telemetry).samples
handle_all-cost_example =
    handle_all-cost 100 none (on_start 1 10 ∷ on_llm_end 1 40 (some output) ∷ []) telemetry
