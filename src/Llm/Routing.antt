-- ===== src/Llm/Routing.antt =====
-- Which service and group serve a model that llm.py hands out, and what is recorded of it.
use langgraph_agents.Base.{
  ◌≡◌, refl, inl, inr, true, false, Bool, Option, some, arith, Text, text_eq_refl, ◌∷◌, ◌&&◌,
  Bool-cases, get-put,
}
use langgraph_agents.State.{AgentId}
use langgraph_agents.Router.{
  ModelGroup, local_p40, claude, score_route, is_p40_group, is_claude_group,
}
use langgraph_agents.Observability.{
  Accumulators, Groups, add_group, has_group, served_groups_for, record_served_group,
}
use langgraph_agents.Llm.{
  World, Memory, Model, Result, ok, err, chat_ollama, chat_anthropic, p40, spark, claude_allowed,
  build_claude, build_ollama, route_group, after_pin, escalation, llm,
}

-- The service is one that the probe found healthy, it serves the group that the metrics name, and
-- the context size is that group's.
abbrev pub IsServed : World → Model → Type 0
IsServed w (chat_ollama p40 model group n) =
    (w.service_healthy p40 ≡ true)
    × (model ≡ local_p40)
    × (group ≡ local_p40)
    × (n ≡ w.settings.ollama_num_ctx_p40)
IsServed w (chat_ollama spark model group n) =
    (w.service_healthy spark ≡ true)
    × (group ≡ model)
    × (is_p40_group group ≡ false)
    × (is_claude_group group ≡ false)
    × (n ≡ w.settings.ollama_num_ctx_spark)
IsServed w (chat_anthropic model) = model ≡ w.settings.claude_model

abbrev pub served_by : Model → ModelGroup
served_by (chat_ollama _ _ group _) = group
served_by (chat_anthropic _) = claude

-- The effect on the accumulators: a model records its group, an error records nothing.
abbrev pub Records : World → Accumulators → Result × Memory → Type 0
Records w acc (ok model, m) =
    IsServed w model × (m.acc ≡ record_served_group w.ctx.task_id (served_by model) acc)
Records w acc (err e, m) = m.acc ≡ acc

module _ (w : World) (a : AgentId) (m : Memory) where
  build_claude-Records : Records w m.acc (build_claude w a m)
  unfolding build_claude
  build_claude-Records = ground arith

  route_group-Records : (g : ModelGroup) → Records w m.acc (route_group w a g m)
  unfolding route_group build_ollama
  route_group-Records claude = ground (arith, build_claude-Records)
  route_group-Records _ = ground (arith, build_claude-Records)

after_pin-Records :
    (w : World) (a : AgentId) (g : ModelGroup) (escalate : Bool) (m : Memory)
    → Records w m.acc (after_pin w a g escalate m)
unfolding after_pin
after_pin-Records w a g escalate m =
    let decision = score_route a g w.settings w.ctx in
    let m' = record m { decisions = (a, decision) ∷ m.decisions } in
    elim (Bool-cases (escalation w decision escalate && claude_allowed w.settings)) [
      | inl remote ↦ rw remote (build_claude-Records w a m')
      | inr other ↦ rw other (route_group-Records w a m' g)
    ]

-- On every route, a local model comes from a service that the probe found healthy, under the group
-- that this service serves and with that group's context size, and exactly the group that serves
-- is added to the task's provenance; an error leaves the accumulators as they were.
pub llm-Records :
    (w : World) (a : AgentId) (override : Option ModelGroup) (escalate : Bool) (m : Memory)
    → Records w m.acc (llm w a override escalate m)
unfolding llm
llm-Records w a override escalate m = after_pin-Records w a _ _ m

has_group-add : (s : Groups) (g : ModelGroup) → has_group (add_group s g) g ≡ true
has_group-add s local_p40 = refl
has_group-add s _ = refl

-- After a group is recorded for a task, the groups that the worker drains for it contain it.
pub served_groups-record :
    (t : Text) (g : ModelGroup) (acc : Accumulators)
    → has_group (served_groups_for (some t) (record_served_group (some t) g acc)) g ≡ true
unfolding served_groups_for record_served_group
served_groups-record t g acc = simp (get-put, text_eq_refl, has_group-add)
