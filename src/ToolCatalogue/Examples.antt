-- ===== src/ToolCatalogue/Examples.antt =====
-- The auditor's tools, and two tasks that start together.
use langgraph_agents.Base.{
  ℕ, ◌≡◌, refl, ◌≤◌, true, false, none, some, List, [], ◌∷◌, All, Text, text, text_eq,
}
use langgraph_agents.State.{auditor, coder, storage_operator}
use langgraph_agents.ToolCatalogue.{
  agent_tool_names, build_mcp_tools_for_agent, ensure_tools_loaded, is_wanted,
}
use langgraph_agents.ToolCatalogue.Discovery.{
  Process, Caller, at_lock, rechecking, asking, returned, miss, acquire, ask, reply, hit_under_lock,
  run, Reach, start, later, fresh, update, Reach-IsShared,
}
use langgraph_agents.ToolCatalogue.Scope.{
  IsScoped, build_mcp_tools_for_agent-IsScoped, builds, outage-lasts,
}

abbrev catalog : List Text
catalog = text "kubectl_get_pods" ∷ text "kubectl_apply" ∷ []

filtered : (build_mcp_tools_for_agent auditor (some catalog) none).0 ≡ text "kubectl_get_pods" ∷ []
unfolding build_mcp_tools_for_agent ensure_tools_loaded agent_tool_names is_wanted text_eq
filtered = refl

untooled : build_mcp_tools_for_agent coder (some catalog) none ≡ ([], none, false)
unfolding build_mcp_tools_for_agent agent_tool_names
untooled = refl

build_mcp_tools_for_agent-IsScoped_example :
    All (IsScoped auditor catalog) (build_mcp_tools_for_agent auditor (some catalog) none).0
build_mcp_tools_for_agent-IsScoped_example =
    build_mcp_tools_for_agent-IsScoped auditor (some catalog) none

outage-lasts_example :
    All
      (λ tools. tools ≡ [])
      (builds
        ((auditor, none) ∷ (storage_operator, some catalog) ∷ (auditor, some catalog) ∷ [])
        none)
unfolding agent_tool_names
outage-lasts_example =
    outage-lasts auditor (text "kubectl_get_pods")
      (text "kubectl_get_deployments"
        ∷ text "kubectl_get_namespaces"
        ∷ text "kubectl_describe"
        ∷ text "kubectl_get_events"
        ∷ text "kubectl_get_logs"
        ∷ [])
      ((storage_operator, some catalog) ∷ (auditor, some catalog) ∷ []) refl

-- The callers after both have missed the cache, and after the first has asked the gateway.
abbrev both_waiting : ℕ → Caller
both_waiting = update (update fresh.callers 0 at_lock) 1 at_lock

abbrev answered : Process
answered = record {
  shared = record { cache = some catalog; locked = false; asked = 1 };
  callers = update (update (update both_waiting 0 rechecking) 0 asking) 0 (returned catalog);
}

abbrev second_in : Process
second_in = record {
  shared = record { cache = some catalog; locked = true; asked = 1 };
  callers = update answered.callers 1 rechecking;
}

abbrev both_returned : Process
both_returned = record {
  shared = record { cache = some catalog; locked = false; asked = 1 };
  callers = update second_in.callers 1 (returned catalog);
}

first_answered : Reach answered
first_answered =
    later
      (later
        (later (later (later start (run fresh 0 _ _ (miss _ refl))) (run _ 1 _ _ (miss _ refl)))
          (run _ 0 _ _ (acquire _ refl)))
        (run _ 0 _ _ (ask _ refl)))
      (run _ 0 _ _ (reply _ (some catalog)))

two_callers : Reach both_returned
two_callers =
    later (later first_answered (run answered 1 _ _ (acquire _ refl)))
      (run second_in 1 _ _ (hit_under_lock _ catalog refl))

Reach-IsShared_example :
    (both_returned.shared.asked ≤ 1)
    × ((i j : ℕ) (c d : List Text)
        → both_returned.callers i ≡ returned c
        → both_returned.callers j ≡ returned d
        → some c ≡ some d)
Reach-IsShared_example = Reach-IsShared both_returned two_callers
