-- ===== src/Mcp/Examples.antt =====
-- The allowlists of mcp.py at concrete requests.
use langgraph_agents.Base.{◌≡◌, refl, [], text, text_eq}
use langgraph_agents.State.{coder}
use langgraph_agents.Mcp.{allowlists, is_allowed, call, Answer, response, permission_error}

abbrev answer : Answer
answer = response 200

refused_coder :
    call coder (text "kubectl-mcp") (text "kubectl_apply") answer ≡ (permission_error, [])
unfolding call is_allowed allowlists text_eq
refused_coder = refl
