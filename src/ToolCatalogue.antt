-- ===== src/ToolCatalogue.antt =====
-- src/agents/tools/mcp_langchain.py: the tools that an agent's loop is handed, and the catalogue that
-- the process asks the gateway for. A tool is its name; the gateway's answer is a list of tools, or
-- `none` where the discovery raises.
pub mod Discovery
pub mod Scope
pub mod Examples
use langgraph_agents.Base.{
  Bool, true, false, Option, none, some, List, [], ◌∷◌, ◌++◌, any, filter, Text, text, text_eq,
}
use langgraph_agents.State.{
  AgentId, auditor, network_operator, storage_operator, observability_operator, homelab_engineer,
  smart_home_operator,
}

-- `_AGENT_TOOL_NAMES`; the agents without an entry have no tools.
unfoldable pub agent_tool_names : AgentId → List Text
agent_tool_names auditor =
    text "kubectl_get_pods"
    ∷ text "kubectl_get_deployments"
    ∷ text "kubectl_get_namespaces"
    ∷ text "kubectl_describe"
    ∷ text "kubectl_get_events"
    ∷ text "kubectl_get_logs"
    ∷ []
agent_tool_names network_operator =
    text "omada_listSites"
    ∷ text "omada_listDevices"
    ∷ text "omada_getSsidList"
    ∷ text "omada_getLanNetworkList"
    ∷ text "omada_getGatewayWanStatus"
    ∷ text "omada_getFirewallSetting"
    ∷ text "omada_listSiteAlerts"
    ∷ text "omada_listSiteEvents"
    ∷ text "netbox_netbox_get_objects"
    ∷ text "netbox_netbox_search_objects"
    ∷ text "netbox_netbox_get_object_by_id"
    ∷ []
agent_tool_names storage_operator =
    text "kubectl_get_pvcs"
    ∷ text "kubectl_get_persistent_volumes"
    ∷ text "kubectl_get_storage_classes"
    ∷ text "kubectl_get_pods"
    ∷ text "kubectl_get_deployments"
    ∷ text "kubectl_get_namespaces"
    ∷ text "kubectl_describe"
    ∷ text "kubectl_get_events"
    ∷ []
agent_tool_names observability_operator =
    text "grafana_query_prometheus"
    ∷ text "grafana_list_prometheus_metric_names"
    ∷ text "grafana_query_loki_logs"
    ∷ text "grafana_list_loki_label_names"
    ∷ text "grafana_get_alert_group"
    ∷ text "grafana_list_alert_groups"
    ∷ text "grafana_search_dashboards"
    ∷ text "grafana_get_dashboard_summary"
    ∷ text "kubectl_get_pods"
    ∷ text "kubectl_get_events"
    ∷ []
agent_tool_names homelab_engineer =
    text "kubectl_get_pods"
    ∷ text "kubectl_get_deployments"
    ∷ text "kubectl_get_namespaces"
    ∷ text "kubectl_get_nodes"
    ∷ text "kubectl_describe"
    ∷ text "kubectl_get_events"
    ∷ text "kubectl_get_logs"
    ∷ text "kubectl_health_check"
    ∷ text "kubectl_get_statefulsets"
    ∷ text "kubectl_get_daemonsets"
    ∷ text "kubectl_get_configmaps"
    ∷ text "kubectl_get_services"
    ∷ []
agent_tool_names smart_home_operator =
    text "ha_ha_get_state"
    ∷ text "ha_ha_get_entity"
    ∷ text "ha_ha_search_entities"
    ∷ text "ha_ha_get_history"
    ∷ text "ha_ha_get_logs"
    ∷ text "ha_ha_get_overview"
    ∷ text "ha_ha_get_system_health"
    ∷ text "ha_ha_list_services"
    ∷ text "ha_ha_get_device"
    ∷ []
agent_tool_names _ = []

unfoldable pub is_wanted : List Text → Text → Bool
is_wanted wanted tool = any (text_eq tool) wanted

-- `_TOOL_CACHE`
abbrev pub ToolCache : Type 0
ToolCache = Option (List Text)

-- What is kept of a discovery: a failure is kept as an empty catalogue.
abbrev pub discovered : Option (List Text) → List Text
discovered none = []
discovered (some tools) = tools

-- A call that runs to its end: the catalogue, the cache, and whether the gateway was asked.
unfoldable pub ensure_tools_loaded : Option (List Text) → ToolCache → List Text × ToolCache × Bool
ensure_tools_loaded answer (some catalog) = (catalog, some catalog, false)
ensure_tools_loaded answer none = (discovered answer, some (discovered answer), true)

abbrev pub built_for : List Text → Option (List Text) → ToolCache → List Text × ToolCache × Bool
built_for [] answer cache = ([], cache, false)
built_for (w ∷ wanted) answer cache =
    let (catalog, cache_after, asked) = ensure_tools_loaded answer cache in
    (filter (is_wanted (w ∷ wanted)) catalog, cache_after, asked)

unfoldable pub build_mcp_tools_for_agent :
    AgentId → Option (List Text) → ToolCache → List Text × ToolCache × Bool
build_mcp_tools_for_agent agent answer cache = built_for (agent_tool_names agent) answer cache
