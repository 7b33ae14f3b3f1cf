-- ===== src/Mcp.antt =====
-- src/agents/tools/mcp.py: the per-agent allowlists and the gateway client. The gateway's answer
-- is an argument of the call.
pub mod Scope
pub mod Examples
use langgraph_agents.Base.{
  ℕ, Bool, true, false, Option, none, some, List, [], ◌∷◌, ◌++◌, map, ◌&&◌, leb, if◌then◌else◌, any,
  Text, text, text_eq,
}
use langgraph_agents.State.{
  AgentId, triager, historian, note_maker, researcher, coder, errand_runner, supervisor, reviewer,
  homelab_engineer, network_operator, storage_operator, smart_home_operator, ml_operator,
  observability_operator, health_tracker, property_coordinator, doc_writer, reporter, artist,
  security, auditor, all_agent_ids,
}

-- `MCPCapability`
pub record Capability : Type 0 where
  pub server : Text
  pub method : Text
  pub write : Bool

abbrev reads : Text → List Text → List Capability
reads server = map (λ m. record { server = server; method = m; write = false })

abbrev writes : Text → List Text → List Capability
writes server = map (λ m. record { server = server; method = m; write = true })

abbrev read_only_kubectl : List Capability
read_only_kubectl =
    reads (text "kubectl-mcp")
      (text "get" ∷ text "describe" ∷ text "logs" ∷ text "events" ∷ text "top" ∷ [])

abbrev read_only_prometheus : List Capability
read_only_prometheus =
    reads (text "prometheus-mcp") (text "query" ∷ text "query_range" ∷ text "alerts" ∷ [])

abbrev read_only_grafana : List Capability
read_only_grafana =
    reads (text "grafana-mcp") (text "list_dashboards" ∷ text "dashboard_by_uid" ∷ [])

abbrev read_only_ha : List Capability
read_only_ha = reads (text "ha-mcp") (text "states" ∷ text "get_state" ∷ text "history" ∷ [])

abbrev write_ha : List Capability
write_ha = writes (text "ha-mcp") (text "call_service" ∷ text "set_state" ∷ [])

abbrev read_only_paperless : List Capability
read_only_paperless =
    reads (text "paperless-mcp") (text "search" ∷ text "documents" ∷ text "tags" ∷ [])

abbrev write_paperless : List Capability
write_paperless = writes (text "paperless-mcp") (text "tag_document" ∷ text "upload" ∷ [])

abbrev read_only_netbox : List Capability
read_only_netbox =
    reads (text "netbox-mcp")
      (text "list_devices" ∷ text "list_ip_addresses" ∷ text "list_prefixes" ∷ [])

abbrev read_only_omada : List Capability
read_only_omada = reads (text "omada-mcp") (text "list_clients" ∷ text "list_devices" ∷ [])

abbrev read_only_immich : List Capability
read_only_immich = reads (text "immich-mcp") (text "search_assets" ∷ text "asset_metadata" ∷ [])

abbrev write_arr : List Capability
write_arr = writes (text "arr-mcp") (
    text "add_movie"
    ∷ text "add_series"
    ∷ text "add_artist"
    ∷ text "delete_movie"
    ∷ text "delete_series"
    ∷ [])

abbrev read_only_searxng : List Capability
read_only_searxng = reads (text "searxng-mcp") (text "search" ∷ [])

abbrev read_only_comfyui : List Capability
read_only_comfyui = reads (text "comfyui-mcp") (
    text "get_system_stats"
    ∷ text "list_local_models"
    ∷ text "list_workflows"
    ∷ text "get_queue"
    ∷ text "get_job_status"
    ∷ [])

abbrev write_comfyui : List Capability
write_comfyui = writes (text "comfyui-mcp") (
    text "generate_image"
    ∷ text "generate_with_controlnet"
    ∷ text "generate_with_ip_adapter"
    ∷ text "enqueue_workflow"
    ∷ [])

abbrev smoke_test : List Capability
smoke_test = writes (text "smoke") (text "test_write" ∷ [])

abbrev cluster_reads : List Capability
cluster_reads = read_only_kubectl ++ (read_only_prometheus ++ read_only_grafana)

-- `ALLOWLISTS`
unfoldable pub allowlists : AgentId → List Capability
allowlists triager = []
allowlists historian = []
allowlists note_maker = read_only_searxng ++ read_only_paperless
allowlists researcher = read_only_searxng ++ read_only_paperless
allowlists coder = read_only_searxng
allowlists errand_runner =
    write_ha
    ++ (write_paperless
        ++ (write_arr
            ++ (write_comfyui
                ++ (read_only_ha
                    ++ (read_only_paperless
                        ++ (cluster_reads ++ (read_only_comfyui ++ smoke_test)))))))
allowlists supervisor = cluster_reads
allowlists reviewer = []
allowlists homelab_engineer = cluster_reads ++ (read_only_netbox ++ read_only_omada)
allowlists network_operator = read_only_omada ++ (read_only_netbox ++ cluster_reads)
allowlists storage_operator = cluster_reads
allowlists smart_home_operator =
    read_only_ha ++ (cluster_reads ++ (read_only_searxng ++ read_only_paperless))
allowlists ml_operator = cluster_reads ++ read_only_searxng
allowlists observability_operator = cluster_reads ++ read_only_searxng
allowlists health_tracker = read_only_paperless
allowlists property_coordinator = read_only_paperless ++ (read_only_searxng ++ read_only_immich)
allowlists doc_writer = read_only_searxng
allowlists reporter = []
allowlists artist = read_only_comfyui
allowlists security = read_only_ha
allowlists auditor = read_only_kubectl

abbrev pub matches : Text → Text → Capability → Bool
matches server method c = text_eq c.server server && text_eq c.method method

unfoldable pub is_allowed : AgentId → Text → Text → Bool
is_allowed agent server method = any (matches server method) (allowlists agent)

select_writers : List AgentId → List AgentId
select_writers [] = []
select_writers (a ∷ agents) =
    let rest = select_writers agents in if any (λ c. c.write) (allowlists a) then a ∷ rest else rest

unfoldable pub agents_with_write_capability : List AgentId
unfolding select_writers allowlists
agents_with_write_capability = select_writers all_agent_ids

-- What the gateway answers: a transport error, or a status.
pub data Answer : Type 0 where
  transport_error : Answer
  response : (status_code : ℕ) → Answer

pub data CallResult : Type 0 where
  returned : (status_code : ℕ) → CallResult
  permission_error : CallResult
  call_error : CallResult

-- `MCPGatewayClient.call`: the result, and the requests that leave the pod.
unfoldable pub call : AgentId → Text → Text → Answer → CallResult × List (Text × Text)
call agent server method answer =
    if is_allowed agent server method
    then (
      elim answer [
        | transport_error ↦ call_error
        | response status ↦ if leb 400 status then call_error else returned status
      ],
      (server, method) ∷ [],
    )
    else (permission_error, [])
