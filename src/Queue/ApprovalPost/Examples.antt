-- ===== src/Queue/ApprovalPost/Examples.antt =====
-- Threads that wait for an approval, and their cards.
use langgraph_agents.Base.{
  ◌≡◌, refl, Option, none, some, [], ◌∷◌, Text, text, text_eq, if◌then◌else◌,
}
use langgraph_agents.ErrandRunner.Examples.{request}
use langgraph_agents.Queue.Worker.{Graph, returned, handle_one}
use langgraph_agents.Queue.Worker.Examples.{deployment, claim, state}
use langgraph_agents.Queue.ApprovalPost.{
  Webhook, Interrupts, approval, unrelated, find_approval_request, first_approval_in, approval_of,
  post_approval_for_interrupts, no_approval, no_webhook,
}
use langgraph_agents.Queue.ApprovalPost.Parking.{IsPosted, handle_one-IsPosted}

abbrev hook : Webhook
hook = record { url = some (text "http://windmill"); token = none; answer = some 200 }

abbrev threads : Text → Option Interrupts
threads t = some ([] ∷ (unrelated ∷ approval request ∷ []) ∷ [])

found_second : find_approval_request ([] ∷ (unrelated ∷ approval request ∷ []) ∷ []) ≡ some request
unfolding find_approval_request first_approval_in
found_second = refl

unreadable : (post_approval_for_interrupts hook (λ t. none) (text "t1") [] none).0 ≡ no_approval
unfolding post_approval_for_interrupts
unreadable = refl

unconfigured :
    (post_approval_for_interrupts (record hook { url = some [] }) threads (text "t1") [] none).0
    ≡ no_webhook
unfolding post_approval_for_interrupts
unconfigured = refl

abbrev waiting_graph : Graph
waiting_graph = record { invoke = λ t c. returned none; pending = λ t. approval_of (threads t) }

handle_one-IsPosted_example :
    IsPosted hook threads claim
      (returned none)
      state
      (handle_one deployment waiting_graph 20 claim state)
handle_one-IsPosted_example =
    handle_one-IsPosted deployment waiting_graph 20 claim state hook threads refl refl

-- The conversation c9 waits for an approval, the task's thread for nothing.
abbrev talking : Text → Option Interrupts
talking t = if text_eq t (text "c9") then threads t else none

abbrev talking_graph : Graph
talking_graph = record { invoke = λ t c. returned none; pending = λ t. approval_of (talking t) }
