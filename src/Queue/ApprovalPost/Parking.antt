-- ===== src/Queue/ApprovalPost/Parking.antt =====
-- The approval cards of the worker: what `handle_one` parks and sends, against the webhook's post.
use mathlib.Core.List.{append-nil}
use langgraph_agents.Base.{
  ℕ, ◌≡◌, refl, ap, ◌∙◌, Bool, true, false, Option, none, some, [], ◌∷◌, ◌++◌, map, if◌then◌else◌,
  Text,
}
use langgraph_agents.State.{ApprovalRequest}
use langgraph_agents.Queue.Store.{TaskClaim, is_awaiting, is_done}
use langgraph_agents.Queue.Store.Terminal.{StatusIs}
use langgraph_agents.Queue.Worker.{
  Graph, GraphResult, raised, returned, Deployment, State, Message, approval_post, thread_id,
  handle_one,
}
use langgraph_agents.Queue.Worker.Settles.{handle_one-parked, handle_one-completed}
use langgraph_agents.Queue.Worker.Cards.{cards, cards_for, handle_one-cards}
use langgraph_agents.Queue.ApprovalPost.{
  Interrupts, approval_of, has_pending_approval, Webhook, WebhookCall, post_to,
  post_approval_for_interrupts,
}

abbrev pub card_of : WebhookCall → Message
card_of c = approval_post c.payload.task_id c.payload.content c.payload.approval_request

abbrev pub has_url : Option Text → Bool
has_url none = false
has_url (some []) = false
has_url (some (c ∷ url)) = true

-- What a claim leaves, by how the graph ended. A failure sends no card; otherwise the cards are
-- those that the webhook is sent, and the task is parked exactly if its thread waits for an
-- approval.
abbrev pub IsPosted :
    Webhook → (Text → Option Interrupts) → TaskClaim → GraphResult → State → State → Type 0
IsPosted hook get_state claim (raised e) st after = cards after.sent ≡ cards st.sent
IsPosted hook get_state claim (returned output) st after =
    (cards after.sent
      ≡ cards st.sent
        ++ map card_of
            (post_approval_for_interrupts hook get_state claim.task_id claim.envelope.content
              claim.envelope.trace_id).1)
    × StatusIs (if has_pending_approval get_state claim.task_id then is_awaiting else is_done)
        claim.task_id after.store.queue

-- The card that the worker records is the call that the webhook is sent.
posted-cards :
    (d : Deployment) (hook : Webhook) (url : Option Text) (get_state : Text → Option Interrupts)
    (claim : TaskClaim) (output : Option Text) (o : Option ApprovalRequest)
    → d.approval_post_webhook ≡ has_url url
    → approval_of (get_state claim.task_id) ≡ o
    → cards_for d claim (returned output) o
      ≡ map card_of
          (post_to hook url get_state claim.task_id claim.envelope.content
            claim.envelope.trace_id).1
posted-cards d hook none get_state claim output none h p = refl
posted-cards d hook (some []) get_state claim output none h p = refl
posted-cards d hook (some (c ∷ url)) get_state claim output none h p = rw p refl
posted-cards d hook none get_state claim output (some r) h p = rw h refl
posted-cards d hook (some []) get_state claim output (some r) h p = rw h refl
posted-cards d hook (some (c ∷ url)) get_state claim output (some r) h p = rw (h, p) refl

module _ (d : Deployment) (graph : Graph) (now : ℕ) (claim : TaskClaim) (st : State)
    (hook : Webhook) (get_state : Text → Option Interrupts) where
  returned-StatusIs :
      (output : Option Text) (o : Option ApprovalRequest)
      → graph.invoke (thread_id claim) claim ≡ returned output
      → graph.pending claim.task_id ≡ o
      → approval_of (get_state claim.task_id) ≡ o
      → StatusIs
          (if has_pending_approval get_state claim.task_id then is_awaiting else is_done)
          claim.task_id
          (handle_one d graph now claim st).store.queue
  unfolding has_pending_approval
  returned-StatusIs output none g p a = rw a (handle_one-completed d graph now claim st output g p)
  returned-StatusIs output (some r) g p a =
      rw a (handle_one-parked d graph now claim st output r g p)

  result-IsPosted :
      (g : GraphResult)
      → graph.invoke (thread_id claim) claim ≡ g
      → d.approval_post_webhook ≡ has_url hook.url
      → graph.pending claim.task_id ≡ approval_of (get_state claim.task_id)
      → IsPosted hook get_state claim g st (handle_one d graph now claim st)
  unfolding post_approval_for_interrupts
  result-IsPosted (raised e) g h p =
      handle_one-cards d graph now claim st
      ∙ ap (λ r. cards st.sent ++ cards_for d claim r (graph.pending claim.task_id)) g
      ∙ append-nil (cards st.sent)
  result-IsPosted (returned output) g h p = (
    handle_one-cards d graph now claim st
        ∙ ap (λ r. cards st.sent ++ cards_for d claim r (graph.pending claim.task_id)) g
        ∙ ap (λ o. cards st.sent ++ cards_for d claim (returned output) o) p
        ∙ ap (◌++◌ (cards st.sent)) (posted-cards d hook hook.url get_state claim output _ h refl),
    returned-StatusIs output (approval_of (get_state claim.task_id)) g p refl,
  )

-- The worker sends no approval card for a run of the graph that raises. For any other it sends
-- exactly the cards that `post_approval_for_interrupts` sends to the webhook, and leaves the rows of
-- the task awaiting the approval exactly if its thread waits for one, and done otherwise. The worker
-- reads the thread with the checkpointer that the webhook's post reads.
pub handle_one-IsPosted :
    (d : Deployment) (graph : Graph) (now : ℕ) (claim : TaskClaim) (st : State) (hook : Webhook)
    (get_state : Text → Option Interrupts)
    → d.approval_post_webhook ≡ has_url hook.url
    → graph.pending claim.task_id ≡ approval_of (get_state claim.task_id)
    → IsPosted hook get_state claim
        (graph.invoke (thread_id claim) claim)
        st
        (handle_one d graph now claim st)
handle_one-IsPosted d graph now claim st hook get_state h p =
    result-IsPosted d graph now claim st hook get_state (graph.invoke (thread_id claim) claim) refl
      h p
