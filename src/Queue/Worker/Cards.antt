-- ===== src/Queue/Worker/Cards.antt =====
-- The approval cards among the messages that the worker sends for a claim.
use mathlib.Core.List.{append-nil}
use langgraph_agents.Base.{
  ℕ, zero, suc, ◌≡◌, refl, sym, ap, ◌∙◌, Bool, true, false, Bool-cases, inl, inr, Option, none,
  some, List, [], ◌∷◌, ◌++◌, ltb, if◌then◌else◌, Text,
}
use langgraph_agents.State.{ApprovalRequest}
use langgraph_agents.Queue.Envelope.{Envelope}
use langgraph_agents.Queue.Store.{TaskClaim, attempts_remaining}
use langgraph_agents.Queue.Worker.{
  Graph, GraphResult, raised, returned, Deployment, State, Message, approval_post, completion_post,
  zulip_reply, thread_id, handle_one, settle, failed, park, finish, ack_with_result, completions,
  zulip_replies, is_zulip,
}

abbrev with_card : Message → List Message → List Message
with_card (approval_post t content r) rest = approval_post t content r ∷ rest
with_card (completion_post t content output) rest = rest
with_card (zulip_reply u output) rest = rest

unfoldable pub cards : List Message → List Message
cards [] = []
cards (m ∷ ms) = with_card m (cards ms)

cards-append : (xs ys : List Message) → cards (xs ++ ys) ≡ cards xs ++ cards ys
unfolding cards
cards-append [] ys = refl
cards-append (approval_post t content r ∷ xs) ys =
    ap (◌∷◌ (approval_post t content r)) (cards-append xs ys)
cards-append (completion_post t content output ∷ xs) ys = cards-append xs ys
cards-append (zulip_reply u output ∷ xs) ys = cards-append xs ys

reply-cards :
    (b : Bool) (u : ℕ) (output : Text) → cards (if b then zulip_reply u output ∷ [] else []) ≡ []
unfolding cards
reply-cards true u output = refl
reply-cards false u output = refl

zulip_replies-cards :
    (e : Envelope) (user : Option ℕ) (output : Text)
    → e.zulip_user_id ≡ user
    → cards (zulip_replies e output) ≡ []
unfolding cards
zulip_replies-cards e none output h = rw h refl
zulip_replies-cards e (some zero) output h = rw h refl
zulip_replies-cards e (some (suc n)) output h =
    rw h (reply-cards (is_zulip e.source) (suc n) output)

completion-cards :
    (b : Bool) (t content output : Text)
    → cards (if b then completion_post t content output ∷ [] else []) ≡ []
unfolding cards
completion-cards true t content output = refl
completion-cards false t content output = refl

completions-cards :
    (d : Deployment) (claim : TaskClaim) (output : Option Text)
    → cards (completions d claim output) ≡ []
unfolding cards completions
completions-cards d claim none = refl
completions-cards d claim (some []) = refl
completions-cards d claim (some (c ∷ o)) =
    cards-append
      (if d.completion_post_webhook
        then completion_post claim.task_id claim.envelope.content (c ∷ o) ∷ []
        else [])
      (zulip_replies claim.envelope (c ∷ o))
    ∙ ap (λ (ms : List Message). ms ++ cards (zulip_replies claim.envelope (c ∷ o)))
        (completion-cards d.completion_post_webhook claim.task_id claim.envelope.content (c ∷ o))
    ∙ zulip_replies-cards claim.envelope claim.envelope.zulip_user_id (c ∷ o) refl

-- The card of a claim: one exactly where the graph returned, the task's thread waits for an
-- approval, and a webhook is configured.
abbrev pub cards_for : Deployment → TaskClaim → GraphResult → Option ApprovalRequest → List Message
cards_for d claim (raised e) pending = []
cards_for d claim (returned output) none = []
cards_for d claim (returned output) (some r) =
    if d.approval_post_webhook
    then approval_post claim.task_id claim.envelope.content r ∷ []
    else []

card-cards :
    (b : Bool) (t content : Text) (r : ApprovalRequest)
    → cards (if b then approval_post t content r ∷ [] else [])
      ≡ (if b then approval_post t content r ∷ [] else [])
unfolding cards
card-cards true t content r = refl
card-cards false t content r = refl

module _ (d : Deployment) (now : ℕ) (claim : TaskClaim) (st : State) where
  failed-cards : (e : Text) → (failed d now claim e st).sent ≡ st.sent
  unfolding failed
  failed-cards e = elim (Bool-cases (ltb 0 (attempts_remaining d.default_max_attempts claim))) [
    | inl again ↦ rw again refl
    | inr last ↦ rw last refl
  ]

  settle-cards :
      (g : GraphResult) (o : Option ApprovalRequest)
      → cards (settle d now claim g o st).sent ≡ cards st.sent ++ cards_for d claim g o
  unfolding settle park finish ack_with_result
  settle-cards (raised e) o = ap cards (failed-cards e) ∙ sym (append-nil (cards st.sent))
  settle-cards (returned output) none =
      cards-append st.sent (completions d claim output)
      ∙ ap (◌++◌ (cards st.sent)) (completions-cards d claim output)
  settle-cards (returned output) (some r) =
      cards-append st.sent _
      ∙ ap (◌++◌ (cards st.sent))
          (card-cards d.approval_post_webhook claim.task_id claim.envelope.content r)

pub handle_one-cards :
    (d : Deployment) (graph : Graph) (now : ℕ) (claim : TaskClaim) (st : State)
    → cards (handle_one d graph now claim st).sent
      ≡ cards st.sent
        ++ cards_for d claim (graph.invoke (thread_id claim) claim) (graph.pending claim.task_id)
unfolding handle_one
handle_one-cards d graph now claim st =
    settle-cards d now claim st (graph.invoke (thread_id claim) claim) (graph.pending claim.task_id)
