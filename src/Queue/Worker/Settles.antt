-- ===== src/Queue/Worker/Settles.antt =====
-- What the worker leaves behind for the claim that it has handled.
use langgraph_agents.Base.{
  ℕ, ◌≡◌, refl, inl, inr, Bool, Option, none, some, List, [], ◌∷◌, ltb, not, Text, text_eq,
  Bool-cases,
}
use langgraph_agents.State.{ApprovalRequest}
use langgraph_agents.Queue.Store.{
  Row, Status, TaskClaim, is_claimed, is_done, is_awaiting, reject, nack, to_dlq, park_for_approval,
  attempts_remaining,
}
use langgraph_agents.Queue.Store.Conservation.{tally, tally-update, tally-move_to_dlq}
use langgraph_agents.Queue.Store.Terminal.{StatusIs, update-StatusIs}
use langgraph_agents.Queue.Worker.{
  Deployment, Graph, GraphResult, raised, returned, State, handle_one, settle, failed, park, finish,
  ack_with_result, thread_id,
}

abbrev pub is_released : Status → Bool
is_released s = not (is_claimed s)

reject-StatusIs :
    (p : Status → Bool) (t : Text) (rows : List Row)
    → StatusIs p t (reject (λ r. text_eq r.id t) rows)
unfolding reject
reject-StatusIs p t [] = tt
reject-StatusIs p t (r ∷ rows) = elim (Bool-cases (text_eq r.id t)) [
  | inl same ↦ rw same (reject-StatusIs p t rows)
  | inr other ↦ rw other (inl other, reject-StatusIs p t rows)
]

module _ (d : Deployment) (now : ℕ) (claim : TaskClaim) (st : State) where
  failed-IsReleased :
      (e : Text) → StatusIs is_released claim.task_id (failed d now claim e st).store.queue
  unfolding failed nack to_dlq
  failed-IsReleased e =
      elim (Bool-cases (ltb 0 (attempts_remaining d.default_max_attempts claim))) [
        | inl again ↦
            rw again
              (update-StatusIs is_released claim.task_id _ st.store.queue (λ _. refl) (λ _. refl))
        | inr last ↦ rw last (reject-StatusIs is_released claim.task_id st.store.queue)
      ]

  park-IsAwaiting :
      (r : ApprovalRequest) → StatusIs is_awaiting claim.task_id (park d now claim r st).store.queue
  unfolding park park_for_approval
  park-IsAwaiting r =
      update-StatusIs is_awaiting claim.task_id _ st.store.queue (λ _. refl) (λ _. refl)

  park-IsReleased :
      (r : ApprovalRequest) → StatusIs is_released claim.task_id (park d now claim r st).store.queue
  unfolding park park_for_approval
  park-IsReleased r =
      update-StatusIs is_released claim.task_id _ st.store.queue (λ _. refl) (λ _. refl)

  finish-IsReleased :
      (o : Option Text) → StatusIs is_released claim.task_id (finish d now claim o st).store.queue
  unfolding finish ack_with_result
  finish-IsReleased o =
      update-StatusIs is_released claim.task_id _ st.store.queue (λ _. refl) (λ _. refl)

  finish-IsDone :
      (o : Option Text) → StatusIs is_done claim.task_id (finish d now claim o st).store.queue
  unfolding finish ack_with_result
  finish-IsDone o = update-StatusIs is_done claim.task_id _ st.store.queue (λ _. refl) (λ _. refl)

  settle-IsReleased :
      (g : GraphResult) (o : Option ApprovalRequest)
      → StatusIs is_released claim.task_id (settle d now claim g o st).store.queue
  unfolding settle
  settle-IsReleased (raised e) o = failed-IsReleased e
  settle-IsReleased (returned out) none = finish-IsReleased out
  settle-IsReleased (returned out) (some r) = park-IsReleased r

  settle-tally :
      (t : Text) (g : GraphResult) (o : Option ApprovalRequest)
      → tally t (settle d now claim g o st).store ≡ tally t st.store
  unfolding settle failed park finish ack_with_result nack to_dlq park_for_approval
  settle-tally t (raised e) o =
      elim (Bool-cases (ltb 0 (attempts_remaining d.default_max_attempts claim))) [
        | inl again ↦ rw again (tally-update t claim.task_id _ st.store (λ _. refl))
        | inr last ↦ rw last (tally-move_to_dlq t e _ st.store)
      ]
  settle-tally t (returned out) none = tally-update t claim.task_id _ st.store (λ _. refl)
  settle-tally t (returned out) (some r) = tally-update t claim.task_id _ st.store (λ _. refl)

-- Whatever the graph does, the worker leaves no row of the claimed task in the claimed status (it
-- is pending, parked, done, or in the dead-letter table), and each task stands in the two tables
-- together as often as before.
pub handle_one-settled :
    (d : Deployment) (graph : Graph) (now : ℕ) (claim : TaskClaim) (st : State) (t : Text)
    → StatusIs is_released claim.task_id (handle_one d graph now claim st).store.queue
      × (tally t (handle_one d graph now claim st).store ≡ tally t st.store)
unfolding handle_one
handle_one-settled d graph now claim st t = (
  settle-IsReleased d now claim st (graph.invoke (thread_id claim) claim)
      (graph.pending claim.task_id),
  settle-tally d now claim st t (graph.invoke (thread_id claim) claim)
      (graph.pending claim.task_id),
)

-- A task whose own thread is paused for an approval when the graph returns is parked, not done:
-- every row of it awaits the approval.
pub handle_one-parked :
    (d : Deployment) (graph : Graph) (now : ℕ) (claim : TaskClaim) (st : State)
    (output : Option Text) (request : ApprovalRequest)
    → graph.invoke (thread_id claim) claim ≡ returned output
    → graph.pending claim.task_id ≡ some request
    → StatusIs is_awaiting claim.task_id (handle_one d graph now claim st).store.queue
unfolding handle_one settle
handle_one-parked d graph now claim st output request e p =
    rw (e, settle) (rw (p, settle) (park-IsAwaiting d now claim st request))

-- A task whose own thread waits for no approval when the graph returns is done.
pub handle_one-completed :
    (d : Deployment) (graph : Graph) (now : ℕ) (claim : TaskClaim) (st : State)
    (output : Option Text)
    → graph.invoke (thread_id claim) claim ≡ returned output
    → graph.pending claim.task_id ≡ none
    → StatusIs is_done claim.task_id (handle_one d graph now claim st).store.queue
unfolding handle_one settle
handle_one-completed d graph now claim st output e p =
    rw (e, settle) (rw (p, settle) (finish-IsDone d now claim st output))
