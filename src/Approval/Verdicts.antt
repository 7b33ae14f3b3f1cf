-- ===== src/Approval/Verdicts.antt =====
-- What a verdict does to the durable queue.
use mathlib.Core.Path.{subst}
use langgraph_agents.Base.{
  ℕ, ◌+◌, ◌≡◌, sym, ◌∙◌, refl, Bool, true, false, Option, none, some, List, [], ◌∷◌, arith, Text,
  not, ap,
}
use langgraph_agents.Queue.Store.{
  Row, Store, Status, is_awaiting, update, park_for_approval, resolve_approval, resolve_row,
}
use langgraph_agents.Queue.Store.Terminal.{StatusIs, update-StatusIs}
use langgraph_agents.Approval.{
  VerdictRequest, Response, not_initialized, not_paused, PausedGraph, AppState, Handled, is_smoke,
  resume_value, reconcile, on_graph, post_approval,
}

abbrev pub is_refusal : Response → Bool
is_refusal not_initialized = true
is_refusal not_paused = true
is_refusal _ = false

-- A verdict that is refused (no graph, or a thread that is not paused) resumes nothing and leaves
-- the queue as it was.
pub refusal-unchanged :
    (now ttl : ℕ) (app : AppState) (req : VerdictRequest)
    → is_refusal (post_approval now ttl app req).response ≡ true
    → ((post_approval now ttl app req).resumed_with ≡ none)
      × ((post_approval now ttl app req).task_queue ≡ app.task_queue)
unfolding post_approval on_graph reconcile
refusal-unchanged now ttl app req h = ground arith

-- Whatever the verdict and the graph do, a verdict on a smoke task leaves the queue as it was.
pub smoke-unchanged :
    (now ttl : ℕ) (app : AppState) (req : VerdictRequest)
    → is_smoke req.task_id ≡ true
    → (post_approval now ttl app req).task_queue ≡ app.task_queue
unfolding post_approval on_graph reconcile
smoke-unchanged now ttl app req h = ground arith

abbrev pub is_resolved : Status → Bool
is_resolved s = not (is_awaiting s)

-- What the rows of the task are, by whether its thread is paused again.
abbrev pub Reconciled : Bool → Text → Option Store → Type 0
Reconciled _ t none = ⊥
Reconciled true t (some s) = StatusIs is_awaiting t s.queue
Reconciled false t (some s) = StatusIs is_resolved t s.queue

resolve_row-id : (now : ℕ) (output : Option Text) (r : Row) → (resolve_row now output r).id ≡ r.id
resolve_row-id now output r = ground arith

resolve_row-IsResolved :
    (now : ℕ) (output : Option Text) (r : Row)
    → is_resolved (resolve_row now output r).status ≡ true
resolve_row-IsResolved now output r = ground arith

reconcile-Reconciled :
    (now ttl : ℕ) (t : Text) (output : Option Text) (paused : Bool) (queue : Store)
    → is_smoke t ≡ false
    → Reconciled paused t (reconcile now ttl t output paused (some queue)).1
unfolding reconcile
reconcile-Reconciled now ttl t output true queue h = rw h (
    unfold park_for_approval in update-StatusIs is_awaiting t _ queue.queue (λ _. refl) (λ _. refl))
reconcile-Reconciled now ttl t output false queue h = rw h (
    unfold resolve_approval in
    update-StatusIs is_resolved t _ queue.queue (resolve_row-id now output)
      (resolve_row-IsResolved now output))

-- A production task with its thread paused, in a deployment with a fleet graph and a queue.
abbrev pub production : PausedGraph → Option PausedGraph → Store → AppState
production graph smoke queue = record {
  fleet_graph = some graph;
  smoke_graph = smoke;
  task_queue = some queue;
}

module _ (now ttl : ℕ) (graph : PausedGraph) (smoke : Option PausedGraph) (queue : Store)
    (req : VerdictRequest) (real : is_smoke req.task_id ≡ false)
    (paused : graph.is_paused req.task_id ≡ true) where
  resumed-reconcile :
      let (output, again) = graph.resume req.task_id (resume_value req) in
      post_approval now ttl (production graph smoke queue) req ≡ record {
        response = (reconcile now ttl req.task_id output again (some queue)).0;
        resumed_with = some (resume_value req);
        task_queue = (reconcile now ttl req.task_id output again (some queue)).1;
      }
  unfolding post_approval on_graph
  resumed-reconcile = rw (real, paused) refl

-- After the verdict on a paused production task, the rows of the task agree with its thread: all
-- await an approval if the graph has paused again, and none does if the graph ran to its end.
pub post_approval-Reconciled :
    (now ttl : ℕ) (graph : PausedGraph) (smoke : Option PausedGraph) (queue : Store)
    (req : VerdictRequest)
    → is_smoke req.task_id ≡ false
    → graph.is_paused req.task_id ≡ true
    → Reconciled
        (graph.resume req.task_id (resume_value req)).1
        req.task_id
        (post_approval now ttl (production graph smoke queue) req).task_queue
post_approval-Reconciled now ttl graph smoke queue req real paused =
    let (output, again) = graph.resume req.task_id (resume_value req) in
    subst (λ (h : Handled). Reconciled again req.task_id h.task_queue)
      (sym (resumed-reconcile now ttl graph smoke queue req real paused))
      (reconcile-Reconciled now ttl req.task_id output again queue real)

-- The task has no row.
abbrev pub IsAbsent : Text → List Row → Type 0
IsAbsent = StatusIs (λ _. false)

update-absent :
    (t : Text) (f : Row → Row) (rows : List Row) → IsAbsent t rows → update t f rows ≡ rows
unfolding update
update-absent t f [] h = refl
update-absent t f (r ∷ rows) h = ground (arith, h.0, update-absent t f rows h.1)

parked-absent :
    (now t_expires : ℕ) (t : Text) (queue : Store)
    → IsAbsent t queue.queue
    → park_for_approval now t t_expires none queue ≡ queue
unfolding park_for_approval
parked-absent now t_expires t queue h =
    ap (λ (rows : List Row). record queue { queue = rows }) (update-absent t _ queue.queue h)

resolved-absent :
    (now : ℕ) (t : Text) (output : Option Text) (queue : Store)
    → IsAbsent t queue.queue
    → resolve_approval now t output queue ≡ queue
unfolding resolve_approval
resolved-absent now t output queue h =
    ap (λ (rows : List Row). record queue { queue = rows }) (update-absent t _ queue.queue h)

reconcile-absent :
    (now ttl : ℕ) (t : Text) (output : Option Text) (paused : Bool) (queue : Store)
    → IsAbsent t queue.queue
    → (reconcile now ttl t output paused (some queue)).1 ≡ some queue
unfolding reconcile
reconcile-absent now ttl t output paused queue h =
    ground (arith, parked-absent now (now + ttl) t queue h, resolved-absent now t output queue h)

-- A verdict that comes after the task's row has expired still resumes the paused graph with it:
-- the queue alone is left as it was, since there is no row to update.
pub expired-resumed :
    (now ttl : ℕ) (graph : PausedGraph) (smoke : Option PausedGraph) (queue : Store)
    (req : VerdictRequest)
    → is_smoke req.task_id ≡ false
    → graph.is_paused req.task_id ≡ true
    → IsAbsent req.task_id queue.queue
    → ((post_approval now ttl (production graph smoke queue) req).resumed_with
        ≡ some (resume_value req))
      × ((post_approval now ttl (production graph smoke queue) req).task_queue ≡ some queue)
expired-resumed now ttl graph smoke queue req real paused absent =
    let (output, again) = graph.resume req.task_id (resume_value req) in
    let e = resumed-reconcile now ttl graph smoke queue req real paused in
    (
      ap (λ (h : Handled). h.resumed_with) e,
      ap (λ (h : Handled). h.task_queue) e
          ∙ reconcile-absent now ttl req.task_id output again queue absent,
    )
