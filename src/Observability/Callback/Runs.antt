-- ===== src/Observability/Callback/Runs.antt =====
-- Overlapping runs of one handler: their durations, and their cost in the accumulators.
use langgraph_agents.Base.{
  ℕ, ◌+◌, ◌-◌, ◌≡◌, refl, ap, ◌∙◌, false, Option, none, some, List, [], ◌∷◌, ◌++◌, ◌==◌, or_else,
  Text, get, get-put, get-remove, ℕ_eq, All, arith,
}
use mathlib.Core.Path.{subst}
use langgraph_agents.State.{AgentId}
use langgraph_agents.Router.{ModelGroup, claude}
use langgraph_agents.Observability.{Accumulators, record_llm_call, record_task_spend, counted}
use langgraph_agents.Observability.Callback.{
  LlmOutput, CallSample, RunEvent, on_start, on_llm_end, on_llm_error, run_of, Telemetry, handle,
  handle_all, usage_of, success_sample, error_sample, emitted, total_cost,
}

-- The events of other runs leave the start of a run where it is.
abbrev pub IsOther : ℕ → RunEvent → Type 0
IsOther r e = (run_of e == r) ≡ false

-- The end of a run: with its output, or with an error.
abbrev pub ended : Option (Option LlmOutput) → (run_id now : ℕ) → RunEvent
ended (some o) r now = on_llm_end r now o
ended none r now = on_llm_error r now

claude_cost-record_llm_call :
    (today : ℕ) (task_id : Option Text) (a : AgentId) (g : ModelGroup) (cost : ℕ)
    (acc : Accumulators)
    → (record_llm_call today task_id a g cost acc).claude_cost ≡ acc.claude_cost + counted g cost
unfolding record_llm_call record_task_spend
claude_cost-record_llm_call today task_id a claude cost acc = ground arith
claude_cost-record_llm_call today task_id a _ cost acc = ground arith

total_cost-append :
    (ss : List CallSample) (s : CallSample) → total_cost (ss ++ s ∷ []) ≡ total_cost ss + s.cost
total_cost-append [] s = omega arith
total_cost-append (x ∷ ss) s = omega (arith, total_cost-append ss s)

counted_add : (g : ModelGroup) (a b : ℕ) → counted g (a + b) ≡ counted g a + counted g b
counted_add claude a b = refl
counted_add _ a b = omega arith

module _ (today : ℕ) (task_id : Option Text) where
  handle-other :
      (r : ℕ) (e : RunEvent) (t : Telemetry)
      → IsOther r e
      → get (handle today task_id e t).handler.starts r ≡ get t.handler.starts r
  unfolding handle
  handle-other r (on_start s now) t h = get-put t.handler.starts s r now ∙ rw h refl
  handle-other r (on_llm_end s now o) t h = get-remove t.handler.starts s r ∙ rw h refl
  handle-other r (on_llm_error s now) t h = get-remove t.handler.starts s r ∙ rw h refl

  handle_all-other :
      (r : ℕ) (es : List RunEvent) (t : Telemetry)
      → All (IsOther r) es
      → get (handle_all today task_id es t).handler.starts r ≡ get t.handler.starts r
  unfolding handle_all
  handle_all-other r [] t h = refl
  handle_all-other r (e ∷ es) t h =
      handle_all-other r es (handle today task_id e t) h.1 ∙ handle-other r e t h.0

  ended-sample :
      (result : Option (Option LlmOutput)) (r start now : ℕ) (t : Telemetry)
      → get t.handler.starts r ≡ some start
      → (s : CallSample) × ((handle today task_id (ended result r now) t).samples
          ≡ t.samples ++ s ∷ [])
        × (s.run_id ≡ r)
        × (s.duration ≡ now - start)
        × (get (handle today task_id (ended result r now) t).handler.starts r ≡ none)
  unfolding handle
  ended-sample (some o) r start now t h = (
    success_sample t.handler r now (usage_of o),
    refl,
    refl,
    ap (λ p. now - or_else p now) h,
    get-remove t.handler.starts r r ∙ ground arith,
  )
  ended-sample none r start now t h = (
    error_sample t.handler r now,
    refl,
    refl,
    ap (λ p. now - or_else p now) h,
    get-remove t.handler.starts r r ∙ ground arith,
  )

  -- However the runs of a handler overlap, a run that starts and ends, with an output or an error,
  -- leaves one sample at its end, whose duration is the time between the two, and is then forgotten.
  -- No other event in between has the run's id.
  pub handle_all-run :
      (r start now : ℕ) (result : Option (Option LlmOutput)) (es : List RunEvent) (t : Telemetry)
      → All (IsOther r) es
      → let before = handle_all today task_id es (handle today task_id (on_start r start) t) in
        (s : CallSample) × ((handle today task_id (ended result r now) before).samples
          ≡ before.samples ++ s ∷ [])
        × (s.run_id ≡ r)
        × (s.duration ≡ now - start)
        × (get (handle today task_id (ended result r now) before).handler.starts r ≡ none)
  unfolding handle
  handle_all-run r start now result es t h =
      let before = handle_all today task_id es (handle today task_id (on_start r start) t) in
      ended-sample result r start now before (
        handle_all-other r es (handle today task_id (on_start r start) t) h
        ∙ get-put t.handler.starts r r start
        ∙ ground arith)

  emitted-cost :
      (t : Telemetry) (r : ℕ) (s : CallSample)
      → (emitted today task_id t r s).acc.claude_cost
          + counted t.handler.group (total_cost t.samples)
        ≡ t.acc.claude_cost
          + counted t.handler.group (total_cost (emitted today task_id t r s).samples)
  emitted-cost t r s = omega (
    arith,
    claude_cost-record_llm_call today task_id t.handler.agent t.handler.group s.cost t.acc,
    ap (counted t.handler.group) (total_cost-append t.samples s),
    counted_add t.handler.group (total_cost t.samples) s.cost,
  )

  handle-cost :
      (e : RunEvent) (t : Telemetry)
      → (handle today task_id e t).acc.claude_cost + counted t.handler.group (total_cost t.samples)
        ≡ t.acc.claude_cost
          + counted t.handler.group (total_cost (handle today task_id e t).samples)
  unfolding handle
  handle-cost (on_start r now) t = refl
  handle-cost (on_llm_end r now o) t =
      emitted-cost t r (success_sample t.handler r now (usage_of o))
  handle-cost (on_llm_error r now) t = emitted-cost t r (error_sample t.handler r now)

  handle-group :
      (e : RunEvent) (t : Telemetry) → (handle today task_id e t).handler.group ≡ t.handler.group
  unfolding handle
  handle-group (on_start r now) t = refl
  handle-group (on_llm_end r now o) t = refl
  handle-group (on_llm_error r now) t = refl

  -- Over any events of a handler, the spend that the cost cap reads grows by exactly the cost of the
  -- samples that it leaves, if its group is Claude, and not at all otherwise.
  pub handle_all-cost :
      (es : List RunEvent) (t : Telemetry)
      → (handle_all today task_id es t).acc.claude_cost
          + counted t.handler.group (total_cost t.samples)
        ≡ t.acc.claude_cost
          + counted t.handler.group (total_cost (handle_all today task_id es t).samples)
  unfolding handle_all
  handle_all-cost [] t = refl
  handle_all-cost (e ∷ es) t =
      let u = handle today task_id e t in
      let rest =
        subst
          (λ g.
            (handle_all today task_id es u).acc.claude_cost + counted g (total_cost u.samples)
            ≡ u.acc.claude_cost + counted g (total_cost (handle_all today task_id es u).samples))
          (handle-group e t) (handle_all-cost es u) in
      omega (arith, rest, handle-cost e t)
