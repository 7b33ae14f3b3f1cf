-- ===== src/PausedThreads/Sweep.antt =====
-- Which threads a sweep reports.
use langgraph_agents.Base.{
  ℕ, ◌+◌, ◌≡◌, refl, ap, ◌∙◌, Bool, false, Option, none, some, List, [], ◌∷◌, ◌++◌, ◌&&◌, not, any,
  if◌then◌else◌, Text, text_eq, text_eq_iff, Bool-cases, inl, inr, arith,
}
use langgraph_agents.PausedThreads.{
  PausedThread, Snapshot, is_empty, paused_thread, sweep_from, sweep_of, sweep_paused_threads,
  ThreadGraph,
}

-- How often a thread stands in a report.
abbrev pub count_thread : Text → List PausedThread → ℕ
count_thread t [] = 0
count_thread t (p ∷ ps) = (if text_eq t p.thread_id then 1 else 0) + count_thread t ps

abbrev pub names_thread : Text → Option Text → Bool
names_thread t none = false
names_thread t (some u) = text_eq t u

-- A checkpoint of the thread is there.
abbrev pub has_checkpoint : Text → List (Option Text) → Bool
has_checkpoint t ids = any (names_thread t) ids

count-append :
    (t : Text) (ps qs : List PausedThread)
    → count_thread t (ps ++ qs) ≡ count_thread t ps + count_thread t qs
count-append t [] qs = omega arith
count-append t (p ∷ ps) qs = omega (arith, count-append t ps qs)

module _ (now stale_after : ℕ) (get_state : Text → Snapshot) (c : ℕ) (t : Text) where
  empty-differs : text_eq (c ∷ t) [] ≡ false
  unfolding text_eq
  empty-differs = refl

  -- The thread is still to be reported.
  abbrev due : List (Option Text) → List Text → ℕ
  due ids seen =
      if not (any (text_eq (c ∷ t)) seen)
        && (has_checkpoint (c ∷ t) ids && not (is_empty (get_state (c ∷ t)).interrupts))
      then 1
      else 0

  sweep-count :
      (ids : List (Option Text)) (seen : List Text) (out : List PausedThread)
      → count_thread (c ∷ t) (sweep_from now stale_after none get_state ids seen out)
        ≡ count_thread (c ∷ t) out + due ids seen
  unfolding sweep_from
  sweep-count [] seen out = ground arith
  sweep-count (none ∷ ids) seen out = ground (arith, sweep-count ids seen out)
  sweep-count (some [] ∷ ids) seen out = ground (arith, empty-differs, sweep-count ids seen out)
  sweep-count (some (d ∷ u) ∷ ids) seen out =
      let p = paused_thread now stale_after (d ∷ u) (get_state (d ∷ u)) in
      elim (Bool-cases (any (text_eq (d ∷ u)) seen)) [
        | inl old ↦
            rw (old, sweep_from)
              (ground (arith, text_eq_iff (c ∷ t) (d ∷ u), sweep-count ids seen out))
        | inr new ↦ elim (Bool-cases (is_empty (get_state (d ∷ u)).interrupts)) [
          | inl idle ↦
              rw (new, sweep_from)
                (rw idle (
                  ground
                    (arith, text_eq_iff (c ∷ t) (d ∷ u), sweep-count ids ((d ∷ u) ∷ seen) out)))
          | inr waits ↦
              rw (new, sweep_from)
                (rw waits (
                  ground (
                    arith,
                    text_eq_iff (c ∷ t) (d ∷ u),
                    count-append (c ∷ t) out (p ∷ []),
                    sweep-count ids ((d ∷ u) ∷ seen) (out ++ p ∷ []),
                  )))
        ]
      ]

-- Without a limit, a sweep of a durable checkpointer reports each thread exactly once, if it has a
-- checkpoint, its id is not empty and it waits at an interrupt, and not at all otherwise.
pub sweep_paused_threads-count :
    (now stale_after : ℕ) (graph : ThreadGraph) (ids : List (Option Text)) (c : ℕ) (t : Text)
    → graph.checkpoints ≡ some ids
    → count_thread (c ∷ t) (sweep_paused_threads now stale_after none graph) ≡ (
        if has_checkpoint (c ∷ t) ids && not (is_empty (graph.get_state (c ∷ t)).interrupts)
        then 1
        else 0)
unfolding sweep_paused_threads
sweep_paused_threads-count now stale_after graph ids c t h =
    ap (λ o. count_thread (c ∷ t) (sweep_of now stale_after none graph.get_state o)) h
    ∙ sweep-count now stale_after graph.get_state c t ids [] []
    ∙ omega arith
