-- ===== src/PausedThreads/Examples.antt =====
-- The sweep over three checkpoints.
use langgraph_agents.Base.{
  ◌≡◌, refl, Option, none, some, List, [], ◌∷◌, ◌&&◌, not, if◌then◌else◌, Text, text,
}
use langgraph_agents.PausedThreads.{Snapshot, ThreadGraph, is_empty, sweep_paused_threads}
use langgraph_agents.PausedThreads.Sweep.{count_thread, has_checkpoint, sweep_paused_threads-count}

abbrev ids : List (Option Text)
ids = some (text "t2") ∷ some (text "t1") ∷ some (text "t2") ∷ none ∷ []

abbrev waiting : Snapshot
waiting = record {
  interrupts = record { id = some (text "i"); value = none } ∷ [];
  created_at = some 10;
  next = [];
}

abbrev graph : ThreadGraph
graph = record { checkpoints = some ids; get_state = λ t. waiting }

sweep_paused_threads-count_example :
    count_thread (text "t2") (sweep_paused_threads 900 300 none graph) ≡ (
      if has_checkpoint (text "t2") ids && not (is_empty (graph.get_state (text "t2")).interrupts)
      then 1
      else 0)
sweep_paused_threads-count_example =
    sweep_paused_threads-count 900 300 graph ids b't' (text "2") refl
