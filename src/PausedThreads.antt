-- ===== src/PausedThreads.antt =====
-- src/agents/paused_threads.py: the sweep of the threads that wait at an interrupt. The checkpointer
-- is the list of the thread ids of its checkpoints, newest first (`none` for a checkpoint without
-- one), or is missing or in memory; the graph is what it answers for a thread. Times are in seconds,
-- and a creation time that is missing or malformed is none.
pub mod Sweep
pub mod Examples
use langgraph_agents.Base.{
  ℕ, ◌+◌, ◌-◌, Bool, true, false, Option, none, some, List, [], ◌∷◌, ◌++◌, ◌||◌, ltb, leb, any,
  if◌then◌else◌, length, take, filter, Text, text, text_eq,
}

pub record Interrupt : Type 0 where
  pub id : Option Text
  pub value : Option Text

pub record Snapshot : Type 0 where
  pub interrupts : List Interrupt
  pub created_at : Option ℕ
  pub next : List Text

pub record ThreadGraph : Type 0 where
  pub checkpoints : Option (List (Option Text))
  pub get_state : Text → Snapshot

pub record PausedThread : Type 0 where
  pub thread_id : Text
  pub paused_for_seconds : Option ℕ
  pub is_stale : Bool
  pub interrupts : List Interrupt
  pub next : List Text

abbrev pub default_stale_after_seconds : ℕ
default_stale_after_seconds = 300

abbrev pub default_log_cap : ℕ
default_log_cap = 100

abbrev pub is_empty : List Interrupt → Bool
is_empty [] = true
is_empty (i ∷ is) = false

abbrev pub paused_for : ℕ → Option ℕ → Option ℕ
paused_for now none = none
paused_for now (some created_at) = some (now - created_at)

abbrev pub exceeds : ℕ → Option ℕ → Bool
exceeds stale_after none = false
exceeds stale_after (some seconds) = ltb stale_after seconds

abbrev pub paused_thread : (now stale_after : ℕ) → Text → Snapshot → PausedThread
paused_thread now stale_after t s = record {
  thread_id = t;
  paused_for_seconds = paused_for now s.created_at;
  is_stale = exceeds stale_after (paused_for now s.created_at);
  interrupts = s.interrupts;
  next = s.next;
}

-- `limit is not None and len(out) >= limit`
abbrev pub is_full : Option ℕ → List PausedThread → Bool
is_full none out = false
is_full (some limit) out = leb limit (length out)

module _ (now stale_after : ℕ) (limit : Option ℕ) (get_state : Text → Snapshot) where
  -- One thread id that is not empty and was not seen.
  abbrev pub visit :
      Text
      → List Text
      → List PausedThread
      → (List Text → List PausedThread → List PausedThread)
      → List PausedThread
  visit t seen out rest =
      if is_empty (get_state t).interrupts
      then rest (t ∷ seen) out
      else (let more = out ++ paused_thread now stale_after t (get_state t) ∷ [] in
          elim (is_full limit more) [ true ↦ more | false ↦ rest (t ∷ seen) more ])

  unfoldable pub sweep_from : List (Option Text) → List Text → List PausedThread → List PausedThread
  sweep_from [] seen out = out
  sweep_from (none ∷ ids) seen out = sweep_from ids seen out
  sweep_from (some [] ∷ ids) seen out = sweep_from ids seen out
  sweep_from (some (c ∷ t) ∷ ids) seen out = elim (any (text_eq (c ∷ t)) seen) [
    | true ↦ sweep_from ids seen out
    | false ↦ visit (c ∷ t) seen out (sweep_from ids)
  ]

abbrev pub sweep_of :
    (now stale_after : ℕ)
    → Option ℕ
    → (Text → Snapshot)
    → Option (List (Option Text))
    → List PausedThread
sweep_of now stale_after limit get_state none = []
sweep_of now stale_after limit get_state (some ids) =
    sweep_from now stale_after limit get_state ids [] []

unfoldable pub sweep_paused_threads :
    (now stale_after : ℕ) → (limit : Option ℕ) → ThreadGraph → List PausedThread
sweep_paused_threads now stale_after limit graph =
    sweep_of now stale_after limit graph.get_state graph.checkpoints

abbrev pub stale_of : List PausedThread → List PausedThread
stale_of threads = filter (λ t. t.is_stale) threads

-- The gauge: its value for `is_stale="true"`, and for "false".
unfoldable pub update_gauge : List PausedThread → ℕ × ℕ
update_gauge threads = (length (stale_of threads), length threads - length (stale_of threads))

-- What start-up logs: the failure of the sweep, or the summary, the threads with a line of their own
-- and the number of those without.
pub data StartupLog : Type 0 where
  sweep_failed : StartupLog
  sweep_done : (total stale : ℕ) → (warned : List PausedThread) → (truncated : ℕ) → StartupLog

-- `none` is an exception of the sweep.
unfoldable pub startup_log_paused_threads : (log_cap : ℕ) → Option (List PausedThread) → StartupLog
startup_log_paused_threads log_cap none = sweep_failed
startup_log_paused_threads log_cap (some rows) =
    sweep_done (length rows) (length (stale_of rows)) (take log_cap (stale_of rows))
      (length (stale_of rows) - log_cap)
