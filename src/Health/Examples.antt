-- ===== src/Health/Examples.antt =====
-- The probe cache on a service that goes down.
use langgraph_agents.Base.{ℕ, Option, some, none, [], ◌∷◌, ltb, if◌then◌else◌, Text, text, List}
use langgraph_agents.Health.{calls}
use langgraph_agents.Health.Freshness.{AreFresh, calls-AreFresh}

abbrev probe : ℕ → Text → Option ℕ
probe now url = if ltb now 30 then some 200 else none

abbrev run : List (ℕ × Text)
run = (10, text "http://spark/") ∷ (40, text "http://spark") ∷ (80, text "http://spark") ∷ []

calls-AreFresh_example : AreFresh probe 60 run (calls probe 60 run []).0
calls-AreFresh_example = calls-AreFresh probe 60 run
