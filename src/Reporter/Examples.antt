-- ===== src/Reporter/Examples.antt =====
-- A task whose specialist has written its output.
use langgraph_agents.Base.{◌≡◌, refl, none, some, [], text, text_eq, strip}
use langgraph_agents.State.{FleetState, fleet_state, researcher, Source}
use langgraph_agents.Reporter.{Repr, direct, upstream_of, reporter_node}
use langgraph_agents.Reporter.Fallback.{IsShown, reporter_node-IsShown}

abbrev repr : Repr
repr = record { show_rejection = λ signal. []; show_request = λ req. [] }

abbrev asked : FleetState
asked = fleet_state (text "t1") Source.cli (text "why?")

abbrev answered : FleetState
answered = record asked { target_agent = some researcher; output = some (text " because ") }

kept : (reporter_node [] [] repr (λ system ask. none) answered).output ≡ some (text "because")
unfolding reporter_node upstream_of direct strip
kept = refl

-- An answer of blanks takes the place of the specialist's output.
blank_answer : (reporter_node [] [] repr (λ system ask. some (text " ")) answered).output ≡ some []
unfolding reporter_node upstream_of direct strip
blank_answer = refl

pointer :
    (reporter_node [] [] repr (λ system ask. none) asked).output
    ≡ some (text "**No output** from `triager` — see `hai task show t1` for details.")
unfolding reporter_node upstream_of direct strip text_eq
pointer = refl

reporter_node-IsShown_example :
    IsShown
      (strip (text " because "))
      (reporter_node [] [] repr (λ system ask. none) answered).output
reporter_node-IsShown_example = reporter_node-IsShown [] [] repr answered
