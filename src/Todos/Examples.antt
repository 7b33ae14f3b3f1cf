-- ===== src/Todos/Examples.antt =====
-- The todo routes on a concrete table.
use langgraph_agents.Base.{refl, some, none, [], ◌∷◌, text}
use langgraph_agents.Todos.{Todo, TodoUpdate, done, fresh_todo}
use langgraph_agents.Todos.Closing.{AreConsistent, todo_step, patched, todo_step-AreConsistent}

abbrev milk : Todo
milk =
    fresh_todo 5 (text "01A") (record { body = text "buy milk"; tags = []; metadata = text "{}" })

abbrev closed_milk : TodoUpdate
closed_milk = record { body = none; status = some done; tags = none; metadata = none }

todo_step-AreConsistent_example :
    AreConsistent (todo_step 9 (patched (text "01A") closed_milk) (some (milk ∷ [])))
todo_step-AreConsistent_example =
    todo_step-AreConsistent 9 (patched (text "01A") closed_milk) (some (milk ∷ [])) (refl, tt)
