-- ===== src/Todos/Closing.antt =====
-- A todo has its closing time exactly while it is closed.
use langgraph_agents.Base.{
  ℕ, ◌≡◌, refl, Bool, true, false, none, some, List, [], ◌∷◌, ◌++◌, not, is_some, if◌then◌else◌,
  arith, Text, text_eq, All, Bool-cases, inl, inr, ◌&&◌,
}
use langgraph_agents.Todos.{
  Todo, TodoCreate, TodoUpdate, is_open, Pool, create_todo, update_todo, delete_todo, update_where,
  apply_update, drop_todo, TodoResponse, invalid, no_pool, no_fields, one, written, fresh_todo,
  is_valid_body, is_valid_update, is_empty_update,
}

abbrev pub IsConsistent : Todo → Type 0
IsConsistent t = is_some t.closed_at ≡ not (is_open t.status)

abbrev pub AreConsistent : Pool → Type 0
AreConsistent none = Unit
AreConsistent (some todos) = All IsConsistent todos

apply_update-IsConsistent :
    (now : ℕ) (u : TodoUpdate) (t : Todo) → IsConsistent t → IsConsistent (apply_update now u t)
apply_update-IsConsistent now u t h = ground arith

append-IsConsistent :
    (todos : List Todo) (t : Todo)
    → All IsConsistent todos
    → IsConsistent t
    → All IsConsistent (todos ++ t ∷ [])
append-IsConsistent [] t h c = (c, tt)
append-IsConsistent (x ∷ todos) t h c = (h.0, append-IsConsistent todos t h.1 c)

update_where-IsConsistent :
    (id : Text) (p : Todo → Bool) (f : Todo → Todo) (todos : List Todo)
    → ((t : Todo) → IsConsistent t → IsConsistent (f t))
    → All IsConsistent todos
    → All IsConsistent (update_where id p f todos).1
unfolding update_where
update_where-IsConsistent id p f [] keep h = tt
update_where-IsConsistent id p f (t ∷ todos) keep h = elim (Bool-cases (text_eq t.id id && p t)) [
  | inl hit ↦ rw hit (keep t h.0, update_where-IsConsistent id p f todos keep h.1)
  | inr miss ↦ rw miss (h.0, update_where-IsConsistent id p f todos keep h.1)
]

either-AreConsistent :
    (b : Bool) (x y : TodoResponse × Pool)
    → AreConsistent x.1
    → AreConsistent y.1
    → AreConsistent (if b then x else y).1
either-AreConsistent true x y hx hy = hx
either-AreConsistent false x y hx hy = hy

-- The routes that write.
pub data TodoOp : Type 0 where
  created : (id : Text) → TodoCreate → TodoOp
  patched : (id : Text) → TodoUpdate → TodoOp
  deleted : (id : Text) → TodoOp

unfoldable pub todo_step : ℕ → TodoOp → Pool → Pool
todo_step now (created id req) pool = (create_todo now id req pool).1
todo_step now (patched id u) pool = (update_todo now id u pool).1
todo_step now (deleted id) pool = (delete_todo now id pool).1

-- Every route that writes keeps each todo's closing time set exactly while its status is not
-- 'open', refused requests included.
pub todo_step-AreConsistent :
    (now : ℕ) (op : TodoOp) (pool : Pool)
    → AreConsistent pool
    → AreConsistent (todo_step now op pool)
unfolding todo_step create_todo update_todo delete_todo
todo_step-AreConsistent now (created id req) none h =
    either-AreConsistent (not (is_valid_body req.body)) (invalid, none) (no_pool, none) tt tt
todo_step-AreConsistent now (created id req) (some todos) h =
    let t = fresh_todo now id req in
    either-AreConsistent (not (is_valid_body req.body)) (invalid, some todos)
      (one t, some (todos ++ t ∷ [])) h (append-IsConsistent todos t h refl)
todo_step-AreConsistent now (patched id u) none h =
    either-AreConsistent (not (is_valid_update u)) (invalid, none) (no_pool, none) tt tt
todo_step-AreConsistent now (patched id u) (some todos) h =
    let after = written (update_where id (λ _. true) (apply_update now u) todos) in
    either-AreConsistent (not (is_valid_update u)) (invalid, some todos)
      (if is_empty_update u then (no_fields, some todos) else after) h
      (either-AreConsistent (is_empty_update u) (no_fields, some todos) after h
        (update_where-IsConsistent id _ (apply_update now u) todos (apply_update-IsConsistent now u)
          h))
todo_step-AreConsistent now (deleted id) none h = tt
todo_step-AreConsistent now (deleted id) (some todos) h =
    update_where-IsConsistent id _ (drop_todo now) todos (λ _ _. refl) h
