-- ===== src/Todos.antt =====
-- src/agents/api/todos.py over the table of src/agents/queue/migrations/003_todo.sql. The table is
-- the list of its rows, and each route is one transaction on it; the ULID and the time are
-- arguments. The metadata is an opaque text, and `none` for the pool is the 503 of `_require_pool`.
pub mod Closing
pub mod Examples
use langgraph_agents.Base.{
  ℕ, zero, Bool, true, false, Option, none, some, List, [], ◌∷◌, ◌++◌, ltb, leb, not, ◌&&◌, ◌||◌,
  is_some, any, if◌then◌else◌, or_else, length, take, Text, text, text_eq,
}

pub data TodoStatus : Type 0 where
  open_todo done dropped : TodoStatus

pub record Todo : Type 0 where
  pub id : Text
  pub body : Text
  pub status : TodoStatus
  pub created_by : Text
  pub tags : List Text
  pub metadata : Text
  pub created_at : ℕ
  pub updated_at : ℕ
  pub closed_at : Option ℕ

pub record TodoCreate : Type 0 where
  pub body : Text
  pub tags : List Text
  pub metadata : Text

pub record TodoUpdate : Type 0 where
  pub body : Option Text
  pub status : Option TodoStatus
  pub tags : Option (List Text)
  pub metadata : Option Text

pub data TodoResponse : Type 0 where
  invalid : TodoResponse  -- 422
  no_pool : TodoResponse  -- 503
  no_fields : TodoResponse  -- 400
  not_found : TodoResponse  -- 404
  one : Todo → TodoResponse

abbrev pub is_open : TodoStatus → Bool
is_open open_todo = true
is_open _ = false

abbrev pub is_dropped : TodoStatus → Bool
is_dropped dropped = true
is_dropped _ = false

-- `Field(min_length=1, max_length=10_000)`
abbrev pub is_valid_body : Text → Bool
is_valid_body body = leb 1 (length body) && leb (length body) 10000

abbrev pub Pool : Type 0
Pool = Option (List Todo)

abbrev pub fresh_todo : ℕ → Text → TodoCreate → Todo
fresh_todo now id req = record {
  id = id;
  body = req.body;
  status = open_todo;
  created_by = text "rob";
  tags = req.tags;
  metadata = req.metadata;
  created_at = now;
  updated_at = now;
  closed_at = none;
}

abbrev insert_todo : Todo → Pool → TodoResponse × Pool
insert_todo t none = (no_pool, none)
insert_todo t (some todos) = (one t, some (todos ++ t ∷ []))

unfoldable pub create_todo : ℕ → Text → TodoCreate → Pool → TodoResponse × Pool
create_todo now id req pool =
    if not (is_valid_body req.body)
    then (invalid, pool)
    else insert_todo (fresh_todo now id req) pool

-- `UPDATE … WHERE id = … AND p RETURNING …`: the row as it is afterwards, and the table.
unfoldable pub update_where :
    Text → (Todo → Bool) → (Todo → Todo) → List Todo → Option Todo × List Todo
update_where id p f [] = (none, [])
update_where id p f (t ∷ todos) =
    let rest = update_where id p f todos in
    if text_eq t.id id && p t then (some (f t), f t ∷ rest.1) else (rest.0, t ∷ rest.1)

abbrev or_keep {ℓ} : {A : Type ℓ} → Option A → A → A
or_keep none old = old
or_keep (some new) old = new

-- `closed_at` follows a status that is set, in and out of 'open'.
abbrev pub closing : ℕ → Option TodoStatus → Option ℕ → Option ℕ
closing now none old = old
closing now (some open_todo) old = none
closing now (some _) old = some now

abbrev pub apply_update : ℕ → TodoUpdate → Todo → Todo
apply_update now u t = record t {
  body = or_keep u.body t.body;
  status = or_keep u.status t.status;
  tags = or_keep u.tags t.tags;
  metadata = or_keep u.metadata t.metadata;
  updated_at = now;
  closed_at = closing now u.status t.closed_at;
}

abbrev pub is_empty_update : TodoUpdate → Bool
is_empty_update u =
    not (is_some u.body || (is_some u.status || (is_some u.tags || is_some u.metadata)))

abbrev found : Option Todo → TodoResponse
found none = not_found
found (some t) = one t

abbrev pub written : Option Todo × List Todo → TodoResponse × Pool
written r = (found r.0, some r.1)

abbrev pub is_valid_update : TodoUpdate → Bool
is_valid_update u = elim u.body [ none ↦ true | some b ↦ is_valid_body b ]

abbrev update_valid : ℕ → Text → TodoUpdate → Pool → TodoResponse × Pool
update_valid now id u none = (no_pool, none)
update_valid now id u (some todos) =
    if is_empty_update u
    then (no_fields, some todos)
    else written (update_where id (λ _. true) (apply_update now u) todos)

unfoldable pub update_todo : ℕ → Text → TodoUpdate → Pool → TodoResponse × Pool
update_todo now id u pool =
    if not (is_valid_update u) then (invalid, pool) else update_valid now id u pool

abbrev pub drop_todo : ℕ → Todo → Todo
drop_todo now t = record t { status = dropped; closed_at = some now; updated_at = now }

unfoldable pub delete_todo : ℕ → Text → Pool → TodoResponse × Pool
delete_todo now id none = (no_pool, none)
delete_todo now id (some todos) =
    written (update_where id (λ t. not (is_dropped t.status)) (drop_todo now) todos)

unfoldable pub find_todo : Text → List Todo → Option Todo
find_todo id [] = none
find_todo id (t ∷ todos) = if text_eq t.id id then some t else find_todo id todos

unfoldable pub get_todo : Text → Pool → TodoResponse
get_todo id none = no_pool
get_todo id (some todos) = found (find_todo id todos)

-- `ORDER BY created_at DESC`
unfoldable pub insert_newest : Todo → List Todo → List Todo
insert_newest t [] = t ∷ []
insert_newest t (u ∷ todos) =
    let later = insert_newest t todos in
    if leb u.created_at t.created_at then t ∷ u ∷ todos else u ∷ later

-- The WHERE clause.
abbrev pub is_listed : Bool → Option Text → Todo → Bool
is_listed open_only tag t =
    (not open_only || is_open t.status)
    && (elim tag [ none ↦ true | some g ↦ any (text_eq g) t.tags ])

unfoldable pub sorted_where : (Todo → Bool) → List Todo → List Todo
sorted_where p [] = []
sorted_where p (t ∷ todos) =
    let rest = sorted_where p todos in if p t then insert_newest t rest else rest

-- `open_only` is `status=open`; a pool that is missing is the 503.
unfoldable pub list_todos :
    (open_only : Bool) → (tag : Option Text) → (limit : ℕ) → Pool → Option (List Todo)
list_todos open_only tag limit none = none
list_todos open_only tag limit (some todos) =
    some (take limit (sorted_where (is_listed open_only tag) todos))
