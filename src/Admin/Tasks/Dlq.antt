-- ===== src/Admin/Tasks/Dlq.antt =====
-- What a poll of the dead-letter table shows, and what a deletion leaves.
use langgraph_agents.Base.{
  ℕ, zero, suc, ◌+◌, ◌≤◌, ◌≡◌, refl, ap, Option, some, List, [], ◌∷◌, take, length, if◌then◌else◌,
  Text, text_eq, text_eq_iff, Bool-cases, inl, inr, arith,
}
use langgraph_agents.Queue.Store.{DlqRow}
use langgraph_agents.Admin.Tasks.{is_after, insert_dead, dead_after, list_dlq}

-- How often a task stands in a page or in the table.
abbrev pub count_dead : Text → List DlqRow → ℕ
count_dead t [] = 0
count_dead t (d ∷ ds) = (if text_eq d.id t then 1 else 0) + count_dead t ds

count-insert :
    (t : Text) (d : DlqRow) (ds : List DlqRow)
    → count_dead t (insert_dead d ds) ≡ count_dead t (d ∷ ds)
unfolding insert_dead
count-insert t d [] = refl
count-insert t d (e ∷ es) = ground (arith, count-insert t d es)

length-insert : (d : DlqRow) (ds : List DlqRow) → length (insert_dead d ds) ≡ suc (length ds)
unfolding insert_dead
length-insert d [] = refl
length-insert d (e ∷ es) = ground (arith, length-insert d es)

length-dead_after :
    (since_id : Option Text) (ds : List DlqRow) → length (dead_after since_id ds) ≤ length ds
unfolding dead_after
length-dead_after since_id [] = omega arith
length-dead_after since_id (d ∷ ds) =
    ground (arith, length-dead_after since_id ds, length-insert d (dead_after since_id ds))

count-dead_after :
    (t : Text) (since_id : Option Text) (ds : List DlqRow)
    → count_dead t (dead_after since_id ds) ≡ (if is_after since_id t then count_dead t ds else 0)
unfolding dead_after
count-dead_after t since_id [] = ground arith
count-dead_after t since_id (d ∷ ds) =
    let rest = dead_after since_id ds in
    elim (Bool-cases (text_eq d.id t)) [
      | inl same ↦
          let alike : is_after since_id d.id ≡ is_after since_id t =
            ap (is_after since_id) ((text_eq_iff d.id t).0 same) in
          rw (alike, same)
            (ground (arith, same, count-insert t d rest, count-dead_after t since_id ds))
      | inr other ↦
          rw other (ground (arith, other, count-insert t d rest, count-dead_after t since_id ds))
    ]

take-all {ℓ} : {A : Type ℓ} (n : ℕ) (xs : List A) → length xs ≤ n → take n xs ≡ xs
take-all zero [] h = refl
take-all (suc n) [] h = refl
take-all zero (x ∷ xs) h = absurd (omega arith)
take-all (suc n) (x ∷ xs) h = ap (◌∷◌ x) (take-all n xs (omega arith))

-- A poll whose limit is large enough shows every entry of the table exactly as often as it stands
-- there if its task id is above the cursor, and not at all otherwise.
pub list_dlq-page :
    (t : Text) (since_id : Option Text) (limit : ℕ) (dlq : List DlqRow)
    → length dlq ≤ limit
    → (page : List DlqRow) × (list_dlq since_id limit (some dlq) ≡ some page)
      × (count_dead t page ≡ (if is_after since_id t then count_dead t dlq else 0))
unfolding list_dlq
list_dlq-page t since_id limit dlq h = (
  dead_after since_id dlq,
  ap some
      (take-all limit (dead_after since_id dlq) (omega (arith, length-dead_after since_id dlq))),
  count-dead_after t since_id dlq,
)
