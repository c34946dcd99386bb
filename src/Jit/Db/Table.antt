-- ===== src/Jit/Db/Table.antt =====
-- A table of paw_kit/jit/db.py with `id INTEGER PRIMARY KEY AUTOINCREMENT` and a `task_id` column.
-- `rows` holds the newest row first, so `ORDER BY id DESC` is the order of the list.
pub mod Retention
use paw_toolkit.Prelude.{
  ℕ, suc, String, Bool, false, ◌&&◌, not, Option, none, some, List, [], ◌∷◌, ltb, take, filter, min,
  str_eq,
}

pub record Row {ℓ} (V : Type ℓ) : Type ℓ where
  pub id : ℕ
  pub task_id : String
  pub value : V

pub record Table {ℓ} (V : Type ℓ) : Type ℓ where
  -- The identity that the next insert gets: AUTOINCREMENT never reuses one.
  pub next_id : ℕ
  pub rows : List (Row V)

module _ {ℓ} {V : Type ℓ} where
  abbrev pub empty : Table V
  empty = record { next_id = 1; rows = [] }

  unfoldable pub insert : String → V → Table V → Table V
  insert task v t = record {
    next_id = suc t.next_id;
    rows = record { id = t.next_id; task_id = task; value = v } ∷ t.rows;
  }

  -- `WHERE task_id = ?`
  unfoldable pub of_task : String → List (Row V) → List (Row V)
  of_task task = filter (λ r. str_eq r.task_id task)

  -- `SELECT MIN(id)`, which is NULL over no rows.
  unfoldable pub min_id : List (Row V) → Option ℕ
  min_id [] = none
  min_id (r ∷ rs) = some (elim (min_id rs) [ none ↦ r.id | some m ↦ min r.id m ])

  -- `id < bound`, which does not hold of a NULL bound.
  abbrev pub is_below : Option ℕ → Row V → Bool
  is_below none r = false
  is_below (some b) r = ltb r.id b

  unfoldable pub delete_below : String → Option ℕ → List (Row V) → List (Row V)
  delete_below task bound = filter (λ r. not (str_eq r.task_id task && is_below bound r))

  -- The statement of `_prune_shadow_pairs_locked` and `_prune_transitions_locked`.
  unfoldable pub prune : String → ℕ → Table V → Table V
  unfolding of_task min_id delete_below
  prune task limit t = record t {
    rows = delete_below task (min_id (take limit (of_task task t.rows))) t.rows;
  }
