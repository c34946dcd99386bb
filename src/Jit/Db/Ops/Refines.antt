-- ===== src/Jit/Db/Ops/Refines.antt =====
-- The statements of paw_kit/jit/db.py implement the abstract machine.
use paw_toolkit.Prelude.{
  ℕ, String, ◌≡◌, arith, lookup, lookup-upsert, lookup-update, str_eq, str_eq_iff, if◌then◌else◌,
  map, map-take, ap, subst, ◌∙◌, List, ◌∷◌, take, Bool-cases, inl, inr,
}
use paw_toolkit.Jit.Db.Table.{Table, insert, prune, of_task}
use paw_toolkit.Jit.Db.Table.Retention.{IsOrdered, of_task-prune, of_task-prune_ne}
use paw_toolkit.Jit.Db.Schema.{Store, Transition}
use paw_toolkit.Jit.Db.Op.{Op, record_trace, prune_pairs, prune_trail}
use paw_toolkit.Jit.Db.Ops.{apply}
use paw_toolkit.Jit.Db.Ops.Machine.{row_after, trail_after}

module _ {F : Type 0} where
  -- The trail of a task: its entries in `state_transitions`, newest first.
  abbrev pub trail : Store F → String → List (Transition F)
  trail s j = map (λ r. r.value) (of_task j s.state_transitions.rows)

  -- The row of each task after any operation is the abstract machine's: of the task that the
  -- operation is about, one step of the machine; of any other task, unchanged.
  pub lookup-apply :
      (task j : String) (now : ℕ) (op : Op F) (s : Store F)
      → lookup j (apply task now op s).tasks
        ≡ (if str_eq task j then row_after now op (lookup task s.tasks) else lookup j s.tasks)
  unfolding apply
  lookup-apply task j now (prune_pairs _) s = grind (arith, str_eq_iff)
  lookup-apply task j now _ s = grind (arith, lookup-upsert, lookup-update, str_eq_iff)

  trail-insert :
      (task j : String) (v : Transition F) (t : Table (Transition F))
      → map (λ r. r.value) (of_task j (insert task v t).rows) ≡ (
          if str_eq task j
          then v ∷ map (λ r. r.value) (of_task j t.rows)
          else map (λ r. r.value) (of_task j t.rows))
  unfolding insert of_task
  trail-insert task j v t = ground arith

  trail-prune :
      (task j : String) (t : Table (Transition F))
      → IsOrdered t
      → map (λ r. r.value) (of_task j (prune task 200 t).rows) ≡ (
          if str_eq task j
          then take 200 (map (λ r. r.value) (of_task j t.rows))
          else map (λ r. r.value) (of_task j t.rows))
  trail-prune task j t h = elim (Bool-cases (str_eq task j)) [
    | inl same ↦ rw same (
        subst
          (λ k.
            map (λ r. r.value) (of_task k (prune task 200 t).rows)
            ≡ take 200 (map (λ r. r.value) (of_task k t.rows)))
          ((str_eq_iff task j).0 same)
          (ap (map (λ r. r.value)) (of_task-prune task 199 t h)
            ∙ map-take (λ r. r.value) 200 (of_task task t.rows)))
    | inr other ↦ rw other (rw (of_task-prune_ne task j 200 t other))
  ]

  -- So is the trail of each task, in a table whose identities fall: of the task that the operation is
  -- about, the entries after a step of the machine; of any other task, unchanged.
  pub trail-apply :
      (task j : String) (now : ℕ) (op : Op F) (s : Store F)
      → IsOrdered s.state_transitions
      → trail (apply task now op s) j ≡ (
          if str_eq task j then trail_after now op (lookup task s.tasks) (trail s j) else trail s j)
  unfolding apply
  trail-apply task j now (record_trace _ _ _) s h = ground arith
  trail-apply task j now prune_trail s h = trail-prune task j s.state_transitions h
  trail-apply task j now _ s h =
      grind (arith, lookup-upsert, lookup-update, str_eq_iff, trail-insert)
