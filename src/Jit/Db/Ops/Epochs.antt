-- ===== src/Jit/Db/Ops/Epochs.antt =====
-- The epoch of a task, which the compare-and-set statements of paw_kit/jit/db.py go by.
use paw_toolkit.Prelude.{
  ℕ, ◌<◌, String, ◌≡◌, refl, subst, Option, none, some, List, [], ◌∷◌, arith, lookup, str_eq,
  str_eq_iff, Bool-cases, ◌⊎◌, inl, inr,
}
use paw_toolkit.Jit.Db.Schema.{Task, Store}
use paw_toolkit.Jit.Db.Op.{Op, record_trace}
use paw_toolkit.Jit.Db.Ops.{apply, run}
use paw_toolkit.Jit.Db.Ops.Machine.{row_after}
use paw_toolkit.Jit.Db.Ops.Refines.{lookup-apply}

module _ {F : Type 0} where
  -- A row stays, and its epoch advances, or it stands still and so does the status.
  abbrev pub Grows : Option (Task F) → Option (Task F) → Type 0
  Grows none p = Unit {0}
  Grows (some r) none = ⊥
  Grows (some r) (some t) =
      (r.state_epoch < t.state_epoch) ⊎ ((r.state_epoch ≡ t.state_epoch) × (r.status ≡ t.status))

  Grows-refl : (o : Option (Task F)) → Grows o o
  Grows-refl none = tt
  Grows-refl (some r) = inr (refl, refl)

  Grows-trans : (o p q : Option (Task F)) → Grows o p → Grows p q → Grows o q
  Grows-trans none p q g h = tt
  Grows-trans (some r) none q g h = absurd g
  Grows-trans (some r) (some t) none g h = h
  Grows-trans (some r) (some t) (some u) g h = ground arith

  row_after-Grows : (now : ℕ) (op : Op F) (o : Option (Task F)) → Grows o (row_after now op o)
  row_after-Grows now op none = tt
  row_after-Grows now (record_trace _ _ _) (some r) = ground arith
  row_after-Grows now _ (some r) = ground arith

  apply-Grows :
      (task j : String) (now : ℕ) (op : Op F) (s : Store F)
      → Grows (lookup j s.tasks) (lookup j (apply task now op s).tasks)
  apply-Grows task j now op s = elim (Bool-cases (str_eq task j)) [
    | inl same ↦
        rw (lookup-apply task j now op s, same)
          (subst (λ k. Grows (lookup k s.tasks) (row_after now op (lookup task s.tasks)))
            ((str_eq_iff task j).0 same) (row_after-Grows now op (lookup task s.tasks)))
    | inr other ↦ rw (lookup-apply task j now op s, other) (Grows-refl (lookup j s.tasks))
  ]

  -- Whatever the processes that share the file do, a task keeps its row, its epoch never falls, and
  -- while the epoch stands still so does the status.
  pub run-Grows :
      (j : String) (history : List (String × ℕ × Op F)) (s : Store F)
      → Grows (lookup j s.tasks) (lookup j (run history s).tasks)
  unfolding run
  run-Grows j [] s = Grows-refl (lookup j s.tasks)
  run-Grows j ((task, now, op) ∷ rest) s =
      Grows-trans (lookup j s.tasks) (lookup j (apply task now op s).tasks)
        (lookup j (run rest (apply task now op s)).tasks) (apply-Grows task j now op s)
        (run-Grows j rest (apply task now op s))
