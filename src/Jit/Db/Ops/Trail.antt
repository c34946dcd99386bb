-- ===== src/Jit/Db/Ops/Trail.antt =====
-- The audit trail of paw_kit/jit/db.py: the lifecycle of a task can be read from `state_transitions`.
use paw_toolkit.Prelude.{
  ℕ, zero, suc, ◌<◌, String, ◌≡◌, subst, Option, none, some, List, [], ◌∷◌, arith, lookup, str_eq,
  take, All, str_eq_iff, Bool-cases, inl, inr,
}
use paw_toolkit.Jit.Db.Table.{of_task}
use paw_toolkit.Jit.Db.Table.Retention.{IsOrdered, insert-IsOrdered, prune-IsOrdered}
use paw_toolkit.Jit.Db.Schema
use paw_toolkit.Jit.Db.Schema.{Status, Task, Transition, Store, status_eq}
use paw_toolkit.Jit.Db.Op.{Op, record_trace, record_state_transition, prune_trail}
use paw_toolkit.Jit.Db.Ops.{apply, run}
use paw_toolkit.Jit.Db.Ops.Machine.{row_after, trail_after}
use paw_toolkit.Jit.Db.Ops.Refines.{trail, lookup-apply, trail-apply}

module _ {F : Type 0} where
  -- Each entry starts where the entry before it ended, at a later epoch.
  abbrev pub Links : Transition F → List (Transition F) → Type 0
  Links e [] = Unit {0}
  Links e (f ∷ es) = (e.from_status ≡ f.to_status) × (f.state_epoch < e.state_epoch) × Links f es

  -- The newest entry names the status and the epoch of the row. A task with no row has no entry, and
  -- a row with no entry is at epoch 0.
  abbrev pub Agrees : Option (Task F) → List (Transition F) → Type 0
  Agrees none [] = Unit {0}
  Agrees none (e ∷ es) = ⊥
  Agrees (some r) [] = r.state_epoch ≡ 0
  Agrees (some r) (e ∷ es) = (e.to_status ≡ r.status) × (e.state_epoch ≡ r.state_epoch) × Links e es

  take-Links :
      (n : ℕ) (e : Transition F) (es : List (Transition F)) → Links e es → Links e (take n es)
  take-Links zero e es h = tt
  take-Links (suc n) e [] h = tt
  take-Links (suc n) e (f ∷ es) h = (h.0, h.1, take-Links n f es h.2)

  -- Any write but the public `record_state_transition`, which adds whatever entry its caller names.
  abbrev pub IsOwn : Op F → Type 0
  IsOwn (record_state_transition _ _ _ _ _ _) = ⊥
  IsOwn _ = Unit {0}

  after-Agrees :
      (now : ℕ) (op : Op F) (o : Option (Task F)) (es : List (Transition F))
      → IsOwn op
      → Agrees o es
      → Agrees (row_after now op o) (trail_after now op o es)
  after-Agrees now (record_state_transition _ _ _ _ _ _) o es own h = absurd own
  after-Agrees now (record_trace _ _ _) none [] own h = ground arith
  after-Agrees now (record_trace _ _ _) none (e ∷ es) own h = absurd h
  after-Agrees now (record_trace _ _ _) (some r) [] own h = ground arith
  after-Agrees now (record_trace _ _ _) (some r) (e ∷ es) own h = ground arith
  after-Agrees now prune_trail none [] own h = tt
  after-Agrees now prune_trail none (e ∷ es) own h = absurd h
  after-Agrees now prune_trail (some r) [] own h = h
  after-Agrees now prune_trail (some r) (e ∷ es) own h = (h.0, h.1, take-Links 199 e es h.2)
  after-Agrees now _ none [] own h = ground arith
  after-Agrees now _ none (e ∷ es) own h = absurd h
  after-Agrees now _ (some r) [] own h = ground arith
  after-Agrees now _ (some r) (e ∷ es) own h = ground arith

  apply-IsOrdered :
      (task : String) (now : ℕ) (op : Op F) (s : Store F)
      → IsOrdered s.state_transitions
      → IsOrdered (apply task now op s).state_transitions
  unfolding apply
  apply-IsOrdered task now (record_trace _ _ _) s h = h
  apply-IsOrdered task now prune_trail s h = prune-IsOrdered task 200 s.state_transitions h
  apply-IsOrdered task now _ s h = grind (arith, insert-IsOrdered)

  pub record IsAudited (s : Store F) : Type 0 where
    pub ordered : IsOrdered s.state_transitions
    pub agrees : (j : String) → Agrees (lookup j s.tasks) (trail s j)

  apply-Agrees :
      (task j : String) (now : ℕ) (op : Op F) (s : Store F)
      → IsOwn op
      → IsAudited s
      → Agrees (lookup j (apply task now op s).tasks) (trail (apply task now op s) j)
  apply-Agrees task j now op s own v = elim (Bool-cases (str_eq task j)) [
    | inl same ↦
        rw (lookup-apply task j now op s, trail-apply task j now op s v.ordered, same)
          (subst
            (λ k.
              Agrees (row_after now op (lookup task s.tasks))
                (trail_after now op (lookup task s.tasks) (trail s k)))
            ((str_eq_iff task j).0 same)
            (after-Agrees now op (lookup task s.tasks) (trail s task) own (v.agrees task)))
    | inr other ↦
        rw (lookup-apply task j now op s, trail-apply task j now op s v.ordered, other) (v.agrees j)
  ]

  abbrev pub AllOwn : List (String × ℕ × Op F) → Type 0
  AllOwn history = All (λ step. IsOwn step.2) history

  run-IsAudited :
      (history : List (String × ℕ × Op F)) (s : Store F)
      → AllOwn history
      → IsAudited s
      → IsAudited (run history s)
  unfolding run
  run-IsAudited [] s own v = v
  run-IsAudited ((task, now, op) ∷ rest) s (mine, own) v =
      run-IsAudited rest (apply task now op s) own (record {
        ordered = apply-IsOrdered task now op s v.ordered;
        agrees = λ j. apply-Agrees task j now op s mine v;
      })

  empty-IsAudited : IsAudited (Schema.empty {F = F})
  unfolding lookup of_task
  empty-IsAudited = record { ordered = tt; agrees = λ j. tt }

  -- In every file that the program's own writes can make, which are all but calls of the public
  -- `record_state_transition`, the newest entry of a task's trail names the task's status and epoch, each
  -- entry starts where the one before it ended and at a later epoch, a task with no row has no entries and
  -- one with no entries is at epoch 0.
  pub history-IsAudited :
      (history : List (String × ℕ × Op F)) → AllOwn history → IsAudited (run history Schema.empty)
  history-IsAudited history own = run-IsAudited history Schema.empty own empty-IsAudited
