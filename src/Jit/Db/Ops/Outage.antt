-- ===== src/Jit/Db/Ops/Outage.antt =====
-- Retention in paw_kit/jit/db.py against a run of teacher errors: pruned rows take their sequence
-- numbers with them.
use paw_toolkit.Prelude.{
  ℕ, suc, ◌+◌, String, ◌≡◌, refl, subst, ap, ◌∙◌, Bool, true, false, ◌&&◌, not, List, [], ◌∷◌,
  arith, take, length, str_eq, All,
}
use paw_toolkit.Jit.Db.Table.{Row, of_task, insert}
use paw_toolkit.Jit.Db.Table.Retention.{IsOrdered, insert-IsOrdered, of_task-prune}
use paw_toolkit.Jit.Db.Schema.{ShadowPair, Store, is_countable}
use paw_toolkit.Jit.Db.Op.{Op, record_shadow_pair}
use paw_toolkit.Jit.Db.Ops.{apply, run, prune_shadow_pairs}
use paw_toolkit.Jit.Db.Pairs.{max_seq, get_epoch_seq}

module _ {F : Type 0} where
  -- A comparison of the task that does not count.
  abbrev pub is_excluded : String → String × ℕ × Op F → Bool
  is_excluded task (t, now, record_shadow_pair _ _ _ _ _ verdict _ _ _) =
      str_eq t task && not (is_countable verdict)
  is_excluded task _ = false

  abbrev Zero : List (Row (ShadowPair F)) → Type 0
  Zero rows = All (λ r. r.value.seq ≡ 0) rows

  max_seq-Zero : (epoch : ℕ) (rows : List (Row (ShadowPair F))) → Zero rows → max_seq epoch rows ≡ 0
  unfolding max_seq
  max_seq-Zero epoch [] h = refl
  max_seq-Zero epoch (r ∷ rs) h = ground (arith, max_seq-Zero epoch rs h.1)

  apply-pairs-IsOrdered :
      (task t : String) (now : ℕ) (op : Op F) (s : Store F)
      → is_excluded task (t, now, op) ≡ true
      → IsOrdered s.shadow_pairs
      → IsOrdered (apply t now op s).shadow_pairs
  unfolding apply
  apply-pairs-IsOrdered task t now (record_shadow_pair _ _ _ _ _ _ _ _ _) s q h =
      insert-IsOrdered _ _ _ h
  apply-pairs-IsOrdered task t now _ s q h = cc

  apply-Zero :
      (task t : String) (now n : ℕ) (op : Op F) (s : Store F)
      → is_excluded task (t, now, op) ≡ true
      → Zero (take n (of_task task s.shadow_pairs.rows))
      → Zero (take (suc n) (of_task task (apply t now op s).shadow_pairs.rows))
  unfolding apply of_task insert
  apply-Zero task t now n (record_shadow_pair _ _ _ _ _ _ _ _ _) s q h = ground arith
  apply-Zero task t now n _ s q h = cc

  run-Zero :
      (task : String) (m k : ℕ) (history : List (String × ℕ × Op F)) (s : Store F)
      → k ≡ length history + m
      → All (λ step. is_excluded task step ≡ true) history
      → Zero (take m (of_task task s.shadow_pairs.rows))
      → Zero (take k (of_task task (run history s).shadow_pairs.rows))
  unfolding run
  run-Zero task m k [] s e q h =
      let same : m ≡ k = omega arith in
      subst (λ n. Zero (take n (of_task task s.shadow_pairs.rows))) same h
  run-Zero task m k ((t, now, op) ∷ rest) s e q h =
      run-Zero task (suc m) k rest (apply t now op s) (omega arith) q.1
        (apply-Zero task t now m op s q.0 h)

  run-IsOrdered :
      (task : String) (history : List (String × ℕ × Op F)) (s : Store F)
      → All (λ step. is_excluded task step ≡ true) history
      → IsOrdered s.shadow_pairs
      → IsOrdered (run history s).shadow_pairs
  unfolding run
  run-IsOrdered task [] s q h = h
  run-IsOrdered task ((t, now, op) ∷ rest) s q h =
      run-IsOrdered task rest (apply t now op s) q.1 (apply-pairs-IsOrdered task t now op s q.0 h)

  -- When as many comparisons in a row as the retention cap do not count, pruning leaves no countable
  -- row of the task: the sequence of every epoch starts at 0 again, however far it had come.
  pub outage-resets_seq :
      (task : String) (limit epoch : ℕ) (history : List (String × ℕ × Op F)) (s : Store F)
      → IsOrdered s.shadow_pairs
      → length history ≡ suc limit
      → All (λ step. is_excluded task step ≡ true) history
      → get_epoch_seq task epoch (prune_shadow_pairs task (suc limit) (run history s)) ≡ 0
  unfolding get_epoch_seq prune_shadow_pairs
  outage-resets_seq task limit epoch history s o e q =
      ap (max_seq epoch)
        (of_task-prune task limit (run history s).shadow_pairs (run-IsOrdered task history s q o))
      ∙ max_seq-Zero epoch _ (run-Zero task 0 (suc limit) history s (omega arith) q tt)
