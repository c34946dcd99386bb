-- ===== src/Harness/Judge/Coverage.antt =====
-- A difference of two judge runs leaves no verdict out.
use paw_toolkit.Harness.Runner.{one_if}
use paw_toolkit.Harness.Judge.Overlap.{hits, IsUnique, IsUnique-append, shared_comm}
use paw_toolkit.Prelude.{
  count, none, not, false, Bool, Option, Option-cases, ℕ, suc, ◌+◌, ◌≤◌, ◌<◌, ◌≡◌, refl, ap, sym,
  subst, ◌∙◌, String, List, [], ◌∷◌, ◌++◌, Option, none, some, true, false, str_eq, str_eq_iff,
  str_eq_refl, if◌then◌else◌, length, length-append, filter, upsert, lookup-upsert, arith,
  length-filter_split, Bool-cases, inl, inr, All, All-append,
}
use mathlib.Core.List.{append-nil, append_assoc}
use paw_toolkit.Jit.Agreement.{bool_eq}
use paw_toolkit.Harness.Judge.{JudgeVerdict, JudgeReport}
use paw_toolkit.Harness.Judge.Diff.{
  CaseKey, Indexed, same_case, put, find_case, occurrence, index_verdicts, verdicts_by_key,
  VerdictFlip, flip_of, flips_of, is_in, diff_verdicts,
}

abbrev pub verdicts_in : Indexed → List JudgeVerdict
verdicts_in [] = []
verdicts_in ((k, v) ∷ m) = v ∷ verdicts_in m

-- Each key that is there was counted.
abbrev IsSeen : List (String × ℕ) → CaseKey × JudgeVerdict → Type 0
IsSeen seen ((id, i), v) = i < occurrence id seen

not_counted :
    (seen : List (String × ℕ)) (j id : String) (i : ℕ)
    → i < occurrence j seen
    → same_case (j, i) (id, occurrence id seen) ≡ true
    → ⊥
not_counted seen j id i h same =
    let same_id = (str_eq_iff j id).0 (ground arith) in
    let below = subst (λ k. i < occurrence k seen) same_id h in ground arith

occurrence-upsert :
    (seen : List (String × ℕ)) (id j : String) (n : ℕ)
    → occurrence j (upsert id n (λ _. n) seen) ≡ (if str_eq id j then n else occurrence j seen)
occurrence-upsert seen id j n = rw (lookup-upsert id j n (λ _. n) seen) (ground arith)

put-fresh :
    (seen : List (String × ℕ)) (id : String) (v : JudgeVerdict) (m : Indexed)
    → All (IsSeen seen) m
    → put (id, occurrence id seen) v m ≡ m ++ (((id, occurrence id seen), v) ∷ [])
unfolding put
put-fresh seen id v [] h = refl
put-fresh seen id v (((j, i), w) ∷ m) (s, h) =
    elim (Bool-cases (same_case (j, i) (id, occurrence id seen))) [
      | inl same ↦ absurd (not_counted seen j id i s same)
      | inr apart ↦ rw apart (ap (λ n. ((j, i), w) ∷ n) (put-fresh seen id v m h))
    ]

upsert_same :
    (seen : List (String × ℕ)) (id : String) (n : ℕ) → occurrence id (upsert id n (λ _. n) seen) ≡ n
upsert_same seen id n = rw (str_eq_refl id) at (occurrence-upsert seen id id n)

more_seen :
    (seen : List (String × ℕ)) (j id : String) (i : ℕ)
    → i < occurrence j seen
    → i < occurrence j (upsert id (occurrence id seen + 1) (λ _. occurrence id seen + 1) seen)
more_seen seen j id i h =
    let n = occurrence id seen + 1 in
    let known = occurrence-upsert seen id j n in
    elim (Bool-cases (str_eq id j)) [
      | inl same ↦
          let h' = subst (λ k. i < occurrence k seen) (sym ((str_eq_iff id j).0 same)) h in
          let known' = rw same at known in omega (arith, known', h')
      | inr apart ↦ let known' = rw apart at known in omega (arith, known', h)
    ]

IsSeen-kept :
    (seen : List (String × ℕ)) (id : String) (m : Indexed)
    → All (IsSeen seen) m
    → All (IsSeen (upsert id (occurrence id seen + 1) (λ _. occurrence id seen + 1) seen)) m
IsSeen-kept seen id [] h = tt
IsSeen-kept seen id (((j, i), w) ∷ m) (s, h) = (more_seen seen j id i s, IsSeen-kept seen id m h)

verdicts_in-append : (m n : Indexed) → verdicts_in (m ++ n) ≡ verdicts_in m ++ verdicts_in n
verdicts_in-append [] n = refl
verdicts_in-append ((k, v) ∷ m) n = ap (λ vs. v ∷ vs) (verdicts_in-append m n)

new_seen :
    (seen : List (String × ℕ)) (id : String)
    → occurrence id seen
      < occurrence id (upsert id (occurrence id seen + 1) (λ _. occurrence id seen + 1) seen)
new_seen seen id = omega (arith, upsert_same seen id (occurrence id seen + 1))

verdicts_in-index_verdicts :
    (vs : List JudgeVerdict) (seen : List (String × ℕ)) (m : Indexed)
    → All (IsSeen seen) m
    → verdicts_in (index_verdicts vs seen m) ≡ verdicts_in m ++ vs
unfolding index_verdicts
verdicts_in-index_verdicts [] seen m h = sym (append-nil (verdicts_in m))
verdicts_in-index_verdicts (v ∷ vs) seen m h =
    let id = v.case_id in
    let seen' = upsert id (occurrence id seen + 1) (λ _. occurrence id seen + 1) seen in
    rw (put-fresh seen id v m h) (
      verdicts_in-index_verdicts vs seen' (m ++ (((id, occurrence id seen), v) ∷ []))
        (All-append (IsSeen seen') m _ (IsSeen-kept seen id m h) (new_seen seen id, tt))
      ∙ ap (λ ws. ws ++ vs) (verdicts_in-append m _)
      ∙ append_assoc (verdicts_in m) (v ∷ []) vs)

not_hit :
    (seen : List (String × ℕ)) (id : String) (m : Indexed)
    → All (IsSeen seen) m
    → hits (id, occurrence id seen) m ≡ 0
not_hit seen id [] h = refl
not_hit seen id (((j, i), w) ∷ m) (s, h) =
    elim (Bool-cases (same_case (j, i) (id, occurrence id seen))) [
      | inl same ↦ absurd (not_counted seen j id i s same)
      | inr apart ↦ omega (arith, ap one_if apart, not_hit seen id m h)
    ]

index_verdicts-IsUnique :
    (vs : List JudgeVerdict) (seen : List (String × ℕ)) (m : Indexed)
    → All (IsSeen seen) m
    → IsUnique m
    → IsUnique (index_verdicts vs seen m)
unfolding index_verdicts
index_verdicts-IsUnique [] seen m h u = u
index_verdicts-IsUnique (v ∷ vs) seen m h u =
    let id = v.case_id in
    let seen' = upsert id (occurrence id seen + 1) (λ _. occurrence id seen + 1) seen in
    rw (put-fresh seen id v m h) (
      index_verdicts-IsUnique vs seen' (m ++ (((id, occurrence id seen), v) ∷ []))
        (All-append (IsSeen seen') m _ (IsSeen-kept seen id m h) (new_seen seen id, tt))
        (IsUnique-append m (id, occurrence id seen) v (not_hit seen id m h) u))

verdicts_by_key-IsUnique : (r : JudgeReport) → IsUnique (verdicts_by_key r)
unfolding verdicts_by_key
verdicts_by_key-IsUnique r = index_verdicts-IsUnique r.verdicts [] [] tt tt

-- The index of a report holds its verdicts, each once and in order: no occurrence of a case is lost.
pub verdicts_in-verdicts_by_key : (r : JudgeReport) → verdicts_in (verdicts_by_key r) ≡ r.verdicts
unfolding verdicts_by_key
verdicts_in-verdicts_by_key r = verdicts_in-index_verdicts r.verdicts [] [] tt

length-verdicts_in : (m : Indexed) → length (verdicts_in m) ≡ length m
length-verdicts_in [] = refl
length-verdicts_in ((k, v) ∷ m) = ap suc (length-verdicts_in m)

length-verdicts_by_key : (r : JudgeReport) → length (verdicts_by_key r) ≡ length r.verdicts
length-verdicts_by_key r =
    sym (length-verdicts_in (verdicts_by_key r)) ∙ ap length (verdicts_in-verdicts_by_key r)

abbrev pub IsFlip : VerdictFlip → Type 0
IsFlip f = bool_eq f.old_verdict f.new_verdict ≡ false

flip_of-IsFlip :
    (id : String) (o : JudgeVerdict) (n : Option JudgeVerdict)
    → All IsFlip (flip_of id o n) × (length (flip_of id o n) ≤ 1)
flip_of-IsFlip id o none = (tt, omega arith)
flip_of-IsFlip id o (some n) = elim (Bool-cases (bool_eq o.verdict n.verdict)) [
  | inl same ↦ rw same (tt, omega arith)
  | inr apart ↦ rw apart ((apart, tt), omega arith)
]

-- A case that both runs have, with two different verdicts.
abbrev pub changed : Option JudgeVerdict → JudgeVerdict → Bool
changed none o = false
changed (some n) o = not (bool_eq o.verdict n.verdict)

abbrev pub is_changed : Indexed → CaseKey × JudgeVerdict → Bool
is_changed new (k, o) = changed (find_case k new) o

length-flip_of :
    (id : String) (o : JudgeVerdict) (n : Option JudgeVerdict)
    → length (flip_of id o n) ≡ one_if (changed n o)
length-flip_of id o none = refl
length-flip_of id o (some n) = ground arith

length-flips_of :
    (old new : Indexed)
    → length (flips_of (filter (is_in new) old) new) ≡ count (is_changed new) old
unfolding flips_of
length-flips_of [] new = refl
length-flips_of (((id, i), o) ∷ old) new =
    let flips = flips_of (filter (is_in new) old) new in
    elim (Option-cases (find_case (id, i) new)) [
      | inl absent ↦ rw absent (length-flips_of old new)
      | inr (n, found) ↦ rw found (
          ground (
            arith,
            length-flips_of old new,
            length-append (flip_of id o (some n)) flips,
            length-flip_of id o (some n),
          ))
    ]

flips_of-IsFlip :
    (common new : Indexed)
    → All IsFlip (flips_of common new) × (length (flips_of common new) ≤ length common)
unfolding flips_of
flips_of-IsFlip [] new = (tt, omega arith)
flips_of-IsFlip (((id, i), o) ∷ common) new =
    let (h, short) = flip_of-IsFlip id o (find_case (id, i) new) in
    let (hs, shorts) = flips_of-IsFlip common new in
    (
      All-append IsFlip (flip_of id o (find_case (id, i) new)) (flips_of common new) h hs,
      omega (
        arith,
        short,
        shorts,
        length-append (flip_of id o (find_case (id, i) new)) (flips_of common new),
      ),
    )

-- A difference of two runs accounts for every verdict of each run: the index of a run holds its verdicts, each once
-- and in order; each verdict of the old run is compared or counted as of that run only, and so is each of the new
-- run; the flips are as many as the cases that both runs have with two different verdicts, and each flip has two
-- different verdicts.
pub diff_verdicts-IsWhole :
    (old new : JudgeReport)
    → let d = diff_verdicts old new in
      (verdicts_in (verdicts_by_key old) ≡ old.verdicts)
      × (verdicts_in (verdicts_by_key new) ≡ new.verdicts)
      × (d.compared_cases + d.old_only_count ≡ d.old_total)
      × (d.compared_cases + d.new_only_count ≡ d.new_total)
      × (d.flipped_count ≡ length d.flips)
      × (d.flipped_count ≡ count (is_changed (verdicts_by_key new)) (verdicts_by_key old))
      × All IsFlip d.flips
unfolding diff_verdicts
diff_verdicts-IsWhole old new =
    let old_by_key = verdicts_by_key old in
    let new_by_key = verdicts_by_key new in
    let (h, _) = flips_of-IsFlip (filter (is_in new_by_key) old_by_key) new_by_key in
    let shared =
      shared_comm old_by_key new_by_key (verdicts_by_key-IsUnique old)
        (verdicts_by_key-IsUnique new) in
    (
      verdicts_in-verdicts_by_key old,
      verdicts_in-verdicts_by_key new,
      omega (arith, length-filter_split (is_in new_by_key) old_by_key, length-verdicts_by_key old),
      omega (
        arith,
        shared,
        length-filter_split (is_in old_by_key) new_by_key,
        length-verdicts_by_key new,
      ),
      refl,
      length-flips_of old_by_key new_by_key,
      h,
    )
