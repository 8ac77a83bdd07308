-- ===== src/Tasks/Tick.antt =====
-- The loop over the tasks that are run on every tick of the clock, when one of them deletes itself.
use cnc_3d.Common.{
  ℕ, zero, suc, ◌≡◌, refl, ap, ◌∙◌, arith, Bool, true, false, ◌&&◌, Option, none, some, List, [],
  ◌∷◌, ◌++◌, ◌==◌, ==_iff, get_or, set,
}
use cnc_3d.Tasks.Pool.{Task, Tasks, task_free, free_found, take_first, task_delete_systick}
use cnc_3d.Tasks.Run.{
  Setup, delete_systick, perform, perform_all, call_task, successor, next_of, run_systicks,
}
use cnc_3d.Tasks.Count.{count, held, IsValid}
use cnc_3d.Tasks.Kept.{call_task-IsValid}

get_or-set-false : (xs : List Bool) (n : ℕ) → get_or (set xs n false) n false ≡ false
get_or-set-false [] n = refl
get_or-set-false (x ∷ xs) zero = refl
get_or-set-false (x ∷ xs) (suc n) = get_or-set-false xs n

module _ (u : Setup) where
  successor-none : (n : ℕ) (ts : List Task) → count n ts ≡ 0 → successor u n ts ≡ none
  unfolding successor
  successor-none n [] h = refl
  successor-none n (t ∷ ts) h = ground (arith, successor-none n ts)

  -- A node that stands in no list has no task after it.
  next_of-none : (n : ℕ) (s : Tasks) → held n s ≡ 0 → next_of u n s ≡ none
  unfolding next_of
  next_of-none n s h = rw (successor-none n s.systick_task (omega arith)) (
      rw (successor-none n s.next_task (omega arith)) (
        rw (successor-none n s.immediate_task (omega arith))
          (successor-none n s.on_booted (omega arith))))

  taken :
      (matches : Task → Bool) (t : Task) (ts : List Task)
      → matches t ≡ true
      → take_first matches (t ∷ ts) ≡ (some t.node, ts)
  unfolding take_first
  taken matches t ts h = rw h refl

  deleted :
      (t : Task) (ts : List Task) (s : Tasks)
      → s.systick_task ≡ t ∷ ts
      → task_delete_systick t.fn t.arg s ≡ task_free t.node (record s { systick_task = ts })
  unfolding task_delete_systick free_found
  deleted t ts s e =
      let p = λ (q : Task). t.fn == q.fn && (t.arg == q.arg) in
      let r =
        ap (take_first p) e
        ∙ taken p t ts (ground (arith, (==_iff t.fn t.fn).1 refl, (==_iff t.arg t.arg).1 refl)) in
      ap (λ (x : Option ℕ × List Task). free_found x.0 (record s { systick_task = x.1 })) r

  run_systicks-none : (fuel : ℕ) (s : Tasks) → run_systicks u fuel none s ≡ s
  unfolding run_systicks
  run_systicks-none zero s = refl
  run_systicks-none (suc fuel) s = refl

  called :
      (t : Task) (s : Tasks)
      → u.script t s ≡ delete_systick t.fn t.arg ∷ []
      → call_task u t s ≡ task_delete_systick t.fn t.arg (record s { ran = s.ran ++ (t ∷ []) })
  unfolding call_task perform_all perform
  called t s e = ap (λ cs. perform_all u cs (record s { ran = s.ran ++ (t ∷ []) })) e

  -- When the first of the tasks that are run on every tick deletes itself, no other is run on
  -- that tick, though the others stay in the list.
  pub deletion_ends_tick :
      (fuel : ℕ) (t : Task) (ts : List Task) (s : Tasks)
      → IsValid [] s
      → s.systick_task ≡ t ∷ ts
      → u.script t s ≡ delete_systick t.fn t.arg ∷ []
      → let s' = run_systicks u (suc fuel) (some t) s in
        (s'.ran ≡ s.ran ++ (t ∷ [])) × (s'.systick_task ≡ ts)
  unfolding run_systicks task_free
  deletion_ends_tick fuel t ts s v e c =
      let s0 = record s { ran = s.ran ++ (t ∷ []) } in
      let s1 = call_task u t s in
      let q = called t s c ∙ deleted t ts s0 e in
      let v1 = call_task-IsValid u t [] s v in
      let f = ap (λ (r : Tasks). get_or r.pool t.node false) q ∙ get_or-set-false s.pool t.node in
      let h = next_of-none t.node s1 (ground (arith, v1.counted t.node, f)) in
      let r = ap (λ o. run_systicks u fuel o s1) h ∙ run_systicks-none fuel s1 ∙ q in
      (ap (λ (x : Tasks). x.ran) r, ap (λ (x : Tasks). x.systick_task) r)
