-- ===== src/Tasks/Due.antt =====
-- Which delayed tasks a round of the foreground process runs.
use cnc_3d.Common.{
  ℕ, zero, suc, ◌≤◌, ◌<◌, ◌≡◌, refl, ap, ◌∙◌, sym, arith, Bool, true, false, ◌&&◌, Option, none,
  some, List, [], ◌∷◌, if◌then◌else◌, ◌==◌, length, set, ◌++◌, append_assoc, append-nil, Bool-cases,
  Option-cases, inl, inr,
}
use cnc_3d.Tasks.Pool.{
  Task, Tasks, word, half_word, is_due, task_free, task_alloc, use_node, find_free, task_add,
  task_add_systick, task_add_immediate, task_run_on_startup, link_systick, link_immediate,
  link_booted, task_delete_systick, free_found, take_first, new_task,
}
use cnc_3d.Tasks.Run.{
  Call, Setup, add_delayed, add_systick, add_immediate, run_on_startup, delete, delete_systick,
  perform, perform_all, call_task, is_due_first, first, run_first, run_delayed,
}
use cnc_3d.Tasks.Order.{after, IsSorted, done, next, is_due_lem}

-- Calls that do not concern the delayed tasks.
abbrev pub leaves_delayed : Call → Bool
leaves_delayed (add_delayed fn arg d) = false
leaves_delayed (delete fn arg) = false
leaves_delayed _ = true

abbrev pub all_leave : List Call → Bool
all_leave [] = true
all_leave (c ∷ cs) = leaves_delayed c && all_leave cs

-- The tasks that are due at a time, and the others.
abbrev pub due_at : ℕ → List Task → List Task
due_at now [] = []
due_at now (t ∷ ts) = if is_due t.time now then t ∷ due_at now ts else due_at now ts

abbrev pub not_due_at : ℕ → List Task → List Task
not_due_at now [] = []
not_due_at now (t ∷ ts) = if is_due t.time now then not_due_at now ts else t ∷ not_due_at now ts

-- The same queue, and the same calls made.
abbrev IsSame : Tasks → Tasks → Type 0
IsSame s' s = (s'.next_task ≡ s.next_task) × (s'.ran ≡ s.ran)

task_add-IsSame :
    (link : Task → Tasks → Tasks) (t : Task) (s : Tasks)
    → ((t' : Task) (s' : Tasks) → IsSame (link t' s') s')
    → IsSame (task_add link t s).1 s
unfolding task_add use_node task_alloc
task_add-IsSame link t s l = elim (Option-cases s.last_freed) [
  | inl e ↦ elim (Option-cases (find_free s.pool)) [
    | inl f ↦ ground arith
    | inr (n, f) ↦ ground (arith, l (record t { node = n }) (record s { pool = set s.pool n true }))
  ]
  | inr (n, e) ↦
      ground (
        arith,
        l (record t { node = n }) (record s { last_freed = none; pool = set s.pool n true }),
      )
]

free_found-IsSame : (found : Option ℕ) (s : Tasks) → IsSame (free_found found s) s
unfolding free_found task_free
free_found-IsSame none s = (refl, refl)
free_found-IsSame (some n) s = (refl, refl)

task_delete_systick-IsSame : (fn arg : ℕ) (s : Tasks) → IsSame (task_delete_systick fn arg s) s
unfolding task_delete_systick
task_delete_systick-IsSame fn arg s =
    let (found, others) = take_first (λ (t : Task). fn == t.fn && (arg == t.arg)) s.systick_task in
    free_found-IsSame found (record s { systick_task = others })

task_add_immediate-IsSame : (fn arg : ℕ) (s : Tasks) → IsSame (task_add_immediate fn arg s).1 s
unfolding task_add_immediate link_immediate
task_add_immediate-IsSame fn arg s =
    task_add-IsSame link_immediate (new_task 0 fn arg) s (λ t' s'. (refl, refl))

task_add_systick-IsSame : (fn arg : ℕ) (s : Tasks) → IsSame (task_add_systick fn arg s).1 s
unfolding task_add_systick link_systick
task_add_systick-IsSame fn arg s =
    task_add-IsSame link_systick (new_task 0 fn arg) s (λ t' s'. (refl, refl))

task_run_on_startup-IsSame :
    (cold : Bool) (fn arg : ℕ) (s : Tasks) → IsSame (task_run_on_startup cold fn arg s).1 s
unfolding task_run_on_startup link_booted
task_run_on_startup-IsSame true fn arg s =
    task_add-IsSame link_booted (new_task 0 fn arg) s (λ t' s'. (refl, refl))
task_run_on_startup-IsSame false fn arg s = task_add_immediate-IsSame fn arg s

module _ (u : Setup) where
  perform-IsSame : (c : Call) (s : Tasks) → leaves_delayed c ≡ true → IsSame (perform u c s) s
  unfolding perform
  perform-IsSame (add_delayed fn arg d) s h = absurd (ground arith)
  perform-IsSame (add_systick fn arg) s h = task_add_systick-IsSame fn arg s
  perform-IsSame (add_immediate fn arg) s h = task_add_immediate-IsSame fn arg s
  perform-IsSame (run_on_startup fn arg) s h = task_run_on_startup-IsSame u.cold_start fn arg s
  perform-IsSame (delete fn arg) s h = absurd (ground arith)
  perform-IsSame (delete_systick fn arg) s h = task_delete_systick-IsSame fn arg s

  perform_all-IsSame :
      (cs : List Call) (s : Tasks) → all_leave cs ≡ true → IsSame (perform_all u cs s) s
  unfolding perform_all
  perform_all-IsSame [] s h = (refl, refl)
  perform_all-IsSame (c ∷ cs) s h =
      let (a, b) = perform-IsSame c s (ground arith) in
      let (d, e) = perform_all-IsSame cs (perform u c s) (ground arith) in (d ∙ a, e ∙ b)

  run_first_lem :
      (t : Task) (ts : List Task) (s : Tasks)
      → ((t' : Task) (s' : Tasks) → all_leave (u.script t' s') ≡ true)
      → let s' = run_first u (t ∷ ts) s in (s'.next_task ≡ ts) × (s'.ran ≡ s.ran ++ (t ∷ []))
  unfolding run_first call_task task_free
  run_first_lem t ts s q =
      let s1 = task_free t.node (record s { next_task = ts }) in
      perform_all-IsSame (u.script t s1) (record s1 { ran = s.ran ++ (t ∷ []) }) (q t s1)

  -- A task that is not due comes before others that are not due.
  none_due :
      (b k : ℕ) (ts : List Task)
      → b < word
      → u.now < word
      → after b u.now < half_word
      → after b u.now < k
      → IsSorted b k ts
      → (due_at u.now ts ≡ []) × (not_due_at u.now ts ≡ ts)
  none_due b k [] i n h l done = (refl, refl)
  none_due b k (t ∷ ts) i n h l (next m w s) =
      let d : is_due t.time u.now ≡ false =
        ground (arith, (is_due_lem b i t.time u.now w.in_word n w.in_half h).0) in
      let (x, y) = none_due b (after b t.time) ts i n h (omega arith) s in
      rw d (x, ap (λ l. t ∷ l) y)

  run_delayed-suc :
      (fuel : ℕ) (ts : List Task) (s : Tasks)
      → s.next_task ≡ ts
      → run_delayed u (suc fuel) s
        ≡ (if is_due_first u (first u ts) then run_delayed u fuel (run_first u ts s) else s)
  unfolding run_delayed
  run_delayed-suc fuel ts s e =
      ap (λ l. if is_due_first u (first u l) then run_delayed u fuel (run_first u l s) else s) e

  -- What has become of the queue `ts` of `s`.
  abbrev pub IsRun : List Task → Tasks → Tasks → Type 0
  IsRun ts s s' = (s'.ran ≡ s.ran ++ due_at u.now ts) × (s'.next_task ≡ not_due_at u.now ts)

  run_delayed-zero :
      (ts : List Task) (s : Tasks)
      → s.next_task ≡ ts
      → length ts ≤ 0
      → IsRun ts s (run_delayed u 0 s)
  unfolding run_delayed
  run_delayed-zero [] s e f = (sym (append-nil s.ran), e)
  run_delayed-zero (t ∷ ts) s e f = absurd (omega arith)

  -- If the queue is in the order of the due times, on a clock that wraps round, and these and the
  -- present time lie within half a turn of the clock from some time `b`, then the
  -- loop over the delayed tasks, with as much fuel as there are tasks, runs the tasks that are
  -- due, each once and in the order of their times, and leaves the others in the queue; the tasks it
  -- runs may add and delete tasks of any other kind.
  pub run_delayed_lem :
      (b k fuel : ℕ) (ts : List Task) (s : Tasks)
      → b < word
      → u.now < word
      → after b u.now < half_word
      → ((t' : Task) (s' : Tasks) → all_leave (u.script t' s') ≡ true)
      → s.next_task ≡ ts
      → length ts ≤ fuel
      → IsSorted b k ts
      → IsRun ts s (run_delayed u fuel s)
  run_delayed_lem b k zero ts s i n h q e f v = run_delayed-zero ts s e f
  run_delayed_lem b k (suc fuel) [] s i n h q e f v =
      rw (run_delayed-suc fuel [] s e) (sym (append-nil s.ran), e)
  run_delayed_lem b k (suc fuel) (t ∷ ts) s i n h q e f (next m w v) =
      let s1 = run_first u (t ∷ ts) s in
      let (x, y) = run_first_lem t ts s q in
      let (c, d) = run_delayed_lem b (after b t.time) fuel ts s1 i n h q x (omega arith) v in
      let l = is_due_lem b i t.time u.now w.in_word n w.in_half h in
      rw (run_delayed-suc fuel (t ∷ ts) s e) (elim (Bool-cases (is_due t.time u.now)) [
        | inl g ↦ rw g (
          c ∙ ap (λ r. r ++ due_at u.now ts) y ∙ append_assoc s.ran (t ∷ []) (due_at u.now ts),
          d,
        )
        | inr g ↦
            let (o, p) = none_due b (after b t.time) ts i n h (ground (arith, l.1, g)) v in
            rw g (rw o (sym (append-nil s.ran)), e ∙ ap (λ r. t ∷ r) (sym p))
      ])
