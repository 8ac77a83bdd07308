-- ===== src/Tasks/Kept.antt =====
-- The lists stay sound whatever is called, and whatever the tasks call that are run.
use cnc_3d.Common.{
  ℕ, zero, suc, ◌+◌, ◌%◌, ◌≡◌, refl, ap, arith, Bool, true, false, ◌&&◌, ◌||◌, Option, none, some,
  List, [], ◌∷◌, ◌++◌, if◌then◌else◌, ◌==◌, get_or, Bool-cases, inl, inr,
}
use cnc_3d.Tasks.Pool.{
  Task, Tasks, task_free, take_first, free_found, link_delayed, link_systick, link_immediate,
  link_booted, new_task, word, task_add_delayed, task_add_systick, task_add_immediate,
  task_run_on_startup, task_delete, task_delete_systick,
}
use cnc_3d.Tasks.Run.{
  Call, Setup, add_delayed, add_systick, add_immediate, run_on_startup, delete, delete_systick,
  perform, perform_all, call_task, run_list, run_immediate, task_execute_on_startup, next_of,
  run_systicks, first, run_first, run_delayed, same_first, task_execute,
}
use cnc_3d.Tasks.Count.{count, held, IsValid, count-take_first}
use cnc_3d.Tasks.Sound.{
  link_delayed-IsLink, link_systick-IsLink, link_immediate-IsLink, link_booted-IsLink,
  task_add-IsValid, task_free-IsValid,
}

-- Frees what has been taken out of a list.
free_found-IsValid :
    (found : Option ℕ) (e : List Task) (s : Tasks)
    → ((k : ℕ)
        → elim found as (λ _. ℕ) [ none ↦ 0 | some m ↦ if m == k then 1 else 0 ]
            + (count k e + held k s)
          ≡ (if get_or s.pool k false then 1 else 0))
    → ((k : ℕ) → s.last_freed ≡ some k → get_or s.pool k true ≡ false)
    → IsValid e (free_found found s)
unfolding free_found
free_found-IsValid none e s c f = record { counted = λ k. omega (arith, c k); freed = f }
free_found-IsValid (some m) e s c f =
    task_free-IsValid (record { node = m; time = 0; fn = 0; arg = 0 }) e s
      (record { counted = λ k. omega (arith, c k); freed = f })

task_delete-IsValid :
    (fn arg : ℕ) (e : List Task) (s : Tasks) → IsValid e s → IsValid e (task_delete fn arg s)
unfolding task_delete
task_delete-IsValid fn arg e s v =
    let p = λ (t : Task). fn == t.fn && ((arg == 0) || (arg == t.arg)) in
    let (found, others) = take_first p s.next_task in
    free_found-IsValid found e (record s { next_task = others })
      (λ k. omega (arith, v.counted k, count-take_first k p s.next_task)) v.freed

task_delete_systick-IsValid :
    (fn arg : ℕ) (e : List Task) (s : Tasks)
    → IsValid e s
    → IsValid e (task_delete_systick fn arg s)
unfolding task_delete_systick
task_delete_systick-IsValid fn arg e s v =
    let p = λ (t : Task). fn == t.fn && (arg == t.arg) in
    let (found, others) = take_first p s.systick_task in
    free_found-IsValid found e (record s { systick_task = others })
      (λ k. omega (arith, v.counted k, count-take_first k p s.systick_task)) v.freed

task_add_immediate-IsValid :
    (fn arg : ℕ) (e : List Task) (s : Tasks)
    → IsValid e s
    → IsValid e (task_add_immediate fn arg s).1
unfolding task_add_immediate
task_add_immediate-IsValid fn arg e s v =
    task_add-IsValid link_immediate (new_task 0 fn arg) e s link_immediate-IsLink v

task_run_on_startup-IsValid :
    (cold : Bool) (fn arg : ℕ) (e : List Task) (s : Tasks)
    → IsValid e s
    → IsValid e (task_run_on_startup cold fn arg s).1
unfolding task_run_on_startup
task_run_on_startup-IsValid true fn arg e s v =
    task_add-IsValid link_booted (new_task 0 fn arg) e s link_booted-IsLink v
task_run_on_startup-IsValid false fn arg e s v = task_add_immediate-IsValid fn arg e s v

module _ (u : Setup) where
  -- Each function that adds or deletes a task keeps the pool and the lists sound: a node in use stands
  -- once in one list, a free node in none, and the node kept as freed last is free.
  pub perform-IsValid :
      (c : Call) (e : List Task) (s : Tasks) → IsValid e s → IsValid e (perform u c s)
  unfolding perform task_add_delayed task_add_systick
  perform-IsValid (add_delayed fn arg d) e s v =
      task_add-IsValid link_delayed (new_task ((u.now + d) % word) fn arg) e s link_delayed-IsLink v
  perform-IsValid (add_systick fn arg) e s v =
      task_add-IsValid link_systick (new_task 0 fn arg) e s link_systick-IsLink v
  perform-IsValid (add_immediate fn arg) e s v = task_add_immediate-IsValid fn arg e s v
  perform-IsValid (run_on_startup fn arg) e s v =
      task_run_on_startup-IsValid u.cold_start fn arg e s v
  perform-IsValid (delete fn arg) e s v = task_delete-IsValid fn arg e s v
  perform-IsValid (delete_systick fn arg) e s v = task_delete_systick-IsValid fn arg e s v

  perform_all-IsValid :
      (cs : List Call) (e : List Task) (s : Tasks) → IsValid e s → IsValid e (perform_all u cs s)
  unfolding perform_all
  perform_all-IsValid [] e s v = v
  perform_all-IsValid (c ∷ cs) e s v =
      perform_all-IsValid cs e (perform u c s) (perform-IsValid c e s v)

  pub call_task-IsValid :
      (t : Task) (e : List Task) (s : Tasks) → IsValid e s → IsValid e (call_task u t s)
  unfolding call_task
  call_task-IsValid t e s v =
      perform_all-IsValid (u.script t s) e (record s { ran = s.ran ++ (t ∷ []) })
        (record { counted = v.counted; freed = v.freed })

  run_list-IsValid : (ts : List Task) (s : Tasks) → IsValid ts s → IsValid [] (run_list u ts s)
  unfolding run_list
  run_list-IsValid [] s v = v
  run_list-IsValid (t ∷ ts) s v =
      run_list-IsValid ts (call_task u t (task_free t.node s))
        (call_task-IsValid t ts (task_free t.node s) (task_free-IsValid t ts s v))

  run_immediate-IsValid : (s : Tasks) → IsValid [] s → IsValid [] (run_immediate u s)
  unfolding run_immediate
  run_immediate-IsValid s v = ground (
    arith,
    v,
    run_list-IsValid s.immediate_task (record s { immediate_task = [] })
        (record { counted = λ k. omega (arith, v.counted k); freed = v.freed }),
  )

  -- The tasks that are run once after the start leave pool and lists sound.
  pub on_startup-IsValid :
      (s s' : Tasks) → IsValid [] s → task_execute_on_startup u s ≡ some s' → IsValid [] s'
  unfolding task_execute_on_startup
  on_startup-IsValid s s' v h =
      let w =
        run_list-IsValid s.on_booted (record s { on_booted = [] })
          (record { counted = λ k. omega (arith, v.counted k); freed = v.freed }) in
      ground (arith, w, h)

  run_systicks-IsValid :
      (fuel : ℕ) (t : Option Task) (s : Tasks) → IsValid [] s → IsValid [] (run_systicks u fuel t s)
  unfolding run_systicks
  run_systicks-IsValid zero t s v = v
  run_systicks-IsValid (suc fuel) none s v = v
  run_systicks-IsValid (suc fuel) (some t) s v =
      let s1 = call_task u t s in
      run_systicks-IsValid fuel (next_of u t.node s1) s1 (call_task-IsValid t [] s v)

  run_first-IsValid :
      (ts : List Task) (s : Tasks) → s.next_task ≡ ts → IsValid [] s → IsValid [] (run_first u ts s)
  unfolding run_first
  run_first-IsValid [] s e v = v
  run_first-IsValid (t ∷ ts) s e v =
      let s1 = record s { next_task = ts } in
      call_task-IsValid t [] (task_free t.node s1) (
        task_free-IsValid t [] s1 (record {
          counted = λ k. omega (arith, v.counted k, ap (λ l. count k l) e);
          freed = v.freed;
        }))

  run_delayed-IsValid : (fuel : ℕ) (s : Tasks) → IsValid [] s → IsValid [] (run_delayed u fuel s)
  unfolding run_delayed
  run_delayed-IsValid zero s v = v
  run_delayed-IsValid (suc fuel) s v = ground (
    arith,
    v,
    run_delayed-IsValid fuel (run_first u s.next_task s) (run_first-IsValid s.next_task s refl v),
  )

  -- A round of the foreground process keeps pool and lists sound, whatever the tasks call that it
  -- runs, and however many of them: no node is lost or used twice.
  pub task_execute-IsValid :
      (fuel : ℕ) (s : Tasks) → IsValid [] s → IsValid [] (task_execute u fuel s)
  unfolding task_execute
  task_execute-IsValid fuel s v =
      let s1 = run_immediate u s in
      let v1 = run_immediate-IsValid s v in
      let s2 = record s1 { last_ms = u.now } in
      let v2 : IsValid [] s2 = record { counted = v1.counted; freed = v1.freed } in
      let s3 = run_systicks u fuel (first u s2.systick_task) s2 in
      elim (Bool-cases ((u.now == s1.last_ms) || same_first u s1.next_task s1.systick_task)) [
        | inl h ↦ rw h v1
        | inr h ↦ rw h (
            run_delayed-IsValid fuel s3 (run_systicks-IsValid fuel (first u s2.systick_task) s2 v2))
      ]
