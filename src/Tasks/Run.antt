-- ===== src/Tasks/Run.antt =====
-- grbllib.c: `task_execute`, the foreground process' round. What a task does when it is run is the
-- list of the calls of this module that it makes.
use cnc_3d.Common.{
  ℕ, zero, suc, Bool, true, false, ◌||◌, Option, none, some, List, [], ◌∷◌, ◌++◌, if◌then◌else◌,
  ◌==◌,
}
use cnc_3d.Tasks.Pool.{
  Task, Tasks, is_due, task_free, task_add_delayed, task_add_systick, task_add_immediate,
  task_run_on_startup, task_delete, task_delete_systick,
}

-- A call of this module.
pub data Call : Type 0 where
  add_delayed : (fn arg delay_ms : ℕ) → Call
  add_systick add_immediate run_on_startup delete delete_systick : (fn arg : ℕ) → Call

-- The clock and what is read of `sys`; `script` is what a task calls.
pub record Setup : Type 0 where
  pub now : ℕ
  pub cold_start : Bool
  pub driver_started : Bool
  pub script : Task → Tasks → List Call

module _ (u : Setup) where
  unfoldable pub perform : Call → Tasks → Tasks
  perform (add_delayed fn arg d) s = (task_add_delayed u.now fn arg d s).1
  perform (add_systick fn arg) s = (task_add_systick fn arg s).1
  perform (add_immediate fn arg) s = (task_add_immediate fn arg s).1
  perform (run_on_startup fn arg) s = (task_run_on_startup u.cold_start fn arg s).1
  perform (delete fn arg) s = task_delete fn arg s
  perform (delete_systick fn arg) s = task_delete_systick fn arg s

  unfoldable pub perform_all : List Call → Tasks → Tasks
  perform_all [] s = s
  perform_all (c ∷ cs) s = perform_all cs (perform c s)

  -- `fn(arg)`
  unfoldable pub call_task : Task → Tasks → Tasks
  call_task t s = perform_all (u.script t s) (record s { ran = s.ran ++ (t ∷ []) })

  -- `task_run`, on a list that no call reaches.
  unfoldable pub run_list : List Task → Tasks → Tasks
  run_list [] s = s
  run_list (t ∷ ts) s = run_list ts (call_task t (task_free t.node s))

  unfoldable pub run_immediate : Tasks → Tasks
  run_immediate s =
      if u.driver_started then run_list s.immediate_task (record s { immediate_task = [] }) else s

  -- `task_execute_on_startup`; without a driver it never returns. Nothing reads `on_booted` while its
  -- tasks are run, since `cold_start` is cleared before.
  unfoldable pub task_execute_on_startup : Tasks → Option Tasks
  task_execute_on_startup s =
      let s1 = run_list s.on_booted (record s { on_booted = [] }) in
      if u.driver_started then some s1 else none

  abbrev pub first : List Task → Option Task
  first [] = none
  first (t ∷ ts) = some t

  -- The task after that of a node, in a list that holds it.
  unfoldable pub successor : ℕ → List Task → Option Task
  successor n [] = none
  successor n (t ∷ ts) = let later = successor n ts in if t.node == n then first ts else later

  abbrev pub or_next : Option Task → Option Task → Option Task
  or_next none b = b
  or_next (some a) b = some a

  -- `task->next` once the task has been called: the node may have been freed, and may be in use again.
  unfoldable pub next_of : ℕ → Tasks → Option Task
  next_of n s = or_next (successor n s.systick_task) (
      or_next (successor n s.next_task)
        (or_next (successor n s.immediate_task) (successor n s.on_booted)))

  -- Fuel bounds the number of calls.
  unfoldable pub run_systicks : ℕ → Option Task → Tasks → Tasks
  run_systicks zero t s = s
  run_systicks (suc fuel) none s = s
  run_systicks (suc fuel) (some t) s =
      let s1 = call_task t s in run_systicks fuel (next_of t.node s1) s1

  abbrev pub is_due_first : Option Task → Bool
  is_due_first none = false
  is_due_first (some t) = is_due t.time u.now

  -- No interrupt comes between reading the first task and unlinking it.
  unfoldable pub run_first : List Task → Tasks → Tasks
  run_first [] s = s
  run_first (t ∷ ts) s = call_task t (task_free t.node (record s { next_task = ts }))

  unfoldable pub run_delayed : ℕ → Tasks → Tasks
  run_delayed zero s = s
  run_delayed (suc fuel) s =
      let later = run_delayed fuel (run_first s.next_task s) in
      if is_due_first (first s.next_task) then later else s

  abbrev pub same_first : List Task → List Task → Bool
  same_first [] [] = true
  same_first (a ∷ rest) (b ∷ others) = a.node == b.node
  same_first _ _ = false

  unfoldable pub task_execute : ℕ → Tasks → Tasks
  task_execute fuel s =
      let s1 = run_immediate s in
      let s2 = record s1 { last_ms = u.now } in
      if (u.now == s1.last_ms) || same_first s1.next_task s1.systick_task
      then s1
      else run_delayed fuel (run_systicks fuel (first s2.systick_task) s2)
