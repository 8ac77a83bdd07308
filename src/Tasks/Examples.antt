-- ===== src/Tasks/Examples.antt =====
-- Concrete tasks, on a clock that is about to wrap round.
use cnc_3d.Common.{
  ◌==◌, ◌||◌, ℕ, zero, suc, ◌≡◌, refl, arith, true, false, none, List, [], ◌∷◌, get_or, replicate,
}
use cnc_3d.Tasks.Pool.{Task, Tasks, core_task_pool_size, task_add_delayed}
use cnc_3d.Tasks.Run.{Call, Setup, add_systick, delete_systick, perform, run_delayed, task_execute}
use cnc_3d.Tasks.Count.{IsValid}
use cnc_3d.Tasks.Kept.{perform-IsValid, task_execute-IsValid}
use cnc_3d.Tasks.Order.{is_full, IsSorted, IsInserted, done, next, task_add_delayed-IsSorted}
use cnc_3d.Tasks.Due.{run_delayed_lem}

-- As `task_pool` is cleared.
abbrev cleared : Tasks
cleared = record {
  pool = replicate core_task_pool_size false;
  last_freed = none;
  next_task = [];
  immediate_task = [];
  on_booted = [];
  systick_task = [];
  last_ms = 0;
  ran = [];
}

no_node : (k n : ℕ) → get_or (replicate k false) n false ≡ false
no_node zero n = refl
no_node (suc k) zero = refl
no_node (suc k) (suc n) = no_node k n

cleared-IsValid : IsValid [] cleared
cleared-IsValid = record {
  counted = λ n. ground (arith, no_node core_task_pool_size n);
  freed = λ n h. absurd (ground arith);
}

-- A systick task deletes itself when it is run.
abbrev script : Task → Tasks → List Call
script t s = delete_systick t.fn t.arg ∷ []

abbrev round : Setup
round = record { now = 5; cold_start = false; driver_started = true; script = script }

abbrev two_ticks : Tasks
two_ticks = perform round (add_systick 11 0) (perform round (add_systick 7 0) cleared)

two_ticks-IsValid : IsValid [] two_ticks
two_ticks-IsValid =
    perform-IsValid round (add_systick 11 0) [] (perform round (add_systick 7 0) cleared)
      (perform-IsValid round (add_systick 7 0) [] cleared cleared-IsValid)

task_execute-IsValid_example : IsValid [] (task_execute round 10 two_ticks)
task_execute-IsValid_example = task_execute-IsValid round 10 two_ticks two_ticks-IsValid

abbrev tick : Task
tick = record { node = 39; time = 0; fn = 7; arg = 0 }

abbrev other_tick : Task
other_tick = record { node = 38; time = 0; fn = 11; arg = 0 }

abbrev due_before : Task
due_before = record { node = 1; time = 4294967295; fn = 7; arg = 0 }

abbrev due_now : Task
due_now = record { node = 2; time = 5; fn = 11; arg = 3 }

abbrev due_later : Task
due_later = record { node = 0; time = 100; fn = 7; arg = 0 }

abbrev queued : Tasks
queued = record cleared {
  pool = true ∷ (true ∷ (true ∷ replicate 37 false));
  next_task = due_before ∷ (due_now ∷ (due_later ∷ []));
}

queued-IsSorted : IsSorted 4294967290 0 queued.next_task
queued-IsSorted =
    next (omega arith) (record { in_word = omega arith; in_half = omega arith })
      (next (omega arith) (record { in_word = omega arith; in_half = omega arith })
        (next (omega arith) (record { in_word = omega arith; in_half = omega arith }) done))

run_delayed_lem_example :
    let s' = run_delayed round 3 queued in
    (s'.ran ≡ due_before ∷ (due_now ∷ [])) × (s'.next_task ≡ due_later ∷ [])
run_delayed_lem_example =
    run_delayed_lem round 4294967290 0 3 (due_before ∷ (due_now ∷ (due_later ∷ []))) queued
      (omega arith) (omega arith) (omega arith) (λ t s. refl) refl (omega arith) queued-IsSorted

task_add_delayed-IsSorted_example :
    let (ok, s') = task_add_delayed 4294967290 7 0 20 queued in
    IsSorted 4294967290 0 s'.next_task
    × ((7 == 0 || is_full queued) ≡ true → (ok ≡ false) × (s'.next_task ≡ queued.next_task))
    × ((7 == 0 || is_full queued) ≡ false
        → (ok ≡ true)
          × ((n : ℕ) × IsInserted
                (record { node = n; time = 14; fn = 7; arg = 0 })
                queued.next_task
                s'.next_task))
task_add_delayed-IsSorted_example =
    task_add_delayed-IsSorted 4294967290 4294967290 7 0 20 queued (omega arith) (omega arith)
      queued-IsSorted
