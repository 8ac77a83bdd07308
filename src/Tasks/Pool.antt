-- ===== src/Tasks/Pool.antt =====
-- grbllib.c: allocation of tasks, and the functions that add and delete them. A list of tasks is the
-- list of its nodes, each with the index that it has in the pool.
use cnc_3d.Common.{
  ℕ, suc, ◌+◌, ◌-◌, ◌%◌, Bool, true, false, ◌&&◌, ◌||◌, Option, none, some, List, [], ◌∷◌, ◌++◌,
  if◌then◌else◌, ◌==◌, leb, set,
}

abbrev pub core_task_pool_size : ℕ
core_task_pool_size = 40

abbrev pub word : ℕ
word = 4294967296

abbrev pub half_word : ℕ
half_word = 2147483648

-- `core_task_t`, the functions by their addresses, 0 for NULL; `time` is read in one list only.
pub record Task : Type 0 where
  pub node : ℕ
  pub time : ℕ
  pub fn : ℕ
  pub arg : ℕ

-- The static variables; `pool` tells whether `fn` of a node is not NULL, `ran` has the calls made.
pub record Tasks : Type 0 where
  pub pool : List Bool
  pub last_freed : Option ℕ
  pub next_task : List Task
  pub immediate_task : List Task
  pub on_booted : List Task
  pub systick_task : List Task
  pub last_ms : ℕ
  pub ran : List Task

-- The node that is freed last, or else the last that is free.
unfoldable pub find_free : List Bool → Option ℕ
find_free [] = none
find_free (used ∷ rest) =
    let later = find_free rest in
    elim later [ some i ↦ some (suc i) | none ↦ if used then none else some 0 ]

unfoldable pub task_alloc : Tasks → Option ℕ × Tasks
task_alloc s = elim s.last_freed [
  | some n ↦ (some n, record s { last_freed = none })
  | none ↦ (find_free s.pool, s)
]

abbrev pub or_else : Option ℕ → ℕ → Option ℕ
or_else none n = some n
or_else (some m) n = some m

unfoldable pub task_free : ℕ → Tasks → Tasks
task_free n s = record s { pool = set s.pool n false; last_freed = or_else s.last_freed n }

-- What the functions that add a task do with a node, `link` putting it in a list.
unfoldable pub use_node : (Task → Tasks → Tasks) → Task → Option ℕ → Tasks → Bool × Tasks
use_node link t none s = (false, s)
use_node link t (some n) s =
    (true, link (record t { node = n }) (record s { pool = set s.pool n true }))

unfoldable pub task_add : (Task → Tasks → Tasks) → Task → Tasks → Bool × Tasks
task_add link t s =
    let (n, s1) = task_alloc s in if t.fn == 0 then (false, s) else use_node link t n s1

-- `(int32_t)(a - b) < 0` and `<= 0` for unsigned 32 bit numbers.
abbrev pub is_before : ℕ → ℕ → Bool
is_before a b = leb half_word ((a + word - b) % word)

abbrev pub is_due : ℕ → ℕ → Bool
is_due a b = ((a + word - b) % word == 0) || is_before a b

-- The loop over the nodes after the first.
unfoldable pub insert_after : Task → List Task → List Task
insert_after t [] = t ∷ []
insert_after t (h ∷ rest) =
    let later = insert_after t rest in if is_before t.time h.time then t ∷ (h ∷ rest) else h ∷ later

unfoldable pub insert : Task → List Task → List Task
insert t [] = t ∷ []
insert t (h ∷ rest) = if is_due t.time h.time then t ∷ (h ∷ rest) else h ∷ insert_after t rest

unfoldable pub link_delayed : Task → Tasks → Tasks
link_delayed t s = record s { next_task = insert t s.next_task }

unfoldable pub link_systick : Task → Tasks → Tasks
link_systick t s = record s { systick_task = s.systick_task ++ (t ∷ []) }

unfoldable pub link_immediate : Task → Tasks → Tasks
link_immediate t s = record s { immediate_task = s.immediate_task ++ (t ∷ []) }

unfoldable pub link_booted : Task → Tasks → Tasks
link_booted t s = record s { on_booted = s.on_booted ++ (t ∷ []) }

abbrev pub new_task : ℕ → ℕ → ℕ → Task
new_task time fn arg = record { node = 0; time = time; fn = fn; arg = arg }

-- `now` is `hal.get_elapsed_ticks()`.
unfoldable pub task_add_delayed : ℕ → ℕ → ℕ → ℕ → Tasks → Bool × Tasks
task_add_delayed now fn arg delay_ms s =
    task_add link_delayed (new_task ((now + delay_ms) % word) fn arg) s

unfoldable pub task_add_systick : ℕ → ℕ → Tasks → Bool × Tasks
task_add_systick fn arg s = task_add link_systick (new_task 0 fn arg) s

unfoldable pub task_add_immediate : ℕ → ℕ → Tasks → Bool × Tasks
task_add_immediate fn arg s = task_add link_immediate (new_task 0 fn arg) s

unfoldable pub task_run_on_startup : Bool → ℕ → ℕ → Tasks → Bool × Tasks
task_run_on_startup cold_start fn arg s =
    if cold_start then task_add link_booted (new_task 0 fn arg) s else task_add_immediate fn arg s

-- The first task with a property, if any, and the others.
unfoldable pub take_first : (Task → Bool) → List Task → Option ℕ × List Task
take_first matches [] = (none, [])
take_first matches (t ∷ ts) =
    let (found, others) = take_first matches ts in
    if matches t then (some t.node, ts) else (found, t ∷ others)

unfoldable pub free_found : Option ℕ → Tasks → Tasks
free_found none s = s
free_found (some n) s = task_free n s

-- An argument of NULL matches any.
unfoldable pub task_delete : ℕ → ℕ → Tasks → Tasks
task_delete fn arg s =
    let (found, others) =
      take_first (λ (t : Task). fn == t.fn && ((arg == 0) || (arg == t.arg))) s.next_task in
    free_found found (record s { next_task = others })

unfoldable pub task_delete_systick : ℕ → ℕ → Tasks → Tasks
task_delete_systick fn arg s =
    let (found, others) = take_first (λ (t : Task). fn == t.fn && (arg == t.arg)) s.systick_task in
    free_found found (record s { systick_task = others })
