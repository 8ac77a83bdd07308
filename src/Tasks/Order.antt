-- ===== src/Tasks/Order.antt =====
-- The order of the delayed tasks, on a clock of 32 bits that wraps round: seen from a time `b`, the
-- tasks are due within half a turn of the clock.
use cnc_3d.Common.{
  ℕ, ◌+◌, ◌-◌, ◌%◌, ◌≤◌, ◌<◌, ◌≡◌, refl, Bool, ◌&&◌, ◌||◌, suc, none, some, arith, true, false,
  List, [], ◌∷◌, ◌↔◌, ◌==◌, Bool-cases, Option-cases, inl, inr,
}
use cnc_3d.Tasks.Pool.{
  Task, Tasks, word, half_word, is_before, is_due, insert, insert_after, find_free, task_alloc,
  use_node, task_add, link_delayed, new_task, task_add_delayed,
}

-- How long after `b` a time is.
abbrev pub after : ℕ → ℕ → ℕ
after b time = (time + word - b) % word

pub record InWindow (b : ℕ) (t : Task) : Type 0 where
  pub in_word : t.time < word
  pub in_half : after b t.time < half_word

-- The tasks are in the order of their times, and none is due before `k`.
pub data IsSorted (b : ℕ) : ℕ → List Task → Type 0 where
  done : {k : ℕ} → IsSorted b k []
  next :
      {k : ℕ} {t : Task} {ts : List Task}
      → k ≤ after b t.time
      → InWindow b t
      → IsSorted b (after b t.time) ts
      → IsSorted b k (t ∷ ts)

-- A task is put somewhere in a list, the others keep their order.
pub data IsInserted (t : Task) : List Task → List Task → Type 0 where
  here : {ts : List Task} → IsInserted t ts (t ∷ ts)
  later : (h : Task) {ts us : List Task} → IsInserted t ts us → IsInserted t (h ∷ ts) (h ∷ us)

module _ (b : ℕ) (b_in : b < word) where
  pub is_before_lem :
      (x y : ℕ)
      → x < word
      → y < word
      → after b x < half_word
      → after b y < half_word
      → (is_before x y ≡ true) ↔ (after b x < after b y)
  is_before_lem x y p q r s = ground arith

  pub is_due_lem :
      (x y : ℕ)
      → x < word
      → y < word
      → after b x < half_word
      → after b y < half_word
      → (is_due x y ≡ true) ↔ (after b x ≤ after b y)
  is_due_lem x y p q r s = ground arith

  before :
      (t h : Task)
      → InWindow b t
      → InWindow b h
      → is_before t.time h.time ≡ true
      → after b t.time < after b h.time
  before t h v w e = (is_before_lem t.time h.time v.in_word w.in_word v.in_half w.in_half).0 e

  not_before :
      (t h : Task)
      → InWindow b t
      → InWindow b h
      → is_before t.time h.time ≡ false
      → after b h.time ≤ after b t.time
  not_before t h v w e =
      ground (arith, (is_before_lem t.time h.time v.in_word w.in_word v.in_half w.in_half).1)

  due :
      (t h : Task)
      → InWindow b t
      → InWindow b h
      → is_due t.time h.time ≡ true
      → after b t.time ≤ after b h.time
  due t h v w e = (is_due_lem t.time h.time v.in_word w.in_word v.in_half w.in_half).0 e

  not_due :
      (t h : Task)
      → InWindow b t
      → InWindow b h
      → is_due t.time h.time ≡ false
      → after b h.time < after b t.time
  not_due t h v w e =
      ground (arith, (is_due_lem t.time h.time v.in_word w.in_word v.in_half w.in_half).1)

  insert_after-IsSorted :
      (k : ℕ) (t : Task) (ts : List Task)
      → InWindow b t
      → k ≤ after b t.time
      → IsSorted b k ts
      → IsSorted b k (insert_after t ts)
  unfolding insert_after
  insert_after-IsSorted k t [] v l s = next l v done
  insert_after-IsSorted k t (h ∷ ts) v l (next m w s) =
      elim (Bool-cases (is_before t.time h.time)) [
        | inl e ↦ rw e (next l v (next (omega (arith, before t h v w e)) w s))
        | inr e ↦
            rw e (next m w (insert_after-IsSorted (after b h.time) t ts v (not_before t h v w e) s))
      ]

  insert-IsSorted :
      (t : Task) (ts : List Task) → InWindow b t → IsSorted b 0 ts → IsSorted b 0 (insert t ts)
  unfolding insert
  insert-IsSorted t [] v s = next (omega arith) v done
  insert-IsSorted t (h ∷ ts) v (next m w s) = elim (Bool-cases (is_due t.time h.time)) [
    | inl e ↦ rw e (next (omega arith) v (next (due t h v w e) w s))
    | inr e ↦ rw e (
        next m w
          (insert_after-IsSorted (after b h.time) t ts v (omega (arith, not_due t h v w e)) s))
  ]

insert_after-IsInserted : (t : Task) (ts : List Task) → IsInserted t ts (insert_after t ts)
unfolding insert_after
insert_after-IsInserted t [] = here
insert_after-IsInserted t (h ∷ ts) = elim (Bool-cases (is_before t.time h.time)) [
  | inl e ↦ rw e here
  | inr e ↦ rw e (later h (insert_after-IsInserted t ts))
]

insert-IsInserted : (t : Task) (ts : List Task) → IsInserted t ts (insert t ts)
unfolding insert
insert-IsInserted t [] = here
insert-IsInserted t (h ∷ ts) = elim (Bool-cases (is_due t.time h.time)) [
  | inl e ↦ rw e here
  | inr e ↦ rw e (later h (insert_after-IsInserted t ts))
]

abbrev pub all_used : List Bool → Bool
all_used [] = true
all_used (used ∷ rest) = used && all_used rest

-- No node is left: none is remembered as the last freed, and all nodes of the pool are used.
abbrev pub is_full : Tasks → Bool
is_full s = elim s.last_freed [ none ↦ all_used s.pool | some n ↦ false ]

find_free-full : (pool : List Bool) → all_used pool ≡ true → find_free pool ≡ none
unfolding find_free
find_free-full [] h = refl
find_free-full (used ∷ rest) h = ground (arith, find_free-full rest)

find_free-room : (pool : List Bool) → all_used pool ≡ false → (n : ℕ) × (find_free pool ≡ some n)
unfolding find_free
find_free-room [] h = absurd (ground arith)
find_free-room (used ∷ rest) h = elim (Option-cases (find_free rest)) [
  | inl e ↦
      let u : used ≡ false = elim (Bool-cases (all_used rest)) [
        | inl a ↦ ground (arith, h)
        | inr a ↦ let (n, f) = find_free-room rest a in absurd (ground (arith, e, f))
      ] in
      (0, ground (arith, e, u))
  | inr (n, e) ↦ (suc n, ground (arith, e))
]

alloc_full : (s : Tasks) → is_full s ≡ true → (task_alloc s).0 ≡ none
unfolding task_alloc
alloc_full s h = elim (Option-cases s.last_freed) [
  | inl e ↦ ground (arith, e, find_free-full s.pool)
  | inr (n, e) ↦ absurd (ground (arith, e, h))
]

alloc_room : (s : Tasks) → is_full s ≡ false → (n : ℕ) × ((task_alloc s).0 ≡ some n)
unfolding task_alloc
alloc_room s h = elim (Option-cases s.last_freed) [
  | inl e ↦
      let u : all_used s.pool ≡ false = ground (arith, e, h) in
      let (n, f) = find_free-room s.pool u in (n, ground (arith, e, f))
  | inr (n, e) ↦ (n, ground (arith, e))
]

alloc_queue : (s : Tasks) → (task_alloc s).1.next_task ≡ s.next_task
unfolding task_alloc
alloc_queue s = ground arith

-- The two outcomes of adding a task.
not_added :
    (t : Task) (s : Tasks)
    → (t.fn == 0 || is_full s) ≡ true
    → let (ok, s') = task_add link_delayed t s in (ok ≡ false) × (s'.next_task ≡ s.next_task)
unfolding task_add use_node
not_added t s h = ground (arith, h, alloc_full s, alloc_queue s)

added :
    (t : Task) (s : Tasks)
    → (t.fn == 0 || is_full s) ≡ false
    → let (ok, s') = task_add link_delayed t s in
      (ok ≡ true) × ((n : ℕ) × (s'.next_task ≡ insert (record t { node = n }) s.next_task))
unfolding task_add use_node link_delayed
added t s h =
    let f : is_full s ≡ false = ground (arith, h) in
    let g : t.fn == 0 ≡ false = ground (arith, h) in
    let (n, e) = alloc_room s f in (ground (arith, g, e), (n, ground (arith, g, e, alloc_queue s)))

-- Adding a delayed task keeps the queue in the order of the due times, on a clock that wraps round,
-- if all tasks are due within half a turn of it, as seen from some time `b`. If the task has a function
-- and a node is left in the pool, the call succeeds, the new task stands in the queue, due `delay_ms`
-- from now, and the other tasks keep their order; else it fails and the queue is as it was.
pub task_add_delayed-IsSorted :
    (b now fn arg delay_ms : ℕ) (s : Tasks)
    → b < word
    → after b ((now + delay_ms) % word) < half_word
    → IsSorted b 0 s.next_task
    → let (ok, s') = task_add_delayed now fn arg delay_ms s in
      IsSorted b 0 s'.next_task
      × ((fn == 0 || is_full s) ≡ true → (ok ≡ false) × (s'.next_task ≡ s.next_task))
      × ((fn == 0 || is_full s) ≡ false
          → (ok ≡ true)
            × ((n : ℕ) × IsInserted
                  (record { node = n; time = (now + delay_ms) % word; fn = fn; arg = arg })
                  s.next_task
                  s'.next_task))
unfolding task_add_delayed
task_add_delayed-IsSorted b now fn arg delay_ms s i h v =
    let t = new_task ((now + delay_ms) % word) fn arg in
    let w : (n : ℕ) → InWindow b (record t { node = n }) =
      λ n. record { in_word = omega arith; in_half = h } in
    elim (Bool-cases (fn == 0 || is_full s)) [
      | inl f ↦
          let (o, e) = not_added t s f in (rw e v, λ q. (o, e), λ q. absurd (ground (arith, f, q)))
      | inr f ↦
          let (o, (n, e)) = added t s f in
          (
            rw e (insert-IsSorted b i (record t { node = n }) s.next_task (w n) v),
            λ q. absurd (ground (arith, f, q)),
            λ q. (o, (n, rw e (insert-IsInserted (record t { node = n }) s.next_task))),
          )
    ]
