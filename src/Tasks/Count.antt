-- ===== src/Tasks/Count.antt =====
-- How often a node stands in the lists: once if it is in use, else not at all.
use cnc_3d.Common.{
  ℕ, zero, suc, ◌+◌, ◌≡◌, refl, arith, Bool, true, false, none, some, List, [], ◌∷◌, ◌++◌,
  if◌then◌else◌, ◌==◌, get_or, length, ◌<◌, Option-cases, inl, inr,
}
use cnc_3d.Tasks.Pool.{Task, Tasks, find_free, task_alloc, insert_after, insert, take_first}

abbrev pub count : ℕ → List Task → ℕ
count n [] = 0
count n (t ∷ ts) = (if t.node == n then 1 else 0) + count n ts

abbrev pub held : ℕ → Tasks → ℕ
held n s =
    count n s.next_task + count n s.immediate_task + count n s.on_booted + count n s.systick_task

-- Every node in use stands once in the lists or in `e`, the list that is being run, and no free node
-- stands in any; the node freed last is free.
pub record IsValid (e : List Task) (s : Tasks) : Type 0 where
  pub counted : (n : ℕ) → count n e + held n s ≡ (if get_or s.pool n false then 1 else 0)
  pub freed : (n : ℕ) → s.last_freed ≡ some n → get_or s.pool n true ≡ false

-- A read that is false with the default true is within bounds.
pub in_bounds : (xs : List Bool) (n : ℕ) → get_or xs n true ≡ false → n < length xs
in_bounds [] n h = absurd (ground arith)
in_bounds (x ∷ xs) zero h = omega arith
in_bounds (x ∷ xs) (suc n) h = omega (arith, in_bounds xs n h)

pub in_use : (xs : List Bool) (n : ℕ) → get_or xs n false ≡ true → n < length xs
in_use [] n h = absurd (ground arith)
in_use (x ∷ xs) zero h = omega arith
in_use (x ∷ xs) (suc n) h = omega (arith, in_use xs n h)

pub bounds_default : (xs : List Bool) (n : ℕ) → n < length xs → get_or xs n false ≡ get_or xs n true
bounds_default [] n h = absurd (omega arith)
bounds_default (x ∷ xs) zero h = refl
bounds_default (x ∷ xs) (suc n) h = bounds_default xs n (omega arith)

find_free_lem : (pool : List Bool) (n : ℕ) → find_free pool ≡ some n → get_or pool n true ≡ false
unfolding find_free
find_free_lem [] n h = absurd (ground arith)
find_free_lem (used ∷ rest) zero h = ground arith
find_free_lem (used ∷ rest) (suc n) h = ground (arith, find_free_lem rest n)

-- What is known of the node that `task_alloc` gives.
pub record IsAllocated (n : ℕ) (s s1 : Tasks) : Type 0 where
  pub free_node : get_or s.pool n true ≡ false
  pub same_pool : s1.pool ≡ s.pool
  pub same_held : (k : ℕ) → held k s1 ≡ held k s
  pub last_freed_none : s1.last_freed ≡ none

pub task_alloc_lem :
    (e : List Task) (s : Tasks) (n : ℕ)
    → IsValid e s
    → (task_alloc s).0 ≡ some n
    → IsAllocated n s (task_alloc s).1
unfolding task_alloc
task_alloc_lem e s n v h = elim (Option-cases s.last_freed) [
  | inl o ↦ record {
    free_node = find_free_lem s.pool n (ground arith);
    same_pool = ground arith;
    same_held = λ k. ground arith;
    last_freed_none = ground arith;
  }
  | inr (m, o) ↦ record {
    free_node = v.freed n (ground arith);
    same_pool = ground arith;
    same_held = λ k. ground arith;
    last_freed_none = ground arith;
  }
]

pub count-append : (n : ℕ) (xs ys : List Task) → count n (xs ++ ys) ≡ count n xs + count n ys
count-append n [] ys = omega arith
count-append n (x ∷ xs) ys = omega (arith, count-append n xs ys)

count-insert_after :
    (n : ℕ) (t : Task) (ts : List Task) → count n (insert_after t ts) ≡ count n (t ∷ ts)
unfolding insert_after
count-insert_after n t [] = refl
count-insert_after n t (h ∷ ts) = ground (arith, count-insert_after n t ts)

pub count-insert : (n : ℕ) (t : Task) (ts : List Task) → count n (insert t ts) ≡ count n (t ∷ ts)
unfolding insert
count-insert n t [] = refl
count-insert n t (h ∷ ts) = ground (arith, count-insert_after n t ts)

-- What `take_first` takes out.
pub count-take_first :
    (n : ℕ) (matches : Task → Bool) (ts : List Task)
    → let (found, others) = take_first matches ts in
      count n ts
      ≡ elim found as (λ _. ℕ) [ none ↦ 0 | some m ↦ if m == n then 1 else 0 ] + count n others
unfolding take_first
count-take_first n matches [] = refl
count-take_first n matches (t ∷ ts) = ground (arith, count-take_first n matches ts)
