-- ===== src/Tasks/Sound.antt =====
-- No call of the task functions loses a node, or puts one in two lists.
use cnc_3d.Common.{
  ℕ, ◌+◌, ◌≡◌, refl, ap, sym, ◌∙◌, arith, Bool, true, false, none, some, List, [], ◌∷◌,
  if◌then◌else◌, ◌==◌, ==_iff, set, get_or, get_or-set_self, get_or-set_ne, length, ◌<◌, Bool-cases,
  Option-cases, inl, inr,
}
use cnc_3d.Tasks.Pool.{
  Task, Tasks, task_alloc, task_free, use_node, task_add, link_delayed, link_systick,
  link_immediate, link_booted,
}
use cnc_3d.Tasks.Count.{
  count, held, IsValid, in_bounds, in_use, bounds_default, IsAllocated, task_alloc_lem,
  count-append, count-insert,
}

-- A function that puts a task in a list.
pub record IsLink (link : Task → Tasks → Tasks) : Type 0 where
  one_more :
      (t : Task) (s : Tasks) (k : ℕ) → held k (link t s) ≡ (if t.node == k then 1 else 0) + held k s
  pool_kept : (t : Task) (s : Tasks) → (link t s).pool ≡ s.pool
  freed_kept : (t : Task) (s : Tasks) → (link t s).last_freed ≡ s.last_freed

pub link_delayed-IsLink : IsLink link_delayed
unfolding link_delayed
link_delayed-IsLink = record {
  one_more = λ t s k. omega (arith, count-insert k t s.next_task);
  pool_kept = λ t s. refl;
  freed_kept = λ t s. refl;
}

pub link_systick-IsLink : IsLink link_systick
unfolding link_systick
link_systick-IsLink = record {
  one_more = λ t s k. omega (arith, count-append k s.systick_task (t ∷ []));
  pool_kept = λ t s. refl;
  freed_kept = λ t s. refl;
}

pub link_immediate-IsLink : IsLink link_immediate
unfolding link_immediate
link_immediate-IsLink = record {
  one_more = λ t s k. omega (arith, count-append k s.immediate_task (t ∷ []));
  pool_kept = λ t s. refl;
  freed_kept = λ t s. refl;
}

pub link_booted-IsLink : IsLink link_booted
unfolding link_booted
link_booted-IsLink = record {
  one_more = λ t s k. omega (arith, count-append k s.on_booted (t ∷ []));
  pool_kept = λ t s. refl;
  freed_kept = λ t s. refl;
}

-- A node that is taken into use.
used_more :
    (pool : List Bool) (n k c : ℕ)
    → get_or pool n true ≡ false
    → c ≡ (if get_or pool k false then 1 else 0)
    → (if n == k then 1 else 0) + c ≡ (if get_or (set pool n true) k false then 1 else 0)
used_more pool n k c f e = elim (Bool-cases (n == k)) [
  | inl q ↦
      let w : n ≡ k = (==_iff n k).0 q in
      let b = in_bounds pool n f in
      ground (arith, get_or-set_self pool n true false b, bounds_default pool n b, w)
  | inr q ↦
      ground (arith, get_or-set_ne pool {i = n} {j = k} true false (λ w. absurd (ground arith)))
]

-- A node that is freed.
used_less :
    (pool : List Bool) (n k c : ℕ)
    → get_or pool n false ≡ true
    → (if n == k then 1 else 0) + c ≡ (if get_or pool k false then 1 else 0)
    → c ≡ (if get_or (set pool n false) k false then 1 else 0)
used_less pool n k c f e = elim (Bool-cases (n == k)) [
  | inl q ↦
      let w : n ≡ k = (==_iff n k).0 q in
      let b = in_use pool n f in ground (arith, get_or-set_self pool n false false b, w)
  | inr q ↦
      ground (arith, get_or-set_ne pool {i = n} {j = k} false false (λ w. absurd (ground arith)))
]

use_node-IsValid :
    (link : Task → Tasks → Tasks) (t : Task) (e : List Task) (n : ℕ) (s s1 : Tasks)
    → IsLink link
    → IsValid e s
    → IsAllocated n s s1
    → IsValid e (use_node link t (some n) s1).1
unfolding use_node
use_node-IsValid link t e n s s1 l v a =
    let t1 = record t { node = n } in
    let s2 = record s1 { pool = set s1.pool n true } in
    record {
      counted = λ k.
          let more = used_more s.pool n k (count k e + held k s) a.free_node (v.counted k) in
          let pool =
            ap {B = ℕ} (λ p. if get_or p k false then 1 else 0)
              (l.pool_kept t1 s2 ∙ ap (λ p. set p n true) a.same_pool) in
          omega (arith, l.one_more t1 s2 k, a.same_held k, more, pool);
      freed = λ k h. absurd (ground (arith, l.freed_kept t1 s2, a.last_freed_none));
    }

alloc_none : (s : Tasks) → (task_alloc s).0 ≡ none → (task_alloc s).1 ≡ s
unfolding task_alloc
alloc_none s h = elim (Option-cases s.last_freed) [
  | inl o ↦ ground arith
  | inr (m, o) ↦ absurd (ground arith)
]

pub task_add-IsValid :
    (link : Task → Tasks → Tasks) (t : Task) (e : List Task) (s : Tasks)
    → IsLink link
    → IsValid e s
    → IsValid e (task_add link t s).1
unfolding task_add use_node
task_add-IsValid link t e s l v =
    let (o, s1) = task_alloc s in
    elim (Bool-cases (t.fn == 0)) [
      | inl z ↦ rw z v
      | inr z ↦ rw z (elim (Option-cases o) [
        | inl q ↦ rw q (rw (alloc_none s q) v)
        | inr (n, q) ↦ rw q (use_node-IsValid link t e n s s1 l v (task_alloc_lem e s n v q))
      ])
    ]

-- A list that holds a node shows it to be in use.
head_in_use :
    (t : Task) (e : List Task) (s : Tasks) → IsValid (t ∷ e) s → get_or s.pool t.node false ≡ true
head_in_use t e s v =
    let c = v.counted t.node in
    let w : (t.node == t.node) ≡ true = (==_iff t.node t.node).1 refl in
    elim (Bool-cases (get_or s.pool t.node false)) [
      | inl h ↦ h
      | inr h ↦ absurd (ground (arith, c, w, h))
    ]

still_free :
    (pool : List Bool) (n m : ℕ)
    → n < length pool
    → get_or pool m true ≡ false
    → get_or (set pool n false) m true ≡ false
still_free pool n m b f = elim (Bool-cases (n == m)) [
  | inl q ↦ let w : n ≡ m = (==_iff n m).0 q in rw (sym w) (get_or-set_self pool n false true b)
  | inr q ↦ get_or-set_ne pool {i = n} {j = m} false true (λ w. absurd (ground arith)) ∙ f
]

pub task_free-IsValid :
    (t : Task) (e : List Task) (s : Tasks) → IsValid (t ∷ e) s → IsValid e (task_free t.node s)
unfolding task_free
task_free-IsValid t e s v =
    let u = head_in_use t e s v in
    let b = in_use s.pool t.node u in
    record {
      counted =
          λ k. used_less s.pool t.node k (count k e + held k s) u (omega (arith, v.counted k));
      freed = λ m h. elim (Option-cases s.last_freed) [
        | inl o ↦
            let w : t.node ≡ m = ground arith in
            rw (sym w) (get_or-set_self s.pool t.node false true b)
        | inr (j, o) ↦ still_free s.pool t.node m b (v.freed m (ground arith))
      ];
    }
