-- ===== src/FlowCtrl/Loops.antt =====
-- DO, WHILE, REPEAT, BREAK and CONTINUE keep the invariant of the stack.
use cnc_3d.Common.{ℕ, ◌≡◌, refl, List, [], ◌∷◌, arith, ◌==◌, ◌-◌, true, false}
use cnc_3d.FlowCtrl.Types.{FloatOps, Flow, Request, Entry, Text}
use cnc_3d.FlowCtrl.Stack.{top_skip, stack_push, seek, pull_to, set_top}
use cnc_3d.FlowCtrl.Loop.{
  exec_do, open_while, exec_while, exec_end_while, exec_repeat, exec_end_repeat, exec_break,
  exec_continue, continue_at, continue_in, count_round, pull_if_skipped, test_again,
}
use cnc_3d.FlowCtrl.Valid.{
  IsValid, NoneSkips-of_top, OnlyTopSkips-below, pull_to-IsValid, set_top-IsValid, rewind-IsValid,
  pull-IsValid,
}

module _ {F : Type 0} (c : Request F) {base : ℕ} (s : Flow F) (v : IsValid base s) where
  pub exec_do-IsValid : IsValid base (exec_do c s).1
  unfolding exec_do stack_push
  exec_do-IsValid = ground (arith, NoneSkips-of_top s.stack)

  pub exec_end_repeat-IsValid : IsValid base (exec_end_repeat c s).1
  unfolding exec_end_repeat seek
  exec_end_repeat-IsValid = ground (arith, OnlyTopSkips-below s.stack)

  pub exec_break-IsValid : IsValid base (exec_break c s).1
  unfolding exec_break
  exec_break-IsValid = ground (arith, pull_to-IsValid (λ e. c.o_label == e.o_label) s v)

module _ {F : Type 0} (ops : FloatOps F) (c : Request F) {base : ℕ} (s : Flow F)
    (v : IsValid base s) where
  pub exec_repeat-IsValid : IsValid base (exec_repeat ops c s).1
  unfolding exec_repeat stack_push
  exec_repeat-IsValid = ground (arith, NoneSkips-of_top s.stack)

  pub exec_end_while-IsValid : IsValid base (exec_end_while ops c s).1
  unfolding exec_end_while seek
  exec_end_while-IsValid = ground (arith, OnlyTopSkips-below s.stack)

module _ {F : Type 0} {base : ℕ} where
  count_round-IsValid :
      (e : Entry) (s : Flow F) (last : Flow F → Flow F)
      → ((t : Flow F) → IsValid base t → IsValid base (last t))
      → IsValid base s
      → IsValid base (count_round e s last)
  unfolding count_round
  count_round-IsValid e s last keep v =
      let s1 = set_top (λ e. record e { repeats = e.repeats - 1 }) s in
      let v1 : IsValid base s1 = set_top-IsValid _ s (λ e. refl) v in
      ground (arith, keep s v, keep s1 v1, rewind-IsValid s1 v1)

  pull_if_skipped-IsValid : (r : ℕ × Flow F) → IsValid base r.1 → IsValid base (pull_if_skipped r).1
  pull_if_skipped-IsValid (status, s) v = ground (arith, pull-IsValid s v)

module _ {F : Type 0} (ops : FloatOps F) (c : Request F) {base : ℕ} (s : Flow F)
    (v : IsValid base s) where
  test_again-IsValid : (e : Entry) → IsValid base (test_again ops c e s).1
  unfolding test_again
  test_again-IsValid e =
      let again = set_top (λ e. record e { skip = false }) s in
      ground (
        arith,
        set_top-IsValid (λ e. record e { skip = true }) s (λ e. refl) v,
        rewind-IsValid again (set_top-IsValid (λ e. record e { skip = false }) s (λ e. refl) v),
      )

  continue_at-IsValid : (e : Entry) → IsValid base (continue_at ops c e s).1
  unfolding continue_at
  continue_at-IsValid e =
      let skipped = λ (t : Flow F). set_top (λ e. record e { skip = true }) t in
      ground (
        arith,
        count_round-IsValid e s skipped (λ t w. set_top-IsValid _ t (λ e. refl) w) v,
        rewind-IsValid s v,
        pull_if_skipped-IsValid (test_again ops c e s) (test_again-IsValid e),
      )

module _ {F : Type 0} (ops : FloatOps F) (c : Request F) {base : ℕ} where
  continue_in-IsValid :
      (l : List Entry) (s : Flow F) → IsValid base s → IsValid base (continue_in ops c l s).1
  unfolding continue_in
  continue_in-IsValid [] s v = v
  continue_in-IsValid (e ∷ rest) s v = continue_at-IsValid ops c s v e

  pub exec_continue-IsValid : (s : Flow F) → IsValid base s → IsValid base (exec_continue ops c s).1
  unfolding exec_continue
  exec_continue-IsValid s v =
      let s1 = pull_to (λ e. c.o_label == e.o_label) s in
      ground
        (arith, continue_in-IsValid s1.stack s1 (pull_to-IsValid (λ e. c.o_label == e.o_label) s v))

module _ {F : Type 0} (ops : FloatOps F) (c : Request F) {base : ℕ} where
  open_while-IsValid :
      (expr : Text) (x : F) (s : Flow F)
      → top_skip s.stack ≡ false
      → IsValid base s
      → IsValid base (open_while ops c expr x s).1
  unfolding open_while stack_push
  open_while-IsValid expr x s t v = ground (arith, NoneSkips-of_top s.stack t v.innermost)

  pub exec_while-IsValid :
      (expr : Text) (s : Flow F) → IsValid base s → IsValid base (exec_while ops c expr s).1
  unfolding exec_while
  exec_while-IsValid expr s v =
      let r = c.eval c.line s.pos in
      let s1 = record s { pos = r.next } in
      ground (
        arith,
        pull-IsValid s v,
        pull-IsValid s1 v,
        rewind-IsValid s1 v,
        open_while-IsValid expr r.value s1,
      )
