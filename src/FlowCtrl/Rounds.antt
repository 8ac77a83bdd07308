-- ===== src/FlowCtrl/Rounds.antt =====
-- REPEAT … ENDREPEAT runs its body as often as it says, each time from the line after REPEAT.
use cnc_3d.Common.{
  ℕ, zero, suc, ◌<◌, ◌≡◌, arith, false, List, [], ◌∷◌, length, some, leb, if◌then◌else◌, replicate,
}
use cnc_3d.FlowCtrl.Types.{repeat, FloatOps, Flow, Request, Entry, status_ok, stack_depth}
use cnc_3d.FlowCtrl.Stack.{skipping, stack_push, seek}
use cnc_3d.FlowCtrl.Loop.{exec_repeat, exec_end_repeat}

-- A repeating block on top of the stack, over `rest`, with `n` rounds to go, that starts at
-- position `p` of file `f`.
abbrev pub IsRepeating : ℕ → ℕ → ℕ → ℕ → List Entry → List Entry → Type 0
IsRepeating label n f p rest [] = ⊥
IsRepeating label n f p rest (e ∷ l) =
    (l ≡ rest)
    × (e.o_label ≡ label)
    × (e.operation ≡ repeat)
    × (e.repeats ≡ n)
    × (e.file ≡ some f)
    × (e.file_pos ≡ p)
    × (e.skip ≡ false)

abbrev pub Repeating : {F : Type 0} → ℕ → ℕ → ℕ → ℕ → List Entry → Flow F → Type 0
Repeating label n f p rest s =
    IsRepeating label n f p rest s.stack × (s.skip_sub ≡ false) × (s.streams.file ≡ some f)

-- The body of a block, as the block sees it: it leaves the stack and the input as they are.
abbrev pub KeepsBlock : {F : Type 0} → (Flow F → Flow F) → Type 0
KeepsBlock {F} body =
    (s : Flow F)
    → ((body s).stack ≡ s.stack) × ((body s).skip_sub ≡ s.skip_sub) × ((body s).streams ≡ s.streams)

module _ {F : Type 0} where
  -- Run the body and ENDREPEAT until the block has left the stack, `fuel` rounds at most: the
  -- position in file `f` at which each round starts, and the state.
  unfoldable pub rounds : ℕ → ℕ → (Flow F → Flow F) → Request F → ℕ → Flow F → List ℕ × Flow F
  rounds zero depth body c f s = ([], s)
  rounds (suc fuel) depth body c f s =
      let s1 = (exec_end_repeat c (body s)).1 in
      let more = rounds fuel depth body c f s1 in
      if leb (length s1.stack) depth
      then (s.position f ∷ [], s1)
      else (s.position f ∷ more.0, more.1)

module _ {F : Type 0} (c : Request F) (f p : ℕ) (rest : List Entry) where
  end_repeat-again :
      (n : ℕ) (s : Flow F)
      → Repeating c.o_label (suc (suc n)) f p rest s
      → let s1 = (exec_end_repeat c s).1 in
        Repeating c.o_label (suc n) f p rest s1
        × (s1.position f ≡ p)
        × (length s1.stack ≡ suc (length rest))
  unfolding exec_end_repeat seek
  end_repeat-again n s r = ground arith

  end_repeat-last :
      (s : Flow F) → Repeating c.o_label 1 f p rest s → (exec_end_repeat c s).1.stack ≡ rest
  unfolding exec_end_repeat
  end_repeat-last s r = ground arith

  Repeating-body :
      (body : Flow F → Flow F) (n : ℕ) (s : Flow F)
      → KeepsBlock body
      → Repeating c.o_label n f p rest s
      → Repeating c.o_label n f p rest (body s)
  Repeating-body body n s k r = ground (arith, k s)

  rounds_lem :
      (body : Flow F → Flow F) (n fuel : ℕ) (s : Flow F)
      → KeepsBlock body
      → n < fuel
      → Repeating c.o_label (suc n) f p rest s
      → s.position f ≡ p
      → let (starts, s') = rounds fuel (length rest) body c f s in
        (starts ≡ replicate (suc n) p) × (s'.stack ≡ rest)
  unfolding rounds
  rounds_lem body n zero s k h r e = absurd (omega arith)
  rounds_lem body zero (suc fuel) s k h r e =
      ground (arith, end_repeat-last (body s) (Repeating-body body 1 s k r))
  rounds_lem body (suc n) (suc fuel) s k h r e =
      let again = end_repeat-again n (body s) (Repeating-body body (suc (suc n)) s k r) in
      ground (
        arith,
        again,
        rounds_lem body n fuel (exec_end_repeat c (body s)).1 k (omega arith) again.0 again.1,
      )

module _ {F : Type 0} (ops : FloatOps F) (c : Request F) where
  exec_repeat-Repeating :
      (f n : ℕ) (s : Flow F)
      → let r = c.eval c.line s.pos in
        s.streams.file ≡ some f
        → skipping s ≡ false
        → length s.stack < stack_depth
        → r.status ≡ status_ok
        → ops.is_le_zero (ops.nearbyint r.value) ≡ false
        → ops.to_uint (ops.nearbyint r.value) ≡ n
        → let (status, s1) = exec_repeat ops c s in
          (status ≡ status_ok)
          × Repeating c.o_label n f (s.position f) s.stack s1
          × (s1.position f ≡ s.position f)
  unfolding exec_repeat stack_push
  exec_repeat-Repeating f n s a b d e g h = ground arith

  -- In a file, outside a skipped block and with room on the stack, REPEAT with an expression that
  -- rounds to `n + 1` succeeds, and with a body that leaves the statement stack and the input as
  -- they are, `n + 1` rounds run, each from the position after REPEAT; then the stack is as it was
  -- before. `fuel` is any number above `n`.
  pub repeat_rounds :
      (f n fuel : ℕ) (body : Flow F → Flow F) (last : Request F) (s : Flow F)
      → let r = c.eval c.line s.pos in
        s.streams.file ≡ some f
        → skipping s ≡ false
        → length s.stack < stack_depth
        → r.status ≡ status_ok
        → ops.is_le_zero (ops.nearbyint r.value) ≡ false
        → ops.to_uint (ops.nearbyint r.value) ≡ suc n
        → last.o_label ≡ c.o_label
        → KeepsBlock body
        → n < fuel
        → let (status, s1) = exec_repeat ops c s in
          let (starts, s') = rounds fuel (length s.stack) body last f s1 in
          (status ≡ status_ok) × (starts ≡ replicate (suc n) (s.position f)) × (s'.stack ≡ s.stack)
  repeat_rounds f n fuel body last s a b d e g h l k m =
      let (ok, rep, start) = exec_repeat-Repeating f (suc n) s a b d e g h in
      let (starts, stack) =
        rounds_lem last f (s.position f) s.stack body n fuel (exec_repeat ops c s).1 k m (rw l rep)
          start in
      (ok, starts, stack)
