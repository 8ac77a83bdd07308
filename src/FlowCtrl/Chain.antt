-- ===== src/FlowCtrl/Chain.antt =====
-- An IF … ELSEIF … ELSE … ENDIF chain runs the first branch whose condition holds.
use cnc_3d.Common.{
  ℕ, ◌<◌, ◌≡◌, refl, ap, arith, Bool, true, false, not, List, [], ◌∷◌, ◌++◌, ◌||◌, length,
}
use cnc_3d.FlowCtrl.Types.{FloatOps, Flow, Request, Entry, Text, status_ok, stack_depth}
use cnc_3d.FlowCtrl.Stack.{skipping, top_skip, stack_push}
use cnc_3d.FlowCtrl.Branch.{exec_if, exec_else_if, exec_else, exec_end_if, is_if_or_else_if}

-- A request whose expression evaluates, and holds just if `b`.
abbrev pub Tests : {F : Type 0} → FloatOps F → ℕ → Request F × Bool → Type 0
Tests ops label (c, b) =
    (c.o_label ≡ label)
    × ((t : Text) (p : ℕ)
        → ((c.eval t p).status ≡ status_ok) × (ops.is_zero (c.eval t p).value ≡ not b))

abbrev pub AllTest : {F : Type 0} → FloatOps F → ℕ → List (Request F × Bool) → Type 0
AllTest ops label [] = Unit
AllTest ops label (t ∷ ts) = Tests ops label t × AllTest ops label ts

-- Which branches are skipped, given whether one was taken already: all but the first whose
-- condition holds.
unfoldable pub skipped : Bool → List Bool → List Bool
skipped taken [] = []
skipped taken (b ∷ bs) = (taken || not b) ∷ skipped (taken || b) bs

unfoldable pub conditions : {F : Type 0} → List (Request F × Bool) → List Bool
conditions [] = []
conditions ((c, b) ∷ ts) = b ∷ conditions ts

unfoldable pub any_holds : List Bool → Bool
any_holds [] = false
any_holds (b ∷ bs) = b || any_holds bs

module _ {F : Type 0} (ops : FloatOps F) where
  -- The ELSEIF statements in order: each one's status with the skip flag after it, and the state.
  unfoldable pub run_else_ifs : List (Request F × Bool) → Flow F → List (ℕ × Bool) × Flow F
  run_else_ifs [] s = ([], s)
  run_else_ifs ((c, b) ∷ ts) s =
      let (status, s1) = exec_else_if ops c s in
      let (rest, s2) = run_else_ifs ts s1 in ((status, skipping s1) ∷ rest, s2)

abbrev pub succeed : List Bool → List (ℕ × Bool)
succeed [] = []
succeed (b ∷ bs) = (status_ok, b) ∷ succeed bs

or_false : (a : Bool) → (a || false) ≡ a
or_false a = ground arith

or_assoc : (a b c : Bool) → ((a || b) || c) ≡ (a || (b || c))
or_assoc a b c = ground arith

or_true : (a : Bool) → (a || not true) ≡ a
or_true a = ground arith

-- ELSE is a branch whose condition holds.
skipped-append :
    (taken : Bool) (bs : List Bool)
    → skipped taken (bs ++ (true ∷ [])) ≡ skipped taken bs ++ ((taken || any_holds bs) ∷ [])
unfolding skipped any_holds
skipped-append taken [] = ground arith
skipped-append taken (b ∷ bs) =
    rw (skipped-append (taken || b) bs, or_assoc taken b (any_holds bs)) refl

succeed-append : (bs cs : List Bool) → succeed (bs ++ cs) ≡ succeed bs ++ succeed cs
succeed-append [] cs = refl
succeed-append (b ∷ bs) cs = ap (λ l. (status_ok, b) ∷ l) (succeed-append bs cs)

-- The chain's entry is on top, over `rest`, and has taken a branch just if `taken`.
abbrev pub IsChain : ℕ → Bool → List Entry → List Entry → Type 0
IsChain label taken rest [] = ⊥
IsChain label taken rest (e ∷ l) =
    (l ≡ rest) × (e.o_label ≡ label) × (is_if_or_else_if e.operation ≡ true) × (e.handled ≡ taken)

abbrev pub InChain : {F : Type 0} → ℕ → Bool → List Entry → Flow F → Type 0
InChain label taken rest s = IsChain label taken rest s.stack × (s.skip_sub ≡ false)

module _ {F : Type 0} (ops : FloatOps F) (label : ℕ) (rest : List Entry) where
  if-InChain :
      (c : Request F) (b : Bool) (s : Flow F)
      → Tests ops label (c, b)
      → s.stack ≡ rest
      → length rest < stack_depth
      → s.skip_sub ≡ false
      → top_skip rest ≡ false
      → let (status, s1) = exec_if ops c s in
        (status ≡ status_ok) × (skipping s1 ≡ not b) × InChain label b rest s1
  unfolding exec_if stack_push
  if-InChain c b s t p room o q = ground (arith, t.1 c.line s.pos)

  else_if-InChain :
      (c : Request F) (b taken : Bool) (s : Flow F)
      → Tests ops label (c, b)
      → InChain label taken rest s
      → let (status, s1) = exec_else_if ops c s in
        (status ≡ status_ok) × (skipping s1 ≡ (taken || not b)) × InChain label (taken || b) rest s1
  unfolding exec_else_if
  else_if-InChain c b taken s t i = ground (arith, t.1 c.line s.pos)

  run_else_ifs-InChain :
      (ts : List (Request F × Bool)) (taken : Bool) (s : Flow F)
      → AllTest ops label ts
      → InChain label taken rest s
      → let (results, s1) = run_else_ifs ops ts s in
        (results ≡ succeed (skipped taken (conditions ts)))
        × InChain label (taken || any_holds (conditions ts)) rest s1
  unfolding run_else_ifs conditions any_holds skipped
  run_else_ifs-InChain [] taken s t i = rw (or_false taken) (refl, i)
  run_else_ifs-InChain ((c, b) ∷ ts) taken s t i =
      let (status, flag, chain) = else_if-InChain c b taken s t.0 i in
      let s1 = (exec_else_if ops c s).1 in
      let (results, ends) = run_else_ifs-InChain ts (taken || b) s1 t.1 chain in
      (rw (status, flag, results) refl, rw (or_assoc taken b (any_holds (conditions ts))) at ends)

  else-InChain :
      (c : Request F) (taken : Bool) (s : Flow F)
      → c.o_label ≡ label
      → InChain label taken rest s
      → let (status, s1) = exec_else c s in
        let (status2, s2) = exec_end_if c s1 in
        (status ≡ status_ok)
        × (skipping s1 ≡ taken)
        × (status2 ≡ status_ok)
        × (s2.stack ≡ rest)
        × (s2.skip_sub ≡ false)
  unfolding exec_else exec_end_if
  else-InChain c taken s p i = ground arith

not_skipping :
    {F : Type 0} (s : Flow F)
    → skipping s ≡ false
    → (s.skip_sub ≡ false) × (top_skip s.stack ≡ false)
not_skipping s h = ground arith

module _ {F : Type 0} (ops : FloatOps F) where
  -- IF with the first of the requests, an ELSEIF with each of `ts`, ELSE and ENDIF with `last`: the
  -- status of each statement but ENDIF with the skip flag after it, then the state.
  unfoldable pub run_chain :
      Request F → List (Request F × Bool) → Request F → Flow F → List (ℕ × Bool) × ℕ × Flow F
  run_chain c ts last s =
      let (status, s1) = exec_if ops c s in
      let (results, s2) = run_else_ifs ops ts s1 in
      let (status3, s3) = exec_else last s2 in
      let (status4, s4) = exec_end_if last s3 in
      ((status, skipping s1) ∷ (results ++ ((status3, skipping s3) ∷ [])), status4, s4)

  -- Outside a skipped block and with room on the stack, a chain of IF, any number of ELSEIF, ELSE and
  -- ENDIF with one label, whose conditions all evaluate, succeeds at every statement; exactly the
  -- first branch whose condition holds is not skipped, ELSE counting as a condition that holds; and
  -- ENDIF leaves the stack as it was before IF.
  pub run_chain_lem :
      (c : Request F) (b : Bool) (ts : List (Request F × Bool)) (last : Request F) (s : Flow F)
      → Tests ops last.o_label (c, b)
      → AllTest ops last.o_label ts
      → length s.stack < stack_depth
      → skipping s ≡ false
      → let (results, status, s') = run_chain c ts last s in
        (results ≡ succeed (skipped false (b ∷ (conditions ts ++ (true ∷ [])))))
        × (status ≡ status_ok)
        × (s'.stack ≡ s.stack)
  unfolding run_chain skipped
  run_chain_lem c b ts last s t all room quiet =
      let (out, flag) = not_skipping s quiet in
      let (p1, p2, i1) = if-InChain ops last.o_label s.stack c b s t refl room out flag in
      let s1 = (exec_if ops c s).1 in
      let (p3, i2) = run_else_ifs-InChain ops last.o_label s.stack ts b s1 all i1 in
      let s2 = (run_else_ifs ops ts s1).1 in
      let taken = b || any_holds (conditions ts) in
      let (p4, p5, p6, p7, p8) = else-InChain ops last.o_label s.stack last taken s2 refl i2 in
      (
        rw (p1, p2, p3, p4, p5, skipped-append b (conditions ts))
            (rw (succeed-append (skipped b (conditions ts)) (taken ∷ [])) refl),
        p6,
        p7,
      )
