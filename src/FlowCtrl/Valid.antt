-- ===== src/FlowCtrl/Valid.antt =====
-- The invariant of the statement stack: bounded depth, one call level for each entry of a called
-- subroutine, and only the innermost block may be skipping.
use cnc_3d.Common.{ℕ, suc, ◌+◌, ◌≤◌, ◌≡◌, Bool, false, List, [], ◌∷◌, arith, length, if◌then◌else◌}
use cnc_3d.FlowCtrl.Types.{Entry, Flow, stack_depth}
use cnc_3d.FlowCtrl.Stack.{
  is_call, top_skip, update_top, level_after, pull_until, pull_to, seek, set_top,
}
use cnc_3d.FlowCtrl.Loop.{rewind, pull}

-- The entries of called subroutines.
abbrev pub calls : List Entry → ℕ
calls [] = 0
calls (e ∷ rest) = if is_call e.operation then suc (calls rest) else calls rest

abbrev pub NoneSkips : List Entry → Type 0
NoneSkips [] = Unit
NoneSkips (e ∷ rest) = (e.skip ≡ false) × NoneSkips rest

abbrev pub OnlyTopSkips : List Entry → Type 0
OnlyTopSkips [] = Unit
OnlyTopSkips (e ∷ rest) = NoneSkips rest

-- `base` is the number of call levels that macros called by G65 hold.
pub record IsStack (base : ℕ) (l : List Entry) (level : ℕ) : Type 0 where
  pub depth : length l ≤ stack_depth
  pub levels : level ≡ base + calls l
  pub innermost : OnlyTopSkips l

OnlyTopSkips-tail : (l : List Entry) → NoneSkips l → OnlyTopSkips l
OnlyTopSkips-tail [] h = h
OnlyTopSkips-tail (e ∷ rest) h = h.1

module _ {base : ℕ} where
  pub IsStack-tail :
      (e : Entry) (rest : List Entry) (level : ℕ)
      → IsStack base (e ∷ rest) level
      → IsStack base rest (level_after e.operation level)
  IsStack-tail e rest level v = ground (arith, OnlyTopSkips-tail rest v.innermost)

  pub pull_until-IsStack :
      (stop : Entry → Bool) (l : List Entry) (level : ℕ)
      → IsStack base l level
      → let (l', level') = pull_until stop l level in IsStack base l' level'
  unfolding pull_until
  pull_until-IsStack stop [] level v = v
  pull_until-IsStack stop (e ∷ rest) level v = ground (
    arith,
    pull_until-IsStack stop rest (level_after e.operation level) (IsStack-tail e rest level v),
  )

  pub update_top-IsStack :
      (f : Entry → Entry) (l : List Entry) (level : ℕ)
      → ((e : Entry) → is_call (f e).operation ≡ is_call e.operation)
      → IsStack base l level
      → IsStack base (update_top f l) level
  update_top-IsStack f [] level k v = v
  update_top-IsStack f (e ∷ rest) level k v = ground (arith, k e)

abbrev pub IsValid : {F : Type 0} → ℕ → Flow F → Type 0
IsValid base s = IsStack base s.stack s.call_level

pub NoneSkips-of_top : (l : List Entry) → top_skip l ≡ false → OnlyTopSkips l → NoneSkips l
NoneSkips-of_top [] t h = h
NoneSkips-of_top (e ∷ rest) t h = (t, h)

-- The stack without its top.
abbrev pub below : List Entry → List Entry
below [] = []
below (e ∷ rest) = rest

pub OnlyTopSkips-below : (l : List Entry) → OnlyTopSkips l → OnlyTopSkips (below l)
OnlyTopSkips-below [] h = h
OnlyTopSkips-below (e ∷ rest) h = OnlyTopSkips-tail rest h

-- What moves only the files' positions, or the log.
module _ {F : Type 0} where
  pub rewind-stack :
      (s : Flow F) → ((rewind s).stack ≡ s.stack) × ((rewind s).call_level ≡ s.call_level)
  unfolding rewind seek
  rewind-stack s = ground arith

  pub pull-IsValid : {base : ℕ} (s : Flow F) → IsValid base s → IsValid base (pull s)
  unfolding pull
  pull-IsValid s v = ground (arith, OnlyTopSkips-below s.stack)

  pub rewind-IsValid : {base : ℕ} (s : Flow F) → IsValid base s → IsValid base (rewind s)
  rewind-IsValid s v = ground (arith, rewind-stack s)

  pub set_top-IsValid :
      {base : ℕ} (f : Entry → Entry) (s : Flow F)
      → ((e : Entry) → is_call (f e).operation ≡ is_call e.operation)
      → IsValid base s
      → IsValid base (set_top f s)
  set_top-IsValid f s k v = update_top-IsStack f s.stack s.call_level k v

  pub pull_to-IsValid :
      {base : ℕ} (stop : Entry → Bool) (s : Flow F) → IsValid base s → IsValid base (pull_to stop s)
  pull_to-IsValid stop s v = pull_until-IsStack stop s.stack s.call_level v
