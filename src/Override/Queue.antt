-- ===== src/Override/Queue.antt =====
-- The specification of the override buffers: three independent queues of at most 15 bytes.
use cnc_3d.Common.{ℕ, List, [], ◌∷◌, ◌++◌, ltb, if◌then◌else◌, length}

pub data Kind : Type 0 where
  feed spindle coolant : Kind

pub data Op : Type 0 where
  put : ℕ → Op
  get : Op

abbrev pub Command : Type 0
Command = Kind × Op

-- One slot of the 16 stays free, to tell a full ring from an empty one.
abbrev pub capacity : ℕ
capacity = 15

unfoldable pub push : List ℕ → ℕ → List ℕ
push q c = if ltb (length q) capacity then q ++ (c ∷ []) else q

unfoldable pub pop : List ℕ → ℕ × List ℕ
pop [] = (0, [])
pop (c ∷ q) = (c, q)

unfoldable pub step : List ℕ → Op → ℕ × List ℕ
step q (put c) = (0, push q c)
step q get = pop q

-- The three queues, and what any sequence of calls returns.
pub record Queues : Type 0 where
  pub of_feed : List ℕ
  pub of_spindle : List ℕ
  pub of_coolant : List ℕ

unfoldable pub apply_step : Queues → Kind → Op → ℕ × Queues
apply_step s feed op = let (c, q) = step s.of_feed op in (c, record s { of_feed = q })
apply_step s spindle op = let (c, q) = step s.of_spindle op in (c, record s { of_spindle = q })
apply_step s coolant op = let (c, q) = step s.of_coolant op in (c, record s { of_coolant = q })

unfoldable pub run : Queues → List Command → List ℕ
run s [] = []
run s ((k, op) ∷ rest) = let (c, s') = apply_step s k op in c ∷ run s' rest
