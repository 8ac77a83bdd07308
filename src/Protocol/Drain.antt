-- ===== src/Protocol/Drain.antt =====
-- The loops over the rings: they end, and they take every command that waits, in order.
use cnc_3d.Common.{ℕ, zero, suc, ◌<◌, ◌≤◌, not, ◌≡◌, ◌≢◌, refl, arith, List, [], ◌∷◌, length}
use cnc_3d.Override.{OverrideBuffers, apply_op}
use cnc_3d.Override.Queue
use cnc_3d.Override.Queue.{Kind, feed, spindle, coolant, get, Queues}
use cnc_3d.Override.Valid.{AllValid, apply_op-AllValid}
use cnc_3d.Override.Refine.{view, apply_op_refines, length-view}
use cnc_3d.Protocol.Line.{is_empty}
use cnc_3d.Protocol.Overrides.{drain, drain_all}

abbrev pub queue_of : Kind → Queues → List ℕ
queue_of feed v = v.of_feed
queue_of spindle v = v.of_spindle
queue_of coolant v = v.of_coolant

-- The queues after `l` has been put in place of one.
abbrev pub with_queue : Kind → List ℕ → Queues → Queues
with_queue feed l v = record v { of_feed = l }
with_queue spindle l v = record v { of_spindle = l }
with_queue coolant l v = record v { of_coolant = l }

-- No command is the byte 0, which the get functions return for an empty ring.
abbrev pub NoZero : List ℕ → Type 0
NoZero [] = Unit
NoZero (c ∷ l) = (c ≢ 0) × NoZero l

abbrev pub run_all : {S : Type 0} → (ℕ → S → S) → List ℕ → S → S
run_all step [] s = s
run_all step (c ∷ l) s = run_all step l (step c s)

length-queue_of : (k : Kind) (b : OverrideBuffers) → length (queue_of k (view b)) ≤ 15
length-queue_of feed b = (length-view b).0
length-queue_of spindle b = (length-view b).1
length-queue_of coolant b = (length-view b).2

get_empty :
    (k : Kind) (v : Queues) → queue_of k v ≡ [] → Queue.apply_step v k get ≡ (0, with_queue k [] v)
unfolding Queue.apply_step Queue.step Queue.pop
get_empty feed v h = ground arith
get_empty spindle v h = ground arith
get_empty coolant v h = ground arith

get_first :
    (k : Kind) (v : Queues) (c : ℕ) (l : List ℕ)
    → queue_of k v ≡ c ∷ l
    → Queue.apply_step v k get ≡ (c, with_queue k l v)
unfolding Queue.apply_step Queue.step Queue.pop
get_first feed v c l h = ground arith
get_first spindle v c l h = ground arith
get_first coolant v c l h = ground arith

queue_of-with_queue : (k : Kind) (l : List ℕ) (v : Queues) → queue_of k (with_queue k l v) ≡ l
queue_of-with_queue feed l v = refl
queue_of-with_queue spindle l v = refl
queue_of-with_queue coolant l v = refl

with_queue_twice :
    (k : Kind) (l l' : List ℕ) (v : Queues) → with_queue k l (with_queue k l' v) ≡ with_queue k l v
with_queue_twice feed l l' v = refl
with_queue_twice spindle l l' v = refl
with_queue_twice coolant l l' v = refl

module _ {S : Type 0} (k : Kind) (step : ℕ → S → S) where
  drain_lem :
      (l : List ℕ) (fuel c : ℕ) (s : S) (b : OverrideBuffers)
      → AllValid b
      → queue_of k (view b) ≡ l
      → NoZero l
      → length l < fuel
      → let (s', b') = drain k step fuel c s b in
        (s' ≡ run_all step l (step c s)) × (view b' ≡ with_queue k [] (view b)) × AllValid b'
  unfolding drain
  drain_lem l zero c s b v q z f = absurd (omega arith)
  drain_lem [] (suc fuel) c s b v q z f =
      ground
        (arith, apply_op_refines b k get v, apply_op-AllValid b k get v, get_empty k (view b) q)
  drain_lem (d ∷ l) (suc fuel) c s b v q z f =
      let b1 = (apply_op b k get).1 in
      ground (
        arith,
        apply_op_refines b k get v,
        get_first k (view b) d l q,
        queue_of-with_queue k l (view b),
        with_queue_twice k [] l (view b),
        drain_lem l fuel d (step c s) b1 (apply_op-AllValid b k get v),
      )

  drain_all_in :
      (l : List ℕ) (fuel : ℕ) (s : S) (b : OverrideBuffers)
      → AllValid b
      → queue_of k (view b) ≡ l
      → NoZero l
      → length l < fuel
      → let (any, s', b') = drain_all k step fuel s b in
        (any ≡ not (is_empty l))
        × (s' ≡ run_all step l s)
        × (view b' ≡ with_queue k [] (view b))
        × AllValid b'
  unfolding drain_all
  drain_all_in [] fuel s b v q z f =
      ground
        (arith, apply_op_refines b k get v, apply_op-AllValid b k get v, get_empty k (view b) q)
  drain_all_in (c ∷ l) fuel s b v q z f =
      let b1 = (apply_op b k get).1 in
      ground (
        arith,
        apply_op_refines b k get v,
        get_first k (view b) c l q,
        queue_of-with_queue k l (view b),
        with_queue_twice k [] l (view b),
        drain_lem l fuel c s b1 (apply_op-AllValid b k get v),
      )

  -- With fuel for the 15 commands that a ring holds, the loop over a kind's commands ends with
  -- that ring empty and the others as they were; it has executed every command that waited, in the
  -- order of arrival, and it is skipped just if none did.
  pub drain_all_lem :
      (fuel : ℕ) (s : S) (b : OverrideBuffers)
      → AllValid b
      → NoZero (queue_of k (view b))
      → 15 < fuel
      → let (any, s', b') = drain_all k step fuel s b in
        (any ≡ not (is_empty (queue_of k (view b))))
        × (s' ≡ run_all step (queue_of k (view b)) s)
        × (view b' ≡ with_queue k [] (view b))
        × AllValid b'
  drain_all_lem fuel s b v z f =
      drain_all_in (queue_of k (view b)) fuel s b v refl z (omega (arith, length-queue_of k b))
