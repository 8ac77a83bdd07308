-- ===== src/Override/Refine.antt =====
-- The rings behave as the queues of the bytes that they hold.
use cnc_3d.Common.{
  ℕ, zero, suc, ◌+◌, ◌-◌, ◌%◌, ◌<◌, ◌≤◌, ◌≡◌, ◌≢◌, refl, ap, ap₂, List, [], ◌∷◌, ◌++◌, arith,
  length, get_or, set, get_or-set_self, get_or-set_ne,
}
use cnc_3d.Common.Bits.{bit_and_fifteen}
use cnc_3d.Override.{OverrideQueue, OverrideBuffers, enqueue, dequeue, apply_op, run}
use cnc_3d.Override.{
  flush_override_buffers, enqueue_feed_override, enqueue_spindle_override, enqueue_coolant_override,
}
use cnc_3d.Override.Valid.{IsValid, AllValid, apply_op-AllValid}
use cnc_3d.Override.Queue
use cnc_3d.Override.Queue.{Kind, feed, spindle, coolant, Op, put, get, Command, Queues}

-- The `n` bytes from index `h` on, going round at 16.
abbrev pub window : List ℕ → ℕ → ℕ → List ℕ
window buf h zero = []
window buf h (suc n) = get_or buf h 0 ∷ window buf ((h + 1) % 16) n

length-window : (buf : List ℕ) (h n : ℕ) → length (window buf h n) ≡ n
length-window buf h zero = refl
length-window buf h (suc n) = ap suc (length-window buf ((h + 1) % 16) n)

-- How many bytes wait between `tail` and `head`.
abbrev pub waiting : OverrideQueue → ℕ
waiting q = (q.head + 16 - q.tail) % 16

abbrev pub contents : OverrideQueue → List ℕ
contents q = window q.buf q.tail (waiting q)

-- Writing just past a window extends it by that byte.
window-set :
    (buf : List ℕ) (x n h i : ℕ)
    → length buf ≡ 16
    → h < 16
    → n < 16
    → i ≡ (h + n) % 16
    → window (set buf i x) h (suc n) ≡ window buf h n ++ (x ∷ [])
window-set buf x zero h i hs hh hn e =
    let e' : i ≡ h = omega arith in rw (e', get_or-set_self buf h x 0 (omega arith))
window-set buf x (suc n) h i hs hh hn e =
    ap₂ ◌∷◌ (get_or-set_ne buf x 0 (omega arith))
      (window-set buf x n ((h + 1) % 16) i hs (omega arith) (omega arith) (omega arith))

window_of_ne_zero :
    (buf : List ℕ) (h n : ℕ)
    → n ≢ 0
    → window buf h n ≡ get_or buf h 0 ∷ window buf ((h + 1) % 16) (n - 1)
window_of_ne_zero buf h zero p = absurd (p refl)
window_of_ne_zero buf h (suc n) p = ap (λ k. window buf h (suc k)) (omega arith)

pub enqueue_refines :
    (q : OverrideQueue) (c : ℕ) → IsValid q → contents (enqueue q c) ≡ Queue.push (contents q) c
unfolding enqueue Queue.push
enqueue_refines q c v = ground (
  arith,
  bit_and_fifteen (q.head + 1),
  length-window q.buf q.tail (waiting q),
  window-set q.buf c (waiting q) q.tail q.head,
)

pub dequeue_refines :
    (q : OverrideQueue)
    → IsValid q
    → let (c, q') = dequeue q in (c, contents q') ≡ Queue.pop (contents q)
unfolding dequeue Queue.pop
dequeue_refines q v =
    ground (arith, bit_and_fifteen (q.tail + 1), window_of_ne_zero q.buf q.tail (waiting q))

-- The abstract view of the three buffers.
abbrev pub view : OverrideBuffers → Queues
view b = record {
  of_feed = contents b.feed_queue;
  of_spindle = contents b.spindle_queue;
  of_coolant = contents b.coolant_queue;
}

pub apply_op_refines :
    (b : OverrideBuffers) (k : Kind) (op : Op)
    → AllValid b
    → let (c, b') = apply_op b k op in (c, view b') ≡ Queue.apply_step (view b) k op
unfolding apply_op Queue.apply_step Queue.step
apply_op_refines b feed (put c) v = ground (arith, enqueue_refines b.feed_queue c v.feed_valid)
apply_op_refines b spindle (put c) v =
    ground (arith, enqueue_refines b.spindle_queue c v.spindle_valid)
apply_op_refines b coolant (put c) v =
    ground (arith, enqueue_refines b.coolant_queue c v.coolant_valid)
apply_op_refines b feed get v = ground (arith, dequeue_refines b.feed_queue v.feed_valid)
apply_op_refines b spindle get v = ground (arith, dequeue_refines b.spindle_queue v.spindle_valid)
apply_op_refines b coolant get v = ground (arith, dequeue_refines b.coolant_queue v.coolant_valid)

-- However the calls of the interrupt and of the executor interleave, from valid buffers each call
-- returns what three independent queues of at most 15 bytes return: first in first out for each
-- kind, a command that meets a full queue dropped, and 0 from an empty queue.
pub run_refines :
    (b : OverrideBuffers) (cs : List Command) → AllValid b → run b cs ≡ Queue.run (view b) cs
unfolding run Queue.run
run_refines b [] v = refl
run_refines b ((k, op) ∷ rest) v = ground (
  arith,
  apply_op_refines b k op v,
  run_refines (apply_op b k op).1 rest (apply_op-AllValid b k op v),
)

-- A flush leaves the three queues empty.
pub view-flush :
    (b : OverrideBuffers)
    → view (flush_override_buffers b) ≡ record { of_feed = []; of_spindle = []; of_coolant = [] }
unfolding flush_override_buffers
view-flush b = refl

length-contents : (q : OverrideQueue) → length (contents q) ≤ 15
length-contents q = omega (arith, length-window q.buf q.tail (waiting q))

-- No queue holds more than 15 bytes.
pub length-view :
    (b : OverrideBuffers)
    → (length (view b).of_feed ≤ 15)
      × (length (view b).of_spindle ≤ 15)
      × (length (view b).of_coolant ≤ 15)
length-view b =
    (length-contents b.feed_queue, length-contents b.spindle_queue, length-contents b.coolant_queue)

-- The enqueue functions by their kinds.
pub apply_op-put :
    (b : OverrideBuffers) (c : ℕ)
    → ((apply_op b feed (put c)).1 ≡ enqueue_feed_override b c)
      × ((apply_op b spindle (put c)).1 ≡ enqueue_spindle_override b c)
      × ((apply_op b coolant (put c)).1 ≡ enqueue_coolant_override b c)
unfolding apply_op
apply_op-put b c = (refl, refl, refl)
