-- ===== src/Override/Valid.antt =====
-- The representation invariant of `override_queue_t`: indices inside the buffer.
use cnc_3d.Common.{ℕ, ◌+◌, ◌<◌, ◌≡◌, arith, length, length-set}
use cnc_3d.Common.Bits.{bit_and_fifteen}
use cnc_3d.Override.{
  OverrideQueue, OverrideBuffers, enqueue, dequeue, apply_op, flush_override_buffers,
}
use cnc_3d.Override.Queue.{Kind, feed, spindle, coolant, Op, put, get}

pub record IsValid (q : OverrideQueue) : Type 0 where
  pub storage : length q.buf ≡ 16
  pub head_in : q.head < 16
  pub tail_in : q.tail < 16

pub record AllValid (b : OverrideBuffers) : Type 0 where
  pub feed_valid : IsValid b.feed_queue
  pub spindle_valid : IsValid b.spindle_queue
  pub coolant_valid : IsValid b.coolant_queue

pub enqueue-IsValid : {q : OverrideQueue} (c : ℕ) → IsValid q → IsValid (enqueue q c)
unfolding enqueue
enqueue-IsValid {q} c v = ground (arith, length-set q.buf q.head c, bit_and_fifteen (q.head + 1))

pub dequeue-IsValid : {q : OverrideQueue} → IsValid q → IsValid (dequeue q).1
unfolding dequeue
dequeue-IsValid {q} v = ground (arith, bit_and_fifteen (q.tail + 1))

-- Whatever the interrupt or the executor calls, every index stays inside its buffer.
pub apply_op-AllValid :
    (b : OverrideBuffers) (k : Kind) (op : Op) → AllValid b → AllValid (apply_op b k op).1
unfolding apply_op
apply_op-AllValid b feed (put c) v = ground (arith, enqueue-IsValid c v.feed_valid)
apply_op-AllValid b spindle (put c) v = ground (arith, enqueue-IsValid c v.spindle_valid)
apply_op-AllValid b coolant (put c) v = ground (arith, enqueue-IsValid c v.coolant_valid)
apply_op-AllValid b feed get v = ground (arith, dequeue-IsValid v.feed_valid)
apply_op-AllValid b spindle get v = ground (arith, dequeue-IsValid v.spindle_valid)
apply_op-AllValid b coolant get v = ground (arith, dequeue-IsValid v.coolant_valid)

pub flush-AllValid : (b : OverrideBuffers) → AllValid b → AllValid (flush_override_buffers b)
unfolding flush_override_buffers
flush-AllValid b v = ground arith
