-- ===== src/Override.antt =====
-- stm32_firmware/core-master/override.c: the three ring buffers between the input interrupt, which
-- enqueues override commands, and the realtime executor, which takes them out.
-- Sealed: the children prove what a client may know of them.
pub mod Queue
pub mod Valid
pub mod Refine
mod Examples
use Prim.Native.Nat.{bit_and}
use cnc_3d.Common.{ℕ, ◌+◌, ◌-◌, Bool, List, [], ◌∷◌, ◌==◌, if◌then◌else◌, get_or, set}
use cnc_3d.Override.Queue.{Op, put, get, Kind, feed, spindle, coolant, Command}

-- OVERRIDE_BUFSIZE
abbrev pub override_bufsize : ℕ
override_bufsize = 16

-- `override_queue_t`; `buf` holds OVERRIDE_BUFSIZE bytes.
pub record OverrideQueue : Type 0 where
  pub head : ℕ
  pub tail : ℕ
  pub buf : List ℕ

-- The static variables `feed`, `spindle` and `coolant`.
pub record OverrideBuffers : Type 0 where
  pub feed_queue : OverrideQueue
  pub spindle_queue : OverrideQueue
  pub coolant_queue : OverrideQueue

-- The body that the three enqueue functions share.
pub enqueue : OverrideQueue → ℕ → OverrideQueue
enqueue q cmd =
    let bptr = bit_and (q.head + 1) (override_bufsize - 1) in
    if bptr == q.tail then q else record q { buf = set q.buf q.head cmd; head = bptr }

-- The body that the three get functions share: 0 if nothing is enqueued.
pub dequeue : OverrideQueue → ℕ × OverrideQueue
dequeue q =
    if q.tail == q.head
    then (0, q)
    else (get_or q.buf q.tail 0, record q { tail = bit_and (q.tail + 1) (override_bufsize - 1) })

unfoldable pub enqueue_feed_override : OverrideBuffers → ℕ → OverrideBuffers
enqueue_feed_override b cmd = record b { feed_queue = enqueue b.feed_queue cmd }

unfoldable pub enqueue_spindle_override : OverrideBuffers → ℕ → OverrideBuffers
enqueue_spindle_override b cmd = record b { spindle_queue = enqueue b.spindle_queue cmd }

unfoldable pub enqueue_coolant_override : OverrideBuffers → ℕ → OverrideBuffers
enqueue_coolant_override b cmd = record b { coolant_queue = enqueue b.coolant_queue cmd }

unfoldable pub get_feed_override : OverrideBuffers → ℕ × OverrideBuffers
get_feed_override b = let (c, q) = dequeue b.feed_queue in (c, record b { feed_queue = q })

unfoldable pub get_spindle_override : OverrideBuffers → ℕ × OverrideBuffers
get_spindle_override b = let (c, q) = dequeue b.spindle_queue in (c, record b { spindle_queue = q })

unfoldable pub get_coolant_override : OverrideBuffers → ℕ × OverrideBuffers
get_coolant_override b = let (c, q) = dequeue b.coolant_queue in (c, record b { coolant_queue = q })

abbrev emptied : OverrideQueue → OverrideQueue
emptied q = record q { head = 0; tail = 0 }

unfoldable pub flush_override_buffers : OverrideBuffers → OverrideBuffers
flush_override_buffers b = record {
  feed_queue = emptied b.feed_queue;
  spindle_queue = emptied b.spindle_queue;
  coolant_queue = emptied b.coolant_queue;
}

-- Which function a caller's command names.
pub apply_op : OverrideBuffers → Kind → Op → ℕ × OverrideBuffers
unfolding enqueue_feed_override enqueue_spindle_override enqueue_coolant_override get_feed_override
    get_spindle_override get_coolant_override
apply_op b feed (put c) = (0, enqueue_feed_override b c)
apply_op b spindle (put c) = (0, enqueue_spindle_override b c)
apply_op b coolant (put c) = (0, enqueue_coolant_override b c)
apply_op b feed get = get_feed_override b
apply_op b spindle get = get_spindle_override b
apply_op b coolant get = get_coolant_override b

-- The calls of the interrupt and of the executor in the order in which they happen, with what each
-- returns (0 for an enqueue, which returns nothing).
pub run : OverrideBuffers → List Command → List ℕ
run b [] = []
run b ((k, op) ∷ rest) = let (c, b') = apply_op b k op in c ∷ run b' rest
