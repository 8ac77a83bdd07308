-- ===== src/Override/Examples.antt =====
-- A concrete interleaving of the interrupt and the executor.
use cnc_3d.Common.{◌≡◌, refl, arith, List, [], ◌∷◌, replicate}
use cnc_3d.Override.{OverrideQueue, OverrideBuffers, run}
use cnc_3d.Override.Queue
use cnc_3d.Override.Queue.{feed, spindle, coolant, put, get, Command}
use cnc_3d.Override.Refine.{view, run_refines}

-- One command waits at the end of the storage.
abbrev near_end : OverrideQueue
near_end = record { head = 15; tail = 14; buf = replicate 16 0x91 }

abbrev buffers : OverrideBuffers
buffers = record { feed_queue = near_end; spindle_queue = near_end; coolant_queue = near_end }

abbrev script : List Command
script =
    (feed, put 0x90)
    ∷ (spindle, put 0x9e)
    ∷ (feed, get)
    ∷ (feed, put 0x95)
    ∷ (feed, get)
    ∷ (feed, get)
    ∷ (feed, get)
    ∷ []

run_refines_example : run buffers script ≡ Queue.run (view buffers) script
run_refines_example = run_refines buffers script (omega arith)

script_runs : Queue.run (view buffers) script ≡ 0 ∷ 0 ∷ 0x91 ∷ 0 ∷ 0x90 ∷ 0x95 ∷ 0 ∷ []
unfolding Queue.run Queue.apply_step Queue.step Queue.push Queue.pop
script_runs = refl
