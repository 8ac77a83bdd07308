-- ===== src/Executor/Ajar.antt =====
-- The realtime executor, while the machine waits with its door open.
use cnc_3d.Common.{◌≡◌}
use cnc_3d.System.{safety_door}
use cnc_3d.StateMachine.Types.{await_resume, RtExec, Core, Coords}
use cnc_3d.StateMachine.Door.{parked_log}
use cnc_3d.Executor.Types.{Executor, Setup}
use cnc_3d.Executor.Requests.{Outcome, goes_on, make_reports}

module _ {F : Type 0} (ops : Coords F) (u : Setup F) where
  -- The machine waits in the safety door state.
  abbrev pub IsWaiting : Core F → Type 0
  IsWaiting m = (m.sys_state ≡ safety_door) × (m.handler ≡ await_resume)

  -- A machine that has waited and goes on to the overrides.
  abbrev GoesOn : (rt : RtExec) (m : Core F) → Outcome F → Type 0
  GoesOn rt m o =
      (x : Executor F) × ((o ≡ goes_on x)
        × IsWaiting x.core
        × (x.core.log ≡ parked_log ops u.world rt (make_reports rt m)))
