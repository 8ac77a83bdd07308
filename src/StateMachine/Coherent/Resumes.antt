-- ===== src/StateMachine/Coherent/Resumes.antt =====
-- Handler and state in the handlers that come back from a hold, which wait for spindle and coolant.
use cnc_3d.Common.{
  Bool, true, false, not, ◌||◌, ◌≡◌, ap, ◌∙◌, arith, if◌then◌else◌, ℕ, zero, suc, length, ◌==◌,
}
use cnc_3d.System.{idle, cycle}
use cnc_3d.StateMachine.Types.{
  await_hold, await_restart_retract, door_message, parking_retracting, spindle_restore,
  spindle_programmed, coolant_restore, Core, Coords, World, Spindle,
}
use cnc_3d.StateMachine.Simple.{emit}
use cnc_3d.StateMachine.Hold.{blank, spindle_at}
use cnc_3d.StateMachine.Parking.{end_sys_motion, mc_parking_motion, no_stop}
use cnc_3d.StateMachine.Events.{state_set}
use cnc_3d.StateMachine.Resume.{
  restart_complete, restart_retract, resumed_complete, restore_coolant, state_restore_conditions,
  restore_spindles, state_spindle_restore, plunge, restore_complete, leave_park, coolant_back,
  restore_outputs, after_plunge, after_restore, begin_restore,
}
use cnc_3d.StateMachine.Coherent.{is_locked, IsCoherent, if-IsCoherent}
use cnc_3d.StateMachine.Coherent.Park.{
  SameWait, end_sys_motion-same, hold_complete_step-IsCoherent, hold_complete_step-unlocked,
}
use cnc_3d.StateMachine.Coherent.Set.{state_set-IsCoherent}
use cnc_3d.StateMachine.Coherent.Handlers.{same-IsCoherent}

-- Handler and state fit, and the machine is not locked.
pub record IsAwake {F : Type 0} (m : Core F) : Type 0 where
  pub coherent : IsCoherent m
  pub unlocked : is_locked m.sys_state ≡ false

-- The waits of a call in this world lock no machine, and keep handler and state together.
pub record IsCalm {F : Type 0} (w : World F) : Type 0 where
  pub coherent : (m : Core F) → IsCoherent m → IsCoherent (w.delay m)
  pub unlocked :
      (m : Core F) → is_locked m.sys_state ≡ false → is_locked (w.delay m).sys_state ≡ false

-- One of two machines that are awake.
if-IsAwake :
    {F : Type 0} (b : Bool) (m n : Core F) → IsAwake m → IsAwake n → IsAwake (if b then m else n)
if-IsAwake true m n x y = x
if-IsAwake false m n x y = y

module _ {F : Type 0} (ops : Coords F) (w : World F) where
  pub restart_complete-IsAwake :
      (m : Core F) → is_locked m.sys_state ≡ false → IsAwake (restart_complete ops w m)
  unfolding restart_complete
  restart_complete-IsAwake m l =
      let m1 = record (end_sys_motion m) { handler = await_hold } in
      let e : m1.sys_state ≡ m.sys_state = (end_sys_motion-same w m).1 in
      let l1 : is_locked m1.sys_state ≡ false = ap is_locked e ∙ l in
      record {
        coherent = hold_complete_step-IsCoherent ops w m1 l1 (λ h. ground arith);
        unlocked = hold_complete_step-unlocked ops w m1 l1 (λ h. ground arith);
      }

  pub restart_retract-IsAwake :
      (m : Core F) → is_locked m.sys_state ≡ false → IsAwake (restart_retract ops w m)
  unfolding restart_retract
  restart_retract-IsAwake m l =
      let m1 = record (emit door_message m) {
        handler = await_restart_retract;
        park = record (m.park) { restart = true };
        parking_state = parking_retracting;
      } in
      ground (arith, restart_complete-IsAwake m1 l)

  leave_park-same : (m : Core F) → SameWait (leave_park ops w m) m
  unfolding leave_park
  leave_park-same m = ground arith

  pub resumed_complete-IsCoherent :
      (m : Core F) → IsCoherent m → IsCoherent (resumed_complete ops w m)
  unfolding resumed_complete
  resumed_complete-IsCoherent m v =
      let m1 = leave_park ops w m in
      state_set-IsCoherent ops w cycle (state_set ops w idle m1)
        (state_set-IsCoherent ops w idle m1 (same-IsCoherent ops w m1 m (leave_park-same m) v))

  -- What leaves handler and state alone leaves the machine awake.
  same-IsAwake : (m' m : Core F) → SameWait m' m → IsAwake m → IsAwake m'
  same-IsAwake m' m e a = record {
    coherent = same-IsCoherent ops w m' m e a.coherent;
    unlocked = ap is_locked e.1 ∙ a.unlocked;
  }

module _ {F : Type 0} (ops : Coords F) (w : World F) (c : IsCalm w) where
  pub coolant_back-IsCoherent : (m : Core F) → IsCoherent m → IsCoherent (coolant_back ops w m)
  unfolding coolant_back
  coolant_back-IsCoherent m v = c.coherent (emit (coolant_restore m.condition.coolant) m) v

  pub spindle_back-IsCoherent :
      (s : Spindle F) (m : Core F) → IsCoherent m → IsCoherent (state_spindle_restore ops w s m)
  unfolding state_spindle_restore
  spindle_back-IsCoherent s m v =
      let m1 = emit (spindle_restore s) (emit (spindle_programmed s) m) in
      ground (arith, v, c.coherent m1 v)

  delay-IsAwake : (m : Core F) → IsAwake m → IsAwake (w.delay m)
  delay-IsAwake m a = record {
    coherent = c.coherent m a.coherent;
    unlocked = c.unlocked m a.unlocked;
  }

  coolant_back-IsAwake : (m : Core F) → IsAwake m → IsAwake (coolant_back ops w m)
  unfolding coolant_back
  coolant_back-IsAwake m a =
      let m0 = emit (coolant_restore m.condition.coolant) m in
      let r = delay-IsAwake m0 (record { coherent = a.coherent; unlocked = a.unlocked }) in
      record { coherent = r.coherent; unlocked = r.unlocked }

  restore_coolant-IsAwake : (m : Core F) → IsAwake m → IsAwake (restore_coolant ops w m)
  unfolding restore_coolant
  restore_coolant-IsAwake m a =
      if-IsAwake (w.modal_coolant == w.coolant_state) m (coolant_back ops w m) a
        (coolant_back-IsAwake m a)

  restore_spindle-IsAwake :
      (s : Spindle F) (m : Core F) → IsAwake m → IsAwake (state_spindle_restore ops w s m)
  unfolding state_spindle_restore
  restore_spindle-IsAwake s m a =
      let m1 = emit (spindle_restore s) (emit (spindle_programmed s) m) in
      record {
        coherent = spindle_back-IsCoherent s m a.coherent;
        unlocked = ground (arith, a.unlocked, c.unlocked m1 a.unlocked);
      }

  restore_spindles-IsAwake : (n : ℕ) (m : Core F) → IsAwake m → IsAwake (restore_spindles ops w n m)
  unfolding restore_spindles
  restore_spindles-IsAwake zero m a = a
  restore_spindles-IsAwake (suc n) m a =
      let s = spindle_at (blank ops w) n m.condition.spindles in
      restore_spindles-IsAwake n (state_spindle_restore ops w s m) (restore_spindle-IsAwake s m a)

  restore_outputs-IsAwake : (m : Core F) → IsAwake m → IsAwake (restore_outputs ops w m)
  unfolding restore_outputs
  restore_outputs-IsAwake m a =
      let m0 = record m { park = record (m.park) { restoring = true } } in
      let n = length w.spindles in
      restore_coolant-IsAwake (restore_spindles ops w n m0)
        (restore_spindles-IsAwake n m0 (record { coherent = a.coherent; unlocked = a.unlocked }))

  restore_conditions-IsAwake : (m : Core F) → IsAwake m → IsAwake (state_restore_conditions ops w m)
  unfolding state_restore_conditions
  restore_conditions-IsAwake m a =
      either (not w.parking_enabled || not m.park.restart) (restore_outputs ops w m)
        (restore_outputs-IsAwake m a)
    where
      either :
          (b : Bool) (m1 : Core F)
          → IsAwake m1
          → IsAwake (
              if b
              then record m1 {
                park = record (m1.park) { restoring = false };
                spindle_stop = no_stop;
              }
              else m)
      either true m1 r = record { coherent = r.coherent; unlocked = r.unlocked }
      either false m1 r = a

  plunge-same : (m : Core F) → SameWait (plunge ops w m).1 m
  unfolding plunge mc_parking_motion
  plunge-same m = ground arith

  after_plunge-IsCoherent :
      (moving : Bool) (m : Core F) → IsCoherent m → IsCoherent (after_plunge ops w moving m)
  unfolding after_plunge
  after_plunge-IsCoherent true m v = v
  after_plunge-IsCoherent false m v = resumed_complete-IsCoherent ops w m v

  after_restore-IsCoherent : (m : Core F) → IsAwake m → IsCoherent (after_restore ops w m)
  unfolding after_restore
  after_restore-IsCoherent m a =
      let (moving, m1) = plunge ops w m in
      if-IsCoherent m.park.restart (restart_retract ops w m) (after_plunge ops w moving m1)
        (restart_retract-IsAwake ops w m a.unlocked).coherent
        (after_plunge-IsCoherent moving m1 (same-IsCoherent ops w m1 m (plunge-same m) a.coherent))

  begin_restore-IsAwake :
      (m : Core F) → is_locked m.sys_state ≡ false → IsAwake (begin_restore ops w m)
  unfolding begin_restore
  begin_restore-IsAwake m l = ground (arith, end_sys_motion-same w m)

  pub restore_complete-IsCoherent :
      (m : Core F) → is_locked m.sys_state ≡ false → IsCoherent (restore_complete ops w m)
  unfolding restore_complete
  restore_complete-IsCoherent m l =
      after_restore-IsCoherent (state_restore_conditions ops w (begin_restore ops w m))
        (restore_conditions-IsAwake (begin_restore ops w m) (begin_restore-IsAwake m l))
