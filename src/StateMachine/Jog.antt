-- ===== src/StateMachine/Jog.antt =====
-- The safety door that opens while the machine jogs: what is called, and how the motion is held.
use cnc_3d.Common.{
  Bool, true, false, ◌&&◌, ◌≡◌, refl, ap, ap₂, ◌∙◌, arith, if◌then◌else◌, ℕ, Option, none, some,
  List, [], ◌∷◌, ◌++◌,
}
use cnc_3d.System.{SysState, idle, cycle, jog, safety_door, same_state}
use cnc_3d.StateMachine.Types.{
  await_hold, parking_retracting, door_message, update_block_parameters, null_access,
  enqueue_spindle_stop, Effect, Restore, Core, Coords, World,
}
use cnc_3d.StateMachine.Simple.{emit, finish}
use cnc_3d.StateMachine.Hold.{
  initiate_hold, is_cycle_or_jog, restore_spindle, restore_conditions, stop_laser, slow_down,
  prepare_parking,
}
use cnc_3d.StateMachine.Events.{
  state_set, set_branch, set_door, set_parked, enter_parked, sleep_unless_parking,
}
use cnc_3d.StateMachine.Coherent.Set.{initiate_hold_lem}

module _ {F : Type 0} (ops : Coords F) (w : World F) where
  -- What is called to stop a laser that has to be off during a hold.
  abbrev pub laser_calls : Option ℕ → List (Effect F)
  laser_calls none = null_access ∷ []
  laser_calls (some h) =
      if w.is_laser h && w.disable_laser_during_hold then enqueue_spindle_stop ∷ [] else []

  -- The driver of the spindle that the hold will have to restore.
  abbrev pub held_driver : Core F → Option ℕ
  held_driver m =
      (restore_spindle ops w (record m { condition = restore_conditions ops w m.condition })).hal

  stop_laser_lem :
      (h : Option ℕ) (m : Core F)
      → let m' = stop_laser ops w h m in
        (m'.sys_state ≡ m.sys_state) × (m'.log ≡ laser_calls h ++ m.log)
  unfolding stop_laser
  stop_laser_lem none m = (refl, refl)
  stop_laser_lem (some h) m = ground arith

  slow_down_jog :
      (m : Core F)
      → m.sys_state ≡ jog
      → let m' = slow_down ops w m in
        (m'.step.execute_hold ≡ true) × (m'.log ≡ update_block_parameters false ∷ m.log)
  unfolding slow_down
  slow_down_jog m s = ground arith

  -- The calls of a hold that begins with the door's opening.
  hold_calls :
      (m : Core F)
      → m.sys_state ≡ jog
      → let m' = (initiate_hold ops w safety_door m).1 in
        (m'.step.execute_hold ≡ true)
        × (m'.log ≡ update_block_parameters false ∷ (laser_calls (held_driver m) ++ m.log))
  unfolding initiate_hold
  hold_calls m s =
      let m1 = prepare_parking ops w m in
      let e : (m1.condition ≡ m.condition) × (m1.sys_state ≡ m.sys_state) × (m1.log ≡ m.log) =
        ground arith in
      let m2 = record m1 { condition = restore_conditions ops w m1.condition } in
      let h = (restore_spindle ops w m2).hal in
      let (a, b) = stop_laser_lem h m2 in
      let (c, d) = slow_down_jog (stop_laser ops w h m2) (a ∙ e.1 ∙ s) in
      let k : h ≡ held_driver m =
        ap
          (λ (q : Restore F).
            (restore_spindle ops w (record m { condition = restore_conditions ops w q })).hal)
          e.0 in
      (
        c,
        d
            ∙ ap (λ (l : List (Effect F)). update_block_parameters false ∷ l)
                (b ∙ ap₂ (λ (q : Option ℕ) (l : List (Effect F)). laser_calls q ++ l) k e.2),
      )

  -- A jog that slows down after these calls.
  abbrev pub IsHeld : Core F → List (Effect F) → Type 0
  IsHeld m l =
      (m.sys_state ≡ jog)
      × (m.handler ≡ await_hold)
      × (m.step.execute_hold ≡ true)
      × (m.log ≡ update_block_parameters false ∷ l)

  -- What `enter_parked` and the test for sleep leave of a jog.
  jog_held :
      (new : SysState) (moving : Bool) (m : Core F)
      → moving ≡ false
      → m.pending_state ≡ new
      → m.sys_state ≡ jog
      → sleep_unless_parking ops w (enter_parked ops w new moving m) ≡ m
  unfolding sleep_unless_parking enter_parked
  jog_held new moving m a b c = ground arith

  finish_jog :
      (org : SysState) (m : Core F) (l : List (Effect F))
      → org ≡ jog
      → IsHeld m l
      → IsHeld (finish org m) l
  unfolding finish
  finish_jog org m l o h = ground (arith, o, h)

  parked_jog :
      (m : Core F)
      → m.sys_state ≡ jog
      → IsHeld (set_parked ops w safety_door m) (laser_calls (held_driver m) ++ m.log)
  unfolding set_parked
  parked_jog m s =
      let m0 = record m { parking_state = parking_retracting } in
      let (moving, m1) = initiate_hold ops w safety_door m0 in
      let (a, b, c, d) = initiate_hold_lem ops w safety_door m0 in
      let (x, y) = hold_calls m0 s in
      let e =
        jog_held safety_door moving m1 (a ∙ ap (λ q. same_state q cycle) s)
          (d ∙ ap (λ q. if same_state q jog then safety_door else idle) s) (b ∙ s) in
      (
        ap (λ (q : Core F). q.sys_state) e ∙ b ∙ s,
        ap (λ (q : Core F). q.handler) e
            ∙ c
            ∙ ap (λ q. if is_cycle_or_jog q then await_hold else m.handler) s,
        ap (λ (q : Core F). q.step.execute_hold) e ∙ x,
        ap (λ (q : Core F). q.log) e ∙ y,
      )

  set_door_jog :
      (m : Core F)
      → m.sys_state ≡ jog
      → let (returned, m') = set_door ops w m in
        (returned ≡ false) × IsHeld m' (laser_calls (held_driver m) ++ (door_message ∷ m.log))
  unfolding set_door
  set_door_jog m s = ground (arith, parked_jog (emit door_message m) s)

  pub door_while_jogging :
      (m : Core F)
      → m.sys_state ≡ jog
      → IsHeld
          (state_set ops w safety_door m)
          (laser_calls (held_driver m) ++ (door_message ∷ m.log))
  unfolding state_set set_branch
  door_while_jogging m s =
      let (r, h) = set_door_jog m s in
      let l = laser_calls (held_driver m) ++ (door_message ∷ m.log) in
      ground (arith, r, finish_jog m.sys_state (set_door ops w m).1 l s h)
