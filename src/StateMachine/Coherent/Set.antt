-- ===== src/StateMachine/Coherent/Set.antt =====
-- `state_set` keeps handler and state together, whatever the new state.
use cnc_3d.Common.{
  Bool, true, false, ℕ, ◌≡◌, refl, ap₂, ◌∙◌, inl, inr, Bool-cases, arith, if◌then◌else◌, Option,
  none, some,
}
use cnc_3d.System.{SysState, idle, cycle, hold, jog, safety_door, sleep, same_state}
use cnc_3d.StateMachine.Types.{
  Handler, await_hold, hold_pending, parking_retracting, door_message, Core, Coords, World,
}
use cnc_3d.StateMachine.Simple.{emit, set_idle, set_locked, set_jog, set_tool_change}
use cnc_3d.StateMachine.Hold.{
  stop_laser, slow_down, prepare_parking, restore_conditions, restore_spindle, initiate_hold,
  set_hold, is_cycle_or_jog,
}
use cnc_3d.StateMachine.Parking.{enter_sleep}
use cnc_3d.StateMachine.Events.{
  sleep_unless_parking, enter_parked, set_parked, set_door, set_branch, state_set,
}
use cnc_3d.StateMachine.Coherent.{IsCoherent, change-IsCoherent, set_cycle-IsCoherent}
use cnc_3d.StateMachine.Coherent.Park.{SameWait, hold_complete_step-IsCoherent}

-- The two states that park the tool.
abbrev pub is_parking : SysState → Bool
is_parking safety_door = true
is_parking sleep = true
is_parking _ = false

module _ {F : Type 0} (ops : Coords F) (w : World F) where
  stop_laser-same : (h : Option ℕ) (m : Core F) → SameWait (stop_laser ops w h m) m
  unfolding stop_laser
  stop_laser-same none m = ground arith
  stop_laser-same (some h) m = ground arith

  slow_down_lem :
      (m : Core F)
      → ((slow_down ops w m).sys_state ≡ m.sys_state)
        × ((slow_down ops w m).handler
            ≡ (if is_cycle_or_jog m.sys_state then await_hold else m.handler))
  unfolding slow_down
  slow_down_lem m = ground arith

  -- The state with the stop under way, before the marks of the new state are set.
  abbrev slowed : Core F → Core F
  slowed m =
      let m1 = prepare_parking ops w m in
      let m2 = record m1 { condition = restore_conditions ops w m1.condition } in
      slow_down ops w (stop_laser ops w (restore_spindle ops w m2).hal m2)

  prepare_parking-same : (m : Core F) → SameWait (prepare_parking ops w m) m
  prepare_parking-same m = ground arith

  slowed_lem :
      (m : Core F)
      → ((slowed m).sys_state ≡ m.sys_state)
        × ((slowed m).handler ≡ (if is_cycle_or_jog m.sys_state then await_hold else m.handler))
  slowed_lem m =
      let m1 = prepare_parking ops w m in
      let m2 = record m1 { condition = restore_conditions ops w m1.condition } in
      let h = (restore_spindle ops w m2).hal in
      let a = stop_laser-same h m2 in
      let b = slow_down_lem (stop_laser ops w h m2) in
      let c = prepare_parking-same m in
      (
        b.0 ∙ a.1 ∙ c.1,
        b.1
            ∙ ap₂ (λ (s : SysState) (k : Handler). if is_cycle_or_jog s then await_hold else k)
                (a.1 ∙ c.1) (a.0 ∙ c.0),
      )

  marked_lem :
      (new : SysState) (m m3 : Core F)
      → (m3.sys_state ≡ m.sys_state)
        × (m3.handler ≡ (if is_cycle_or_jog m.sys_state then await_hold else m.handler))
      → let m4 =
          if same_state new hold then record m3 { holding_state = hold_pending } else record m3 {
            parking_state = parking_retracting;
            park = record (m3.park) {
              active = false;
              motion = false;
              restart = false;
              restoring = false;
            };
          } in
        (same_state m.sys_state cycle ≡ same_state m.sys_state cycle)
        × (m4.sys_state ≡ m.sys_state)
        × (m4.handler ≡ (if is_cycle_or_jog m.sys_state then await_hold else m.handler))
        × ((if same_state m.sys_state jog then new else idle)
            ≡ (if same_state m.sys_state jog then new else idle))
  marked_lem new m m3 h = elim (Bool-cases (same_state new hold)) [
    | inl e ↦ rw e (refl, h.0, h.1, refl)
    | inr e ↦ rw e (refl, h.0, h.1, refl)
  ]

  -- A hold leaves the state, and makes a moving machine wait for its end.
  pub initiate_hold_lem :
      (new : SysState) (m : Core F)
      → let (moving, m') = initiate_hold ops w new m in
        (moving ≡ same_state m.sys_state cycle)
        × (m'.sys_state ≡ m.sys_state)
        × (m'.handler ≡ (if is_cycle_or_jog m.sys_state then await_hold else m.handler))
        × (m'.pending_state ≡ (if same_state m.sys_state jog then new else idle))
  unfolding initiate_hold
  initiate_hold_lem new m = marked_lem new m (slowed m) (slowed_lem m)

  set_hold-IsCoherent : (m : Core F) → IsCoherent m → IsCoherent (set_hold ops w m).1
  unfolding set_hold
  set_hold-IsCoherent m v = ground (arith, initiate_hold_lem hold m)

  enter_parked-IsCoherent :
      (new : SysState) (moving : Bool) (m : Core F)
      → is_parking new ≡ true
      → (moving ≡ true → m.handler ≡ await_hold)
      → (same_state m.pending_state new ≡ true → IsCoherent m)
      → IsCoherent (enter_parked ops w new moving m)
  unfolding enter_parked
  enter_parked-IsCoherent new moving m p a b =
      ground (arith, hold_complete_step-IsCoherent ops w (record m { sys_state = new }))

  sleep_unless_parking-IsCoherent :
      (m : Core F) → IsCoherent m → IsCoherent (sleep_unless_parking ops w m)
  unfolding sleep_unless_parking enter_sleep
  sleep_unless_parking-IsCoherent m v = ground arith

  again :
      (s : SysState) (h k : Handler)
      → h ≡ (if is_cycle_or_jog s then await_hold else k)
      → h ≡ (if is_cycle_or_jog s then await_hold else h)
  again s h k e = ground arith

  -- After `initiate_hold`, by what is known of it.
  held :
      (new s : SysState) (moving : Bool) (m : Core F)
      → is_parking new ≡ true
      → moving ≡ same_state s cycle
      → m.sys_state ≡ s
      → m.handler ≡ (if is_cycle_or_jog s then await_hold else m.handler)
      → m.pending_state ≡ (if same_state s jog then new else idle)
      → IsCoherent (sleep_unless_parking ops w (enter_parked ops w new moving m))
  held new s moving m p a b c d =
      sleep_unless_parking-IsCoherent _
        (enter_parked-IsCoherent new moving m p (ground arith) (ground arith))

  set_parked-IsCoherent :
      (new : SysState) (m : Core F) → is_parking new ≡ true → IsCoherent (set_parked ops w new m)
  unfolding set_parked
  set_parked-IsCoherent new m p =
      let m0 = record m { parking_state = parking_retracting } in
      let (moving, m1) = initiate_hold ops w new m0 in
      let (a, b, c, d) = initiate_hold_lem new m0 in
      held new m.sys_state moving m1 p a b (again m.sys_state m1.handler m.handler c) d

  set_branch-IsCoherent :
      (new : SysState) (m : Core F) → IsCoherent m → IsCoherent (set_branch ops w new m).1
  unfolding set_branch set_idle set_locked set_jog set_tool_change set_door
  set_branch-IsCoherent new m v = ground (
    arith,
    set_cycle-IsCoherent w m v,
    set_hold-IsCoherent m v,
    set_parked-IsCoherent sleep m,
    set_parked-IsCoherent safety_door (emit door_message m),
  )

  pub state_set-IsCoherent :
      (new : SysState) (m : Core F) → IsCoherent m → IsCoherent (state_set ops w new m)
  unfolding state_set
  state_set-IsCoherent new m v =
      change-IsCoherent new (set_branch ops w new) m v (set_branch-IsCoherent new m v)
