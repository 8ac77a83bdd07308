-- ===== src/StateMachine/Hold.antt =====
-- state_machine.c: `initiate_hold`, and the case of `state_set` for a feed hold.
use Prim.Native.Nat.{bit_or}
use cnc_3d.Common.{
  Bool, true, false, not, ◌&&◌, ◌||◌, Option, none, some, List, [], ◌∷◌, ℕ, ◌+◌, ◌==◌,
  if◌then◌else◌, get_or,
}
use cnc_3d.System.{SysState, idle, cycle, hold, jog, same_state}
use cnc_3d.StateMachine.Types.{
  await_hold, await_resume, parking_retracting, hold_complete, hold_pending, enqueue_spindle_stop,
  null_access, update_block_parameters, Core, Coords, Block, World, Spindle, Restore,
}
use cnc_3d.StateMachine.Simple.{emit}

abbrev pub same_hal : Option ℕ → Option ℕ → Bool
same_hal none none = true
same_hal (some a) (some b) = a == b
same_hal _ _ = false

abbrev pub is_null : Option ℕ → Bool
is_null none = true
is_null (some h) = false

abbrev pub is_cycle_or_jog : SysState → Bool
is_cycle_or_jog cycle = true
is_cycle_or_jog jog = true
is_cycle_or_jog _ = false

module _ {F : Type 0} where
  -- What one spindle number puts in `restore_condition`: the spindle to restore, if any.
  abbrev pub chosen : Option (Block F) → Option (Spindle F) → Option (Spindle F)
  chosen block none = none
  chosen none (some s) = if is_null s.hal then none else some s
  chosen (some b) (some s) =
      if same_hal b.spindle.hal s.hal
      then some b.spindle
      else (if is_null s.hal then none else some s)

  -- A number without a spindle only has its driver cleared.
  abbrev pub restored : Option (Spindle F) → Spindle F → Spindle F
  restored none old = record old { hal = none }
  restored (some s) old = s

  -- The entries after the loop, which goes from the last number down; missing entries are blank.
  unfoldable pub fill :
      Spindle F → Option (Block F) → List (Option (Spindle F)) → List (Spindle F) → List (Spindle F)
  fill blank block [] old = []
  fill blank block (o ∷ os) [] = restored (chosen block o) blank ∷ fill blank block os []
  fill blank block (o ∷ os) (s ∷ old) = restored (chosen block o) s ∷ fill blank block os old

  -- The lowest number that was chosen is the last to be written, 0 if there is none.
  unfoldable pub lowest_chosen : Option (Block F) → List (Option (Spindle F)) → ℕ → ℕ
  lowest_chosen block [] n = 0
  lowest_chosen block (o ∷ os) n =
      let rest = lowest_chosen block os (n + 1) in
      elim (chosen block o) [ none ↦ rest | some s ↦ n ]

  -- `restore_condition.spindle[i]`
  abbrev pub spindle_at : Spindle F → ℕ → List (Spindle F) → Spindle F
  spindle_at blank i spindles = get_or spindles i blank

  abbrev pub coolant_of : Option (Block F) → ℕ → ℕ
  coolant_of none current = current
  coolant_of (some b) current = b.coolant

module _ {F : Type 0} (ops : Coords F) (w : World F) where
  abbrev pub blank : Spindle F
  blank = record { hal = none; rpm = ops.zero; state = 0 }

  unfoldable pub restore_conditions : Restore F → Restore F
  restore_conditions old = record {
    coolant = coolant_of w.block (bit_or w.modal_coolant w.coolant_state);
    spindle_num = lowest_chosen w.block w.spindles 0;
    spindles = fill blank w.block w.spindles old.spindles;
  }

  -- `restore_condition.spindle[restore_condition.spindle_num]`
  abbrev pub restore_spindle : Core F → Spindle F
  restore_spindle m = spindle_at blank m.condition.spindle_num m.condition.spindles

  -- A laser that has to be off during a hold; the driver is read without a test for NULL.
  unfoldable pub stop_laser : Option ℕ → Core F → Core F
  stop_laser none m = emit null_access m
  stop_laser (some h) m =
      if w.is_laser h && w.disable_laser_during_hold then emit enqueue_spindle_stop m else m

  abbrev pub prepare_parking : Core F → Core F
  prepare_parking m =
      if w.parking_enabled
      then record m {
        park = record (m.park) {
          plan = record (w.new_plan) { system_motion = true; no_feed_override = true };
        };
      }
      else m

  -- The deceleration of a moving machine.
  unfoldable pub slow_down : Core F → Core F
  slow_down m =
      if is_cycle_or_jog m.sys_state
      then emit (update_block_parameters false)
          (record m { step = record (m.step) { execute_hold = true }; handler = await_hold })
      else m

  unfoldable pub initiate_hold : SysState → Core F → Bool × Core F
  initiate_hold new m =
      let m1 = prepare_parking m in
      let m2 = record m1 { condition = restore_conditions m1.condition } in
      let m3 = slow_down (stop_laser (restore_spindle m2).hal m2) in
      let m4 =
        if same_state new hold then record m3 { holding_state = hold_pending } else record m3 {
          parking_state = parking_retracting;
          park = record (m3.park) {
            active = false;
            motion = false;
            restart = false;
            restoring = false;
          };
        } in
      (
        same_state m.sys_state cycle,
        record m4 {
          suspend = not m.soft_limit;
          pending_state = if same_state m.sys_state jog then new else idle;
        },
      )

  unfoldable pub set_hold : Core F → Bool × Core F
  set_hold m =
      let (moving, m1) = initiate_hold hold m in
      let m2 =
        if moving
        then m1
        else record m1 { holding_state = hold_complete; handler = await_resume } in
      if not (same_state m.sys_state jog || m.feed_hold_disable)
        || (same_state m.pending_state hold && m.feed_hold_pending)
      then (false, record m2 { sys_state = hold; feed_hold_pending = false })
      else (
        false,
        if m.sync && m.feed_hold_disable then record m { feed_hold_pending = true } else m,
      )
