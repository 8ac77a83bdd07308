-- ===== src/Protocol/Emptied.antt =====
-- One round of the executor empties the rings that it may read.
use cnc_3d.Common.{ℕ, ◌<◌, ◌≡◌, refl, ap, ◌∙◌, arith, Bool, true, false, [], if◌then◌else◌}
use cnc_3d.Override.Queue.{Kind, feed, spindle, coolant, Queues}
use cnc_3d.Override.Valid.{AllValid}
use cnc_3d.Override.Refine.{view}
use cnc_3d.Protocol.Overrides.{
  Env, Machine, SpindleOverride, CoolantOverride, feed_step, spindle_step, coolant_step,
  exec_feed_overrides, exec_spindle_overrides, exec_coolant_overrides, exec_overrides,
}
use cnc_3d.Protocol.Drain.{NoZero, with_queue, drain_all_lem}
use cnc_3d.Protocol.Routing.{NoZeros}

-- A queue after its turn: emptied unless the kind is delayed.
abbrev pub after_turn : Kind → Bool → Queues → Queues
after_turn k delayed v = if delayed then v else with_queue k [] v

module _ (fuel : ℕ) (v : Env) (m : Machine) (ok : AllValid m.buffers) (enough : 15 < fuel) where
  exec_feed_overrides-buffers :
      NoZero (view m.buffers).of_feed
      → let b = (exec_feed_overrides fuel v m).buffers in
        (view b ≡ after_turn feed v.feed_delay (view m.buffers)) × AllValid b
  unfolding exec_feed_overrides
  exec_feed_overrides-buffers z =
      ground (arith, drain_all_lem feed feed_step fuel m.rates m.buffers ok z enough)

  exec_spindle_overrides-buffers :
      NoZero (view m.buffers).of_spindle
      → let b = (exec_spindle_overrides fuel v m).buffers in
        (view b ≡ after_turn spindle v.spindle_delay (view m.buffers)) × AllValid b
  unfolding exec_spindle_overrides
  exec_spindle_overrides-buffers z =
      let start : SpindleOverride = record {
        last_s_override = m.override_pct;
        stop = false;
        unknown = m.log;
      } in
      ground (arith, drain_all_lem spindle spindle_step fuel start m.buffers ok z enough)

  exec_coolant_overrides-buffers :
      NoZero (view m.buffers).of_coolant
      → let b = (exec_coolant_overrides fuel v m).buffers in
        (view b ≡ after_turn coolant v.coolant_delay (view m.buffers)) × AllValid b
  unfolding exec_coolant_overrides
  exec_coolant_overrides-buffers z =
      let start : CoolantOverride = record { coolant = m.coolant; unknown = m.log } in
      ground (arith, drain_all_lem coolant (coolant_step v) fuel start m.buffers ok z enough)

spindle_kept : (d : Bool) (q : Queues) → (after_turn feed d q).of_spindle ≡ q.of_spindle
spindle_kept true q = refl
spindle_kept false q = refl

coolant_kept :
    (d e : Bool) (q : Queues)
    → (after_turn spindle e (after_turn feed d q)).of_coolant ≡ q.of_coolant
coolant_kept d e q = ground arith

all_turns :
    (d e f : Bool) (q : Queues)
    → after_turn coolant f (after_turn spindle e (after_turn feed d q)) ≡ record {
      of_feed = if d then q.of_feed else [];
      of_spindle = if e then q.of_spindle else [];
      of_coolant = if f then q.of_coolant else [];
    }
all_turns d e f q = ground arith

-- From valid rings without a byte 0, one round of the executor with fuel for 15 commands of each
-- kind ends, leaves the rings of the delayed kinds as they were and every other ring empty, and
-- keeps the rings valid.
pub exec_overrides_lem :
    (fuel : ℕ) (v : Env) (m : Machine)
    → AllValid m.buffers
    → NoZeros (view m.buffers)
    → 15 < fuel
    → let b = (exec_overrides fuel v m).buffers in
      (view b ≡ record {
        of_feed = if v.feed_delay then (view m.buffers).of_feed else [];
        of_spindle = if v.spindle_delay then (view m.buffers).of_spindle else [];
        of_coolant = if v.coolant_delay then (view m.buffers).of_coolant else [];
      })
      × AllValid b
unfolding exec_overrides
exec_overrides_lem fuel v m ok z f =
    let m1 = exec_feed_overrides fuel v m in
    let m2 = exec_spindle_overrides fuel v m1 in
    let r1 = exec_feed_overrides-buffers fuel v m ok f z.of_feed in
    let e1 = ap (λ (q : Queues). q.of_spindle) r1.0 ∙ spindle_kept v.feed_delay (view m.buffers) in
    let r2 = exec_spindle_overrides-buffers fuel v m1 r1.1 f (rw e1 z.of_spindle) in
    let q2 = r2.0 ∙ ap (after_turn spindle v.spindle_delay) r1.0 in
    let e2 =
      ap (λ (q : Queues). q.of_coolant) q2
      ∙ coolant_kept v.feed_delay v.spindle_delay (view m.buffers) in
    let r3 = exec_coolant_overrides-buffers fuel v m2 r2.1 f (rw e2 z.of_coolant) in
    (
      r3.0
          ∙ ap (after_turn coolant v.coolant_delay) q2
          ∙ all_turns v.feed_delay v.spindle_delay v.coolant_delay (view m.buffers),
      r3.1,
    )
