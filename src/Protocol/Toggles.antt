-- ===== src/Protocol/Toggles.antt =====
-- What the spindle and coolant overrides come to: a bounded speed, and toggles that count by parity.
use cnc_3d.Common.{
  ℕ, ◌<◌, ◌≡◌, refl, sym, ap, ap₂, ◌∙◌, arith, Bool, true, false, not, ◌&&◌, ◌||◌, List, [], ◌∷◌,
  ◌==◌, if◌then◌else◌,
}
use cnc_3d.Override.Valid.{AllValid}
use cnc_3d.Override.Refine.{view}
use cnc_3d.Override.Queue.{spindle, coolant}
use cnc_3d.System.{
  spindle_reset, spindle_coarse_plus, spindle_coarse_minus, spindle_fine_plus, spindle_fine_minus,
  spindle_stop, coolant_flood_toggle, coolant_mist_toggle, is_idle_cycle_or_hold,
}
use cnc_3d.Protocol.Line.{is_empty}
use cnc_3d.Protocol.Overrides.{
  Env, Machine, Coolant, SpindleOverride, CoolantOverride, Event, unknown_override, coolant_changed,
  set_spindle_override, gc_coolant, spindle_command, spindle_step, coolant_step,
  exec_spindle_overrides, exec_coolant_overrides, request_stop, same_coolant,
}
use cnc_3d.Protocol.Drain.{with_queue, NoZero, run_all, drain_all_lem}
use cnc_3d.Protocol.Limits.{up, down, InRange}

abbrev pub spindle_meaning : ℕ → ℕ → ℕ
spindle_meaning c v =
    if c == spindle_reset
    then 100
    else (if c == spindle_coarse_plus
        then up 10 v
        else (if c == spindle_coarse_minus
            then down 10 v
            else (if c == spindle_fine_plus
                then up 1 v
                else (if c == spindle_fine_minus then down 1 v else v))))

-- Whether a list holds a command an odd number of times.
abbrev pub odd_count : ℕ → List ℕ → Bool
odd_count c [] = false
odd_count c (d ∷ l) = if d == c then not (odd_count c l) else odd_count c l

abbrev pub flip_if : Bool → Bool → Bool
flip_if true b = not b
flip_if false b = b

abbrev pub spindle_known : ℕ → Bool
spindle_known c =
    c == spindle_reset
    || c == spindle_coarse_plus
    || c == spindle_coarse_minus
    || c == spindle_fine_plus
    || c == spindle_fine_minus
    || c == spindle_stop

abbrev pub coolant_known : ℕ → Bool
coolant_known c = c == coolant_mist_toggle || c == coolant_flood_toggle

abbrev pub note_unknown : (ℕ → Bool) → ℕ → List Event → List Event
note_unknown known c log = if known c then log else unknown_override c ∷ log

spindle_step_lem :
    (c : ℕ) (s : SpindleOverride)
    → InRange 10 200 s.last_s_override
    → spindle_step c s ≡ record {
      last_s_override = spindle_meaning c s.last_s_override;
      stop = flip_if (c == spindle_stop) s.stop;
      unknown = note_unknown spindle_known c s.unknown;
    }
unfolding spindle_step spindle_command
spindle_step_lem c s h = ground arith

spindle_meaning-InRange : (c v : ℕ) → InRange 10 200 v → InRange 10 200 (spindle_meaning c v)
spindle_meaning-InRange c v h = ground arith

run_all-spindle :
    (l : List ℕ) (s : SpindleOverride)
    → InRange 10 200 s.last_s_override
    → (run_all spindle_step l s ≡ record {
      last_s_override = run_all spindle_meaning l s.last_s_override;
      stop = flip_if (odd_count spindle_stop l) s.stop;
      unknown = run_all (note_unknown spindle_known) l s.unknown;
    })
      × InRange 10 200 (run_all spindle_meaning l s.last_s_override)
run_all-spindle [] s h = (refl, h)
run_all-spindle (c ∷ l) s h = ground (
  arith,
  spindle_step_lem c s h,
  run_all-spindle l (spindle_step c s),
  spindle_meaning-InRange c s.last_s_override h,
)

-- Which coolant a mode allows to be switched by an override.
abbrev pub may_switch : Env → Bool → Bool
may_switch v has = has && is_idle_cycle_or_hold v.state

-- The coolant after the commands of a list, each toggle counted.
abbrev pub toggled : Env → List ℕ → Coolant → Coolant
toggled v l s = record {
  flood = flip_if (may_switch v v.has_flood && odd_count coolant_flood_toggle l) s.flood;
  mist = flip_if (may_switch v v.has_mist && odd_count coolant_mist_toggle l) s.mist;
}

-- The coolant after one command.
abbrev toggled_once : Env → ℕ → Coolant → Coolant
toggled_once v c s = record {
  flood = flip_if (may_switch v v.has_flood && c == coolant_flood_toggle) s.flood;
  mist = flip_if (may_switch v v.has_mist && c == coolant_mist_toggle) s.mist;
}

flip_again :
    (a q o b : Bool)
    → flip_if (a && o) (flip_if (a && q) b) ≡ flip_if (a && (if q then not o else o)) b
flip_again true true true true = refl
flip_again true true true false = refl
flip_again true true false b = refl
flip_again true false o b = refl
flip_again false q o b = refl

toggled_cons :
    (v : Env) (c : ℕ) (l : List ℕ) (s : Coolant)
    → toggled v l (toggled_once v c s) ≡ toggled v (c ∷ l) s
toggled_cons v c l s =
    ap₂ (λ f m. record { flood = f; mist = m })
      (flip_again (may_switch v v.has_flood) (c == coolant_flood_toggle)
        (odd_count coolant_flood_toggle l) s.flood)
      (flip_again (may_switch v v.has_mist) (c == coolant_mist_toggle)
        (odd_count coolant_mist_toggle l) s.mist)

coolant_step_lem :
    (v : Env) (c : ℕ) (s : CoolantOverride)
    → coolant_step v c s ≡ record {
      coolant = toggled_once v c s.coolant;
      unknown = note_unknown coolant_known c s.unknown;
    }
unfolding coolant_step
coolant_step_lem v c s = ground arith

-- What the loop leaves after the commands of a list.
abbrev after_coolant : Env → List ℕ → CoolantOverride → CoolantOverride
after_coolant v l s = record {
  coolant = toggled v l s.coolant;
  unknown = run_all (note_unknown coolant_known) l s.unknown;
}

after_coolant-nil : (v : Env) (s : CoolantOverride) → after_coolant v [] s ≡ s
after_coolant-nil v s = ground arith

run_all-coolant :
    (v : Env) (l : List ℕ) (s : CoolantOverride)
    → run_all (coolant_step v) l s ≡ after_coolant v l s
run_all-coolant v [] s = sym (after_coolant-nil v s)
run_all-coolant v (c ∷ l) s =
    ap (run_all (coolant_step v) l) (coolant_step_lem v c s)
    ∙ run_all-coolant v l _
    ∙ ap
        (λ k. record {
          coolant = k;
          unknown = run_all (note_unknown coolant_known) (c ∷ l) s.unknown;
        })
        (toggled_cons v c l s.coolant)

-- From an override in bounds and valid rings without a byte 0, if spindle overrides wait and are
-- not delayed, the spindle's override is set once, to what the commands come to in the order of
-- arrival, between 10 and 200 percent and without wrapping round; commands that are not known are
-- passed on. The stop is requested just if its command waits an odd number of times. The ring is
-- left empty and the other rings as they were. Fuel for 15 commands is enough.
pub exec_spindle_overrides_lem :
    (fuel : ℕ) (v : Env) (m : Machine)
    → AllValid m.buffers
    → NoZero (view m.buffers).of_spindle
    → InRange 10 200 m.override_pct
    → 15 < fuel
    → v.spindle_delay ≡ false
    → is_empty (view m.buffers).of_spindle ≡ false
    → let commands = (view m.buffers).of_spindle in
      let m' = exec_spindle_overrides fuel v m in
      let pct = run_all spindle_meaning commands m.override_pct in
      (m'.log ≡ set_spindle_override pct ∷ run_all (note_unknown spindle_known) commands m.log)
      × InRange 10 200 pct
      × (m'.stop ≡ request_stop v (odd_count spindle_stop commands) m.stop)
      × (view m'.buffers ≡ with_queue spindle [] (view m.buffers))
      × AllValid m'.buffers
unfolding exec_spindle_overrides
exec_spindle_overrides_lem fuel v m ok z h f d e =
    let start : SpindleOverride = record {
      last_s_override = m.override_pct;
      stop = false;
      unknown = m.log;
    } in
    ground (
      arith,
      drain_all_lem spindle spindle_step fuel start m.buffers ok z f,
      run_all-spindle (view m.buffers).of_spindle start h,
    )

-- From valid rings without a byte 0, if coolant overrides wait and are not delayed, flood and mist
-- each change just if they are available, the machine is idle, in a cycle or in a hold, and their
-- command waits an odd number of times; if that changes anything, the coolant is set once, and
-- otherwise not at all. Commands that are not known are passed on. The ring is left empty and the
-- other rings as they were. Fuel for 15 commands is enough.
pub exec_coolant_overrides_lem :
    (fuel : ℕ) (v : Env) (m : Machine)
    → AllValid m.buffers
    → NoZero (view m.buffers).of_coolant
    → 15 < fuel
    → v.coolant_delay ≡ false
    → is_empty (view m.buffers).of_coolant ≡ false
    → let commands = (view m.buffers).of_coolant in
      let m' = exec_coolant_overrides fuel v m in
      let new = toggled v commands m.coolant in
      let noted = run_all (note_unknown coolant_known) commands m.log in
      (m'.log ≡ (
        if same_coolant new m.coolant
        then noted
        else coolant_changed ∷ (gc_coolant new.flood new.mist ∷ noted)))
      × (view m'.buffers ≡ with_queue coolant [] (view m.buffers))
      × AllValid m'.buffers
unfolding exec_coolant_overrides
exec_coolant_overrides_lem fuel v m ok z f d e =
    let start : CoolantOverride = record { coolant = m.coolant; unknown = m.log } in
    ground (
      arith,
      drain_all_lem coolant (coolant_step v) fuel start m.buffers ok z f,
      run_all-coolant v (view m.buffers).of_coolant start,
    )
