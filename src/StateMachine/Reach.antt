-- ===== src/StateMachine/Reach.antt =====
-- The states that the machine can reach, and what is done to it from within its waits.
use cnc_3d.Common.{false, ℕ, ◌≡◌, ap₂, ◌∙◌, arith}
use cnc_3d.System.{SysState, idle}
use cnc_3d.StateMachine.Types.{on_idle, spindle_message, RtExec, Core, Coords, World}
use cnc_3d.StateMachine.Simple.{system_raise_alarm, emit}
use cnc_3d.StateMachine.Hold.{restore_spindle}
use cnc_3d.StateMachine.Events.{state_set}
use cnc_3d.StateMachine.Update.{state_update, state_suspend_manager, stop_spindle, restart_spindle}
use cnc_3d.StateMachine.Coherent.{is_locked, fits_state, IsCoherent, raise_alarm-IsCoherent}
use cnc_3d.StateMachine.Coherent.Park.{SameWait}
use cnc_3d.StateMachine.Coherent.Set.{state_set-IsCoherent}
use cnc_3d.StateMachine.Coherent.Resumes.{IsCalm, spindle_back-IsCoherent}
use cnc_3d.StateMachine.Coherent.Reached.{state_update-IsCoherent}

module _ {F : Type 0} (ops : Coords F) where
  mutual
    -- One call from another module, in any world in whose waits no nested call locks the machine; or
    -- any change that other modules make to what they share with the state machine, which leaves its
    -- handler and state.
    pub data Step : Core F → Core F → Type 0 where
      update :
          {m m' : Core F} (w : World F) (rt : RtExec)
          → ((n : Core F) → Nested n (w.delay n))
          → m' ≡ state_update ops w rt m
          → Step m m'
      request :
          {m m' : Core F} (w : World F) (new : SysState) → m' ≡ state_set ops w new m → Step m m'
      raise :
          {m m' : Core F} (w : World F) (code : ℕ) → m' ≡ system_raise_alarm w code m → Step m m'
      suspended :
          {m m' : Core F} (w : World F)
          → ((n : Core F) → Nested n (w.delay n))
          → m' ≡ state_suspend_manager ops w m
          → Step m m'
      elsewhere : {m m' : Core F} → SameWait m' m → Step m m'

    -- The calls made from within a wait of `spindle_restore` or `coolant_restore`, each of which may
    -- wait itself: any number of steps, none of which locks a machine that was not locked.
    pub data Nested : Core F → Core F → Type 0 where
      over : {m : Core F} → Nested m m
      during :
          {m m' : Core F} (m1 : Core F)
          → Step m m1
          → (is_locked m.sys_state ≡ false → is_locked m1.sys_state ≡ false)
          → Nested m1 m'
          → Nested m m'

  -- From the start, in the idle state.
  pub data Reach : Core F → Type 0 where
    start : {m : Core F} → m.handler ≡ on_idle → m.sys_state ≡ idle → Reach m
    next : (m0 : Core F) {m : Core F} → Reach m0 → Step m0 m → Reach m

  stop_spindle-same : (w : World F) (m : Core F) → SameWait (stop_spindle ops w m) m
  unfolding stop_spindle
  stop_spindle-same w m = ground arith

  pub suspend_manager-IsCoherent :
      (w : World F)
      → IsCalm w
      → (m : Core F) → IsCoherent m
      → IsCoherent (state_suspend_manager ops w m)
  unfolding state_suspend_manager restart_spindle
  suspend_manager-IsCoherent w c m v =
      let s = restore_spindle ops w m in
      ground (
        arith,
        v,
        stop_spindle-same w m,
        spindle_back-IsCoherent ops w c s m v,
        spindle_back-IsCoherent ops w c s (emit spindle_message m) v,
      )

  mutual
    Step-IsCoherent : (m m' : Core F) → Step m m' → IsCoherent m → IsCoherent m'
    Step-IsCoherent m m' (update w rt q e) v =
        let c : IsCalm w = record {
          coherent = λ n. Nested-IsCoherent n (w.delay n) (q n);
          unlocked = λ n. Nested-unlocked n (w.delay n) (q n);
        } in
        rw e (state_update-IsCoherent ops w c rt m v)
    Step-IsCoherent m m' (request w new e) v = rw e (state_set-IsCoherent ops w new m v)
    Step-IsCoherent m m' (raise w code e) v = rw e (raise_alarm-IsCoherent w code m v)
    Step-IsCoherent m m' (suspended w q e) v =
        let c : IsCalm w = record {
          coherent = λ n. Nested-IsCoherent n (w.delay n) (q n);
          unlocked = λ n. Nested-unlocked n (w.delay n) (q n);
        } in
        rw e (suspend_manager-IsCoherent w c m v)
    Step-IsCoherent m m' (elsewhere e) v = ap₂ fits_state e.0 e.1 ∙ v

    Nested-IsCoherent : (m m' : Core F) → Nested m m' → IsCoherent m → IsCoherent m'
    Nested-IsCoherent m m' over v = v
    Nested-IsCoherent m m' (during m1 s l n) v =
        Nested-IsCoherent m1 m' n (Step-IsCoherent m m1 s v)

    Nested-unlocked :
        (m m' : Core F)
        → Nested m m'
        → is_locked m.sys_state ≡ false
        → is_locked m'.sys_state ≡ false
    Nested-unlocked m m' over l = l
    Nested-unlocked m m' (during m1 s k n) l = Nested-unlocked m1 m' n (k l)

  pub Nested-IsCalm : (w : World F) → ((n : Core F) → Nested n (w.delay n)) → IsCalm w
  Nested-IsCalm w q = record {
    coherent = λ n. Nested-IsCoherent n (w.delay n) (q n);
    unlocked = λ n. Nested-unlocked n (w.delay n) (q n);
  }

  -- Any calls one after the other.
  pub data Steps : Core F → Core F → Type 0 where
    done : {m : Core F} → Steps m m
    more : {m m' : Core F} (m1 : Core F) → Step m m1 → Steps m1 m' → Steps m m'

  pub Steps-IsCoherent : (m m' : Core F) → Steps m m' → IsCoherent m → IsCoherent m'
  Steps-IsCoherent m m' done v = v
  Steps-IsCoherent m m' (more m1 s n) v = Steps-IsCoherent m1 m' n (Step-IsCoherent m m1 s v)
