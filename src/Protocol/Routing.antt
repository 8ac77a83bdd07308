-- ===== src/Protocol/Routing.antt =====
-- How override commands get from the input to the rings.
use cnc_3d.Common.{
  Bool, ap, ℕ, ◌≡◌, ◌≢◌, refl, ◌∙◌, arith, List, [], ◌∷◌, ◌++◌, ◌==◌, leb, ◌&&◌, ◌||◌,
  if◌then◌else◌,
}
use cnc_3d.Override.{
  OverrideBuffers, enqueue_feed_override, enqueue_spindle_override, enqueue_coolant_override,
}
use cnc_3d.Override.Queue
use cnc_3d.Override.Queue.{feed, spindle, coolant, put, Queues}
use cnc_3d.Override.Valid.{AllValid, apply_op-AllValid}
use cnc_3d.Override.Refine.{view, apply_op_refines, apply_op-put}
use cnc_3d.Protocol.Commands.{
  Command, feed_override, spindle_override, coolant_override, is_feed_command, is_spindle_command,
  is_coolant_command, classify, classify_override,
}
use cnc_3d.Protocol.Realtime.{
  Setup, Picker, Outcome, act, act_legacy, act_signals, unknown_char,
  protocol_enqueue_realtime_command,
}
use cnc_3d.Protocol.Drain.{NoZero}

-- The rings after a case of the first `switch`.
abbrev routed : Command → ℕ → OverrideBuffers → OverrideBuffers
routed feed_override c b = enqueue_feed_override b c
routed spindle_override c b = enqueue_spindle_override b c
routed coolant_override c b = enqueue_coolant_override b c
routed _ c b = b

act-buffers :
    (u : Setup) (c : ℕ) (k : Command) (p : Picker)
    → (act u c k p).picker.buffers ≡ routed k c p.buffers
unfolding act unknown_char
act-buffers u c k p = ground arith

-- The queues after a character: the feed and rapid overrides are 0x90 to 0x97, those of the spindle
-- 0x99 to 0x9e, and the toggles of flood, mist and fan 0xa0, 0xa1 and 0x8a.
abbrev pub routed_queues : ℕ → Queues → Queues
routed_queues c v =
    if leb 0x90 c && leb c 0x97
    then record v { of_feed = Queue.push v.of_feed c }
    else (if leb 0x99 c && leb c 0x9e
        then record v { of_spindle = Queue.push v.of_spindle c }
        else (if c == 0xa0 || c == 0xa1 || c == 0x8a
            then record v { of_coolant = Queue.push v.of_coolant c }
            else v))

-- What the label of a character says about the queues.
abbrev label_queues : Command → ℕ → Queues → Queues
label_queues feed_override c v = record v { of_feed = Queue.push v.of_feed c }
label_queues spindle_override c v = record v { of_spindle = Queue.push v.of_spindle c }
label_queues coolant_override c v = record v { of_coolant = Queue.push v.of_coolant c }
label_queues _ c v = v

-- One of three queues, by what kind the character is.
abbrev by_kind : (is_feed is_spindle is_coolant : Bool) → ℕ → Queues → Queues
by_kind is_feed is_spindle is_coolant c v =
    if is_feed
    then record v { of_feed = Queue.push v.of_feed c }
    else (if is_spindle
        then record v { of_spindle = Queue.push v.of_spindle c }
        else (if is_coolant then record v { of_coolant = Queue.push v.of_coolant c } else v))

by_label :
    (c : ℕ) (v : Queues)
    → label_queues (classify c) c v
      ≡ by_kind (is_feed_command c) (is_spindle_command c) (is_coolant_command c) c v
unfolding classify classify_override
by_label c v = ground arith

feed_range : (c : ℕ) → is_feed_command c ≡ (leb 0x90 c && leb c 0x97)
feed_range c = ground arith

spindle_range : (c : ℕ) → is_spindle_command c ≡ (leb 0x99 c && leb c 0x9e)
spindle_range c = ground arith

coolant_toggles : (c : ℕ) → is_coolant_command c ≡ (c == 0xa0 || c == 0xa1 || c == 0x8a)
coolant_toggles c = ground arith

label_queues_lem : (c : ℕ) (v : Queues) → label_queues (classify c) c v ≡ routed_queues c v
label_queues_lem c v =
    by_label c v
    ∙ ap (λ b. by_kind b (is_spindle_command c) (is_coolant_command c) c v) (feed_range c)
    ∙ ap (λ b. by_kind (leb 0x90 c && leb c 0x97) b (is_coolant_command c) c v) (spindle_range c)
    ∙ ap (λ b. by_kind (leb 0x90 c && leb c 0x97) (leb 0x99 c && leb c 0x9e) b c v)
        (coolant_toggles c)

view-routed :
    (k : Command) (c : ℕ) (b : OverrideBuffers)
    → AllValid b
    → (view (routed k c b) ≡ label_queues k c (view b)) × AllValid (routed k c b)
unfolding Queue.apply_step Queue.step
view-routed feed_override c b v =
    ground (
      arith,
      apply_op-put b c,
      apply_op_refines b feed (put c) v,
      apply_op-AllValid b feed (put c) v,
    )
view-routed spindle_override c b v = ground (
  arith,
  apply_op-put b c,
  apply_op_refines b spindle (put c) v,
  apply_op-AllValid b spindle (put c) v,
)
view-routed coolant_override c b v = ground (
  arith,
  apply_op-put b c,
  apply_op_refines b coolant (put c) v,
  apply_op-AllValid b coolant (put c) v,
)
view-routed _ c b v = (refl, v)

-- No command in a queue is the byte 0.
pub record NoZeros (v : Queues) : Type 0 where
  pub of_feed : NoZero v.of_feed
  pub of_spindle : NoZero v.of_spindle
  pub of_coolant : NoZero v.of_coolant

NoZero-append : (l : List ℕ) (c : ℕ) → c ≢ 0 → NoZero l → NoZero (l ++ (c ∷ []))
NoZero-append [] c h z = (h, tt)
NoZero-append (d ∷ l) c h z = (z.0, NoZero-append l c h z.1)

NoZero-push : (l : List ℕ) (c : ℕ) → c ≢ 0 → NoZero l → NoZero (Queue.push l c)
unfolding Queue.push
NoZero-push l c h z = ground (arith, NoZero-append l c h z)

NoZeros-routed : (c : ℕ) (v : Queues) → NoZeros v → NoZeros (routed_queues c v)
NoZeros-routed c v z =
    ground (arith, NoZero-push v.of_feed c, NoZero-push v.of_spindle c, NoZero-push v.of_coolant c)

act_legacy-buffers :
    (u : Setup) (c : ℕ) (o : Outcome) → (act_legacy u c o).picker.buffers ≡ o.picker.buffers
unfolding act_legacy
act_legacy-buffers u c o = ground arith

act_signals-buffers : (u : Setup) (o : Outcome) → (act_signals u o).1.buffers ≡ o.picker.buffers
unfolding act_signals
act_signals-buffers u o = ground arith

picked-buffers :
    (u : Setup) (c : ℕ) (p : Picker)
    → (protocol_enqueue_realtime_command u c p).1.buffers ≡ routed (classify c) c p.buffers
unfolding protocol_enqueue_realtime_command
picked-buffers u c p =
    let o = act u c (classify c) p in
    let o2 = if o.drop then o else act_legacy u c o in
    let o3 = record o2 { picker = record (o2.picker) { esc = c == 0x1b } } in
    let kept : o2.picker.buffers ≡ o.picker.buffers = ground (arith, act_legacy-buffers u c o) in
    act_signals-buffers u o3 ∙ kept ∙ act-buffers u c (classify c) p

routed_lem :
    (c : ℕ) (b : OverrideBuffers)
    → AllValid b
    → NoZeros (view b)
    → let b' = routed (classify c) c b in
      (view b' ≡ routed_queues c (view b)) × AllValid b' × NoZeros (view b')
routed_lem c b v z =
    let r = view-routed (classify c) c b v in
    let e = r.0 ∙ label_queues_lem c (view b) in (e, r.1, rw e (NoZeros-routed c (view b) z))

-- A character that is a feed or rapid override (0x90 to 0x97), a spindle override (0x99 to 0x9e) or a
-- toggle of flood, mist or fan (0xa0, 0xa1, 0x8a) goes to the feed, spindle or coolant queue, if that
-- has room, and to no other; every other character leaves the queues as they are, whatever the settings, the handlers
-- and the machine's state. The rings stay valid and free of the byte 0.
pub protocol_enqueue_realtime_command_refines :
    (u : Setup) (c : ℕ) (p : Picker)
    → AllValid p.buffers
    → NoZeros (view p.buffers)
    → let p' = (protocol_enqueue_realtime_command u c p).1 in
      (view p'.buffers ≡ routed_queues c (view p.buffers))
      × AllValid p'.buffers
      × NoZeros (view p'.buffers)
protocol_enqueue_realtime_command_refines u c p v z =
    rw (picked-buffers u c p) (routed_lem c p.buffers v z)
