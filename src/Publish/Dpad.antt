-- ===== src/Publish/Dpad.antt =====
-- No wheel tap leaves its key down for good: a key that the consumer believes down is remembered.
use zmk_ble_hid_host.Base.{
  ℕ, zero, suc, ◌+◌, ◌*◌, ◌/◌, ◌%◌, ◌^◌, ◌<◌, ◌≡◌, ◌≢◌, ap, ◌∙◌, List, ◌∷◌, Bool, true, false,
  arith, bit, bit_or, bit_and, u8, complement, if◌then◌else◌, ◌==◌, meets, not, ◌||◌, Bool-cases,
  inl, inr, Option, none, bit_xor,
}
use zmk_ble_hid_host.Base.Signed.{ℤ, pos, is_negative, is_positive}
use zmk_ble_hid_host.Base.Bits.Step.{bit-bit_and}
use zmk_ble_hid_host.Base.Bits.Fields.{bit-pow_ne, bit_complement}
use zmk_ble_hid_host.Layout.{PointerReport}
use zmk_ble_hid_host.Publish.Device.{
  Config, btn, dpad, Axis, rel_x, rel_y, rel_hwheel, rel_wheel, Event, key, rel, Attempt, Queue,
  Device, Edges, attempt, tap_btn, flush_one, flush_pending_dpad_releases, publish_edge,
  publish_edges, publish_buttons, publish_rel, publish_hwheel, tap_wheel, heal, before_terminator,
  publish, release_held, reset, is_nonzero, last_held, is_last,
}
use zmk_ble_hid_host.Publish.View.{seen, seen-cons}
use zmk_ble_hid_host.Publish.Buttons.{bit_set_digit}

-- Every DPAD key that the consumer believes down has its release pending.
abbrev pub Remembered : Device → Type 0
Remembered d = (i : ℕ) → i < 4 → seen (dpad i) d.log ≢ 0 → bit i d.pending_dpad_release ≡ 1

-- A cast to uint8_t keeps the low digits.
bit-u8 : (i x : ℕ) → i < 4 → bit i (u8 x) ≡ bit i x
bit-u8 zero x h = omega arith
bit-u8 (suc zero) x h = omega arith
bit-u8 (suc (suc zero)) x h = omega arith
bit-u8 (suc (suc (suc zero))) x h = omega arith
bit-u8 (suc (suc (suc (suc i)))) x h = absurd (omega arith)

set_pending :
    (idx i mask : ℕ)
    → i < 4
    → bit i (u8 (bit_or mask (1 * 2 ^ idx))) ≡ (if idx == i then 1 else bit i mask)
set_pending idx i mask h = bit-u8 i _ h ∙ bit_set_digit idx i mask

pow_small : (idx : ℕ) → idx < 4 → 2 ^ idx < 2 ^ 32
pow_small zero h = omega arith
pow_small (suc zero) h = omega arith
pow_small (suc (suc zero)) h = omega arith
pow_small (suc (suc (suc zero))) h = omega arith
pow_small (suc (suc (suc (suc i)))) h = absurd (omega arith)

clear_other :
    (idx i mask : ℕ)
    → i < 4
    → idx < 4
    → idx ≢ i
    → bit i (u8 (bit_and mask (complement (1 * 2 ^ idx)))) ≡ bit i mask
clear_other idx i mask h k other =
    bit-u8 i _ h
    ∙ ap (λ (t : ℕ). bit i (bit_and mask (complement t))) {x = 1 * 2 ^ idx} {y = 2 ^ idx}
        (omega arith)
    ∙ bit-bit_and i mask (complement (2 ^ idx))
    ∙ omega (
      arith,
      bit_complement 32 (2 ^ idx) i (pow_small idx k) (omega arith),
      bit-pow_ne idx i other,
    )

-- The consumer's key after one more attempt on some DPAD key.
seen_dpad :
    (i idx v : ℕ) (taken : Bool) (log : List Attempt)
    → seen (dpad i) ((key (dpad idx) v false, taken) ∷ log)
      ≡ (if taken then (if idx == i then v else seen (dpad i) log) else seen (dpad i) log)
seen_dpad i idx v true log = seen-cons (dpad i) _ log
seen_dpad i idx v false log = seen-cons (dpad i) _ log

module _ (accepts : Queue) where
  if_Remembered :
      (test : Bool) (a b : Device)
      → Remembered a
      → Remembered b
      → Remembered (if test then a else b)
  if_Remembered true a b ha hb = ha
  if_Remembered false a b ha hb = hb

  flush_one-Remembered :
      (idx : ℕ) (d : Device) → idx < 4 → Remembered d → Remembered (flush_one accepts idx d)
  unfolding flush_one
  flush_one-Remembered idx d k v =
      if_Remembered (meets d.pending_dpad_release (1 * 2 ^ idx)) _ d (outcome (accepts d.log e)) v
    where
      e : Event
      e = key (dpad idx) 0 false

      outcome :
          (taken : Bool)
          → Remembered (
              if taken
              then record d {
                log = (e, taken) ∷ d.log;
                pending_dpad_release =
                    u8 (bit_and d.pending_dpad_release (complement (1 * 2 ^ idx)));
              }
              else record d { log = (e, taken) ∷ d.log })
      outcome true i below s = ground (
        arith,
        seen_dpad i idx 0 true d.log,
        clear_other idx i d.pending_dpad_release below k,
        v i below,
      )
      outcome false i below s = ground (arith, seen_dpad i idx 0 false d.log, v i below)

  tap_btn-Remembered : (idx : ℕ) (d : Device) → Remembered d → Remembered (tap_btn accepts idx d)
  unfolding tap_btn
  tap_btn-Remembered idx d v = outcome _ _
    where
      press : Bool → List Attempt
      press taken = (key (dpad idx) 1 false, taken) ∷ d.log

      outcome :
          (pressed released : Bool)
          → Remembered (
              if not pressed
              then record d { log = press pressed }
              else if not released
              then record d {
                log = (key (dpad idx) 0 false, released) ∷ press pressed;
                pending_dpad_release = u8 (bit_or d.pending_dpad_release (1 * 2 ^ idx));
              }
              else record d { log = (key (dpad idx) 0 false, released) ∷ press pressed })
      outcome false released i below s = ground (arith, seen_dpad i idx 1 false d.log, v i below)
      outcome true true i below s =
          ground
            (arith, seen_dpad i idx 1 true d.log, seen_dpad i idx 0 true (press true), v i below)
      outcome true false i below s = ground (
        arith,
        seen_dpad i idx 1 true d.log,
        seen_dpad i idx 0 false (press true),
        set_pending idx i d.pending_dpad_release below,
        v i below,
      )

  heal-Remembered : (cfg : Config) (d : Device) → Remembered d → Remembered (heal accepts cfg d)
  heal-Remembered cfg d v =
      if_Remembered (cfg.hwheel_as_keys || cfg.wheel_as_keys) _ d
        (unfold flush_pending_dpad_releases in
          flush_one-Remembered 3 _ (omega arith) (
            flush_one-Remembered 2 _ (omega arith)
              (flush_one-Remembered 1 _ (omega arith) (flush_one-Remembered 0 d (omega arith) v))))
        v

  -- Neither a button edge nor a movement touches a DPAD key.
  seen_edge :
      (i j v : ℕ) (s taken : Bool) (log : List Attempt)
      → seen (dpad i) ((key (btn j) v s, taken) ∷ log) ≡ seen (dpad i) log
  seen_edge i j v s true log = seen-cons (dpad i) _ log
  seen_edge i j v s false log = seen-cons (dpad i) _ log

  press_button-Remembered :
      (e : Event) (d : Device)
      → ((i : ℕ) (taken : Bool) → seen (dpad i) ((e, taken) ∷ d.log) ≡ seen (dpad i) d.log)
      → Remembered d
      → Remembered (attempt accepts e d)
  press_button-Remembered e d aside v i below s =
      v i below (λ gone. s (aside i (accepts d.log e) ∙ gone))

  publish_edge-Remembered :
      (buttons changed i : ℕ) (s : Edges)
      → Remembered s.device
      → Remembered (publish_edge accepts buttons changed i s).device
  unfolding publish_edge
  publish_edge-Remembered buttons changed i s v = elim (Bool-cases (meets changed (1 * 2 ^ i))) [
    | inl differs ↦ rw differs (
        press_button-Remembered (key (btn i) (buttons / 2 ^ i % 2) false) s.device
          (λ k taken. seen_edge k i (buttons / 2 ^ i % 2) false taken (s.device).log) v)
    | inr same ↦ rw same v
  ]

  publish_edges-Remembered :
      (buttons changed left i : ℕ) (s : Edges)
      → Remembered s.device
      → Remembered (publish_edges accepts buttons changed left i s).device
  unfolding publish_edges
  publish_edges-Remembered buttons changed zero i s v = v
  publish_edges-Remembered buttons changed (suc left) i s v =
      publish_edges-Remembered buttons changed left (i + 1) _
        (publish_edge-Remembered buttons changed i s v)

  publish_buttons-Remembered :
      (buttons : ℕ) (d : Device) → Remembered d → Remembered (publish_buttons accepts buttons d)
  unfolding publish_buttons
  publish_buttons-Remembered buttons d v =
      publish_edges-Remembered buttons (bit_xor buttons d.prev_buttons) 8 0
        (record { applied = 0; device = d }) v

  move-Remembered :
      (axis : Axis) (v : ℤ) (s : Bool) (d : Device)
      → Remembered d
      → Remembered (attempt accepts (rel axis v s) d)
  move-Remembered axis v s d w =
      press_button-Remembered (rel axis v s) d (λ i taken. seen-cons (dpad i) _ d.log) w

  publish_rel-Remembered :
      (axis : Axis) (v : ℤ) (d : Device) → Remembered d → Remembered (publish_rel accepts axis v d)
  publish_rel-Remembered axis v d w =
      if_Remembered (is_nonzero v) _ d (move-Remembered axis v false d w) w

  publish_hwheel-Remembered :
      (cfg : Config) (v : ℤ) (d : Device)
      → Remembered d
      → Remembered (publish_hwheel accepts cfg v d)
  publish_hwheel-Remembered cfg v d w =
      unfold publish_hwheel in
      if_Remembered cfg.hwheel_as_keys _ _
        (if_Remembered (is_negative v) _ _ (tap_btn-Remembered 0 d w)
          (if_Remembered (is_positive v) _ d (tap_btn-Remembered 1 d w) w))
        (publish_rel-Remembered rel_hwheel v d w)

  tap_wheel-Remembered :
      (cfg : Config) (v : ℤ) (d : Device) → Remembered d → Remembered (tap_wheel accepts cfg v d)
  tap_wheel-Remembered cfg v d w =
      unfold tap_wheel in
      if_Remembered cfg.wheel_as_keys _ d
        (if_Remembered (is_positive v) _ _ (tap_btn-Remembered 2 d w)
          (if_Remembered (is_negative v) _ d (tap_btn-Remembered 3 d w) w))
        w

  -- Where every key of a wheel tap that the consumer believes down has its release pending, this
  -- holds again after a report, whatever the queue drops of it.
  pub publish-Remembered :
      (cfg : Config) (r : PointerReport) (d : Device)
      → Remembered d
      → Remembered (publish accepts cfg r d)
  unfolding publish before_terminator
  publish-Remembered cfg r d v =
      let a = publish_buttons-Remembered r.buttons _ (heal-Remembered cfg d v) in
      let b = publish_rel-Remembered rel_y r.dy _ (publish_rel-Remembered rel_x r.dx _ a) in
      move-Remembered rel_wheel (if cfg.wheel_as_keys then pos 0 else r.wheel) true
        (before_terminator accepts cfg r d)
        (tap_wheel-Remembered cfg r.wheel _ (publish_hwheel-Remembered cfg r.hwheel _ b))

  release_held-Remembered :
      (held : ℕ) (last : Option ℕ) (left i : ℕ) (d : Device)
      → Remembered d
      → Remembered (release_held accepts held last left i d)
  unfolding release_held
  release_held-Remembered held last zero i d v = v
  release_held-Remembered held last (suc left) i d v =
      release_held-Remembered held last left (i + 1) _ (
        if_Remembered (meets held (1 * 2 ^ i)) _ d
          (press_button-Remembered (key (btn i) 0 (is_last i last)) d
            (λ k taken. seen_edge k i 0 (is_last i last) taken d.log) v)
          v)

  -- Where every key of a wheel tap that the consumer believes down has its release pending, this
  -- holds again after the reset that follows a disconnection, whatever the queue drops of it.
  pub reset-Remembered :
      (cfg : Config) (d : Device) → Remembered d → Remembered (reset accepts cfg d)
  unfolding reset
  reset-Remembered cfg d v =
      let healed = heal accepts cfg d in
      if_Remembered (healed.prev_buttons == 0) healed _ (heal-Remembered cfg d v) (
        release_held-Remembered healed.prev_buttons (last_held healed.prev_buttons 8 0 none) 8 0
          healed (heal-Remembered cfg d v))
