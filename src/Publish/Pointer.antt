-- ===== src/Publish/Pointer.antt =====
-- A pointer in the abstract: the buttons that are down, and the movements of each axis. The driver
-- shows it to the consumer by its events.
use zmk_ble_hid_host.Base.{
  ℕ, zero, suc, ◌+◌, ◌*◌, ◌^◌, ◌<◌, ◌≡◌, refl, sym, ap, ap₂, ◌∙◌, subst, List, [], ◌∷◌, Bool, true,
  false, bit, bit_xor, if◌then◌else◌, meets, Bool-cases, inl, inr,
}
use zmk_ble_hid_host.Base.Signed.{ℤ}
use zmk_ble_hid_host.Layout.{PointerReport}
use zmk_ble_hid_host.Publish.Device.{
  Config, btn, Axis, rel_x, rel_y, rel_hwheel, rel_wheel, Event, key, rel, Attempt, Queue, Device,
  Edges, is_nonzero, attempt, publish_edge, publish_edges, publish_buttons, publish_rel,
  publish_hwheel, tap_wheel, before_terminator, publish,
}
use zmk_ble_hid_host.Publish.View.{seen}
use zmk_ble_hid_host.Publish.Tracks.{Tracks}
use zmk_ble_hid_host.Publish.Report.{publish-Tracks, publish_reaches}

pub record Pointer : Type 0 where
  pub held : ℕ → ℕ
  pub moved : Axis → List ℤ

-- A movement of 0 is none.
abbrev pub move : ℤ → List ℤ → List ℤ
move v vs = if is_nonzero v then v ∷ vs else vs

abbrev pub delta : PointerReport → Axis → ℤ
delta r rel_x = r.dx
delta r rel_y = r.dy
delta r rel_hwheel = r.hwheel
delta r rel_wheel = r.wheel

-- What a report means: its buttons are the ones that are down, and it moves each axis by its delta.
abbrev pub follow : PointerReport → Pointer → Pointer
follow r p = record {
  held = λ j. bit j r.buttons;
  moved = λ axis. move (delta r axis) (p.moved axis);
}

abbrev pub follow_all : List PointerReport → Pointer → Pointer
follow_all [] p = p
follow_all (r ∷ rs) p = follow_all rs (follow r p)

-- The movements of an axis by the accepted events, the latest first.
abbrev same_axis : Axis → Axis → Bool
same_axis rel_x rel_x = true
same_axis rel_y rel_y = true
same_axis rel_hwheel rel_hwheel = true
same_axis rel_wheel rel_wheel = true
same_axis _ _ = false

abbrev after_move : Axis → Attempt → List ℤ → List ℤ
after_move axis (rel a v s, true) vs = if same_axis a axis then move v vs else vs
after_move axis (rel a v s, false) vs = vs
after_move axis (key c v s, taken) vs = vs

abbrev pub deltas : Axis → List Attempt → List ℤ
deltas axis [] = []
deltas axis (a ∷ log) = after_move axis a (deltas axis log)

-- The consumer sees this pointer, in its eight buttons and its four axes.
abbrev pub Shows : Device → Pointer → Type 0
Shows d p =
    ((j : ℕ) → j < 8 → seen (btn j) d.log ≡ p.held j)
    × ((axis : Axis) → deltas axis d.log ≡ p.moved axis)

abbrev unkeyed : Config
unkeyed = record { hwheel_as_keys = false; wheel_as_keys = false }

module _ (accepts : Queue) where
  abbrev pub publish_all : Config → List PointerReport → Device → Device
  publish_all cfg [] d = d
  publish_all cfg (r ∷ rs) d = publish_all cfg rs (publish accepts cfg r d)

  -- An edge of a button moves no axis.
  publish_edge-deltas :
      (axis : Axis) (buttons changed i : ℕ) (s : Edges)
      → deltas axis ((publish_edge accepts buttons changed i s).device).log
        ≡ deltas axis (s.device).log
  unfolding publish_edge
  publish_edge-deltas axis buttons changed i s = elim (Bool-cases (meets changed (1 * 2 ^ i))) [
    | inl differs ↦ rw differs refl
    | inr same ↦ rw same refl
  ]

  publish_edges-deltas :
      (axis : Axis) (buttons changed left i : ℕ) (s : Edges)
      → deltas axis ((publish_edges accepts buttons changed left i s).device).log
        ≡ deltas axis (s.device).log
  unfolding publish_edges
  publish_edges-deltas axis buttons changed zero i s = refl
  publish_edges-deltas axis buttons changed (suc left) i s =
      publish_edges-deltas axis buttons changed left (i + 1)
        (publish_edge accepts buttons changed i s)
      ∙ publish_edge-deltas axis buttons changed i s

  publish_buttons-deltas :
      (axis : Axis) (buttons : ℕ) (d : Device)
      → deltas axis (publish_buttons accepts buttons d).log ≡ deltas axis d.log
  unfolding publish_buttons
  publish_buttons-deltas axis buttons d =
      publish_edges-deltas axis buttons (bit_xor buttons d.prev_buttons) 8 0
        (record { applied = 0; device = d })

  module _ (always : (log : List Attempt) (e : Event) → accepts log e ≡ true) where
    attempt-deltas :
        (axis : Axis) (e : Event) (d : Device)
        → deltas axis (attempt accepts e d).log ≡ after_move axis (e, true) (deltas axis d.log)
    attempt-deltas axis e d =
        ap (λ taken. after_move axis (e, taken) (deltas axis d.log)) (always d.log e)

    publish_rel-deltas :
        (axis a : Axis) (v : ℤ) (d : Device)
        → deltas axis (publish_rel accepts a v d).log
          ≡ (if same_axis a axis then move v (deltas axis d.log) else deltas axis d.log)
    publish_rel-deltas axis a v d = by_value (is_nonzero v) refl
      where
        unmoved :
            (same : Bool) (vs : List ℤ)
            → is_nonzero v ≡ false
            → vs ≡ (if same then move v vs else vs)
        unmoved true vs e = sym (ap (λ moves. if moves then v ∷ vs else vs) e)
        unmoved false vs e = refl

        by_value :
            (test : Bool)
            → is_nonzero v ≡ test
            → deltas axis (if test then attempt accepts (rel a v false) d else d).log
              ≡ (if same_axis a axis then move v (deltas axis d.log) else deltas axis d.log)
        by_value true e = attempt-deltas axis (rel a v false) d
        by_value false e = unmoved (same_axis a axis) (deltas axis d.log) e

    -- Without the key options, a report's events move each axis by its delta.
    publish-deltas :
        (axis : Axis) (r : PointerReport) (d : Device)
        → deltas axis (publish accepts unkeyed r d).log ≡ move (delta r axis) (deltas axis d.log)
    unfolding publish before_terminator publish_hwheel tap_wheel
    publish-deltas axis r d =
        attempt-deltas axis (rel rel_wheel r.wheel true) h
        ∙ ap (after_move axis (rel rel_wheel r.wheel true, true))
            (publish_rel-deltas axis rel_hwheel r.hwheel y)
        ∙ by_axis axis (publish_rel-deltas axis rel_y r.dy x) (publish_rel-deltas axis rel_x r.dx b)
            (publish_buttons-deltas axis r.buttons d)
      where
        b : Device
        b = publish_buttons accepts r.buttons d

        x : Device
        x = publish_rel accepts rel_x r.dx (publish_buttons accepts r.buttons d)

        y : Device
        y =
            publish_rel accepts rel_y r.dy
              (publish_rel accepts rel_x r.dx (publish_buttons accepts r.buttons d))

        h : Device
        h = publish_rel accepts rel_hwheel r.hwheel (
            publish_rel accepts rel_y r.dy
              (publish_rel accepts rel_x r.dx (publish_buttons accepts r.buttons d)))

        by_axis :
            (axis : Axis) {vy vx vb vd : List ℤ}
            → vy ≡ (if same_axis rel_y axis then move r.dy vx else vx)
            → vx ≡ (if same_axis rel_x axis then move r.dx vb else vb)
            → vb ≡ vd
            → after_move axis
                (rel rel_wheel r.wheel true, true)
                (if same_axis rel_hwheel axis then move r.hwheel vy else vy)
              ≡ move (delta r axis) vd
        by_axis rel_x ey ex eb = ey ∙ ex ∙ ap (move r.dx) eb
        by_axis rel_y ey ex eb = ey ∙ ap (move r.dy) (ex ∙ eb)
        by_axis rel_hwheel ey ex eb = ap (move r.hwheel) (ey ∙ ex ∙ eb)
        by_axis rel_wheel ey ex eb = ap (move r.wheel) (ey ∙ ex ∙ eb)

    publish-Shows :
        (r : PointerReport) (d : Device) (p : Pointer)
        → Tracks d
        → Shows d p
        → Shows (publish accepts unkeyed r d) (follow r p)
    publish-Shows r d p v shown = (
      λ j below. publish_reaches accepts unkeyed r d always v j below,
      λ axis. publish-deltas axis r d ∙ ap (move (delta r axis)) (shown.1 axis),
    )

    unkeyed_refines :
        (rs : List PointerReport) (d : Device) (p : Pointer)
        → Tracks d
        → Shows d p
        → Shows (publish_all unkeyed rs d) (follow_all rs p)
    unkeyed_refines [] d p v shown = shown
    unkeyed_refines (r ∷ rs) d p v shown =
        unkeyed_refines rs (publish accepts unkeyed r d) (follow r p)
          (publish-Tracks accepts unkeyed r d v) (publish-Shows r d p v shown)

    -- Where the queue takes every event, neither wheel is keyed and the driver's mask is what the
    -- consumer has been told, the driver implements the abstract pointer: if the consumer sees the
    -- pointer before a sequence of reports, then after it the consumer sees the pointer that has
    -- followed them, in its eight buttons and in the movements of its four axes, in their order.
    pub publish_all-refines :
        (cfg : Config) (rs : List PointerReport) (d : Device) (p : Pointer)
        → cfg.hwheel_as_keys ≡ false
        → cfg.wheel_as_keys ≡ false
        → Tracks d
        → Shows d p
        → Shows (publish_all cfg rs d) (follow_all rs p)
    publish_all-refines cfg rs d p no_hwheel no_wheel v shown =
        subst (λ cfg'. Shows (publish_all cfg' rs d) (follow_all rs p))
          (sym (
            ap₂
              (λ (h w : Bool).
                let keyed : Config = record { hwheel_as_keys = h; wheel_as_keys = w } in keyed)
              no_hwheel no_wheel))
          (unkeyed_refines rs d p v shown)
