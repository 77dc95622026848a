-- ===== src/Publish/Report.antt =====
-- A whole report: the buttons at the consumer, and the one synchronising event at the end.
use zmk_ble_hid_host.Base.{
  ℕ, zero, suc, ◌+◌, ◌/◌, ◌%◌, ◌^◌, ◌<◌, ◌≡◌, refl, sym, ap, ◌∙◌, List, ◌∷◌, ◌++◌, Bool, true,
  false, arith, bit, bit_xor, All, if◌then◌else◌, meets, ◌||◌, Bool-cases, inl, inr, ◌*◌,
}
use zmk_ble_hid_host.Base.Signed.{ℤ, is_negative, is_positive}
use zmk_ble_hid_host.Layout.{PointerReport}
use zmk_ble_hid_host.Publish.Device.{
  Config, btn, rel_x, rel_y, Event, key, Attempt, Queue, Device, Edges, publish_edge, publish_edges,
  publish_buttons, publish_rel, publish_hwheel, tap_wheel, heal, before_terminator, terminator,
  publish, tap_btn, flush_one, flush_pending_dpad_releases, Axis, rel_hwheel, is_nonzero,
}
use zmk_ble_hid_host.Publish.View.{seen, seen-cons}
use zmk_ble_hid_host.Publish.Tracks.{Tracks, publish_buttons-Tracks, publish_buttons_reaches}
use zmk_ble_hid_host.Publish.Growth.{
  Grows, Grows-refl, Grows-cons, Grows-trans, Aside, Unsynced, Aside-Unsynced, Grows-seen,
  heal-Grows, publish_rel-Grows, publish_hwheel-Grows, tap_wheel-Grows,
}

-- Only the button loop writes `prev_buttons`.
module _ (accepts : Queue) where
  tap_btn-prev : (idx : ℕ) (d : Device) → (tap_btn accepts idx d).prev_buttons ≡ d.prev_buttons
  unfolding tap_btn
  tap_btn-prev idx d = ground arith

  flush_one-prev : (idx : ℕ) (d : Device) → (flush_one accepts idx d).prev_buttons ≡ d.prev_buttons
  unfolding flush_one
  flush_one-prev idx d = ground arith

  if_prev :
      (test : Bool) (a b : Device) (n : ℕ)
      → a.prev_buttons ≡ n
      → b.prev_buttons ≡ n
      → (if test then a else b).prev_buttons ≡ n
  if_prev true a b n ha hb = ha
  if_prev false a b n ha hb = hb

  pub heal-prev : (cfg : Config) (d : Device) → (heal accepts cfg d).prev_buttons ≡ d.prev_buttons
  heal-prev cfg d =
      if_prev (cfg.hwheel_as_keys || cfg.wheel_as_keys) _ d d.prev_buttons
        (let a = flush_one accepts 0 d in
          let b = flush_one accepts 1 a in
          let c = flush_one accepts 2 b in
          unfold flush_pending_dpad_releases in
          flush_one-prev 3 c ∙ flush_one-prev 2 b ∙ flush_one-prev 1 a ∙ flush_one-prev 0 d)
        refl

  publish_rel-prev :
      (axis : Axis) (v : ℤ) (d : Device)
      → (publish_rel accepts axis v d).prev_buttons ≡ d.prev_buttons
  publish_rel-prev axis v d = if_prev (is_nonzero v) _ d d.prev_buttons refl refl

  publish_hwheel-prev :
      (cfg : Config) (v : ℤ) (d : Device)
      → (publish_hwheel accepts cfg v d).prev_buttons ≡ d.prev_buttons
  publish_hwheel-prev cfg v d =
      unfold publish_hwheel in
      if_prev cfg.hwheel_as_keys _ _ d.prev_buttons
        (if_prev (is_negative v) _ _ d.prev_buttons (tap_btn-prev 0 d)
          (if_prev (is_positive v) _ d d.prev_buttons (tap_btn-prev 1 d) refl))
        (publish_rel-prev rel_hwheel v d)

  tap_wheel-prev :
      (cfg : Config) (v : ℤ) (d : Device)
      → (tap_wheel accepts cfg v d).prev_buttons ≡ d.prev_buttons
  tap_wheel-prev cfg v d =
      unfold tap_wheel in
      if_prev cfg.wheel_as_keys _ d d.prev_buttons
        (if_prev (is_positive v) _ _ d.prev_buttons (tap_btn-prev 2 d)
          (if_prev (is_negative v) _ d d.prev_buttons (tap_btn-prev 3 d) refl))
        refl

  -- An edge of the button loop, or none.
  publish_edge-Grows :
      (buttons changed i : ℕ) (s : Edges)
      → Grows Unsynced (s.device).log ((publish_edge accepts buttons changed i s).device).log
  unfolding publish_edge
  publish_edge-Grows buttons changed i s = elim (Bool-cases (meets changed (1 * 2 ^ i))) [
    | inl differs ↦ rw differs (Grows-cons (e, accepts (s.device).log e) (s.device).log refl)
    | inr same ↦ rw same (Grows-refl (s.device).log)
  ]
    where
      e : Event
      e = key (btn i) (buttons / 2 ^ i % 2) false

  publish_edges-Grows :
      (buttons changed left i : ℕ) (s : Edges)
      → Grows Unsynced (s.device).log ((publish_edges accepts buttons changed left i s).device).log
  unfolding publish_edges
  publish_edges-Grows buttons changed zero i s = Grows-refl (s.device).log
  publish_edges-Grows buttons changed (suc left) i s =
      Grows-trans (s.device).log _ _ (publish_edge-Grows buttons changed i s) (
        publish_edges-Grows buttons changed left (i + 1) (publish_edge accepts buttons changed i s))

module _ (accepts : Queue) (cfg : Config) (r : PointerReport) (d : Device) where
  healed : Device
  healed = heal accepts cfg d

  settled : Device
  settled = publish_buttons accepts r.buttons healed

  -- What follows the buttons, up to the terminator.
  motion : Grows Aside settled.log (before_terminator accepts cfg r d).log
  unfolding before_terminator settled healed
  motion =
      let a = publish_rel accepts rel_x r.dx settled in
      let b = publish_rel accepts rel_y r.dy a in
      let c = publish_hwheel accepts cfg r.hwheel b in
      Grows-trans settled.log c.log _
        (Grows-trans settled.log b.log c.log
          (Grows-trans settled.log a.log b.log (publish_rel-Grows accepts rel_x r.dx settled)
            (publish_rel-Grows accepts rel_y r.dy a))
          (publish_hwheel-Grows accepts cfg r.hwheel b))
        (tap_wheel-Grows accepts cfg r.wheel c)

  same_prev : (before_terminator accepts cfg r d).prev_buttons ≡ settled.prev_buttons
  unfolding before_terminator settled healed
  same_prev =
      let a = publish_rel accepts rel_x r.dx settled in
      let b = publish_rel accepts rel_y r.dy a in
      let c = publish_hwheel accepts cfg r.hwheel b in
      tap_wheel-prev accepts cfg r.wheel c
      ∙ publish_hwheel-prev accepts cfg r.hwheel b
      ∙ publish_rel-prev accepts rel_y r.dy a
      ∙ publish_rel-prev accepts rel_x r.dx settled

  healed-Tracks : Tracks d → Tracks healed
  unfolding healed
  healed-Tracks v j below =
      Grows-seen j d.log healed.log (heal-Grows accepts cfg d)
      ∙ v j below
      ∙ ap (bit j) (sym (heal-prev accepts cfg d))

  seen-publish : (j : ℕ) → seen (btn j) (publish accepts cfg r d).log ≡ seen (btn j) settled.log
  seen-publish j =
      unfold publish in
      seen-cons (btn j) _ (before_terminator accepts cfg r d).log
      ∙ Grows-seen j settled.log (before_terminator accepts cfg r d).log motion

  prev-publish : (publish accepts cfg r d).prev_buttons ≡ settled.prev_buttons
  prev-publish = unfold publish in same_prev

  -- Whatever the queue drops, after a report the driver's mask is again what the consumer has been
  -- told of the eight published buttons, if it was so before.
  pub publish-Tracks : Tracks d → Tracks (publish accepts cfg r d)
  unfolding settled
  publish-Tracks v j below =
      seen-publish j
      ∙ publish_buttons-Tracks accepts r.buttons healed (healed-Tracks v) j below
      ∙ ap (bit j) (sym prev-publish)

  -- With a queue that takes every event, and where the driver's mask is what the consumer has been
  -- told, a report brings each of the eight published buttons at the consumer to the report's mask,
  -- also where earlier reports lost its edge.
  pub publish_reaches :
      ((log : List Attempt) (e : Event) → accepts log e ≡ true)
      → Tracks d
      → (j : ℕ) → j < 8
      → seen (btn j) (publish accepts cfg r d).log ≡ bit j r.buttons
  unfolding settled
  publish_reaches always v j below =
      seen-publish j
      ∙ publish_buttons-Tracks accepts r.buttons healed (healed-Tracks v) j below
      ∙ publish_buttons_reaches accepts r.buttons healed always j below (healed-Tracks v)

  before-Grows : Grows Unsynced d.log (before_terminator accepts cfg r d).log
  unfolding settled healed publish_buttons
  before-Grows =
      Grows-trans d.log settled.log _
        (Grows-trans d.log healed.log settled.log (Aside-Unsynced (heal-Grows accepts cfg d)) (
          publish_edges-Grows accepts r.buttons (bit_xor r.buttons healed.prev_buttons) 8 0
            (record { applied = 0; device = healed })))
        (Aside-Unsynced motion)

  -- A report attempts exactly one event with sync, as its last: REL_WHEEL with the wheel's delta, or
  -- with 0 where the wheel is keyed. It is attempted on every report, also an idle one.
  pub publish_sync :
      (es : List Attempt) × (taken : Bool) × ((publish accepts cfg r d).log
        ≡ (terminator accepts cfg r.wheel, taken) ∷ es ++ d.log)
      × All Unsynced es
  unfolding publish
  publish_sync = (
    before-Grows.added,
    _,
    ap
        (◌∷◌ (
          terminator accepts cfg r.wheel,
          accepts (before_terminator accepts cfg r d).log (terminator accepts cfg r.wheel),
        ))
        before-Grows.appended,
    before-Grows.each,
  )
