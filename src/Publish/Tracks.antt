-- ===== src/Publish/Tracks.antt =====
-- The two claims about buttons: the driver's mask follows the consumer, and an accepting queue
-- brings the consumer to the report.
use zmk_ble_hid_host.Base.{
  ℕ, zero, suc, ◌+◌, ◌%◌, ◌^◌, ◌<◌, ◌≡◌, refl, sym, ap, ◌∙◌, List, true, false, arith, ◌==◌,
  if◌then◌else◌, bit, bit_and, bit_or, bit_xor, complement, ltb, subst, lt→ltb,
}
use native.Mathlib.Nat.{add-zero, zero-div}
use zmk_ble_hid_host.Base.Bits.Step.{bit-bit_and, bit-bit_or, bit-bit_xor}
use zmk_ble_hid_host.Base.Bits.Fields.{bit_complement}
use zmk_ble_hid_host.Publish.Device.{
  btn, Event, key, Attempt, Queue, Device, Edges, publish_edge, publish_edges, publish_buttons,
}
use zmk_ble_hid_host.Publish.View.{seen}
use zmk_ble_hid_host.Publish.Buttons.{Settled, publish_edges-Settled, meets-digit, bit_set_digit}

-- `(prev & ~applied) | (buttons & applied)`, digit by digit.
merged_digit :
    (prev buttons applied j : ℕ)
    → applied < 2 ^ 8
    → j < 8
    → bit j (bit_or (bit_and prev (complement applied)) (bit_and buttons applied))
      ≡ (if bit j applied == 0 then bit j prev else bit j buttons)
merged_digit prev buttons applied j small below = ground (
  arith,
  bit-bit_or j (bit_and prev (complement applied)) (bit_and buttons applied),
  bit-bit_and j prev (complement applied),
  bit-bit_and j buttons applied,
  bit_complement 32 applied j (omega arith) (omega arith),
)

reached :
    (applied prev new : ℕ)
    → prev < 2
    → new < 2
    → applied ≡ (new + prev) % 2
    → (if applied == 0 then prev else new) ≡ new
reached applied prev new h k e = ground arith

-- The consumer believes of the published buttons what `prev_buttons` says.
abbrev pub Tracks : Device → Type 0
Tracks d = (j : ℕ) → j < 8 → seen (btn j) d.log ≡ bit j d.prev_buttons

module _ (accepts : Queue) (buttons : ℕ) (d : Device) where
  start_edges : Edges
  start_edges = record { applied = 0; device = d }

  end_edges : Edges
  end_edges = publish_edges accepts buttons (bit_xor buttons d.prev_buttons) 8 0 start_edges

  no_digit : (j : ℕ) → bit j 0 ≡ 0
  no_digit j = ap (λ (t : ℕ). t % 2) (zero-div (2 ^ j))

  end-Settled : Tracks d → Settled d.prev_buttons buttons 8 end_edges
  unfolding start_edges end_edges
  end-Settled v =
      publish_edges-Settled accepts d.prev_buttons buttons (bit_xor buttons d.prev_buttons) 8 0
        start_edges
        (record {
          small = omega arith;
          prev_kept = refl;
          agree = λ j below. ground (arith, v j below, no_digit j);
        })

  pub publish_buttons-Tracks : Tracks d → Tracks (publish_buttons accepts buttons d)
  unfolding publish_buttons start_edges end_edges
  publish_buttons-Tracks v j below =
      let w = end-Settled v in
      w.agree j below
      ∙ sym (merged_digit d.prev_buttons buttons end_edges.applied j w.small below)
      ∙ ap
          (λ (prev : ℕ). bit j (
            bit_or (bit_and prev (complement end_edges.applied))
              (bit_and buttons end_edges.applied)))
          (sym w.prev_kept)

  -- With an accepting queue every edge is applied.
  module _ (always : (log : List Attempt) (e : Event) → accepts log e ≡ true) (changed : ℕ) where
    abbrev Applied : ℕ → Edges → Type 0
    Applied i s = (j : ℕ) → bit j s.applied ≡ (if ltb j i then bit j changed else 0)

    publish_edge-Applied :
        (i : ℕ) (s : Edges)
        → Applied i s
        → Applied (suc i) (publish_edge accepts buttons changed i s)
    unfolding publish_edge
    publish_edge-Applied i s v j = ground (
      arith,
      v j,
      meets-digit i changed,
      bit_set_digit i j s.applied,
      always (s.device).log (key (btn i) (bit i buttons) false),
    )

    publish_edges-Applied :
        (left i : ℕ) (s : Edges)
        → Applied i s
        → Applied (i + left) (publish_edges accepts buttons changed left i s)
    unfolding publish_edges
    publish_edges-Applied zero i s v = rw add-zero v
    publish_edges-Applied (suc left) i s v =
        subst (λ n. Applied n (publish_edges accepts buttons changed (suc left) i s))
          {x = i + 1 + left} {y = i + suc left} (omega arith)
          (publish_edges-Applied left (i + 1) (publish_edge accepts buttons changed i s) (
            subst (λ n. Applied n (publish_edge accepts buttons changed i s)) {x = suc i}
              {y = i + 1} (omega arith) (publish_edge-Applied i s v)))

  pub publish_buttons_reaches :
      ((log : List Attempt) (e : Event) → accepts log e ≡ true)
      → (j : ℕ) → j < 8
      → Tracks d
      → bit j (publish_buttons accepts buttons d).prev_buttons ≡ bit j buttons
  unfolding publish_buttons start_edges end_edges
  publish_buttons_reaches always j below v =
      let w = end-Settled v in
      let applied =
        publish_edges-Applied always (bit_xor buttons d.prev_buttons) 8 0 start_edges
          (λ k. ground (arith, no_digit k)) j in
      ap
        (λ (prev : ℕ). bit j (
          bit_or (bit_and prev (complement end_edges.applied)) (bit_and buttons end_edges.applied)))
        w.prev_kept
      ∙ merged_digit d.prev_buttons buttons end_edges.applied j w.small below
      ∙ reached (bit j end_edges.applied) (bit j d.prev_buttons) (bit j buttons) (omega arith)
          (omega arith)
          (applied
            ∙ ap (λ test. if test then bit j (bit_xor buttons d.prev_buttons) else 0)
                (lt→ltb j 8 below)
            ∙ bit-bit_xor j buttons d.prev_buttons)
