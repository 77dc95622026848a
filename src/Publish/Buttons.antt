-- ===== src/Publish/Buttons.antt =====
-- `prev_buttons` is what the consumer believes of the buttons, whatever the queue drops.
use native.Mathlib.Nat.{pow-suc, add-zero}
use native.Mathlib.Numerals.{add-one}
use native.Mathlib.Decide.{ℕ_discrete}
use zmk_ble_hid_host.Base.{
  ℕ, zero, suc, ◌+◌, ◌*◌, ◌^◌, ◌<◌, ◌≡◌, ap, ◌∙◌, ◌∷◌, Bool, true, false, arith, ◌==◌,
  if◌then◌else◌, bit, bit_or, meets, Bool-cases, inl, inr, ◌⊎◌, not, subst,
}
use zmk_ble_hid_host.Base.Bits.Step.{bit-bit_or}
use zmk_ble_hid_host.Base.Bits.Fields.{
  bit_and-pow, bit_or_disjoint, bit-pow_self, bit-pow_ne, two_pow_pos,
}
use zmk_ble_hid_host.Publish.Device.{
  btn, Event, key, Queue, Device, Edges, attempt, publish_edge, publish_edges,
}
use zmk_ble_hid_host.Publish.View.{seen, seen-cons}

-- Digit j of a mask that gets digit i.
pub bit_set_digit :
    (i j mask : ℕ) → bit j (bit_or mask (1 * 2 ^ i)) ≡ (if i == j then 1 else bit j mask)
bit_set_digit i j mask = elim (ℕ_discrete i j) [
  | yes same ↦
      ap (λ (t : ℕ). bit j (bit_or mask t)) (omega arith)
      ∙ bit-bit_or j mask (2 ^ i)
      ∙ ground (arith, bit-pow_self j)
  | no other ↦
      ap (λ (t : ℕ). bit j (bit_or mask t)) (omega arith)
      ∙ bit-bit_or j mask (2 ^ i)
      ∙ ground (arith, bit-pow_ne i j other)
]

-- `mask & (1 << i)` is the i-th digit.
pub meets-digit : (i mask : ℕ) → meets mask (1 * 2 ^ i) ≡ not (bit i mask == 0)
meets-digit i mask =
    ap (meets mask) {x = 1 * 2 ^ i} {y = 2 ^ i} (omega arith)
    ∙ ap (λ (t : ℕ). not (t == 0)) (bit_and-pow i mask)
    ∙ elim (ℕ_discrete (bit i mask) 0) [
      | yes clear ↦ rw clear (ground arith)
      | no set ↦ let one : bit i mask ≡ 1 = omega arith in rw one (ground (arith, two_pow_pos i))
    ]

-- Where the loop over the buttons stands at button `i`: the consumer has the new digit of the
-- buttons whose edge was applied and the old digit of the others.
pub record Settled (prev buttons i : ℕ) (s : Edges) : Type 0 where
  pub small : s.applied < 2 ^ i
  pub prev_kept : (s.device).prev_buttons ≡ prev
  pub agree :
      (j : ℕ)
      → j < 8
      → seen (btn j) (s.device).log ≡ (if bit j s.applied == 0 then bit j prev else bit j buttons)

module _ (accepts : Queue) (prev buttons changed : ℕ) where
  abbrev edge : ℕ → Event
  edge i = key (btn i) (bit i buttons) false

  abbrev tried_edge : ℕ → Bool → Device → Device
  tried_edge i taken d = record d { log = (edge i, taken) ∷ d.log }

  -- The edge was dropped: the attempt leaves no trace at the consumer.
  dropped-Settled :
      (i : ℕ) (s : Edges)
      → Settled prev buttons i s
      → Settled prev buttons
          (suc i)
          (record { applied = s.applied; device = tried_edge i false s.device })
  dropped-Settled i s v = record {
    small = omega (arith, v.small, pow-suc 2 i);
    prev_kept = v.prev_kept;
    agree = λ j below. seen-cons (btn j) (edge i, false) (s.device).log ∙ v.agree j below;
  }

  taken-Settled :
      (i : ℕ) (s : Edges)
      → Settled prev buttons i s
      → Settled prev buttons
          (suc i)
          (record { applied = bit_or s.applied (1 * 2 ^ i); device = tried_edge i true s.device })
  taken-Settled i s v = record {
    small = omega (arith, bit_or_disjoint i s.applied 1 v.small, v.small, pow-suc 2 i);
    prev_kept = v.prev_kept;
    agree = λ j below.
        seen-cons (btn j) (edge i, true) (s.device).log
        ∙ ground (arith, v.agree j below, bit_set_digit i j s.applied);
  }

  publish_edge-Settled :
      (i : ℕ) (s : Edges)
      → Settled prev buttons i s
      → Settled prev buttons (suc i) (publish_edge accepts buttons changed i s)
  unfolding publish_edge
  publish_edge-Settled i s v = elim (Bool-cases (meets changed (1 * 2 ^ i))) [
    | inr same ↦ rw same (record {
      small = omega (arith, v.small, pow-suc 2 i);
      prev_kept = v.prev_kept;
      agree = v.agree;
    })
    | inl differs ↦ rw differs (tried (Bool-cases (accepts (s.device).log (edge i))))
  ]
    where
      tried :
          ((accepts (s.device).log (edge i) ≡ true) ⊎ (accepts (s.device).log (edge i) ≡ false))
          → Settled prev buttons (suc i) (record {
            applied =
                if accepts (s.device).log (edge i) then bit_or s.applied (1 * 2 ^ i) else s.applied;
            device = attempt accepts (edge i) s.device;
          })
      tried (inl ok) = rw ok (taken-Settled i s v)
      tried (inr refused) = rw refused (dropped-Settled i s v)

  pub publish_edges-Settled :
      (left i : ℕ) (s : Edges)
      → Settled prev buttons i s
      → Settled prev buttons (i + left) (publish_edges accepts buttons changed left i s)
  unfolding publish_edges
  publish_edges-Settled zero i s v = rw add-zero v
  publish_edges-Settled (suc left) i s v =
      subst (λ n. Settled prev buttons n (publish_edges accepts buttons changed (suc left) i s))
        {x = suc i + left} {y = i + suc left} (omega arith)
        (rw (add-one i) (publish_edges-Settled left (suc i) _ (publish_edge-Settled i s v)))
