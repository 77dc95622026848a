-- ===== src/Decode/Refusals.antt =====
-- Where `zmk_hid_decode_report` gives no report: refused layouts, short payloads, wide fields.
use zmk_ble_hid_host.Base.{
  ℕ, ◌+◌, ◌*◌, ◌/◌, ◌≤◌, ◌<◌, ◌≡◌, ◌⊎◌, inl, inr, refl, List, some, none, length, arith, Bool, not,
  if◌then◌else◌, true, false, ltb, Option, lt→ltb, le→ltb, ◌>>=◌,
}
use zmk_ble_hid_host.Base.Signed.{ℤ}
use zmk_ble_hid_host.Layout.{ReportLayout, PointerReport, empty_report}
use zmk_ble_hid_host.Decode.Extract.{extract}
use zmk_ble_hid_host.Decode.Pointer.{Returned, failure, payload_bits, decode_report}
use zmk_ble_hid_host.Decode.Signs.{extract_wide}
use zmk_ble_hid_host.Decode.Exact.{IsCovered, payload_bits-IsCovered}

-- A call returns -1 and reads no field on a layout that is not valid and on a payload that ends
-- before the layout's last bit. `*out` is zeroed where the layout is valid and kept where it is not.
pub decode_report_refuses :
    (l : ReportLayout) (bs : List ℕ) (out : PointerReport)
    → ((l.valid ≡ false) ⊎ (8 * length bs < payload_bits l))
    → decode_report (some l) (some bs) (some out)
      ≡ some (record { code = failure; out = some (if l.valid then empty_report else out) })
unfolding decode_report
decode_report_refuses l bs out (inl invalid) = simp invalid
decode_report_refuses l bs out (inr short) =
    by_valid l.valid _ (lt→ltb (length bs) ((payload_bits l + 7) / 8) (omega arith))
  where
    by_valid :
        (valid : Bool) (r : Option (Returned PointerReport))
        → ltb (length bs) ((payload_bits l + 7) / 8) ≡ true
        → (if not valid
            then some (record { code = failure; out = some out })
            else if ltb (length bs) ((payload_bits l + 7) / 8)
            then some (record { code = failure; out = some empty_report })
            else r)
          ≡ some (record { code = failure; out = some (if valid then empty_report else out) })
    by_valid true r h = simp h
    by_valid false r h = refl

-- A field wider than 32 bits.
abbrev pub HasWideField : ReportLayout → Type 0
HasWideField l =
    (32 < l.x.bit_size) ⊎ (32 < l.y.bit_size) ⊎ (32 < l.wheel.bit_size) ⊎ (32 < l.hwheel.bit_size)

-- An undefined step anywhere in the chain makes the whole chain undefined.
chain_fault :
    {A : Type 0} (p q r s : Option ℤ) (k : ℤ → ℤ → ℤ → ℤ → Option A)
    → (p ≡ none) ⊎ (q ≡ none) ⊎ (r ≡ none) ⊎ (s ≡ none)
    → (p >>= λ a. q >>= λ b. r >>= λ c. s >>= λ d. k a b c d) ≡ none
chain_fault none q r s k h = refl
chain_fault (some a) none r s k h = refl
chain_fault (some a) (some b) none s k h = refl
chain_fault (some a) (some b) (some c) none k h = refl
chain_fault (some a) (some b) (some c) (some d) k h = ground arith

-- A valid layout with a delta field over 32 bits makes the decoder shift a uint32_t by 32 or more,
-- which C leaves undefined, on every payload that is long enough for the layout.
pub decode_report_wide :
    (l : ReportLayout) (bs : List ℕ) (out : PointerReport)
    → l.valid ≡ true
    → HasWideField l
    → payload_bits l ≤ 8 * length bs
    → decode_report (some l) (some bs) (some out) ≡ none
unfolding decode_report
decode_report_wide l bs out valid wide enough =
    simp (valid, le→ltb (length bs) ((payload_bits l + 7) / 8) (omega arith))
      (chain_fault (extract bs l.x) (extract bs l.y) (extract bs l.wheel) (extract bs l.hwheel) _
        faults)
  where
    covered : IsCovered l (payload_bits l)
    covered = payload_bits-IsCovered l

    faults :
        (extract bs l.x ≡ none)
        ⊎ (extract bs l.y ≡ none)
        ⊎ (extract bs l.wheel ≡ none)
        ⊎ (extract bs l.hwheel ≡ none)
    faults = elim wide [
      | inl w ↦ inl (extract_wide bs l.x w (omega (arith, covered.x (omega arith))))
      | inr (inl w) ↦ inr (inl (extract_wide bs l.y w (omega (arith, covered.y (omega arith)))))
      | inr (inr (inl w)) ↦
          inr (inr (inl (extract_wide bs l.wheel w (omega (arith, covered.wheel (omega arith))))))
      | inr (inr (inr w)) ↦
          inr (inr (inr (extract_wide bs l.hwheel w (omega (arith, covered.hwheel (omega arith))))))
    ]
