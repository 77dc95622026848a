-- ===== src/Decode/Trailing.antt =====
-- Bytes beyond the layout's last bit have no part in the result.
use zmk_ble_hid_host.Base.{
  ℕ, zero, suc, ◌+◌, ◌*◌, ◌/◌, ◌^◌, ◌≤◌, ◌<◌, ◌≡◌, ◌≢◌, refl, ap, List, [], ◌∷◌, ◌++◌, some, length,
  arith, ltb, if◌then◌else◌, bit_or, get_elem?, length-append, le→ltb, >>=-congr, ◌∙◌,
  get_elem?-eq-get_or, get_or, sym,
}
use native.Mathlib.Decide.{ℕ_discrete}
use zmk_ble_hid_host.Layout.{Field, ReportLayout, PointerReport}
use zmk_ble_hid_host.Decode.Extract.{digit, gather, extract}
use zmk_ble_hid_host.Decode.Pointer.{
  stride, payload_bits, button_field, gather_buttons, decode_report,
}
use zmk_ble_hid_host.Decode.Buttons.{button_field-eq-gather}
use zmk_ble_hid_host.Decode.Exact.{IsCovered, payload_bits-IsCovered}

get_elem?-append :
    (bs extra : List ℕ) (i : ℕ) → i < length bs → get_elem? (bs ++ extra) i ≡ get_elem? bs i
get_elem?-append [] extra i h = absurd (omega arith)
get_elem?-append (b ∷ bs) extra zero h = refl
get_elem?-append (b ∷ bs) extra (suc i) h = get_elem?-append bs extra i (omega arith)

module _ (bs extra : List ℕ) where
  gather-append :
      (offset left i v : ℕ)
      → offset + i + left ≤ 8 * length bs
      → gather (bs ++ extra) offset left i v ≡ gather bs offset left i v
  unfolding gather
  gather-append offset zero i v fits = refl
  gather-append offset (suc left) i v fits = ground (
    arith,
    get_elem?-append bs extra ((offset + i) / 8) (omega arith),
    get_elem?-eq-get_or bs ((offset + i) / 8) 0,
    gather-append offset left (i + 1)
        (bit_or v (digit (get_or bs ((offset + i) / 8) 0) (offset + i) * 2 ^ i)) (omega arith),
  )

  extract-append :
      (f : Field)
      → (f.bit_size ≢ 0 → f.bit_offset + f.bit_size ≤ 8 * length bs)
      → extract (bs ++ extra) f ≡ extract bs f
  unfolding extract
  extract-append f fits = elim (ℕ_discrete f.bit_size 0) [
    | yes absent ↦ ground arith
    | no present ↦
        ground (arith, gather-append f.bit_offset f.bit_size 0 0 (omega (arith, fits present)))
  ]

  button_field-append :
      (base width : ℕ)
      → base + width ≤ 8 * length bs
      → button_field (bs ++ extra) base width 0 0 ≡ button_field bs base width 0 0
  button_field-append base width fits =
      button_field-eq-gather (bs ++ extra) base width 0 0 (omega (arith, length-append bs extra))
      ∙ gather-append base width 0 0 (omega arith)
      ∙ sym (button_field-eq-gather bs base width 0 0 (omega arith))

  gather_buttons-append :
      (l : ReportLayout) (left i buttons : ℕ)
      → (left ≢ 0 → l.buttons.bit_offset + (i + left) * stride l ≤ 8 * length bs)
      → gather_buttons (bs ++ extra) l left i buttons ≡ gather_buttons bs l left i buttons
  unfolding gather_buttons
  gather_buttons-append l zero i buttons fits = refl
  gather_buttons-append l (suc left) i buttons fits =
      rw (button_field-append (l.buttons.bit_offset + i * stride l) (stride l) here) (
        ap (λ rest. if ltb i 16 then rest else some buttons)
          (>>=-congr (button_field bs (l.buttons.bit_offset + i * stride l) (stride l) 0 0) _ _
            λ field. gather_buttons-append l left (i + 1) _ (λ _. grind (arith, fits'))))
    where
      fits' : l.buttons.bit_offset + (i + suc left) * stride l ≤ 8 * length bs
      fits' = fits (omega arith)

      here : l.buttons.bit_offset + i * stride l + stride l ≤ 8 * length bs
      here = grind (arith, fits')

-- Appending bytes to a payload that is long enough changes nothing: neither the report nor whether
-- the decoder runs into an undefined shift.
pub decode_report-append :
    (l : ReportLayout) (bs extra : List ℕ) (out : PointerReport)
    → payload_bits l ≤ 8 * length bs
    → decode_report (some l) (some (bs ++ extra)) (some out)
      ≡ decode_report (some l) (some bs) (some out)
unfolding decode_report
decode_report-append l bs extra out enough = simp (
  le→ltb (length bs) ((payload_bits l + 7) / 8) (omega arith),
  le→ltb (length (bs ++ extra)) ((payload_bits l + 7) / 8) (omega (arith, length-append bs extra)),
  extract-append bs extra l.x (λ h. omega (arith, covered.x h)),
  extract-append bs extra l.y (λ h. omega (arith, covered.y h)),
  extract-append bs extra l.wheel (λ h. omega (arith, covered.wheel h)),
  extract-append bs extra l.hwheel (λ h. omega (arith, covered.hwheel h)),
  gather_buttons-append bs extra l l.button_count 0 0 (λ h. omega (arith, covered.buttons h)),
)
  where
    covered : IsCovered l (payload_bits l)
    covered = payload_bits-IsCovered l
