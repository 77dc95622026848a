-- ===== src/Peer/Usages.antt =====
-- The usages of a group of axes: listed as they come in, and taken by the slot loop in order.
use mathlib.Core.List.{foldl}
use zmk_ble_hid_host.Base.{
  ℕ, suc, ◌+◌, ◌*◌, ◌/◌, ◌%◌, ◌≤◌, ◌<◌, ◌≡◌, refl, sym, ap, ap₂, ◌∙◌, Bool, false, List, [], ◌∷◌,
  ◌++◌, append-nil, append_assoc, length, length-append, get_or, arith, ltb, ◌==◌, if◌then◌else◌,
  u16, u32, lt→ltb, Bool-cases, inl, inr,
}
use zmk_ble_hid_host.Base.Signed.{is_negative}
use zmk_ble_hid_host.Layout.{ReportLayout}
use zmk_ble_hid_host.Parser.State.{GlobalState, Parser, make_usage, item_u}
use zmk_ble_hid_host.Parser.Fields.{assign_usage, usage_for_slot, assign_slots}
use zmk_ble_hid_host.Parser.Items.{handle_item}
use zmk_ble_hid_host.Peer.Desc.{Cell, local_item, short_bytes, usage_items}
use zmk_ble_hid_host.Peer.Cursor.{item_u-byte, item_u-short_bytes}
use zmk_ble_hid_host.Peer.Numbers.{HoldAll}
use zmk_ble_hid_host.Peer.Groups.{listing, place_cells, cell_usages}

module _ (g : GlobalState) (cursor : ℕ) (o : ReportLayout) where
  -- A usage is put at the end of the list.
  list_usage :
      (us : List ℕ) (u : ℕ)
      → length us < 16
      → u < 65536
      → handle_item (listing g cursor o us) (local_item 0 (short_bytes u))
        ≡ listing g cursor o (us ++ make_usage g.usage_page u ∷ [])
  list_usage us u room h = elim (Bool-cases (ltb u 256)) [
    | inl small ↦ rw small (taken (u ∷ []) (item_u-byte u) refl)
    | inr large ↦ rw large (
        taken (u % 256 ∷ u / 256 ∷ [])
          (sym (ap (λ test. item_u (if test then u ∷ [] else u % 256 ∷ u / 256 ∷ [])) large)
            ∙ item_u-short_bytes u)
          refl)
  ]
    where
      computed :
          (payload : List ℕ)
          → (length payload == 4) ≡ false
          → handle_item (listing g cursor o us) (local_item 0 payload) ≡ (
              if ltb (length us) 16
              then listing g cursor o (us ++ make_usage g.usage_page (u16 (item_u payload)) ∷ [])
              else listing g cursor o us)
      computed payload short =
          unfold handle_item in
          ap
            (λ test.
              if ltb (length us) 16
              then listing g cursor o (
                  us
                  ++ (if test
                      then item_u payload
                      else make_usage g.usage_page (u16 (item_u payload)))
                    ∷ [])
              else listing g cursor o us)
            short

      taken :
          (payload : List ℕ)
          → item_u payload ≡ u
          → (length payload == 4) ≡ false
          → handle_item (listing g cursor o us) (local_item 0 payload)
            ≡ listing g cursor o (us ++ make_usage g.usage_page u ∷ [])
      taken payload e short =
          computed payload short
          ∙ ap
              (λ test.
                if test
                then listing g cursor o (us ++ make_usage g.usage_page (u16 (item_u payload)) ∷ [])
                else listing g cursor o us)
              (lt→ltb (length us) 16 room)
          ∙ ap (λ n. listing g cursor o (us ++ make_usage g.usage_page n ∷ []))
              (ap u16 e ∙ omega arith)

  pub list_usages :
      (sign : Bool) (size : ℕ) (us : List ℕ) (cells : List Cell)
      → length us + length cells ≤ 16
      → HoldAll size sign cells
      → foldl handle_item (listing g cursor o us) (usage_items cells)
        ≡ listing g cursor o (us ++ cell_usages g.usage_page cells)
  list_usages sign size us [] room h = ap (listing g cursor o) (sym (append-nil us))
  list_usages sign size us (c ∷ cells) room h =
      ap (λ p. foldl handle_item p (usage_items cells)) (list_usage us c.usage (omega arith) h.0.0)
      ∙ list_usages sign size (us ++ make_usage g.usage_page c.usage ∷ []) cells
          (omega (arith, length-append us (make_usage g.usage_page c.usage ∷ []))) h.1
      ∙ ap (listing g cursor o)
          (append_assoc us (make_usage g.usage_page c.usage ∷ []) (cell_usages g.usage_page cells))

get_or-append : (us vs : List ℕ) (u : ℕ) → get_or (us ++ u ∷ vs) (length us) 0 ≡ u
get_or-append [] vs u = refl
get_or-append (x ∷ us) vs u = get_or-append us vs u

-- The slot loop over cells whose usages are listed from `us` on.
pub assign_slots-cells :
    (cursor page size : ℕ) (sign : Bool) (p : Parser) (us : List ℕ) (cells : List Cell) (offset : ℕ)
    (o : ReportLayout)
    → p.usages ≡ us ++ cell_usages page cells
    → p.g.report_size ≡ size
    → is_negative p.g.logical_min ≡ sign
    → offset ≡ cursor + length us * size
    → offset + size * length cells ≤ 65535
    → assign_slots p cursor (length cells) (length us) o ≡ place_cells page offset size sign cells o
unfolding assign_slots
assign_slots-cells cursor page size sign p us [] offset o e es en eo fits = refl
assign_slots-cells cursor page size sign p us (c ∷ cells) offset o e es en eo fits =
    ap₂
      (λ u n.
        assign_slots p cursor (length cells) (length us + 1)
          (assign_usage o u n p.g.report_size (is_negative p.g.logical_min)))
      named (ap (λ n. u32 (cursor + length us * n)) es ∙ placed)
    ∙ ap₂
        (λ n s.
          assign_slots p cursor (length cells) (length us + 1)
            (assign_usage o (make_usage page c.usage) offset n s))
        es en
    ∙ ap
        (λ n.
          assign_slots p cursor (length cells) n
            (assign_usage o (make_usage page c.usage) offset size sign))
        (sym (length-append us (make_usage page c.usage ∷ [])))
    ∙ assign_slots-cells cursor page size sign p (us ++ make_usage page c.usage ∷ []) cells
        (offset + size) (assign_usage o (make_usage page c.usage) offset size sign)
        (e ∙ sym (append_assoc us (make_usage page c.usage ∷ []) (cell_usages page cells))) es en
        (next ∙ ap (λ n. cursor + n * size) (sym (length-append us (make_usage page c.usage ∷ []))))
        (omega (arith, more))
  where
    more : size * suc (length cells) ≡ size + size * length cells
    more = grind arith

    next : offset + size ≡ cursor + (length us + 1) * size
    next = grind arith

    placed : u32 (cursor + length us * size) ≡ offset
    placed = omega (arith, more)

    named : usage_for_slot p (length us) ≡ make_usage page c.usage
    named =
        unfold usage_for_slot in
        rw
          (
            e,
            length-append us (make_usage page c.usage ∷ cell_usages page cells),
            lt→ltb 0 (length us + suc (length (cell_usages page cells))) (omega arith),
            lt→ltb (length us) (length us + suc (length (cell_usages page cells))) (omega arith),
          )
          (get_or-append us (cell_usages page cells) (make_usage page c.usage))
