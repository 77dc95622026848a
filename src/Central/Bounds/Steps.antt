-- ===== src/Central/Bounds/Steps.antt =====
-- Each step of the discovery keeps the counters within their arrays.
use zmk_ble_hid_host.Base.{
  ℕ, zero, suc, ◌+◌, ◌-◌, ◌^◌, ◌≤◌, ◌<◌, ◌≡◌, refl, false, Option, none, some, List, [], ◌∷◌, ◌++◌,
  length, take, length-append, length-take, ltb, leb, if◌then◌else◌, u16, arith, Bool-cases, inl,
  inr, if_holds,
}
use zmk_ble_hid_host.Layout.{ReportLayout, empty_kbd_layout}
use zmk_ble_hid_host.Decode.Pointer.{Returned}
use zmk_ble_hid_host.Parser.Walk.{parse_report_map, pointer_result}
use zmk_ble_hid_host.Parser.Bounds.Result.{parse_report_map_total}
use zmk_ble_hid_host.Central.State.{
  DiscState, disc_report_ref, disc_ccc, hids_report_ref, gatt_ccc, Request, read, is_ok, Stack,
  Central,
}
use zmk_ble_hid_host.Central.Discovery.{
  reference_id, publish_layout, ask, discover_or_idle, start_report_discovery, descriptor_request,
  discover_ccc, subscribe_pending, report_ref_read_cb, read_report_ref, append_chunk,
  report_map_done, report_map_read_cb, read_report_map,
}
use zmk_ble_hid_host.Central.Bounds.Counters.{
  BoundsIn, IsWiring, Ready, Safe, Safe-bind, Wired, descriptor_request-inside, from_Ready,
  kept_fits, to_Ready,
}

module _ {Q : Type 0} (answers : Stack) where
  pub discover_or_idle-Wired :
      (r : Request) (c : Central Q) → Wired c → Wired (discover_or_idle answers r c)
  discover_or_idle-Wired r c v =
      if_holds Wired (is_ok (answers c.requests r)) _ _ v (to_Ready c.disc_state c v)

  pub start_report_discovery-Wired :
      (c : Central Q) → Ready c → Wired (start_report_discovery answers c)
  unfolding start_report_discovery
  start_report_discovery-Wired c v = discover_or_idle-Wired _ _ (record {
    cells = v.cells;
    sub_cells = v.sub_cells;
    few = omega arith;
    few_subs = omega arith;
    inside = omega arith;
    wiring = λ none. absurd none;
    short = v.short;
  })

  pub discover_ccc-Safe :
      (c : Central Q) → Ready c → c.pending_idx < c.pending_count → Safe (discover_ccc answers c)
  unfolding discover_ccc
  discover_ccc-Safe c v less =
      let (r, e) = descriptor_request-inside gatt_ccc c v less in
      Safe-bind (descriptor_request gatt_ccc c) _ r e (
        _,
        refl,
        discover_or_idle-Wired r (record c { disc_state = disc_ccc })
            (from_Ready disc_ccc c less v),
      )

  pub subscribe_pending-Safe : (c : Central Q) → Ready c → Safe (subscribe_pending answers c)
  unfolding subscribe_pending
  subscribe_pending-Safe c v = elim (Bool-cases (leb c.pending_count c.pending_idx)) [
    | inl done ↦ rw done (_, refl, v)
    | inr more ↦
        let less : c.pending_idx < c.pending_count = ground (arith, more) in
        let (r, e) = descriptor_request-inside hids_report_ref c v less in
        let asked : Central Q =
          ask r (record c { cur_report_id = 0; disc_state = disc_report_ref }) in
        rw more (
          Safe-bind (descriptor_request hids_report_ref c) _ r e (
            if_holds Safe (is_ok (answers c.requests r)) (some asked) (discover_ccc answers asked)
              (asked, refl, from_Ready disc_report_ref c less v) (discover_ccc-Safe asked v less)))
  ]

  report_ref_read_cb-Safe :
      (err : ℕ) (value : Option (List ℕ)) (c : Central Q)
      → Wired c
      → IsWiring c.disc_state
      → Safe (report_ref_read_cb answers err value c)
  unfolding report_ref_read_cb
  report_ref_read_cb-Safe err value c v w =
      discover_ccc-Safe (record c { cur_report_id = reference_id err value })
        (to_Ready c.disc_state c v) (v.wiring w)

  pub read_report_ref-Safe :
      (handle : ℕ) (c : Central Q)
      → Wired c
      → IsWiring c.disc_state
      → Safe (read_report_ref answers handle c)
  unfolding read_report_ref
  read_report_ref-Safe handle c v w =
      let asked : Central Q = ask (read handle) c in
      if_holds Safe (is_ok (answers c.requests (read handle))) (some asked)
        (discover_ccc answers (record asked { cur_report_id = 0 })) (asked, refl, v)
        (discover_ccc-Safe (record asked { cur_report_id = 0 }) (to_Ready c.disc_state c v)
          (v.wiring w))

  with_buffer :
      (s : DiscState) (rm : List ℕ) (c : Central Q)
      → length rm ≤ 512
      → BoundsIn s c
      → BoundsIn s (record c { rm_buf = rm })
  with_buffer s rm c h v = record {
    cells = v.cells;
    sub_cells = v.sub_cells;
    few = v.few;
    few_subs = v.few_subs;
    inside = v.inside;
    wiring = v.wiring;
    short = h;
  }

  pub read_report_map-Wired :
      (value : ℕ) (c : Central Q) → Wired c → Wired (read_report_map answers value c)
  unfolding read_report_map
  read_report_map-Wired value c v =
      let asked : Central Q = ask (read value) (record c { rm_buf = [] }) in
      let cleared = with_buffer c.disc_state [] c (omega arith) v in
      if_holds Wired (is_ok (answers c.requests (read value))) asked
        (start_report_discovery answers asked) cleared
        (start_report_discovery-Wired asked (to_Ready c.disc_state asked cleared))

  append_chunk-Safe : (chunk : List ℕ) (c : Central Q) → Wired c → Safe (append_chunk chunk c)
  unfolding append_chunk
  append_chunk-Safe chunk c v =
      let room = u16 (512 + 2 ^ 16 - length c.rm_buf) in
      let count = if ltb (length chunk) room then length chunk else room in
      let kept = take count chunk in
      let fits : length c.rm_buf + length kept ≤ 512 =
        omega
          (arith, kept_fits (length c.rm_buf) (length chunk) v.short, length-take count chunk) in
      let no_fault : ltb 512 (length c.rm_buf + length kept) ≡ false = ground arith in
      rw no_fault (
        record c { rm_buf = c.rm_buf ++ kept },
        refl,
        with_buffer c.disc_state (c.rm_buf ++ kept) c
            (omega (arith, fits, length-append c.rm_buf kept)) v,
      )

  publish_layout-Ready :
      (r : Returned ReportLayout) (c : Central Q) → Ready c → Ready (publish_layout r c)
  unfolding publish_layout
  publish_layout-Ready r c v = by_result r.out
    where
      by_result :
          (out : Option ReportLayout)
          → Ready (publish_layout (record { code = r.code; out = out }) c)
      by_result none = v
      by_result (some l) = v

  report_map_done-Safe : (c : Central Q) → Wired c → Safe (report_map_done answers c)
  unfolding report_map_done
  report_map_done-Safe c v =
      let (p, ends, parsed, kbd) = parse_report_map_total c.rm_buf c.layout empty_kbd_layout in
      Safe-bind (parse_report_map (some c.rm_buf) (some c.layout)) _ (pointer_result p) parsed (
        start_report_discovery answers (publish_layout (pointer_result p) c),
        refl,
        start_report_discovery-Wired (publish_layout (pointer_result p) c)
            (publish_layout-Ready (pointer_result p) c (to_Ready c.disc_state c v)),
      )

  -- From counters within bounds, each answer to the report map read, a chunk of any length, the end
  -- or an error, has no undefined access and leaves the counters within bounds; the buffer is never
  -- filled beyond its 512 bytes.
  pub report_map_read_cb-Safe :
      (err : ℕ) (value : Option (List ℕ)) (c : Central Q)
      → Wired c
      → Safe (report_map_read_cb answers err value c)
  unfolding report_map_read_cb
  report_map_read_cb-Safe zero (some (b ∷ bs)) c v = append_chunk-Safe (b ∷ bs) c v
  report_map_read_cb-Safe zero (some []) c v = report_map_done-Safe c v
  report_map_read_cb-Safe zero none c v = report_map_done-Safe c v
  report_map_read_cb-Safe (suc err) value c v =
      (_, refl, start_report_discovery-Wired c (to_Ready c.disc_state c v))
