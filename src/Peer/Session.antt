-- ===== src/Peer/Session.antt =====
-- From the device's values to the events of the input device.
use zmk_ble_hid_host.Base.{
  ℕ, ◌*◌, ◌≤◌, ◌≡◌, ◌≢◌, refl, sym, ap, ◌∙◌, subst, true, Option, some, List, [], ◌∷◌, length,
  get_elem?, ◌>>=◌, arith, All, inr,
}
use zmk_ble_hid_host.Layout.{ReportLayout, PointerReport, empty_layout}
use zmk_ble_hid_host.Publish.Device.{rel_x, rel_y, Queue, Config, publish}
use zmk_ble_hid_host.Decode.Pointer.{Returned, success, payload_bits}
use zmk_ble_hid_host.Decode.Exact.{IsNarrow, report_value}
use zmk_ble_hid_host.Parser.Stream.{encode_all}
use zmk_ble_hid_host.Parser.Walk.{parse_report_map}
use zmk_ble_hid_host.Publish.Pointer.{publish_all}
use zmk_ble_hid_host.Peer.Layout.{parse_report_map-map_items}
use zmk_ble_hid_host.Central.State.{
  Request, Subscription, ok, Stack, MessageQueue, ReportEvt, Central,
}
use zmk_ble_hid_host.Central.Reports.{notify_cb, report_work_handler}
use zmk_ble_hid_host.Central.Reassembly.{concat_chunks}
use zmk_ble_hid_host.Central.Delivery.{notification_delivers}
use zmk_ble_hid_host.Central.Wiring.{Described}
use zmk_ble_hid_host.Central.Wiring.Steps.{then_some}
use zmk_ble_hid_host.Central.Session.{Service, notifying, bring_up}
use zmk_ble_hid_host.Peer.Desc.{
  Peer, map_items, report_bytes, report_length, report_number, total_width,
}
use zmk_ble_hid_host.Peer.Meant.{IsPeer, Placed, find_axis, layout_of, meant}
use zmk_ble_hid_host.Peer.Bytes.{le_bytes-IsBytes, length-le_bytes}
use zmk_ble_hid_host.Peer.RoundTrip.{
  layout_of-enough, layout_of-IsNarrow, report_value-report_bytes,
}
use zmk_ble_hid_host.Peer.Link.{bring_up_lem}
use zmk_ble_hid_host.Central.Session.Expected.{get_elem?-take, expected_at}

-- A report of the same device: one whose map has the same bytes, with an X and a Y axis of its own,
-- of at most 32 bytes.
pub record Sends (d e : Peer) : Type 0 where
  pub valid : IsPeer e
  pub x : (x : Placed) × (find_axis rel_x 0 e.groups ≡ some x)
  pub y : (y : Placed) × (find_axis rel_y 0 e.groups ≡ some y)
  pub same_map : encode_all (map_items e) ≡ encode_all (map_items d)
  pub short : total_width e.groups ≤ 256

some-injective : {A : Type 0} (a b : A) → Option.some a ≡ some b → a ≡ b
some-injective a b h = cc

-- The same bytes have the same layout.
Sends-layout :
    (d e : Peer) (x y : Placed)
    → IsPeer d
    → find_axis rel_x 0 d.groups ≡ some x
    → find_axis rel_y 0 d.groups ≡ some y
    → Sends d e
    → layout_of e ≡ layout_of d
Sends-layout d e x y v has_x has_y sends = some-injective (layout_of e) (layout_of d) (
    ap (λ (r : Returned ReportLayout). r.out)
      (some-injective (parsed e) (parsed d) (
        sym (
          parse_report_map-map_items e sends.x.0 sends.y.0 empty_layout sends.valid sends.x.1
            sends.y.1)
        ∙ ap (λ bytes. parse_report_map (some bytes) (some empty_layout)) sends.same_map
        ∙ parse_report_map-map_items d x y empty_layout v has_x has_y)))
  where
    parsed : Peer → Returned ReportLayout
    parsed d = record { code = success; out = some (layout_of d) }

abbrev pub all_meant : List Peer → List PointerReport
all_meant [] = []
all_meant (e ∷ es) = meant e ∷ all_meant es

module _ (accepts : Queue) (cfg : Config) (mq : MessageQueue)
    (room : (e : ReportEvt) (q : mq.Carrier)
      → mq.queued q ≡ []
      → (q' : mq.Carrier) × (mq.put e q ≡ some q')) where
  -- Each report is notified on subscription `i`, and the work handler runs.
  abbrev pub send_all : ℕ → List Peer → Central mq.Carrier → Option (Central mq.Carrier)
  send_all i [] c = some c
  send_all i (e ∷ es) c =
      notify_cb mq i (some (report_bytes e)) c
      >>= report_work_handler accepts cfg mq 2
      >>= send_all i es

  -- The link is up for the device.
  record IsUp (d : Peer) (i : ℕ) (sub : Subscription) (c : Central mq.Carrier) : Type 0 where
    pub layout : c.layout ≡ layout_of d
    pub valid : c.layout_valid ≡ true
    pub empty : mq.queued c.report_msgq ≡ []
    pub subscribed : get_elem? c.subs i ≡ some sub
    pub ours : sub.report_id ≡ d.report_id

  send_one :
      (d e : Peer) (i : ℕ) (sub : Subscription) (c : Central mq.Carrier)
      → IsUp d i sub c
      → Sends d e
      → layout_of e ≡ layout_of d
      → (c' : Central mq.Carrier) × ((notify_cb mq i (some (report_bytes e)) c
            >>= report_work_handler accepts cfg mq 2)
          ≡ some c')
        × (c'.host_dev ≡ publish accepts cfg (meant e) c.host_dev)
        × IsUp d i sub c'
  send_one d e i sub c up sends same =
      let layout : c.layout ≡ layout_of e = up.layout ∙ sym same in
      let evt : ReportEvt = record {
        value_handle = sub.value_handle;
        report_id = sub.report_id;
        evt_data = report_bytes e;
      } in
      let (q, put) = room evt c.report_msgq up.empty in
      let (q', empty, delivered) =
        notification_delivers accepts cfg mq i (report_bytes e) sub q c up.empty up.subscribed put
          (omega (arith, sends.short, length-le_bytes (report_length e) (report_number e.groups)))
          up.valid (inr (up.ours ∙ ap (λ (l : ReportLayout). l.report_id) (sym up.layout)))
          (le_bytes-IsBytes (report_length e) (report_number e.groups))
          (subst (λ l. payload_bits l ≤ 8 * length (report_bytes e)) (sym layout)
            (layout_of-enough e sends.valid))
          (ap (λ (l : ReportLayout). l.valid) layout)
          (subst IsNarrow (sym layout) (layout_of-IsNarrow e sends.valid)) in
      (
        record c {
          report_msgq = q';
          work_submitted = true;
          host_dev = publish accepts cfg (report_value (report_bytes e) c.layout) c.host_dev;
        },
        delivered,
        ap (λ l. publish accepts cfg (report_value (report_bytes e) l) c.host_dev) layout
            ∙ ap (λ r. publish accepts cfg r c.host_dev) (report_value-report_bytes e sends.valid),
        record {
          layout = up.layout;
          valid = up.valid;
          empty = empty;
          subscribed = up.subscribed;
          ours = up.ours;
        },
      )

  module _ (d : Peer) (x y : Placed) (v : IsPeer d) (has_x : find_axis rel_x 0 d.groups ≡ some x)
      (has_y : find_axis rel_y 0 d.groups ≡ some y) where
    send_all-publishes :
        (es : List Peer) (i : ℕ) (sub : Subscription) (c : Central mq.Carrier)
        → IsUp d i sub c
        → All (Sends d) es
        → (c' : Central mq.Carrier) × (send_all i es c ≡ some c')
          × (c'.host_dev ≡ publish_all accepts cfg (all_meant es) c.host_dev)
          × (mq.queued c'.report_msgq ≡ [])
    send_all-publishes [] i sub c up sends = (c, refl, refl, up.empty)
    send_all-publishes (e ∷ es) i sub c up sends =
        let (c1, first, device, up1) =
          send_one d e i sub c up sends.0 (Sends-layout d e x y v has_x has_y sends.0) in
        let (c2, rest, device2, empty) = send_all-publishes es i sub c1 up1 sends.1 in
        (
          c2,
          then_some
                (notify_cb mq i (some (report_bytes e)) c >>= report_work_handler accepts cfg mq 2)
                (send_all i es) c1 first
              ∙ rest,
          device2 ∙ ap (publish_all accepts cfg (all_meant es)) device,
          empty,
        )

    -- From the device's hand to the host. A device with an X and a Y axis describes itself by a report
    -- map of at most 512 bytes that arrives in non-empty chunks; the stack accepts every call, each of
    -- its notifying reports, twelve at most, is found with its Report Reference and CCC, and the link
    -- is encrypted at level 2 or more. It then sends reports of at most 32 bytes, one at a time and
    -- each with its own values, on the characteristic whose Report Reference has its report ID, and
    -- the queue of reports, empty at first, takes an event whenever it is empty. Then the central runs
    -- without a fault from the encryption to the last report, the input device has been given exactly
    -- the movements and the buttons that the device meant, report by report and in order, and the
    -- queue is empty again.
    pub device_reaches_host :
        (answers : Stack) (conn addr now level : ℕ) (s : Service) (chunks : List (List ℕ)) (i : ℕ)
        (w : Described) (sent : List Peer) (c : Central mq.Carrier)
        → ((calls : List Request) (r : Request) → answers calls r ≡ ok)
        → 2 ≤ level
        → All (λ chunk. chunk ≢ []) chunks
        → concat_chunks chunks ≡ encode_all (map_items d)
        → length (encode_all (map_items d)) ≤ 512
        → length c.pending_reports ≡ 12
        → length c.subs ≡ 12
        → length (notifying s.chrcs) ≤ 12
        → length (notifying s.chrcs) ≡ length s.reports
        → get_elem? s.reports i ≡ some w
        → w.id ≡ d.report_id
        → All (Sends d) sent
        → mq.queued c.report_msgq ≡ []
        → (c' : Central mq.Carrier) × ((bring_up answers conn addr now level s chunks c
              >>= send_all i sent)
            ≡ some c')
          × (c'.host_dev ≡ publish_all accepts cfg (all_meant sent) c.host_dev)
          × (mq.queued c'.report_msgq ≡ [])
    device_reaches_host answers conn addr now level s chunks i w sent c accepting secure full whole
          short cells sub_cells few all at ours sends idle =
        let (up, brought, idle_state, count, subs, left) =
          bring_up_lem answers accepting d x y v has_x has_y conn addr now level s chunks c secure
            full whole short cells sub_cells few all in
        let (handle, wanted) = expected_at (notifying s.chrcs) s.reports i w all at in
        let sub : Subscription = record {
          report_id = w.id;
          value_handle = handle;
          ccc_handle = (w.ccc).handle;
        } in
        let (c', sent_all, device, empty) =
          send_all-publishes sent i sub up
            (record {
              layout = ap (λ t. t.0) left;
              valid = ap (λ t. t.1) left;
              empty = ap mq.queued (ap (λ t. t.2) left) ∙ idle;
              subscribed =
                  get_elem?-take up.sub_count i up.subs sub
                    (ap (λ ys. get_elem? ys i) subs ∙ wanted);
              ours = ours;
            })
            sends in
        (
          c',
          then_some (bring_up answers conn addr now level s chunks c) (send_all i sent) up brought
              ∙ sent_all,
          device ∙ ap (publish_all accepts cfg (all_meant sent)) (ap (λ t. t.3) left),
          empty,
        )
