-- ===== src/Central/Delivery.antt =====
-- From a peer to the host: what a report map's chunks install, and what a notification publishes.
use zmk_ble_hid_host.Base.{
  ℕ, ◌*◌, ◌≤◌, ◌≡◌, ◌≢◌, refl, ap, ◌∙◌, true, false, not, ◌&&◌, Bool, Option, none, some, List, [],
  ◌∷◌, ◌++◌, length, take, take_min, take_all, get_elem?, ltb, if◌then◌else◌, ◌>>=◌, arith, ◌⊎◌,
  All,
}
use zmk_ble_hid_host.Layout.{empty_kbd_layout}
use zmk_ble_hid_host.Decode.Pointer.{success, failure, payload_bits}
use zmk_ble_hid_host.Decode.Value.{IsBytes}
use zmk_ble_hid_host.Decode.Exact.{IsNarrow, report_value}
use zmk_ble_hid_host.Parser.State.{Parser}
use zmk_ble_hid_host.Parser.Walk.{run_parser, pointer_found, pointer_result}
use zmk_ble_hid_host.Parser.Bounds.Result.{parse_report_map_total}
use zmk_ble_hid_host.Publish.Device.{Config, Queue, is_nonzero, publish}
use zmk_ble_hid_host.Central.State.{Subscription, is_ok, ReportEvt, Stack, MessageQueue, Central}
use zmk_ble_hid_host.Central.Discovery.{publish_layout, start_report_discovery, report_map_done}
use zmk_ble_hid_host.Central.Reports.{enqueue, report_work_handler, notify_cb}
use zmk_ble_hid_host.Central.Reassembly.{concat_chunks, read_chunks, read_chunks_lem}
use zmk_ble_hid_host.Central.Draining.{
  handle_all, drained, drained-queued, drains, handle_report_publishes,
}

-- What the parse says of the layout is what counts, or else what was said before.
installed :
    (found before : Bool)
    → (if not (is_nonzero (if found then success else failure)) && found then true else before)
      ≡ (if found then true else before)
installed true before = refl
installed false before = refl

module _ {Q : Type 0} (answers : Stack) where
  -- The same layout, and the same word on its validity.
  abbrev SameLayout : Central Q → Central Q → Type 0
  SameLayout c c' = (c'.layout ≡ c.layout) × (c'.layout_valid ≡ c.layout_valid)

  if_SameLayout :
      (c : Central Q) (test : Bool) (a b : Central Q)
      → SameLayout c a
      → SameLayout c b
      → SameLayout c (if test then a else b)
  if_SameLayout c true a b ha hb = ha
  if_SameLayout c false a b ha hb = hb

  -- The discovery that follows leaves the layout alone.
  start_report_discovery-SameLayout :
      (c : Central Q) → SameLayout c (start_report_discovery answers c)
  unfolding start_report_discovery
  start_report_discovery-SameLayout c =
      if_SameLayout c (is_ok (answers c.requests _)) _ _ (refl, refl) (refl, refl)

  -- However the report map arrives, in non-empty chunks into an empty buffer, the end of its read
  -- parses its first 512 bytes and installs what they say: the layout in the central is then the one
  -- that the parser found, marked valid if it found a pointer and invalid if it did not, and the
  -- central counts a layout as valid if it found one now or counted one before.
  pub report_map_installs :
      (chunks : List (List ℕ)) (c : Central Q)
      → c.rm_buf ≡ []
      → All (λ chunk. chunk ≢ []) chunks
      → (p : Parser) × (c' : Central Q) × (run_parser (take 512 (concat_chunks chunks)) ≡ some p)
        × ((read_chunks answers chunks c >>= report_map_done answers) ≡ some c')
        × (c'.layout ≡ record (p.out) { valid = pointer_found p })
        × (c'.layout_valid ≡ (if pointer_found p then true else c.layout_valid))
  unfolding report_map_done publish_layout
  report_map_installs chunks c empty full =
      let bytes = take 512 (concat_chunks chunks) in
      let (p, parsed, pointer, keyboard) = parse_report_map_total bytes c.layout empty_kbd_layout in
      let read : Central Q = record c { rm_buf = bytes } in
      let published : Central Q = publish_layout (pointer_result p) read in
      let (same, same_valid) = start_report_discovery-SameLayout published in
      (
        p,
        start_report_discovery answers published,
        parsed,
        ap (λ r. r >>= report_map_done answers)
              (read_chunks_lem answers chunks c (omega (arith, ap length empty)) full
                ∙ ap (λ buf. some (record c { rm_buf = take 512 (buf ++ concat_chunks chunks) }))
                    empty)
            ∙ ap
                (λ r. r >>= λ result.
                  some (start_report_discovery answers (publish_layout result read)))
                pointer,
        same,
        same_valid ∙ installed (pointer_found p) c.layout_valid,
      )

module _ (accepts : Queue) (cfg : Config) (mq : MessageQueue) where
  -- A notification on one of the subscriptions, whose report the empty queue takes and which belongs
  -- to the pointer (its id is the layout's, or it is the only one subscribed), of at most 32 bytes
  -- and long enough for a valid layout of fields of at most 32 bits, is published by the next run of
  -- the work handler with exactly the values in its bits; the queue is empty again and nothing else
  -- of the central changes.
  pub notification_delivers :
      (sub : ℕ) (bytes : List ℕ) (s : Subscription) (q : mq.Carrier) (c : Central mq.Carrier)
      → mq.queued c.report_msgq ≡ []
      → get_elem? c.subs sub ≡ some s
      → mq.put
          (record { value_handle = s.value_handle; report_id = s.report_id; evt_data = bytes })
          c.report_msgq
        ≡ some q
      → length bytes ≤ 32
      → c.layout_valid ≡ true
      → ((c.sub_count ≡ 1) ⊎ (s.report_id ≡ (c.layout).report_id))
      → IsBytes bytes
      → payload_bits c.layout ≤ 8 * length bytes
      → (c.layout).valid ≡ true
      → IsNarrow c.layout
      → (q' : mq.Carrier) × (mq.queued q' ≡ [])
        × ((notify_cb mq sub (some bytes) c >>= report_work_handler accepts cfg mq 2)
            ≡ some (record c {
              report_msgq = q';
              work_submitted = true;
              host_dev = publish accepts cfg (report_value bytes c.layout) c.host_dev;
            }))
  unfolding notify_cb handle_all
  notification_delivers sub bytes s q c idle subscribed put short ready ours are_bytes enough valid
        narrow =
      let evt : ReportEvt = record {
        value_handle = s.value_handle;
        report_id = s.report_id;
        evt_data = bytes;
      } in
      let queued : Central mq.Carrier = record c { report_msgq = q; work_submitted = true } in
      let whole = take_min 32 bytes ∙ take_all 32 bytes short in
      let notified : notify_cb mq sub (some bytes) c ≡ some queued =
        ap
          (λ o. o >>= λ s'. some (
            enqueue mq
              (record {
                value_handle = s'.value_handle;
                report_id = s'.report_id;
                evt_data = take (if ltb (length bytes) 32 then length bytes else 32) bytes;
              })
              c))
          subscribed
        ∙ ap
            (λ data_kept. some (
              enqueue mq
                (record {
                  value_handle = s.value_handle;
                  report_id = s.report_id;
                  evt_data = data_kept;
                })
                c))
            whole
        ∙ ap
            (λ (o : Option mq.Carrier).
              some (elim o [
                | none ↦ c
                | some q ↦ record c { report_msgq = q; work_submitted = true }
              ]))
            put in
      let one : mq.queued q ≡ evt ∷ [] =
        mq.put-queued evt c.report_msgq q put ∙ ap (λ es. es ++ (evt ∷ [])) idle in
      (
        drained accepts cfg mq 1 q,
        drained-queued accepts cfg mq q (evt ∷ []) one,
        ap (λ r. r >>= report_work_handler accepts cfg mq 2) notified
            ∙ drains accepts cfg mq (evt ∷ []) queued one
            ∙ ap
                (λ r. r >>= handle_all accepts cfg [] >>= λ d.
                  some (record d { report_msgq = drained accepts cfg mq 1 q }))
                (handle_report_publishes accepts cfg mq.Carrier evt queued ready ours are_bytes
                  enough valid narrow),
      )
