-- ===== src/Central/Reports.antt =====
-- Notifications: queued on the Bluetooth thread, decoded and published on the system work queue.
use zmk_ble_hid_host.Base.{
  ℕ, zero, suc, true, not, ◌&&◌, Option, none, some, List, length, take, get_elem?, ltb, ◌==◌,
  if◌then◌else◌, ◌>>=◌,
}
use zmk_ble_hid_host.Layout.{PointerReport, empty_report}
use zmk_ble_hid_host.Decode.Pointer.{Returned, decode_report}
use zmk_ble_hid_host.Publish.Device.{Config, Queue, Device, is_nonzero, publish}
use zmk_ble_hid_host.Central.State.{evt_data_max, ReportEvt, MessageQueue, Central, store}

module _ (accepts : Queue) (cfg : Config) where
  -- A decoded report is published when the decoder returned 0.
  abbrev pub publish_decoded : Returned PointerReport → Device → Device
  publish_decoded r d = elim r.out [
    | none ↦ d
    | some report ↦ if is_nonzero r.code then d else publish accepts cfg report d
  ]

  -- One round of the loop of `report_work_handler`. The decoder's result does not depend on what
  -- its output struct held.
  unfoldable pub handle_report : {Q : Type 0} → ReportEvt → Central Q → Option (Central Q)
  unfolding decode_report publish
  handle_report evt c =
      if not c.layout_valid
      then some c
      else if not (c.sub_count == 1) && not (evt.report_id == (c.layout).report_id)
      then some c
      else (decode_report (some c.layout) (some evt.evt_data) (some empty_report) >>= λ r.
          some (record c { host_dev = publish_decoded r c.host_dev }))

  module _ (mq : MessageQueue) where
    -- A round of the loop by what k_msgq_get returned; `loop` is what follows it.
    unfoldable pub next_round :
        (Central mq.Carrier → Option (Central mq.Carrier))
        → Option (ReportEvt × mq.Carrier)
        → Central mq.Carrier
        → Option (Central mq.Carrier)
    unfolding handle_report
    next_round loop none c = some c
    next_round loop (some (evt, rest)) c =
        handle_report evt (record c { report_msgq = rest }) >>= loop

    -- The loop, on fuel; `none` for running out of it.
    unfoldable pub report_work_handler : ℕ → Central mq.Carrier → Option (Central mq.Carrier)
    unfolding next_round
    report_work_handler zero c = none
    report_work_handler (suc fuel) c =
        next_round (report_work_handler fuel) (mq.get c.report_msgq) c

module _ (mq : MessageQueue) where
  abbrev pub enqueue : ReportEvt → Central mq.Carrier → Central mq.Carrier
  enqueue evt c = elim (mq.put evt c.report_msgq) [
    | none ↦ c
    | some q ↦ record c { report_msgq = q; work_submitted = true }
  ]

  -- `sub` is the index in `subs` of the subscription whose params the stack passes.
  unfoldable pub notify_cb : ℕ → Option (List ℕ) → Central mq.Carrier → Option (Central mq.Carrier)
  notify_cb sub none c = get_elem? c.subs sub >>= λ s.
      store c.subs sub (record s { value_handle = 0 }) >>= λ subs. some (record c { subs = subs })
  notify_cb sub (some value) c = get_elem? c.subs sub >>= λ s. some (
      enqueue
        (record {
          value_handle = s.value_handle;
          report_id = s.report_id;
          evt_data =
              take (if ltb (length value) evt_data_max then length value else evt_data_max) value;
        })
        c)
