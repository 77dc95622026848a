-- ===== src/Probe/Bounds/Result.antt =====
-- Every callback of the probe, and every sequence of them.
use zmk_ble_hid_host.Base.{ℕ, refl, not, ◌||◌, some, List, [], ◌∷◌, ltb, ◌==◌, arith, All, if_holds}
use zmk_ble_hid_host.Central.State.{is_ok}
use zmk_ble_hid_host.Central.Advert.{AdElement}
use zmk_ble_hid_host.Central.Peers.{AdvType}
use zmk_ble_hid_host.Central.Link.{is_current}
use zmk_ble_hid_host.Probe.State.{
  DiscState, disc_idle, disc_hids_primary, scan_stop, create, Stack, Probe,
}
use zmk_ble_hid_host.Probe.Discovery.{start_discovery}
use zmk_ble_hid_host.Probe.Advert.{AdInfo, parse_advert, has_name}
use zmk_ble_hid_host.Probe.Agreement.{parse_advert_agrees}
use zmk_ble_hid_host.Probe.Seen.{should_log}
use zmk_ble_hid_host.Probe.Link.{
  is_interesting, log_sighting, is_target, start_scan, connect_to, device_found, connected,
  security_changed, disconnected,
}
use zmk_ble_hid_host.Probe.Events.{
  Event, notified, discovered, advertised, linked, secured, dropped, IsWithin, handle, handle_all,
}
use zmk_ble_hid_host.Probe.Bounds.{IsWiring, FitsIn, IsWired, Safe, Safe-bind}
use zmk_ble_hid_host.Probe.Bounds.Table.{should_log-Safe}
use zmk_ble_hid_host.Probe.Bounds.Wiring.{notify_cb-Safe, discover_func-Safe}

module _ (answers : Stack) where
  log_sighting-Safe :
      (addr : ℕ) (ai : AdInfo) (p : Probe) → IsWired p → Safe (log_sighting addr ai p)
  unfolding log_sighting
  log_sighting-Safe addr ai p v =
      let (l, e, w) = should_log-Safe addr (has_name ai.name) p v in
      if_holds Safe (is_interesting ai) _ (some p)
        (Safe-bind (should_log addr (has_name ai.name) p) _ l e (
          _,
          refl,
          if_holds IsWired l.worth (record l.after { saw = addr ∷ (l.after).saw }) l.after w w,
        ))
        (_, refl, v)

  connect_to-IsWired :
      (addr conn : ℕ) (p : Probe) → IsWired p → IsWired (connect_to answers addr conn p)
  unfolding connect_to start_scan
  connect_to-IsWired addr conn p v =
      if_holds IsWired (not (is_ok (answers p.requests scan_stop))) _ _ v
        (if_holds IsWired (is_ok (answers (scan_stop ∷ p.requests) (create addr))) _ _ v v)

  device_found-Safe :
      (bonds : List ℕ) (addr : ℕ) (type : AdvType) (es : List AdElement) (now conn : ℕ) (p : Probe)
      → IsWired p
      → Safe (device_found answers bonds addr type es now conn p)
  unfolding device_found
  device_found-Safe bonds addr type es now conn p v =
      let (ai, parsed, same) = parse_advert_agrees es in
      let (logged, e, w) = log_sighting-Safe addr ai p v in
      Safe-bind (parse_advert es) _ ai parsed (
        Safe-bind (log_sighting addr ai p) _ logged e (
          _,
          refl,
          if_holds IsWired (is_target bonds addr type ai.is_match now logged)
              (connect_to answers addr conn logged) logged (connect_to-IsWired addr conn logged w)
              w,
        ))

  connected-IsWired : (conn err : ℕ) (p : Probe) → IsWired p → IsWired (connected conn err p)
  unfolding connected start_scan
  connected-IsWired conn err p v = if_holds IsWired (err == 0) _ _ v v

  -- The counters at 0 fit.
  cleared :
      (s : DiscState) (p : Probe)
      → IsWired p
      → (IsWiring s → ⊥)
      → FitsIn s (record p { pending_count = 0; pending_idx = 0; sub_count = 0 })
  cleared s p v calm = record {
    cells = v.cells;
    param_cells = v.param_cells;
    seen_cells = v.seen_cells;
    few = omega arith;
    few_subs = omega arith;
    few_seen = v.few_seen;
    wiring = λ w. absurd (calm w);
  }

  security_changed-IsWired :
      (conn addr now level err : ℕ) (p : Probe)
      → IsWired p
      → IsWired (security_changed conn addr now level err p)
  unfolding security_changed start_discovery
  security_changed-IsWired conn addr now level err p v =
      if_holds IsWired (not (err == 0) || ltb level 2) _ _ v
        (cleared disc_hids_primary p v (λ none. none))

  disconnected-IsWired : (conn : ℕ) (p : Probe) → IsWired p → IsWired (disconnected conn p)
  unfolding disconnected start_scan
  disconnected-IsWired conn p v =
      if_holds IsWired (is_current p.default_conn conn) _ p (cleared disc_idle p v (λ none. none)) v

  handle-Safe : (e : Event) (p : Probe) → IsWithin e → IsWired p → Safe (handle answers e p)
  handle-Safe (notified sub value) p h v = notify_cb-Safe sub value p h v
  handle-Safe (discovered attr) p h v = discover_func-Safe answers attr p v
  handle-Safe (advertised bonds addr type es now conn) p h v =
      device_found-Safe bonds addr type es now conn p v
  handle-Safe (linked conn err) p h v = (_, refl, connected-IsWired conn err p v)
  handle-Safe (secured conn addr now level err) p h v =
      (_, refl, security_changed-IsWired conn addr now level err p v)
  handle-Safe (dropped conn) p h v = (_, refl, disconnected-IsWired conn p v)

  -- From counters within the arrays, every sequence of the probe's callbacks is free of accesses
  -- beyond the arrays of reports, subscriptions, seen advertisers and the advertised name, whatever the stack answers and the peers send, where each notification comes
  -- with one of the twelve subscription params: at most 12 pending reports, 12 subscriptions and
  -- 24 seen advertisers, and a report to wire while a CCC is looked for.
  pub handle_all-Safe :
      (es : List Event) (p : Probe) → All IsWithin es → IsWired p → Safe (handle_all answers es p)
  handle_all-Safe [] p h v = (p, refl, v)
  handle_all-Safe (e ∷ es) p h v =
      let (p', done, w) = handle-Safe e p h.0 v in
      Safe-bind (handle answers e p) (handle_all answers es) p' done (handle_all-Safe es p' h.1 w)
