-- ===== src/Probe/Deaf.antt =====
-- The probe whose scan the stack refuses: it has no retry.
use zmk_ble_hid_host.Base.{
  ℕ, ◌+◌, ◌≡◌, refl, ap, ◌∙◌, subst, Bool, true, false, not, ◌&&◌, ◌||◌, Option, none, some, List,
  [], ◌∷◌, get_elem?, ltb, leb, ◌==◌, ==_self, if◌then◌else◌, >>=-eq-some, All, meets, After,
  bind_After, chain_After, if_holds,
}
use zmk_ble_hid_host.Central.State.{chrc_notify, failed, is_ok, ok_or_already, Attr, store}
use zmk_ble_hid_host.Central.Link.{is_current}
use zmk_ble_hid_host.Probe.State.{
  max_reports, DiscState, disc_idle, disc_hids_primary, disc_report_chrc, disc_ccc, Request,
  discover, subscribe, set_security, disconnect, usb_enable, bt_enable, scan_start, scan_stop,
  create, Stack, Probe, ask,
}
use zmk_ble_hid_host.Probe.Discovery.{
  notify_cb, collect_report, start_discovery, subscribe_pending, add_subscription, pass_finished,
  found, discover_func,
}
use zmk_ble_hid_host.Probe.Link.{start_scan, security_changed, disconnected}
use zmk_ble_hid_host.Probe.Events.{
  Event, notified, discovered, advertised, linked, secured, dropped, handle, handle_all,
}

-- Whether the controller scans after these calls, the latest first.
abbrev pub is_scanning : Stack → List Request → Bool
is_scanning answers [] = false
is_scanning answers (scan_start ∷ calls) =
    if ok_or_already (answers calls scan_start) then true else is_scanning answers calls
is_scanning answers (scan_stop ∷ calls) =
    if is_ok (answers calls scan_stop) then false else is_scanning answers calls
is_scanning answers (discover sought type first last ∷ calls) = is_scanning answers calls
is_scanning answers (subscribe s ∷ calls) = is_scanning answers calls
is_scanning answers (set_security conn ∷ calls) = is_scanning answers calls
is_scanning answers (disconnect conn ∷ calls) = is_scanning answers calls
is_scanning answers (usb_enable ∷ calls) = is_scanning answers calls
is_scanning answers (bt_enable ∷ calls) = is_scanning answers calls
is_scanning answers (create addr ∷ calls) = is_scanning answers calls

-- The events that need neither a scan nor a connection that is being made.
abbrev pub IsUnprompted : Event → Type 0
IsUnprompted (notified sub value) = Unit
IsUnprompted (discovered attr) = Unit
IsUnprompted (secured conn addr now level err) = Unit
IsUnprompted (dropped conn) = Unit
IsUnprompted (advertised bonds addr type es now conn) = ⊥
IsUnprompted (linked conn err) = ⊥

module _ (answers : Stack) where
  -- No link, and no scan that could find one.
  abbrev pub IsDeaf : Probe → Type 0
  IsDeaf p = (p.default_conn ≡ none) × (is_scanning answers p.requests ≡ false)

  abbrev DeafAfter : Option Probe → Type 0
  DeafAfter = After IsDeaf

  notify_cb-Deaf :
      (sub : ℕ) (value : Option (List ℕ)) (p : Probe) → IsDeaf p → DeafAfter (notify_cb sub value p)
  unfolding notify_cb
  notify_cb-Deaf sub none p v = bind_After IsDeaf (get_elem? p.sub_params sub) _ (λ s.
      bind_After IsDeaf (store p.sub_params sub (record s { value_handle = 0 })) _ (λ params. v))
  notify_cb-Deaf sub (some value) p v = v

  subscribe_pending-Deaf : (p : Probe) → IsDeaf p → DeafAfter (subscribe_pending answers p)
  unfolding subscribe_pending
  subscribe_pending-Deaf p v =
      if_holds DeafAfter (leb p.pending_count p.pending_idx)
        (some (record p { disc_state = disc_idle })) _ v
        (bind_After IsDeaf (get_elem? p.pending_reports p.pending_idx) _ (λ value. v))

  add_subscription-Deaf :
      (ccc : ℕ) (p : Probe) → IsDeaf p → DeafAfter (add_subscription answers ccc p)
  unfolding add_subscription
  add_subscription-Deaf ccc p v =
      if_holds DeafAfter (ltb p.sub_count max_reports) _ (some p)
        (bind_After IsDeaf (get_elem? p.pending_reports p.pending_idx) _
          (λ value. bind_After IsDeaf (store p.sub_params p.sub_count _) _ (λ params. v)))
        v

  found-Deaf :
      (s : DiscState) (attr : Attr) (p : Probe) → IsDeaf p → DeafAfter (found answers s attr p)
  unfolding found collect_report
  found-Deaf disc_hids_primary attr p v = v
  found-Deaf disc_report_chrc attr p v =
      if_holds DeafAfter (meets attr.properties chrc_notify && ltb p.pending_count max_reports) _
        (some p)
        (bind_After IsDeaf (store p.pending_reports p.pending_count attr.value_handle) _
          (λ reports. v))
        v
  found-Deaf disc_ccc attr p v =
      chain_After IsDeaf IsDeaf (add_subscription answers attr.handle p) _
        (add_subscription-Deaf attr.handle p v)
        (λ q w. subscribe_pending-Deaf (record q { pending_idx = q.pending_idx + 1 }) w)
  found-Deaf disc_idle attr p v = v

  pass_finished-Deaf :
      (s : DiscState) (p : Probe) → IsDeaf p → DeafAfter (pass_finished answers s p)
  unfolding pass_finished
  pass_finished-Deaf disc_report_chrc p v =
      if_holds DeafAfter (p.pending_count == 0) (some (record p { disc_state = disc_idle })) _ v
        (subscribe_pending-Deaf (record p { pending_idx = 0 }) v)
  pass_finished-Deaf disc_hids_primary p v = v
  pass_finished-Deaf disc_ccc p v = v
  pass_finished-Deaf disc_idle p v = v

  discover_func-Deaf :
      (attr : Option Attr) (p : Probe) → IsDeaf p → DeafAfter (discover_func answers attr p)
  unfolding discover_func
  discover_func-Deaf none p v = pass_finished-Deaf p.disc_state p v
  discover_func-Deaf (some attr) p v = found-Deaf p.disc_state attr p v

  handle-Deaf : (e : Event) (p : Probe) → IsUnprompted e → IsDeaf p → DeafAfter (handle answers e p)
  unfolding security_changed start_discovery disconnected
  handle-Deaf (notified sub value) p u v = notify_cb-Deaf sub value p v
  handle-Deaf (discovered attr) p u v = discover_func-Deaf attr p v
  handle-Deaf (secured conn addr now level err) p u v =
      if_holds IsDeaf (not (err == 0) || ltb level 2)
        (ask (disconnect conn) (record p { last_failed_addr = addr; last_failed_ms = now }))
        (start_discovery p) v v
  handle-Deaf (dropped conn) p u v = rw (ap (λ o. is_current o conn) v.0) v
  handle-Deaf (advertised bonds addr type es now conn) p u v = absurd u
  handle-Deaf (linked conn err) p u v = absurd u

  IsDeaf-handle_all :
      (es : List Event) (p p' : Probe)
      → All IsUnprompted es
      → IsDeaf p
      → handle_all answers es p ≡ some p'
      → IsDeaf p'
  IsDeaf-handle_all [] p p' u v e = subst DeafAfter e v
  IsDeaf-handle_all (event ∷ es) p p' u v e =
      let (p1, first, rest) = >>=-eq-some (handle answers event p) (handle_all answers es) e in
      IsDeaf-handle_all es p1 p' u.1 (subst DeafAfter first (handle-Deaf event p u.0 v)) rest

  -- Where the current link drops, nothing scans and the stack refuses the new scan, the probe stays
  -- without a link and without a scan through every sequence of callbacks that neither a scan nor a
  -- connection being made brings about: it does not try again.
  pub refused_scan_deafens :
      (conn : ℕ) (es : List Event) (p p' : Probe)
      → p.default_conn ≡ some conn
      → is_scanning answers p.requests ≡ false
      → answers p.requests scan_start ≡ failed
      → All IsUnprompted es
      → handle_all answers es (disconnected conn p) ≡ some p'
      → (p'.default_conn ≡ none) × (is_scanning answers p'.requests ≡ false)
  unfolding disconnected start_scan
  refused_scan_deafens conn es p p' current off refused u e =
      IsDeaf-handle_all es (disconnected conn p) p' u
        (rw (ap (λ o. is_current o conn) current ∙ ==_self conn) (refl, rw refused off)) e
