-- ===== src/Probe/Tests.antt =====
-- Runs of the probe.
use zmk_ble_hid_host.Base.{
  ◌≡◌, ◌↔◌, refl, [], ◌∷◌, true, false, some, none, arith, ◌>>=◌, List, ◌++◌, ℕ,
}
use zmk_ble_hid_host.Central.State.{ok, failed, Attr}
use zmk_ble_hid_host.Central.Advert.{name_complete, AdElement}
use zmk_ble_hid_host.Central.Peers.{adv_ind}
use zmk_ble_hid_host.Central.Peers as HostPeers
use zmk_ble_hid_host.Central.Tests.{central}
use zmk_ble_hid_host.Probe.State.{disc_ccc, SubParams, SeenDev, Stack, Probe}
use zmk_ble_hid_host.Probe.Advert.{parse_advert}
use zmk_ble_hid_host.Probe.Seen.{Logged, should_log}
use zmk_ble_hid_host.Probe.Link.{is_target, disconnected}
use zmk_ble_hid_host.Probe.Events.{notified, discovered, advertised, dropped, handle_all}
use zmk_ble_hid_host.Probe.Bounds.{IsWired, Safe}
use zmk_ble_hid_host.Probe.Bounds.Result.{handle_all-Safe}
use zmk_ble_hid_host.Probe.Agreement.{is_target_agrees}
use zmk_ble_hid_host.Probe.Deaf.{is_scanning, refused_scan_deafens}
use zmk_ble_hid_host.Probe.Sightings.{IsDistinct, IsKnown, should_log_iff}
use zmk_ble_hid_host.Probe.Distinct.{should_log-IsDistinct}

abbrev pub answers_ok : Stack
answers_ok calls r = ok

abbrev refuses : Stack
refuses calls r = failed

abbrev blank : SubParams
blank = record { value_handle = 0; ccc_handle = 0 }

abbrev nobody : SeenDev
nobody = record { addr = 0; named = false }

-- The first of two reports is subscribed, the second one's CCC is looked for, on a link that is up;
-- one advertiser was seen.
abbrev pub probe : Probe
probe = record {
  default_conn = some 1;
  disc_state = disc_ccc;
  hids_end_handle = 60;
  pending_reports = 20 ∷ 24 ∷ 0 ∷ 0 ∷ 0 ∷ 0 ∷ 0 ∷ 0 ∷ 0 ∷ 0 ∷ 0 ∷ 0 ∷ [];
  pending_count = 2;
  pending_idx = 1;
  sub_params =
      record { value_handle = 20; ccc_handle = 21 }
      ∷ blank
      ∷ blank
      ∷ blank
      ∷ blank
      ∷ blank
      ∷ blank
      ∷ blank
      ∷ blank
      ∷ blank
      ∷ blank
      ∷ blank
      ∷ [];
  sub_count = 1;
  seen =
      record { addr = 7; named = false }
      ∷ nobody
      ∷ nobody
      ∷ nobody
      ∷ nobody
      ∷ nobody
      ∷ nobody
      ∷ nobody
      ∷ nobody
      ∷ nobody
      ∷ nobody
      ∷ nobody
      ∷ nobody
      ∷ nobody
      ∷ nobody
      ∷ nobody
      ∷ nobody
      ∷ nobody
      ∷ nobody
      ∷ nobody
      ∷ nobody
      ∷ nobody
      ∷ nobody
      ∷ nobody
      ∷ [];
  seen_count = 1;
  last_failed_addr = 0;
  last_failed_ms = 0;
  dumped = [];
  saw = 7 ∷ [];
  sleeps = 0;
  requests = [];
}

probe-IsWired : IsWired probe
probe-IsWired = record {
  cells = refl;
  param_cells = refl;
  seen_cells = refl;
  few = omega arith;
  few_subs = omega arith;
  few_seen = omega arith;
  wiring = λ w. omega arith;
}

abbrev pub ccc_attr : Attr
ccc_attr = record { handle = 25; end_handle = 0; value_handle = 0; properties = 0 }

-- The name is longer than the array: of its 32 bytes 31 are kept.
abbrev elecom_nm : List ℕ
elecom_nm = b'E' ∷ b'L' ∷ b'E' ∷ b'C' ∷ b'O' ∷ b'M' ∷ b' ' ∷ b'M' ∷ []

abbrev elecom : List AdElement
elecom =
    record { type = name_complete; payload = elecom_nm ++ elecom_nm ++ elecom_nm ++ elecom_nm } ∷ []

handle_all-Safe_example : Safe (
    handle_all answers_ok
      (discovered (some ccc_attr)
        ∷ notified 0 (some (1 ∷ []))
        ∷ dropped 1
        ∷ advertised (7 ∷ []) 7 adv_ind elecom 1000 2
        ∷ [])
      probe)
handle_all-Safe_example =
    handle_all-Safe answers_ok
      (discovered (some ccc_attr)
        ∷ notified 0 (some (1 ∷ []))
        ∷ dropped 1
        ∷ advertised (7 ∷ []) 7 adv_ind elecom 1000 2
        ∷ [])
      probe (tt, (omega arith, (tt, (tt, tt)))) probe-IsWired

is_target_agrees_example :
    (parse_advert elecom >>= λ ai. some (is_target [] 7 adv_ind ai.is_match 1000 probe))
    ≡ some (HostPeers.is_target [] 7 adv_ind elecom 1000 central)
is_target_agrees_example =
    is_target_agrees [] 7 adv_ind elecom 1000 probe central refl refl refl refl

again : handle_all refuses (dropped 1 ∷ []) (disconnected 1 probe) ≡ some (disconnected 1 probe)
unfolding disconnected
again = refl

refused_scan_deafens_example :
    ((disconnected 1 probe).default_conn ≡ none)
    × (is_scanning refuses (disconnected 1 probe).requests ≡ false)
refused_scan_deafens_example =
    refused_scan_deafens refuses 1 (dropped 1 ∷ []) probe (disconnected 1 probe) refl refl refl
      (tt, tt) again

probe-IsDistinct : IsDistinct probe
probe-IsDistinct i j s t (below, at) (below', at') same = omega (arith, below, below')

abbrev named_probe : Logged
named_probe = record {
  worth = true;
  after = record probe {
    seen =
        record { addr = 7; named = true }
        ∷ nobody
        ∷ nobody
        ∷ nobody
        ∷ nobody
        ∷ nobody
        ∷ nobody
        ∷ nobody
        ∷ nobody
        ∷ nobody
        ∷ nobody
        ∷ nobody
        ∷ nobody
        ∷ nobody
        ∷ nobody
        ∷ nobody
        ∷ nobody
        ∷ nobody
        ∷ nobody
        ∷ nobody
        ∷ nobody
        ∷ nobody
        ∷ nobody
        ∷ nobody
        ∷ [];
  };
}

learned : should_log 7 true probe ≡ some named_probe
unfolding should_log
learned = refl

should_log_iff_example : (named_probe.worth ≡ false) ↔ IsKnown probe 7 true
should_log_iff_example = should_log_iff probe 7 true named_probe probe-IsDistinct learned

should_log-IsDistinct_example : IsDistinct named_probe.after
should_log-IsDistinct_example =
    should_log-IsDistinct probe 7 true named_probe probe-IsDistinct learned
