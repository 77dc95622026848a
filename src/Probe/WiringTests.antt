-- ===== src/Probe/WiringTests.antt =====
-- A run of the probe's wiring.
use zmk_ble_hid_host.Base.{take, ◌≡◌, refl, [], ◌∷◌, some, none, arith}
use zmk_ble_hid_host.Central.State.{Attr}
use zmk_ble_hid_host.Probe.State.{disc_report_chrc, disc_ccc, Probe}
use zmk_ble_hid_host.Probe.Discovery.{discover_func}
use zmk_ble_hid_host.Probe.Events.{discovered, handle_all}
use zmk_ble_hid_host.Probe.Bounds.{IsWired}
use zmk_ble_hid_host.Probe.Wiring.Result.{wires_up_to_missing}
use zmk_ble_hid_host.Probe.Tests.{answers_ok, probe, ccc_attr}

-- Three reports are collected; the CCCs of two are found.
abbrev collected : Probe
collected = record probe {
  disc_state = disc_report_chrc;
  pending_reports = 20 ∷ 24 ∷ 28 ∷ 0 ∷ 0 ∷ 0 ∷ 0 ∷ 0 ∷ 0 ∷ 0 ∷ 0 ∷ 0 ∷ [];
  pending_count = 3;
  pending_idx = 0;
  sub_count = 0;
}

collected-IsWired : IsWired collected
collected-IsWired = record {
  cells = refl;
  param_cells = refl;
  seen_cells = refl;
  few = omega arith;
  few_subs = omega arith;
  few_seen = omega arith;
  wiring = λ none. absurd none;
}

abbrev first_ccc : Attr
first_ccc = record { handle = 21; end_handle = 0; value_handle = 0; properties = 0 }

wires_up_to_missing_example :
    (p' : Probe) × (handle_all answers_ok
        (discovered none ∷ discovered (some first_ccc) ∷ discovered (some ccc_attr) ∷ [])
        collected
      ≡ some p')
    × (discover_func answers_ok none p' ≡ some p')
    × (p'.disc_state ≡ disc_ccc)
    × (p'.sub_count ≡ 2)
    × (take p'.sub_count p'.sub_params
        ≡ record { value_handle = 20; ccc_handle = 21 }
          ∷ record { value_handle = 24; ccc_handle = 25 }
          ∷ [])
wires_up_to_missing_example =
    wires_up_to_missing answers_ok (λ calls r. refl) (first_ccc ∷ ccc_attr ∷ []) 1 collected
      collected-IsWired refl refl refl (omega arith)
