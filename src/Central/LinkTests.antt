-- ===== src/Central/LinkTests.antt =====
-- Runs of the central before, around and after a link.
use zmk_ble_hid_host.Base.{
  ℕ, ◌+◌, ◌≡◌, ◌≢◌, ◌↔◌, refl, List, [], ◌∷◌, true, some, none, arith, length, take, ◌⊎◌, ltb,
  if◌then◌else◌, ◌>>=◌,
}
use zmk_ble_hid_host.Central.State.{
  disc_idle, disc_report_chrc, scan_start, Request, ok, failed, Stack, Central,
}
use zmk_ble_hid_host.Central.Discovery.{discover_func}
use zmk_ble_hid_host.Central.Link.{disconnected}
use zmk_ble_hid_host.Central.Advert.{AdElement, gap_appearance, name_complete, parse_advert}
use zmk_ble_hid_host.Central.Advert.Matching.{LooksLikePointer, parse_advert_iff}
use zmk_ble_hid_host.Central.Peers.{adv_ind, device_found}
use zmk_ble_hid_host.Central.Peers.Targets.{IsWanted, device_found_iff, appearance_passes_filter}
use zmk_ble_hid_host.Central.Startup.{start_work_handler}
use zmk_ble_hid_host.Central.Events.{begun, then_dropped}
use zmk_ble_hid_host.Central.Awake.{is_scanning}
use zmk_ble_hid_host.Central.Awake.Result.{never_deaf}
use zmk_ble_hid_host.Central.Awake.Recovery.{fire_retries, scan_recovers}
use zmk_ble_hid_host.Central.Bounds.Counters.{Wired}
use zmk_ble_hid_host.Central.Wiring.{Described, wire_all, wanted, aside}
use zmk_ble_hid_host.Central.Wiring.Result.{wires_every_report}
use zmk_ble_hid_host.Central.State.{ReportEvt}
use zmk_ble_hid_host.Central.Tests.{listed, answers_ok, takes_all, plain, central}

-- Before a link, with a filter for the name X.
abbrev searching : Central (List ReportEvt)
searching = record central { default_conn = none; name_filter = some (b'X' ∷ []) }

abbrev mouse_appearance : AdElement
mouse_appearance = record { type = gap_appearance; payload = 0xC2 ∷ 0x03 ∷ [] }

abbrev named_y : AdElement
named_y = record { type = name_complete; payload = b'Y' ∷ [] }

parse_advert_iff_example :
    ((parse_advert none (named_y ∷ mouse_appearance ∷ [])).is_match ≡ true)
    ↔ LooksLikePointer none (named_y ∷ mouse_appearance ∷ [])
parse_advert_iff_example = parse_advert_iff none (named_y ∷ mouse_appearance ∷ [])

device_found_iff_example :
    ((device_found answers_ok (7 ∷ []) 7 adv_ind [] 1000 3 searching).default_conn ≡ some 3)
    ↔ IsWanted (7 ∷ []) 7 [] 1000 searching
device_found_iff_example =
    device_found_iff answers_ok 7 3 searching (7 ∷ []) adv_ind [] 1000 refl refl refl refl

appearance_passes_filter_example :
    (device_found answers_ok [] 9 adv_ind
      (named_y ∷ mouse_appearance ∷ [])
      1000
      3
      searching).default_conn
    ≡ some 3
appearance_passes_filter_example =
    appearance_passes_filter answers_ok 9 3 searching [] adv_ind (named_y ∷ []) [] 0xC2 0x03 1000 []
      refl (λ same. absurd (omega (arith, same))) refl refl refl refl

-- The bring-up, and the link drops.
abbrev brought_up : Central (List ReportEvt)
brought_up = start_work_handler answers_ok central

never_deaf_example :
    ((conn : ℕ) × ((disconnected answers_ok takes_all plain listed 1 brought_up).default_conn
        ≡ some conn))
    ⊎ (is_scanning answers_ok (disconnected answers_ok takes_all plain listed 1 brought_up).requests
        ≡ true)
    ⊎ ((disconnected answers_ok takes_all plain listed 1 brought_up).retry_scheduled ≡ true)
never_deaf_example =
    never_deaf answers_ok takes_all plain listed central
      (disconnected answers_ok takes_all plain listed 1 brought_up) refl
      (then_dropped 1 brought_up brought_up (begun brought_up))

-- A stack that refuses until two calls have been made.
abbrev slow_stack : Stack
slow_stack calls r = if ltb (length calls) 2 then failed else ok

abbrev refused_once : Central (List ReportEvt)
refused_once = record central { default_conn = none; retry_scheduled = true }

slow_stack_opens : (calls : List Request) → length calls ≡ 2 → slow_stack calls scan_start ≢ failed
slow_stack_opens calls h = ground (arith, h)

scan_recovers_example :
    is_scanning slow_stack (fire_retries slow_stack 3 refused_once).requests ≡ true
scan_recovers_example = scan_recovers slow_stack 2 refused_once refl refl slow_stack_opens

-- A peer with three input reports, with IDs 1, 2 and 6.
abbrev described : ℕ → ℕ → Described
described id handle = record {
  reference = record { handle = handle + 1; end_handle = 0; value_handle = 0; properties = 0 };
  id = id;
  kind = 1 ∷ [];
  ccc = record { handle = handle + 2; end_handle = 0; value_handle = 0; properties = 0 };
}

abbrev three_reports : List Described
three_reports = described 1 20 ∷ described 2 24 ∷ described 6 28 ∷ []

abbrev collected : Central (List ReportEvt)
collected = record central { disc_state = disc_report_chrc; sub_count = 0; pending_idx = 0 }

collected-Wired : Wired collected
collected-Wired = record {
  cells = refl;
  sub_cells = refl;
  few = omega arith;
  few_subs = omega arith;
  inside = omega arith;
  wiring = λ none. absurd none;
  short = omega arith;
}

wires_every_report_example :
    (c' : Central (List ReportEvt)) × ((discover_func answers_ok none collected
        >>= wire_all answers_ok three_reports)
      ≡ some c')
    × (c'.disc_state ≡ disc_idle)
    × (c'.sub_count ≡ 3)
    × (take c'.sub_count c'.subs ≡ wanted collected.pending_reports 0 three_reports)
    × (aside c' ≡ aside collected)
wires_every_report_example =
    wires_every_report answers_ok (λ calls r. refl) three_reports collected collected-Wired refl
      refl refl
