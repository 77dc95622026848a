-- ===== src/Publish/Tests.antt =====
-- Runs of the publisher with queues that take everything, nothing, or only the first events.
use native.Mathlib.Nat.{zero-div}
use zmk_ble_hid_host.Base.{
  ℕ, ◌%◌, ◌^◌, ◌≡◌, refl, sym, ap, [], ◌∷◌, true, false, arith, ltb, length, bit,
}
use zmk_ble_hid_host.Base.Signed.{pos, negsuc}
use zmk_ble_hid_host.Layout.{PointerReport}
use zmk_ble_hid_host.Publish.Device.{Config, btn, Queue, Device, initial, publish, reset}
use zmk_ble_hid_host.Publish.View.{seen}
use zmk_ble_hid_host.Publish.Tracks.{Tracks}
use zmk_ble_hid_host.Publish.Report.{publish-Tracks, publish_reaches}
use zmk_ble_hid_host.Publish.Pointer.{Pointer, Shows, publish_all, follow_all, publish_all-refines}
use zmk_ble_hid_host.Publish.Dpad.{Remembered, publish-Remembered}
use zmk_ble_hid_host.Publish.Reset.{reset_releases, reset_latches}

abbrev takes_all : Queue
takes_all log e = true

abbrev takes_none : Queue
takes_none log e = false

-- Room for n events.
abbrev takes_first : ℕ → Queue
takes_first n log e = ltb (length log) n

abbrev keyed : Config
keyed = record { hwheel_as_keys = true; wheel_as_keys = true }

abbrev held_and_tilted : PointerReport
held_and_tilted = record { dx = pos 3; dy = pos 0; wheel = pos 1; hwheel = negsuc 0; buttons = 5 }

-- The queue fills up within the report: button 0 gets through, button 2 does not.
half_published : (publish (takes_first 1) keyed held_and_tilted initial).prev_buttons ≡ 1
unfolding publish
half_published = refl

initial-Tracks : Tracks initial
unfolding seen
initial-Tracks j below = ap (λ (t : ℕ). t % 2) (sym (zero-div (2 ^ j)))

initial-Remembered : Remembered initial
unfolding seen
initial-Remembered i below s = absurd (s refl)

publish-Tracks_example : Tracks (publish (takes_first 1) keyed held_and_tilted initial)
publish-Tracks_example = publish-Tracks (takes_first 1) keyed held_and_tilted initial initial-Tracks

publish_reaches_example :
    seen (btn 2) (publish takes_all keyed held_and_tilted initial).log ≡ bit 2 5
publish_reaches_example =
    publish_reaches takes_all keyed held_and_tilted initial (λ log e. refl) initial-Tracks 2
      (omega arith)

publish-Remembered_example : Remembered (publish (takes_first 4) keyed held_and_tilted initial)
publish-Remembered_example =
    publish-Remembered (takes_first 4) keyed held_and_tilted initial initial-Remembered

-- A device that holds buttons 0 and 2, as the consumer knows.
abbrev holding : Device
holding = publish takes_all keyed held_and_tilted initial

holding-Tracks : Tracks holding
holding-Tracks = publish-Tracks takes_all keyed held_and_tilted initial initial-Tracks

holding_prev : holding.prev_buttons ≡ 5
unfolding publish
holding_prev = refl

reset_releases_example :
    ((reset takes_all keyed holding).prev_buttons ≡ 0)
    × (seen (btn 2) (reset takes_all keyed holding).log ≡ 0)
reset_releases_example =
    reset_releases takes_all keyed holding (λ log e. refl) holding-Tracks 2 (omega arith)

reset_latches_example :
    ((reset takes_none keyed holding).prev_buttons ≡ 0)
    × (seen (btn 2) (reset takes_none keyed holding).log ≡ bit 2 holding.prev_buttons)
reset_latches_example =
    reset_latches takes_none keyed holding (λ log e. refl) holding-Tracks 2 (omega arith)

-- A consumer that has seen nothing.
abbrev still : Pointer
still = record { held = λ j. 0; moved = λ axis. [] }

abbrev unkeyed : Config
unkeyed = record { hwheel_as_keys = false; wheel_as_keys = false }

initial-Shows : Shows initial still
unfolding seen
initial-Shows = ((λ j below. refl), (λ axis. refl))

publish_all-refines_example :
    Shows
      (publish_all takes_all unkeyed (held_and_tilted ∷ held_and_tilted ∷ []) initial)
      (follow_all (held_and_tilted ∷ held_and_tilted ∷ []) still)
publish_all-refines_example =
    publish_all-refines takes_all (λ log e. refl) unkeyed (held_and_tilted ∷ held_and_tilted ∷ [])
      initial still refl refl initial-Tracks initial-Shows
