-- ===== src/Publish/View.antt =====
-- What the consumer of the events believes: the state of each key by the accepted events.
use zmk_ble_hid_host.Base.{ℕ, ◌≡◌, refl, List, [], ◌∷◌, Bool, true, false, ◌==◌, if◌then◌else◌}
use zmk_ble_hid_host.Publish.Device.{Code, btn, dpad, key, rel, Attempt}

abbrev pub same_code : Code → Code → Bool
same_code (btn i) (btn j) = i == j
same_code (dpad i) (dpad j) = i == j
same_code (btn i) (dpad j) = false
same_code (dpad i) (btn j) = false

abbrev pub after_event : Code → Attempt → ℕ → ℕ
after_event c (key c' v s, true) before = if same_code c' c then v else before
after_event c (key c' v s, false) before = before
after_event c (rel a v s, taken) before = before

-- The value of the key at the consumer, 0 before any event.
unfoldable pub seen : Code → List Attempt → ℕ
seen c [] = 0
seen c (a ∷ log) = after_event c a (seen c log)

pub seen-cons :
    (c : Code) (a : Attempt) (log : List Attempt) → seen c (a ∷ log) ≡ after_event c a (seen c log)
unfolding seen
seen-cons c a log = refl
