-- ===== src/Publish/Reset.antt =====
-- `ble_hid_host_reset`: what the consumer is left with after a disconnection.
use native.Mathlib.Nat.{zero-div, add-zero}
use zmk_ble_hid_host.Base.{
  ℕ, zero, suc, ◌+◌, ◌*◌, ◌%◌, ◌^◌, ◌<◌, ◌≡◌, refl, sym, ap, ◌∙◌, subst, List, ◌∷◌, Bool, true,
  false, not, arith, bit, ◌==◌, if◌then◌else◌, meets, ltb, Option, none,
}
use zmk_ble_hid_host.Publish.Device.{
  Config, btn, Event, key, Attempt, Queue, Device, attempt, heal, last_held, is_last, release_held,
  reset,
}
use zmk_ble_hid_host.Publish.View.{seen, seen-cons}
use zmk_ble_hid_host.Publish.Buttons.{meets-digit}
use zmk_ble_hid_host.Publish.Tracks.{Tracks}
use zmk_ble_hid_host.Publish.Growth.{Grows-seen, heal-Grows}
use zmk_ble_hid_host.Publish.Report.{heal-prev}

-- The release of button i is tried where the button was held, with an answer that does not depend
-- on the history.
module _ (accepts : Queue) (answer : Bool)
    (always : (log : List Attempt) (e : Event) → accepts log e ≡ answer) (held : ℕ)
    (last : Option ℕ) where
  -- What the consumer believes of button j when the loop stands at button i.
  abbrev believed : ℕ → ℕ → ℕ
  believed i j = if answer then (if ltb j i then 0 else bit j held) else bit j held

  abbrev Released : ℕ → Device → Type 0
  Released i d = (j : ℕ) → j < 8 → seen (btn j) d.log ≡ believed i j

  release_one :
      (i : ℕ) (d : Device)
      → Released i d
      → Released
          (i + 1)
          (if meets held (1 * 2 ^ i) then attempt accepts (key (btn i) 0 (is_last i last)) d else d)
  release_one i d v j below =
      outcome (meets held (1 * 2 ^ i)) (accepts d.log e) (always d.log e) (meets-digit i held)
    where
      e : Event
      e = key (btn i) 0 (is_last i last)

      outcome :
          (test taken : Bool)
          → taken ≡ answer
          → test ≡ not (bit i held == 0)
          → seen (btn j) (if test then record d { log = (e, taken) ∷ d.log } else d).log
            ≡ believed (i + 1) j
      outcome true true h t = seen-cons (btn j) (e, true) d.log ∙ ground (arith, v j below, h)
      outcome true false h t = seen-cons (btn j) (e, false) d.log ∙ ground (arith, v j below, h)
      outcome false taken h t = ground (arith, v j below, t)

  release_held-Released :
      (left i : ℕ) (d : Device)
      → Released i d
      → Released (i + left) (release_held accepts held last left i d)
  unfolding release_held
  release_held-Released zero i d v = rw add-zero v
  release_held-Released (suc left) i d v =
      subst (λ n. Released n (release_held accepts held last (suc left) i d)) {x = i + 1 + left}
        {y = i + suc left} (omega arith) (release_held-Released left (i + 1) _ (release_one i d v))

-- The two ends of a reset, by what its test says of the buttons held.
cleared :
    (test : Bool) (h a : Device)
    → test ≡ (h.prev_buttons == 0)
    → a.prev_buttons ≡ 0
    → (if test then h else a).prev_buttons ≡ 0
cleared true h a t e = ground (arith, t)
cleared false h a t e = e

seen-if :
    (test : Bool) (h a : Device) (j v : ℕ)
    → (test ≡ true → seen (btn j) h.log ≡ v)
    → seen (btn j) a.log ≡ v
    → seen (btn j) (if test then h else a).log ≡ v
seen-if true h a j v e k = e refl
seen-if false h a j v e k = k

no_button : (j n : ℕ) → (n == 0) ≡ true → bit j n ≡ 0
no_button j n h =
    ap (bit j) {x = n} {y = 0} (ground (arith, h)) ∙ ap (λ (t : ℕ). t % 2) (zero-div (2 ^ j))

module _ (accepts : Queue) (cfg : Config) (d : Device) where
  unforced : Device
  unforced = heal accepts cfg d

  releases : Device
  releases =
      release_held accepts unforced.prev_buttons (last_held unforced.prev_buttons 8 0 none) 8 0
        unforced

  reset-prev : (reset accepts cfg d).prev_buttons ≡ 0
  unfolding reset unforced releases
  reset-prev =
      cleared (unforced.prev_buttons == 0) unforced (record releases { prev_buttons = 0 }) refl refl

  held-seen : Tracks d → (j : ℕ) → j < 8 → seen (btn j) unforced.log ≡ bit j unforced.prev_buttons
  unfolding unforced
  held-seen v j below =
      Grows-seen j d.log unforced.log (heal-Grows accepts cfg d)
      ∙ v j below
      ∙ ap (bit j) (sym (heal-prev accepts cfg d))

  seen-reset :
      (answer : Bool)
      → ((log : List Attempt) (e : Event) → accepts log e ≡ answer)
      → Tracks d
      → (j : ℕ) → j < 8
      → seen (btn j) (reset accepts cfg d).log ≡ (if answer then 0 else bit j unforced.prev_buttons)
  unfolding reset unforced releases
  seen-reset answer always v j below =
      seen-if (unforced.prev_buttons == 0) unforced (record releases { prev_buttons = 0 }) j _
        (λ clear. held-seen v j below ∙ none_held answer (no_button j unforced.prev_buttons clear))
        (release_held-Released accepts answer always unforced.prev_buttons
            (last_held unforced.prev_buttons 8 0 none) 8 0 unforced (start answer) j below
          ∙ end answer)
    where
      held : ℕ
      held = (heal accepts cfg d).prev_buttons

      none_held : (taken : Bool) → bit j held ≡ 0 → bit j held ≡ (if taken then 0 else bit j held)
      none_held true h = h
      none_held false h = refl

      start :
          (taken : Bool) (k : ℕ)
          → k < 8
          → seen (btn k) (heal accepts cfg d).log
            ≡ (if taken then (if ltb k 0 then 0 else bit k held) else bit k held)
      start true k h = held-seen v k h ∙ ground arith
      start false k h = held-seen v k h

      end :
          (taken : Bool)
          → (if taken then (if ltb j 8 then 0 else bit j held) else bit j held)
            ≡ (if taken then 0 else bit j held)
      end true = ground arith
      end false = refl

  -- With a queue that takes every event, and where `prev_buttons` is what the consumer has been
  -- told, after the reset the consumer believes each of the eight buttons released, and
  -- `prev_buttons` is 0.
  pub reset_releases :
      ((log : List Attempt) (e : Event) → accepts log e ≡ true)
      → Tracks d
      → (j : ℕ) → j < 8
      → ((reset accepts cfg d).prev_buttons ≡ 0) × (seen (btn j) (reset accepts cfg d).log ≡ 0)
  reset_releases always v j below = (reset-prev, seen-reset true always v j below)

  -- With a queue that refuses every event, and where `prev_buttons` is what the consumer has been
  -- told, the reset forgets the held buttons all the same: after it `prev_buttons` is 0, while the
  -- consumer still believes each of the eight buttons to be as `prev_buttons` said before.
  pub reset_latches :
      ((log : List Attempt) (e : Event) → accepts log e ≡ false)
      → Tracks d
      → (j : ℕ) → j < 8
      → ((reset accepts cfg d).prev_buttons ≡ 0)
        × (seen (btn j) (reset accepts cfg d).log ≡ bit j d.prev_buttons)
  unfolding unforced
  reset_latches never v j below =
      (reset-prev, seen-reset false never v j below ∙ ap (bit j) (heal-prev accepts cfg d))
