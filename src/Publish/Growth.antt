-- ===== src/Publish/Growth.antt =====
-- Which events each part of a publish adds to the log.
use zmk_ble_hid_host.Base.{
  ℕ, ◌*◌, ◌^◌, ◌≡◌, refl, sym, ap, ◌∙◌, List, [], ◌∷◌, ◌++◌, append_assoc, Bool, true, false, arith,
  if◌then◌else◌, All, All-append, meets, not, ◌||◌,
}
use zmk_ble_hid_host.Base.Signed.{ℤ, is_negative, is_positive}
use zmk_ble_hid_host.Publish.Device.{
  Config, btn, dpad, Axis, rel_hwheel, Event, key, rel, Attempt, Queue, Device, attempt, tap_btn,
  flush_one, flush_pending_dpad_releases, publish_rel, publish_hwheel, tap_wheel, heal, is_nonzero,
}
use zmk_ble_hid_host.Publish.View.{seen, seen-cons}

-- The sync argument of an event.
abbrev pub synced : Event → Bool
synced (key c v s) = s
synced (rel a v s) = s

abbrev pub is_button : Event → Bool
is_button (key (btn i) v s) = true
is_button (key (dpad i) v s) = false
is_button (rel a v s) = false

-- An event without sync, and one that is besides no button edge.
abbrev pub Unsynced : Attempt → Type 0
Unsynced (e, taken) = synced e ≡ false

abbrev pub Aside : Attempt → Type 0
Aside (e, taken) = (synced e ≡ false) × (is_button e ≡ false)

-- The log grows by events that satisfy `P`.
pub record Grows (P : Attempt → Type 0) (log log' : List Attempt) : Type 0 where
  pub added : List Attempt
  pub appended : log' ≡ added ++ log
  pub each : All P added

module _ {P : Attempt → Type 0} where
  pub Grows-refl : (log : List Attempt) → Grows P log log
  Grows-refl log = record { added = []; appended = refl; each = tt }

  pub Grows-cons : (a : Attempt) (log : List Attempt) → P a → Grows P log (a ∷ log)
  Grows-cons a log h = record { added = a ∷ []; appended = refl; each = (h, tt) }

  pub Grows-trans : (k l m : List Attempt) → Grows P k l → Grows P l m → Grows P k m
  Grows-trans k l m a b = record {
    added = b.added ++ a.added;
    appended = b.appended ∙ ap (◌++◌ b.added) a.appended ∙ sym (append_assoc b.added a.added k);
    each = All-append P b.added a.added b.each a.each;
  }

  pub if_Grows :
      (k : List Attempt) (test : Bool) (a b : Device)
      → Grows P k a.log
      → Grows P k b.log
      → Grows P k (if test then a else b).log
  if_Grows k true a b ha hb = ha
  if_Grows k false a b ha hb = hb

pub Aside-Unsynced : {log log' : List Attempt} → Grows Aside log log' → Grows Unsynced log log'
Aside-Unsynced g = record { added = g.added; appended = g.appended; each = weaken g.added g.each }
  where
    weaken : (l : List Attempt) → All Aside l → All Unsynced l
    weaken [] h = tt
    weaken (a ∷ l) h = ((h.0).0, weaken l h.1)

-- Events that are no button edges leave the buttons at the consumer as they were.
pub Grows-seen :
    (j : ℕ) (log log' : List Attempt) → Grows Aside log log' → seen (btn j) log' ≡ seen (btn j) log
Grows-seen j log log' g = ap (seen (btn j)) g.appended ∙ skip g.added g.each
  where
    skip : (l : List Attempt) → All Aside l → seen (btn j) (l ++ log) ≡ seen (btn j) log
    skip [] h = refl
    skip ((key (btn i) v s, taken) ∷ l) h = absurd (ground arith)
    skip ((key (dpad i) v s, true) ∷ l) h = seen-cons (btn j) _ (l ++ log) ∙ skip l h.1
    skip ((key (dpad i) v s, false) ∷ l) h = seen-cons (btn j) _ (l ++ log) ∙ skip l h.1
    skip ((rel a v s, taken) ∷ l) h = seen-cons (btn j) _ (l ++ log) ∙ skip l h.1

module _ (accepts : Queue) where
  tap_btn-Grows : (idx : ℕ) (d : Device) → Grows Aside d.log (tap_btn accepts idx d).log
  unfolding tap_btn
  tap_btn-Grows idx d =
      let pressed = attempt accepts (key (dpad idx) 1 false) d in
      let released = attempt accepts (key (dpad idx) 0 false) pressed in
      let one =
        Grows-cons {P = Aside} (key (dpad idx) 1 false, accepts d.log (key (dpad idx) 1 false))
          d.log (refl, refl) in
      let two = Grows-trans d.log pressed.log released.log one (
        Grows-cons (key (dpad idx) 0 false, accepts pressed.log (key (dpad idx) 0 false))
          pressed.log (refl, refl)) in
      if_Grows d.log (not (accepts d.log (key (dpad idx) 1 false))) pressed _ one
        (if_Grows d.log (not (accepts pressed.log (key (dpad idx) 0 false))) _ released two two)

  flush_one-Grows : (idx : ℕ) (d : Device) → Grows Aside d.log (flush_one accepts idx d).log
  unfolding flush_one
  flush_one-Grows idx d =
      let one =
        Grows-cons {P = Aside} (key (dpad idx) 0 false, accepts d.log (key (dpad idx) 0 false))
          d.log (refl, refl) in
      if_Grows d.log (meets d.pending_dpad_release (1 * 2 ^ idx)) _ d
        (if_Grows d.log (accepts d.log (key (dpad idx) 0 false)) _ _ one one) (Grows-refl d.log)

  flush-Grows : (d : Device) → Grows Aside d.log (flush_pending_dpad_releases accepts d).log
  flush-Grows d =
      let a = flush_one accepts 0 d in
      let b = flush_one accepts 1 a in
      let c = flush_one accepts 2 b in
      unfold flush_pending_dpad_releases in
      Grows-trans d.log c.log _
        (Grows-trans d.log b.log c.log
          (Grows-trans d.log a.log b.log (flush_one-Grows 0 d) (flush_one-Grows 1 a))
          (flush_one-Grows 2 b))
        (flush_one-Grows 3 c)

  pub heal-Grows : (cfg : Config) (d : Device) → Grows Aside d.log (heal accepts cfg d).log
  heal-Grows cfg d =
      if_Grows d.log (cfg.hwheel_as_keys || cfg.wheel_as_keys) _ d (flush-Grows d)
        (Grows-refl d.log)

  pub publish_rel-Grows :
      (axis : Axis) (v : ℤ) (d : Device) → Grows Aside d.log (publish_rel accepts axis v d).log
  publish_rel-Grows axis v d =
      if_Grows d.log (is_nonzero v) _ d
        (Grows-cons (rel axis v false, accepts d.log (rel axis v false)) d.log (refl, refl))
        (Grows-refl d.log)

  pub publish_hwheel-Grows :
      (cfg : Config) (v : ℤ) (d : Device) → Grows Aside d.log (publish_hwheel accepts cfg v d).log
  publish_hwheel-Grows cfg v d =
      unfold publish_hwheel in
      if_Grows d.log cfg.hwheel_as_keys _ (publish_rel accepts rel_hwheel v d)
        (if_Grows d.log (is_negative v) _ _ (tap_btn-Grows 0 d)
          (if_Grows d.log (is_positive v) _ d (tap_btn-Grows 1 d) (Grows-refl d.log)))
        (publish_rel-Grows rel_hwheel v d)

  pub tap_wheel-Grows :
      (cfg : Config) (v : ℤ) (d : Device) → Grows Aside d.log (tap_wheel accepts cfg v d).log
  tap_wheel-Grows cfg v d =
      unfold tap_wheel in
      if_Grows d.log cfg.wheel_as_keys _ d
        (if_Grows d.log (is_positive v) _ _ (tap_btn-Grows 2 d)
          (if_Grows d.log (is_negative v) _ d (tap_btn-Grows 3 d) (Grows-refl d.log)))
        (Grows-refl d.log)
