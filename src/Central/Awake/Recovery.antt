-- ===== src/Central/Awake/Recovery.antt =====
-- The retries of a scan that the stack refuses.
use zmk_ble_hid_host.Base.{
  u32, ℕ, zero, suc, ◌+◌, ◌≡◌, ◌≢◌, refl, sym, ap, ◌∙◌, subst, true, false, Option, none, some,
  List, length, if◌then◌else◌, arith,
}
use zmk_ble_hid_host.Central.State.{
  Request, scan_start, Answer, ok, already, failed, Stack, Central,
}
use zmk_ble_hid_host.Central.Discovery.{ask}
use zmk_ble_hid_host.Central.Link.{start_scan, scan_retry_handler}
use zmk_ble_hid_host.Central.Awake.{is_scanning}

module _ {Q : Type 0} (answers : Stack) where
  -- The delayed work queue on the retry alone: the handler runs where it is scheduled.
  abbrev pub fire_retry : Central Q → Central Q
  fire_retry c = if c.retry_scheduled then scan_retry_handler answers c else c

  abbrev pub fire_retries : ℕ → Central Q → Central Q
  fire_retries zero c = c
  fire_retries (suc n) c = fire_retries n (fire_retry c)

  stays_scanning :
      (n : ℕ) (c : Central Q)
      → is_scanning answers c.requests ≡ true
      → c.retry_scheduled ≡ false
      → is_scanning answers (fire_retries n c).requests ≡ true
  stays_scanning zero c on spent = on
  stays_scanning (suc n) c on spent =
      subst (λ after. is_scanning answers (fire_retries n after).requests ≡ true)
        (sym (ap (λ due. if due then scan_retry_handler answers c else c) spent))
        (stays_scanning n c on spent)

  fire_retry-unlinked :
      (c : Central Q)
      → c.default_conn ≡ none
      → c.retry_scheduled ≡ true
      → fire_retry c ≡ start_scan answers (record c { retry_scheduled = false })
  unfolding scan_retry_handler
  fire_retry-unlinked c idle due =
      ap (λ set. if set then scan_retry_handler answers c else c) due
      ∙ ap
          (λ (conn : Option ℕ). elim conn [
            | none ↦ start_scan answers (record c { retry_scheduled = false })
            | some current ↦ record c { retry_scheduled = false }
          ])
          idle

  -- The state after a call of the scan that the stack refuses.
  abbrev refused : Central Q → Central Q
  refused c = record (ask scan_start c) {
    scan_fails = u32 (c.scan_fails + 1);
    retry_scheduled = true;
  }

  abbrev by_answer : Central Q → Answer → Central Q
  by_answer c already = ask scan_start c
  by_answer c ok = record (ask scan_start c) { scan_starts = u32 (c.scan_starts + 1) }
  by_answer c failed = refused c

  start_scan-eq-by_answer :
      (c : Central Q) (a : Answer)
      → answers c.requests scan_start ≡ a
      → start_scan answers c ≡ by_answer c a
  unfolding start_scan
  start_scan-eq-by_answer c a e = same (answers c.requests scan_start) ∙ ap (by_answer c) e
    where
      same :
          (answer : Answer)
          → (elim answer [
            | already ↦ ask scan_start c
            | ok ↦ record (ask scan_start c) { scan_starts = u32 (c.scan_starts + 1) }
            | failed ↦ record (ask scan_start c) {
              scan_fails = u32 (c.scan_fails + 1);
              retry_scheduled = true;
            }
          ])
            ≡ by_answer c answer
      same already = refl
      same ok = refl
      same failed = refl

  -- Whether the scan is on after `k` firings that follow a call of it.
  abbrev IsOnAfter : ℕ → Central Q → Type 0
  IsOnAfter k c = is_scanning answers (fire_retries k c).requests ≡ true

  -- A call that is not refused turns the scan on, and no firing stops it.
  unless_refused :
      (k : ℕ) (c : Central Q)
      → c.retry_scheduled ≡ false
      → (answers c.requests scan_start ≡ failed → IsOnAfter k (refused c))
      → IsOnAfter k (start_scan answers c)
  unless_refused k c spent otherwise = on_answer (answers c.requests scan_start) refl
    where
      on_answer :
          (a : Answer) → answers c.requests scan_start ≡ a → IsOnAfter k (start_scan answers c)
      on_answer already e =
          subst (IsOnAfter k) (sym (start_scan-eq-by_answer c already e))
            (stays_scanning k (by_answer c already) (rw e) spent)
      on_answer ok e =
          subst (IsOnAfter k) (sym (start_scan-eq-by_answer c ok e))
            (stays_scanning k (by_answer c ok) (rw e) spent)
      on_answer failed e =
          subst (IsOnAfter k) (sym (start_scan-eq-by_answer c failed e)) (otherwise e)

  -- While no link is up, a due retry of the scan gets the controller to scan: where the stack does
  -- not refuse the scan after `n` more calls, n + 1 firings of the retry are enough.
  pub scan_recovers :
      (n : ℕ) (c : Central Q)
      → c.default_conn ≡ none
      → c.retry_scheduled ≡ true
      → ((calls : List Request)
          → length calls ≡ length c.requests + n
          → answers calls scan_start ≢ failed)
      → is_scanning answers (fire_retries (suc n) c).requests ≡ true
  scan_recovers zero c idle due willing =
      subst (IsOnAfter 0) (sym (fire_retry-unlinked c idle due)) (
        unless_refused 0 (record c { retry_scheduled = false }) refl
          (λ e. absurd (willing c.requests (omega arith) e)))
  scan_recovers (suc n) c idle due willing =
      subst (IsOnAfter (suc n)) (sym (fire_retry-unlinked c idle due)) (
        unless_refused (suc n) (record c { retry_scheduled = false }) refl
          (λ e.
            scan_recovers n (refused (record c { retry_scheduled = false })) idle refl
              (λ calls l. willing calls (omega (arith, l)))))
