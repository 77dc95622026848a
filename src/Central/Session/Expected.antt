-- ===== src/Central/Session/Expected.antt =====
-- The subscriptions that a peer's reports should get, and where each of them stands.
use zmk_ble_hid_host.Base.{
  ℕ, zero, suc, ◌+◌, ◌<◌, ◌≡◌, refl, sym, ap, ap₂, ◌∙◌, some, List, [], ◌∷◌, ◌++◌, append_assoc,
  length, take, get_elem?, get_or, ◌>>=◌, arith, length-append,
}
use zmk_ble_hid_host.Central.State.{Subscription}
use zmk_ble_hid_host.Central.Wiring.{Described, wanted}

-- The subscriptions that a peer's reports should get.
abbrev pub expected : List ℕ → List Described → List Subscription
expected (h ∷ hs) (w ∷ ws) =
    record { report_id = w.id; value_handle = h; ccc_handle = (w.ccc).handle } ∷ expected hs ws
expected _ _ = []

-- The subscriptions wired from collected handles are the expected ones.
get_or-take : (n i : ℕ) (xs : List ℕ) → i < n → get_or (take n xs) i 0 ≡ get_or xs i 0
get_or-take zero i xs h = absurd (omega arith)
get_or-take (suc n) i [] h = refl
get_or-take (suc n) zero (x ∷ xs) h = refl
get_or-take (suc n) (suc i) (x ∷ xs) h = get_or-take n i xs (omega arith)

get_or-append_at : (us vs : List ℕ) (u : ℕ) → get_or (us ++ (u ∷ vs)) (length us) 0 ≡ u
get_or-append_at [] vs u = refl
get_or-append_at (x ∷ us) vs u = get_or-append_at us vs u

wanted-expected :
    (hs : List ℕ) (ws : List Described) (reports before : List ℕ) (n : ℕ)
    → length hs ≡ length ws
    → n ≡ length before + length hs
    → take n reports ≡ before ++ hs
    → wanted reports (length before) ws ≡ expected hs ws
wanted-expected [] [] reports before n same count e = refl
wanted-expected (h ∷ hs) [] reports before n same count e = absurd (omega (arith, same))
wanted-expected [] (w ∷ ws) reports before n same count e = absurd (omega (arith, same))
wanted-expected (h ∷ hs) (w ∷ ws) reports before n same count e =
    ap₂
      (λ (v : ℕ) subs.
        record { report_id = w.id; value_handle = v; ccc_handle = (w.ccc).handle } ∷ subs)
      (sym (get_or-take n (length before) reports (omega (arith, count)))
        ∙ ap (λ xs. get_or xs (length before) 0) e
        ∙ get_or-append_at before hs h)
      (ap (λ i. wanted reports i ws) (sym (length-append before (h ∷ [])))
        ∙ wanted-expected hs ws reports (before ++ (h ∷ [])) n (omega (arith, same))
            (omega (arith, count, length-append before (h ∷ [])))
            (e ∙ sym (append_assoc before (h ∷ []) hs)))

pub wanted-expected_all :
    (hs : List ℕ) (ws : List Described) (reports : List ℕ)
    → length hs ≡ length ws
    → take (length hs) reports ≡ hs
    → wanted reports 0 ws ≡ expected hs ws
wanted-expected_all hs ws reports same e =
    wanted-expected hs ws reports [] (length hs) same (omega arith) e

pub get_elem?-take :
    {A : Type 0} (n i : ℕ) (xs : List A) (a : A)
    → get_elem? (take n xs) i ≡ some a
    → get_elem? xs i ≡ some a
get_elem?-take zero i xs a h = cc
get_elem?-take (suc n) i [] a h = cc
get_elem?-take (suc n) zero (x ∷ xs) a h = h
get_elem?-take (suc n) (suc i) (x ∷ xs) a h = get_elem?-take n i xs a h

pub expected_at :
    (hs : List ℕ) (ws : List Described) (i : ℕ) (w : Described)
    → length hs ≡ length ws
    → get_elem? ws i ≡ some w
    → (h : ℕ) × (get_elem? (expected hs ws) i
        ≡ some (record { report_id = w.id; value_handle = h; ccc_handle = (w.ccc).handle }))
expected_at [] [] i w same at = cc
expected_at (h ∷ hs) [] i w same at = cc
expected_at [] (v ∷ ws) i w same at = absurd (omega (arith, same))
expected_at (h ∷ hs) (v ∷ ws) zero w same at = (
  h,
  ap
      (λ o. o >>= λ (u : Described).
        some (record { report_id = u.id; value_handle = h; ccc_handle = (u.ccc).handle }))
      at,
)
expected_at (h ∷ hs) (v ∷ ws) (suc i) w same at = expected_at hs ws i w (omega (arith, same)) at
