-- ===== src/Parser/Termination.antt =====
-- The item loop ends: each round takes bytes off the list. A rule for invariants of the loop.
use zmk_ble_hid_host.Base.{
  ℕ, zero, suc, ◌+◌, ◌%◌, ◌<◌, ◌≡◌, refl, Option, some, List, [], ◌∷◌, length, drop, arith,
  length-drop, ◌==◌, if◌then◌else◌, Bool, true, false,
}
use zmk_ble_hid_host.Parser.State.{Parser}
use zmk_ble_hid_host.Parser.Items.{Item, handle_item}
use zmk_ble_hid_host.Parser.Walk.{
  Next, stop, skip, take_item, next_long, next_short, next_item, resume, walk,
}

-- What is left is shorter than `n`.
abbrev pub Shorter : ℕ → Next → Type 0
Shorter n stop = Unit
Shorter n (skip rest) = length rest < n
Shorter n (take_item item rest) = length rest < n

if_Shorter :
    (n : ℕ) (test : Bool) (a b : Next)
    → Shorter n a
    → Shorter n b
    → Shorter n (if test then a else b)
if_Shorter n true a b ha hb = ha
if_Shorter n false a b ha hb = hb

next_long-Shorter : (bytes : List ℕ) → Shorter (suc (length bytes)) (next_long bytes)
unfolding next_long
next_long-Shorter [] = tt
next_long-Shorter (dsize ∷ rest) = omega (arith, length-drop (1 + dsize) rest)

next_short-Shorter :
    (prefix : ℕ) (rest : List ℕ) → Shorter (suc (length rest)) (next_short prefix rest)
unfolding next_short
next_short-Shorter prefix rest =
    if_Shorter (suc (length rest)) _ stop
      (take_item _ (drop (if prefix % 4 == 3 then 4 else prefix % 4) rest)) tt
      (omega (arith, length-drop (if prefix % 4 == 3 then 4 else prefix % 4) rest))

pub next_item-Shorter : (bytes : List ℕ) → Shorter (length bytes) (next_item bytes)
unfolding next_item
next_item-Shorter [] = tt
next_item-Shorter (prefix ∷ rest) =
    if_Shorter _ _ (next_long rest) (next_short prefix rest) (next_long-Shorter rest)
      (next_short-Shorter prefix rest)

-- With more fuel than bytes the loop ends by its own tests, and what every item keeps holds at
-- the end. `P n p` may speak of the number n of bytes that are left.
module _ {ℓ} (P : ℕ → Parser → Type ℓ) (on_skip : (n m : ℕ) (p : Parser) → m < n → P n p → P m p)
    (on_item : (n m : ℕ) (p : Parser) (item : Item)
      → m < n
      → P n p
      → P m (handle_item p item)) where
  abbrev pub Ends : Option Parser → Type ℓ
  Ends r = (n : ℕ) × (q : Parser) × (r ≡ some q) × P n q

  resume-Ends :
      (fuel n : ℕ) (next : Next) (p : Parser)
      → Shorter n next
      → P n p
      → ((bytes : List ℕ) (q : Parser)
          → length bytes < n
          → P (length bytes) q
          → Ends (walk fuel bytes q))
      → Ends (resume (walk fuel) next p)
  resume-Ends fuel n stop p s h later = unfold resume in (n, p, refl, h)
  resume-Ends fuel n (skip rest) p s h later =
      unfold resume in later rest p s (on_skip n (length rest) p s h)
  resume-Ends fuel n (take_item item rest) p s h later =
      unfold resume in later rest (handle_item p item) s (on_item n (length rest) p item s h)

  pub walk-Ends :
      (fuel : ℕ) (bytes : List ℕ) (p : Parser)
      → length bytes < fuel
      → P (length bytes) p
      → Ends (walk fuel bytes p)
  unfolding walk
  walk-Ends zero bytes p enough h = absurd (omega arith)
  walk-Ends (suc fuel) bytes p enough h =
      resume-Ends fuel (length bytes) (next_item bytes) p (next_item-Shorter bytes) h
        λ rest q less k. walk-Ends fuel rest q (omega arith) k
