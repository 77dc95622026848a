-- ===== src/Base/Faults.antt =====
-- Undefined behaviour as a value: `none` is a step that C does not define.
use mathlib.Core.Option.{Option, none, some}
use mathlib.Core.Bool.{Bool, true, false}
use zmk_ble_hid_host.Base.Tests.{if◌then◌else◌}
use mathlib.Core.Path.{◌≡◌, refl}

infixl 5 ◌>>=◌
abbrev pub ◌>>=◌ {ℓ κ} : {A : Type ℓ} {B : Type κ} → Option A → (A → Option B) → Option B
none >>= f = none
some a >>= f = f a

-- Inversion of a successful bind.
pub >>=-eq-some {ℓ κ} :
    {A : Type ℓ} {B : Type κ} (m : Option A) (f : A → Option B) {b : B}
    → (m >>= f) ≡ some b
    → (a : A) × (m ≡ some a) × (f a ≡ some b)
>>=-eq-some none f h = cc
>>=-eq-some (some a) f h = (a, refl, h)

pub >>=-assoc {ℓ κ ℓ'} :
    {A : Type ℓ} {B : Type κ} {C : Type ℓ'} (m : Option A) (f : A → Option B) (g : B → Option C)
    → (m >>= λ a. f a >>= g) ≡ (m >>= f >>= g)
>>=-assoc none f g = refl
>>=-assoc (some a) f g = refl

pub >>=-congr {ℓ κ} :
    {A : Type ℓ} {B : Type κ} (m : Option A) (f g : A → Option B)
    → ((a : A) → f a ≡ g a)
    → (m >>= f) ≡ (m >>= g)
>>=-congr none f g h = refl
>>=-congr (some a) f g h = h a

-- If the step is defined, what it leaves satisfies `P`.
abbrev pub After {ℓ} : {A : Type ℓ} → (A → Type 0) → Option A → Type 0
After P none = Unit
After P (some a) = P a

pub bind_After {ℓ κ} :
    {A : Type ℓ} {B : Type κ} (P : B → Type 0) (m : Option A) (f : A → Option B)
    → ((a : A) → After P (f a))
    → After P (m >>= f)
bind_After P none f h = tt
bind_After P (some a) f h = h a

-- The same for a step whose result another step takes.
pub chain_After {ℓ κ} :
    {A : Type ℓ} {B : Type κ} (P : A → Type 0) (R : B → Type 0) (m : Option A) (f : A → Option B)
    → After P m
    → ((a : A) → P a → After R (f a))
    → After R (m >>= f)
chain_After P R none f q h = tt
chain_After P R (some a) f q h = h a q

-- What holds in both branches.
pub if_holds {ℓ} :
    {A : Type ℓ} (P : A → Type 0) (test : Bool) (a b : A) → P a → P b → P (if test then a else b)
if_holds P true a b ha hb = ha
if_holds P false a b ha hb = hb
