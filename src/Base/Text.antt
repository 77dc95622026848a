-- ===== src/Base/Text.antt =====
-- The C strings that a byte buffer holds, and what strcmp and strstr ask of them.
use Prim.Native.Nat.{ℕ}
use mathlib.Core.Bool.{Bool, true, false, ◌&&◌, ◌||◌}
use mathlib.Core.List.{List, [], ◌∷◌}
use zmk_ble_hid_host.Base.Tests.{◌==◌, if◌then◌else◌}

-- The bytes before the first NUL.
abbrev pub c_string : List ℕ → List ℕ
c_string [] = []
c_string (b ∷ bs) = let rest = c_string bs in if b == 0 then [] else b ∷ rest

-- strcmp(s, t) == 0
abbrev pub same_text : List ℕ → List ℕ → Bool
same_text [] [] = true
same_text [] (c ∷ t) = false
same_text (b ∷ s) [] = false
same_text (b ∷ s) (c ∷ t) = b == c && same_text s t

abbrev pub starts_with : List ℕ → List ℕ → Bool
starts_with s [] = true
starts_with [] (c ∷ t) = false
starts_with (b ∷ s) (c ∷ t) = b == c && starts_with s t

-- strstr(s, t) != NULL
abbrev pub contains : List ℕ → List ℕ → Bool
contains [] t = starts_with [] t
contains (b ∷ s) t = starts_with (b ∷ s) t || contains s t
