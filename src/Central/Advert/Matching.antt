-- ===== src/Central/Advert/Matching.antt =====
-- An advertisement matches exactly when one of its elements makes it a pointer's.
use mathlib.Core.List.{foldl}
use zmk_ble_hid_host.Base.{
  ℕ, ◌≡◌, refl, sym, ◌↔◌, ◌⊎◌, inl, inr, true, ◌||◌, Option, none, some, List, [], ◌∷◌, ◌++◌,
  length, take, take_min, subst, ltb, ◌==◌, ==_iff, &&_iff, ||_iff, set_flag_iff, if◌then◌else◌,
  arith,
}
use zmk_ble_hid_host.Base.Text.{c_string, same_text, starts_with, contains}
use zmk_ble_hid_host.Central.Advert.{
  AdType, uuid16_some, uuid16_all, gap_appearance, name_shortened, name_complete, other_type,
  AdElement, AdInfo, empty_ad_info, appearance_mouse, ist, elecom, ele, le16, read_appearance,
  name_matches, read_name, read_uuids, read_element, ad_parse_cb, parse_advert,
}

-- strcmp and strstr, as statements about texts.
pub same_text_iff : (s t : List ℕ) → (same_text s t ≡ true) ↔ (s ≡ t)
same_text_iff [] [] = (λ h. refl, λ h. refl)
same_text_iff [] (c ∷ t) = (λ h. cc, λ h. cc)
same_text_iff (b ∷ s) [] = (λ h. cc, λ h. cc)
same_text_iff (b ∷ s) (c ∷ t) =
    let (to, from) = same_text_iff s t in (λ h. ground (arith, to), λ h. ground (arith, from))

abbrev pub HasPrefix : List ℕ → List ℕ → Type 0
HasPrefix s t = (rest : List ℕ) × (s ≡ t ++ rest)

cons_HasPrefix : (b c : ℕ) (s t : List ℕ) → b ≡ c → HasPrefix s t → HasPrefix (b ∷ s) (c ∷ t)
cons_HasPrefix b c s t same (rest, e) = (rest, cc)

uncons_HasPrefix : (b c : ℕ) (s t : List ℕ) → HasPrefix (b ∷ s) (c ∷ t) → (b ≡ c) × HasPrefix s t
uncons_HasPrefix b c s t (rest, e) = (cc, (rest, cc))

starts_with_iff : (s t : List ℕ) → (starts_with s t ≡ true) ↔ HasPrefix s t
starts_with_iff s [] = (λ h. (s, refl), λ h. refl)
starts_with_iff [] (c ∷ t) = (λ h. cc, λ (rest, e). cc)
starts_with_iff (b ∷ s) (c ∷ t) =
    let (to, from) = starts_with_iff s t in
    let (split, join) = &&_iff (b == c) (starts_with s t) in
    (
      λ h. cons_HasPrefix b c s t ((==_iff b c).0 (split h).0) (to (split h).1),
      λ h. let (same, rest) = uncons_HasPrefix b c s t h in join ((==_iff b c).1 same, from rest),
    )

-- `t` stands somewhere in `s`.
pub data Mentions (t : List ℕ) : List ℕ → Type 0 where
  at_start : (s : List ℕ) → HasPrefix s t → Mentions t s
  further : (b : ℕ) (s : List ℕ) → Mentions t s → Mentions t (b ∷ s)

contains_iff : (s t : List ℕ) → (contains s t ≡ true) ↔ Mentions t s
contains_iff [] t =
    (λ h. at_start [] ((starts_with_iff [] t).0 h), λ m. (starts_with_iff [] t).1 (inversion m))
  where
    inversion : Mentions t [] → HasPrefix [] t
    inversion (at_start _ h) = h
contains_iff (b ∷ s) t =
    let (to, from) = contains_iff s t in
    let (split, join) = ||_iff (starts_with (b ∷ s) t) (contains s t) in
    (
      λ h. elim (split h) [
        | inl here ↦ at_start (b ∷ s) ((starts_with_iff (b ∷ s) t).0 here)
        | inr later ↦ further b s (to later)
      ],
      λ m. join (inversion from m),
    )
  where
    inversion :
        (Mentions t s → contains s t ≡ true)
        → Mentions t (b ∷ s)
        → (starts_with (b ∷ s) t ≡ true) ⊎ (contains s t ≡ true)
    inversion from (at_start _ h) = inl ((starts_with_iff (b ∷ s) t).1 h)
    inversion from (further _ _ m) = inr (from m)

-- The names that make a pointer: the filter's, or any name with IST or ELE in it.
abbrev pub IsPointerName : Option (List ℕ) → List ℕ → Type 0
IsPointerName (some filter) name = c_string name ≡ c_string filter
IsPointerName none name = Mentions ist (c_string name) ⊎ Mentions ele (c_string name)

-- Every ELECOM has an ELE.
ele_in_elecom : (s : List ℕ) → Mentions elecom s → Mentions ele s
ele_in_elecom s (at_start _ (rest, e)) = at_start s (b'C' ∷ b'O' ∷ b'M' ∷ rest, e)
ele_in_elecom s (further b s' m) = further b s' (ele_in_elecom s' m)

name_matches_iff :
    (filter : Option (List ℕ)) (name : List ℕ)
    → (name_matches filter name ≡ true) ↔ IsPointerName filter name
unfolding name_matches
name_matches_iff (some filter) name = same_text_iff (c_string name) (c_string filter)
name_matches_iff none name =
    let s = c_string name in
    let (split, join) = ||_iff (contains s ist || contains s elecom) (contains s ele) in
    let (split', join') = ||_iff (contains s ist) (contains s elecom) in
    (
      λ h. elim (split h) [
        | inl early ↦ elim (split' early) [
          | inl m ↦ inl ((contains_iff s ist).0 m)
          | inr m ↦ inr (ele_in_elecom s ((contains_iff s elecom).0 m))
        ]
        | inr m ↦ inr ((contains_iff s ele).0 m)
      ],
      λ h. elim h [
        | inl m ↦ join (inl (join' (inl ((contains_iff s ist).1 m))))
        | inr m ↦ join (inr ((contains_iff s ele).1 m))
      ],
    )

-- What one element must be: a mouse's appearance, or a pointer's name in its first 31 bytes.
abbrev pub MakesPointer : Option (List ℕ) → AdType → List ℕ → Type 0
MakesPointer filter gap_appearance bytes =
    (lo : ℕ) × (hi : ℕ) × (rest : List ℕ) × (bytes ≡ lo ∷ hi ∷ rest)
    × (le16 lo hi ≡ appearance_mouse)
MakesPointer filter name_shortened bytes = IsPointerName filter (take 31 bytes)
MakesPointer filter name_complete bytes = IsPointerName filter (take 31 bytes)
MakesPointer filter uuid16_some bytes = ⊥
MakesPointer filter uuid16_all bytes = ⊥
MakesPointer filter other_type bytes = ⊥

-- Some element of the advertisement is such.
abbrev pub LooksLikePointer : Option (List ℕ) → List AdElement → Type 0
LooksLikePointer filter [] = ⊥
LooksLikePointer filter (e ∷ es) = MakesPointer filter e.type e.payload ⊎ LooksLikePointer filter es

by_name :
    (filter : Option (List ℕ)) (bytes : List ℕ) (ai : AdInfo)
    → ((read_name filter bytes ai).is_match ≡ true)
      ↔ (IsPointerName filter (take 31 bytes) ⊎ (ai.is_match ≡ true))
unfolding read_name
by_name filter bytes ai =
    let name = take (if ltb (length bytes) 31 then length bytes else 31) bytes in
    let cut : name ≡ take 31 bytes = take_min 31 bytes in
    let (split, join) = set_flag_iff (name_matches filter name) ai.is_match in
    let (to, from) = name_matches_iff filter name in
    (
      λ h. elim (split h) [
        | inl m ↦ inl (subst (IsPointerName filter) cut (to m))
        | inr before ↦ inr before
      ],
      λ h. join (elim h [
        | inl m ↦ inl (from (subst (IsPointerName filter) (sym cut) m))
        | inr before ↦ inr before
      ]),
    )

read_element_iff :
    (filter : Option (List ℕ)) (type : AdType) (bytes : List ℕ) (ai : AdInfo)
    → ((read_element filter type bytes ai).is_match ≡ true)
      ↔ (MakesPointer filter type bytes ⊎ (ai.is_match ≡ true))
unfolding read_appearance read_name read_uuids
read_element_iff filter uuid16_some bytes ai = (inr, λ h. elim h [ inl m ↦ absurd m | inr h ↦ h ])
read_element_iff filter uuid16_all bytes ai = (inr, λ h. elim h [ inl m ↦ absurd m | inr h ↦ h ])
read_element_iff filter other_type bytes ai = (inr, λ h. elim h [ inl m ↦ absurd m | inr h ↦ h ])
read_element_iff filter gap_appearance [] ai =
    (inr, λ h. elim h [ inl (lo, hi, rest, e, v) ↦ absurd (cc) | inr h ↦ h ])
read_element_iff filter gap_appearance (odd ∷ []) ai =
    (inr, λ h. elim h [ inl (lo, hi, rest, e, v) ↦ absurd (cc) | inr h ↦ h ])
read_element_iff filter gap_appearance (lo ∷ hi ∷ rest) ai =
    let (split, join) = set_flag_iff (le16 lo hi == appearance_mouse) ai.is_match in
    (
      λ h. elim (split h) [
        | inl mouse ↦ inl (lo, hi, rest, refl, (==_iff (le16 lo hi) appearance_mouse).0 mouse)
        | inr before ↦ inr before
      ],
      λ h. join (elim h [
        | inl (lo', hi', rest', e, v) ↦ inl (ground (arith, v, e))
        | inr before ↦ inr before
      ]),
    )
read_element_iff filter name_shortened bytes ai = by_name filter bytes ai
read_element_iff filter name_complete bytes ai = by_name filter bytes ai

fold_iff :
    (filter : Option (List ℕ)) (es : List AdElement) (ai : AdInfo)
    → ((foldl (ad_parse_cb filter) ai es).is_match ≡ true)
      ↔ (LooksLikePointer filter es ⊎ (ai.is_match ≡ true))
unfolding ad_parse_cb
fold_iff filter [] ai = (inr, λ h. elim h [ inl m ↦ absurd m | inr h ↦ h ])
fold_iff filter (e ∷ es) ai =
    let (to, from) = fold_iff filter es (read_element filter e.type e.payload ai) in
    let (split, join) = read_element_iff filter e.type e.payload ai in
    (
      λ h. elim (to h) [
        | inl later ↦ inl (inr later)
        | inr now ↦ elim (split now) [ inl m ↦ inl (inl m) | inr before ↦ inr before ]
      ],
      λ h. from (elim h [
        | inl looks ↦ elim looks [ inl m ↦ inr (join (inl m)) | inr later ↦ inl later ]
        | inr before ↦ inr (join (inr before))
      ]),
    )

-- An advertisement is taken for a pointer's exactly when one of its elements gives the appearance
-- of a mouse, whatever filter is set, or a name, cut at 31 bytes and at its first NUL, that equals
-- the filter or, where there is none, has IST or ELE in it.
pub parse_advert_iff :
    (filter : Option (List ℕ)) (es : List AdElement)
    → ((parse_advert filter es).is_match ≡ true) ↔ LooksLikePointer filter es
unfolding parse_advert
parse_advert_iff filter es =
    let (to, from) = fold_iff filter es empty_ad_info in
    (λ h. elim (to h) [ inl looks ↦ looks | inr unset ↦ absurd (ground arith) ], λ h. from (inl h))
