-- ===== src/Probe/Advert.antt =====
-- What the probe reads of an advertisement: struct ad_info and ad_parse_cb of probe/src/main.c.
use zmk_ble_hid_host.Base.{
  ℕ, Bool, true, false, not, ◌||◌, List, [], ◌∷◌, length, take, ltb, ◌==◌, if◌then◌else◌, ◌>>=◌,
  Option, some, none, ◌-◌,
}
use zmk_ble_hid_host.Base.Text.{c_string, contains}
use zmk_ble_hid_host.Central.Advert.{
  AdType, uuid16_some, uuid16_all, gap_appearance, name_shortened, name_complete, other_type,
  AdElement, le16,
}

-- struct ad_info. `name` is what stands in the array before the NUL that the code writes.
pub record AdInfo : Type 0 where
  pub is_match : Bool
  pub has_hids : Bool
  pub appearance : ℕ
  pub name : List ℕ

abbrev pub empty_ad_info : AdInfo
empty_ad_info = record { is_match = false; has_hids = false; appearance = 0; name = [] }

-- APPEARANCE_MOUSE, BT_UUID_HIDS_VAL, sizeof(ai->name) and what the code takes of a name.
abbrev pub appearance_mouse : ℕ
appearance_mouse = 0x03C2

abbrev pub uuid_hids : ℕ
uuid_hids = 0x1812

abbrev pub name_size : ℕ
name_size = 32

abbrev pub name_max : ℕ
name_max = name_size - 1

-- The three strstr tests.
unfoldable pub is_pointer_name : List ℕ → Bool
is_pointer_name name =
    contains (c_string name) (b'I' ∷ b'S' ∷ b'T' ∷ [])
    || contains (c_string name) (b'E' ∷ b'L' ∷ b'E' ∷ b'C' ∷ b'O' ∷ b'M' ∷ [])
    || contains (c_string name) (b'E' ∷ b'L' ∷ b'E' ∷ [])

-- The loop over the 16-bit UUIDs sets a flag; an odd byte at the end is not read.
unfoldable pub read_uuids : List ℕ → AdInfo → AdInfo
read_uuids (lo ∷ hi ∷ rest) ai =
    read_uuids rest (record ai { has_hids = if le16 lo hi == uuid_hids then true else ai.has_hids })
read_uuids (odd ∷ []) ai = ai
read_uuids [] ai = ai

unfoldable pub read_appearance : List ℕ → AdInfo → AdInfo
read_appearance (lo ∷ hi ∷ rest) ai = record ai {
  appearance = le16 lo hi;
  is_match = if le16 lo hi == appearance_mouse then true else ai.is_match;
}
read_appearance (odd ∷ []) ai = ai
read_appearance [] ai = ai

-- memcpy of n bytes to `name` and the NUL at name[n]; `none` for a write beyond the array.
unfoldable pub copy_name : ℕ → List ℕ → Option (List ℕ)
copy_name n bytes = if ltb n name_size then some (take n bytes) else none

unfoldable pub read_name : List ℕ → AdInfo → Option AdInfo
unfolding is_pointer_name copy_name
read_name bytes ai =
    let n = if ltb (length bytes) name_max then length bytes else name_max in
    copy_name n bytes >>= λ name.
    some (record ai { name = name; is_match = if is_pointer_name name then true else ai.is_match })

abbrev pub read_element : AdType → List ℕ → AdInfo → Option AdInfo
read_element uuid16_some bytes ai = some (read_uuids bytes ai)
read_element uuid16_all bytes ai = some (read_uuids bytes ai)
read_element gap_appearance bytes ai = some (read_appearance bytes ai)
read_element name_shortened bytes ai = read_name bytes ai
read_element name_complete bytes ai = read_name bytes ai
read_element other_type bytes ai = some ai

unfoldable pub ad_parse_cb : AdInfo → AdElement → Option AdInfo
unfolding read_uuids read_appearance read_name
ad_parse_cb ai e = read_element e.type e.payload ai

-- bt_data_parse calls ad_parse_cb, which always returns true, with every element in turn.
unfoldable pub parse_elements : List AdElement → AdInfo → Option AdInfo
unfolding ad_parse_cb
parse_elements [] ai = some ai
parse_elements (e ∷ es) ai = ad_parse_cb ai e >>= parse_elements es

-- From `struct ad_info ai = {0}`.
unfoldable pub parse_advert : List AdElement → Option AdInfo
unfolding parse_elements
parse_advert es = parse_elements es empty_ad_info

-- ai.name[0] != '\0'
abbrev pub has_name : List ℕ → Bool
has_name [] = false
has_name (b ∷ bs) = not (b == 0)
