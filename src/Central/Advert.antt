-- ===== src/Central/Advert.antt =====
-- What the central reads of an advertisement: struct ad_info and ad_parse_cb of
-- drivers/input/hog_central.c.
-- bt_data_parse is Zephyr's: it calls the callback on each element of an advertisement, and the
-- callback always asks to go on, so the model takes the elements as a list.
pub mod Matching
use mathlib.Core.List.{foldl}
use zmk_ble_hid_host.Base.{
  ℕ, ◌+◌, ◌*◌, Bool, true, false, ◌||◌, Option, none, some, List, [], ◌∷◌, length, take, ltb, ◌==◌,
  if◌then◌else◌,
}
use zmk_ble_hid_host.Base.Text.{c_string, same_text, contains}

-- The element types that the callback tells apart: BT_DATA_UUID16_SOME, BT_DATA_UUID16_ALL,
-- BT_DATA_GAP_APPEARANCE, BT_DATA_NAME_SHORTENED, BT_DATA_NAME_COMPLETE.
pub data AdType : Type 0 where
  uuid16_some uuid16_all gap_appearance name_shortened name_complete other_type : AdType

-- struct bt_data
pub record AdElement : Type 0 where
  pub type : AdType
  pub payload : List ℕ

-- struct ad_info. `name` is what stands in the array before the NUL that the code writes.
pub record AdInfo : Type 0 where
  pub is_match : Bool
  pub has_hids : Bool
  pub appearance : ℕ
  pub name : List ℕ

abbrev pub empty_ad_info : AdInfo
empty_ad_info = record { is_match = false; has_hids = false; appearance = 0; name = [] }

-- APPEARANCE_MOUSE, BT_UUID_HIDS_VAL and sizeof(ai->name) - 1
abbrev pub appearance_mouse : ℕ
appearance_mouse = 0x03C2

abbrev pub uuid_hids : ℕ
uuid_hids = 0x1812

abbrev pub name_max : ℕ
name_max = 31

-- The three names that stand for a pointer where no filter is set.
abbrev pub ist : List ℕ
ist = b'I' ∷ b'S' ∷ b'T' ∷ []

abbrev pub elecom : List ℕ
elecom = b'E' ∷ b'L' ∷ b'E' ∷ b'C' ∷ b'O' ∷ b'M' ∷ []

abbrev pub ele : List ℕ
ele = b'E' ∷ b'L' ∷ b'E' ∷ []

-- sys_get_le16
abbrev pub le16 : ℕ → ℕ → ℕ
le16 lo hi = lo + 256 * hi

-- The loop over the 16-bit UUIDs; an odd byte at the end is not read.
unfoldable pub lists_hids : List ℕ → Bool
lists_hids (lo ∷ hi ∷ rest) = le16 lo hi == uuid_hids || lists_hids rest
lists_hids (odd ∷ []) = false
lists_hids [] = false

unfoldable pub read_appearance : List ℕ → AdInfo → AdInfo
read_appearance (lo ∷ hi ∷ rest) ai = record ai {
  appearance = le16 lo hi;
  is_match = if le16 lo hi == appearance_mouse then true else ai.is_match;
}
read_appearance (odd ∷ []) ai = ai
read_appearance [] ai = ai

-- The names that make a pointer: the filter's, or by default the three above.
unfoldable pub name_matches : Option (List ℕ) → List ℕ → Bool
name_matches (some filter) name = same_text (c_string name) (c_string filter)
name_matches none name =
    contains (c_string name) ist || contains (c_string name) elecom || contains (c_string name) ele

unfoldable pub read_name : Option (List ℕ) → List ℕ → AdInfo → AdInfo
unfolding name_matches
read_name filter bytes ai =
    let name = take (if ltb (length bytes) name_max then length bytes else name_max) bytes in
    record ai { name = name; is_match = if name_matches filter name then true else ai.is_match }

unfoldable pub read_uuids : List ℕ → AdInfo → AdInfo
unfolding lists_hids
read_uuids bytes ai = record ai { has_hids = if lists_hids bytes then true else ai.has_hids }

abbrev pub read_element : Option (List ℕ) → AdType → List ℕ → AdInfo → AdInfo
read_element filter uuid16_some bytes ai = read_uuids bytes ai
read_element filter uuid16_all bytes ai = read_uuids bytes ai
read_element filter gap_appearance bytes ai = read_appearance bytes ai
read_element filter name_shortened bytes ai = read_name filter bytes ai
read_element filter name_complete bytes ai = read_name filter bytes ai
read_element filter other_type bytes ai = ai

-- `filter` is name_filter, `none` where it is NULL.
unfoldable pub ad_parse_cb : Option (List ℕ) → AdInfo → AdElement → AdInfo
unfolding read_uuids read_appearance read_name
ad_parse_cb filter ai e = read_element filter e.type e.payload ai

-- bt_data_parse with ad_parse_cb, from `struct ad_info ai = {0}`
unfoldable pub parse_advert : Option (List ℕ) → List AdElement → AdInfo
unfolding ad_parse_cb
parse_advert filter = foldl (ad_parse_cb filter) empty_ad_info
