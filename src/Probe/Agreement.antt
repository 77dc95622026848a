-- ===== src/Probe/Agreement.antt =====
-- The probe and the central take the same advertisers for pointers and pick the same targets, where
-- the central has no name filter.
use mathlib.Core.List.{foldl}
use zmk_ble_hid_host.Base.{
  ℕ, ◌≡◌, refl, ap, ◌∙◌, Bool, true, false, ◌||◌, none, List, [], ◌∷◌, ◌==◌, if◌then◌else◌, Option,
  some, ◌>>=◌, length, take, ltb, arith,
}
use zmk_ble_hid_host.Central.State.{Central}
use zmk_ble_hid_host.Central.Advert.{
  AdType, uuid16_some, uuid16_all, gap_appearance, name_shortened, name_complete, other_type,
  AdElement, le16, uuid_hids,
}
use zmk_ble_hid_host.Central.Advert as Host
use zmk_ble_hid_host.Central.Peers as HostPeers
use zmk_ble_hid_host.Central.Peers.{AdvType}
use zmk_ble_hid_host.Probe.State.{Probe}
use zmk_ble_hid_host.Probe.Advert.{
  AdInfo, empty_ad_info, is_pointer_name, read_uuids, read_appearance, read_name, ad_parse_cb,
  parse_elements, parse_advert, copy_name, name_max,
}
use zmk_ble_hid_host.Probe.Link.{addr_is_bonded, is_target}

-- The central's record of the same fields.
abbrev pub host_info : AdInfo → Host.AdInfo
host_info ai = record {
  is_match = ai.is_match;
  has_hids = ai.has_hids;
  appearance = ai.appearance;
  name = ai.name;
}

flag_twice :
    (a b old : Bool)
    → (if b then true else (if a then true else old)) ≡ (if a || b then true else old)
flag_twice true true old = refl
flag_twice true false old = refl
flag_twice false true old = refl
flag_twice false false old = refl

read_uuids_agrees :
    (bytes : List ℕ) (ai : AdInfo)
    → host_info (read_uuids bytes ai) ≡ Host.read_uuids bytes (host_info ai)
unfolding read_uuids Host.read_uuids Host.lists_hids
read_uuids_agrees [] ai = refl
read_uuids_agrees (odd ∷ []) ai = refl
read_uuids_agrees (lo ∷ hi ∷ rest) ai =
    read_uuids_agrees rest
      (record ai { has_hids = if le16 lo hi == uuid_hids then true else ai.has_hids })
    ∙ ap
        (λ (flag : Bool).
          let info : Host.AdInfo = record {
            is_match = ai.is_match;
            has_hids = flag;
            appearance = ai.appearance;
            name = ai.name;
          } in
          info)
        (flag_twice (le16 lo hi == uuid_hids) (Host.lists_hids rest) ai.has_hids)

read_appearance_agrees :
    (bytes : List ℕ) (ai : AdInfo)
    → host_info (read_appearance bytes ai) ≡ Host.read_appearance bytes (host_info ai)
unfolding read_appearance Host.read_appearance
read_appearance_agrees [] ai = refl
read_appearance_agrees (odd ∷ []) ai = refl
read_appearance_agrees (lo ∷ hi ∷ rest) ai = refl

-- The step of the parse is defined, and agrees with the central's `info`.
abbrev AgreesWith : Host.AdInfo → Option AdInfo → Type 0
AgreesWith info r = (ai : AdInfo) × (r ≡ some ai) × (host_info ai ≡ info)

-- The part of a name that is copied fits, with its NUL.
copy_fits :
    (n : ℕ) (bytes : List ℕ)
    → copy_name (if ltb n name_max then n else name_max) bytes
      ≡ some (take (if ltb n name_max then n else name_max) bytes)
unfolding copy_name
copy_fits n bytes = ground arith

read_name_agrees :
    (bytes : List ℕ) (ai : AdInfo)
    → AgreesWith (Host.read_name none bytes (host_info ai)) (read_name bytes ai)
unfolding read_name is_pointer_name Host.read_name Host.name_matches
read_name_agrees bytes ai = rw (copy_fits (length bytes) bytes) (_, refl, refl)

read_element_agrees :
    (type : AdType) (bytes : List ℕ) (ai : AdInfo)
    → AgreesWith
        (Host.ad_parse_cb none (host_info ai) (record { type = type; payload = bytes }))
        (ad_parse_cb ai (record { type = type; payload = bytes }))
unfolding ad_parse_cb Host.ad_parse_cb
read_element_agrees uuid16_some bytes ai = (_, refl, read_uuids_agrees bytes ai)
read_element_agrees uuid16_all bytes ai = (_, refl, read_uuids_agrees bytes ai)
read_element_agrees gap_appearance bytes ai = (_, refl, read_appearance_agrees bytes ai)
read_element_agrees name_shortened bytes ai = read_name_agrees bytes ai
read_element_agrees name_complete bytes ai = read_name_agrees bytes ai
read_element_agrees other_type bytes ai = (_, refl, refl)

parse_elements_agrees :
    (es : List AdElement) (ai : AdInfo)
    → AgreesWith (foldl (Host.ad_parse_cb none) (host_info ai) es) (parse_elements es ai)
unfolding parse_elements
parse_elements_agrees [] ai = (ai, refl, refl)
parse_elements_agrees (e ∷ es) ai =
    let (ai1, first, same) = read_element_agrees e.type e.payload ai in
    let (ai', rest, agrees) = parse_elements_agrees es ai1 in
    (
      ai',
      ap (λ r. r >>= parse_elements es) first ∙ rest,
      agrees ∙ ap (λ info. foldl (Host.ad_parse_cb none) info es) same,
    )

-- No advertisement makes the parse fail, and the probe reads of it what the central does.
pub parse_advert_agrees :
    (es : List AdElement) → AgreesWith (Host.parse_advert none es) (parse_advert es)
unfolding parse_advert Host.parse_advert
parse_advert_agrees es = parse_elements_agrees es empty_ad_info

-- The probe parses every advertisement, and begins a connection to the advertiser exactly where a
-- central without a name filter, with the same link and the same last failure, does.
pub is_target_agrees :
    {Q : Type 0} (bonds : List ℕ) (addr : ℕ) (type : AdvType) (es : List AdElement) (now : ℕ)
    (p : Probe) (c : Central Q)
    → c.name_filter ≡ none
    → c.default_conn ≡ p.default_conn
    → c.last_failed_addr ≡ p.last_failed_addr
    → c.last_failed_ms ≡ p.last_failed_ms
    → (parse_advert es >>= λ ai. some (is_target bonds addr type ai.is_match now p))
      ≡ some (HostPeers.is_target bonds addr type es now c)
unfolding is_target HostPeers.is_target addr_is_bonded HostPeers.addr_is_bonded
is_target_agrees bonds addr type es now p c unfiltered link failed when =
    let (ai, parsed, same) = parse_advert_agrees es in
    ap (λ r. r >>= λ info. some (is_target bonds addr type info.is_match now p)) parsed
    ∙ rw unfiltered (rw link (rw failed (rw when (rw (← same) refl))))
