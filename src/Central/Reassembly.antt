-- ===== src/Central/Reassembly.antt =====
-- The report map arrives in chunks of one PDU each.
use zmk_ble_hid_host.Base.{
  ℕ, zero, suc, ◌+◌, ◌-◌, ◌^◌, ◌≤◌, ◌≡◌, ◌≢◌, refl, sym, ap, ◌∙◌, false, Option, some, List, [],
  ◌∷◌, ◌++◌, append_assoc, append-nil, length, take, take-append, take_all, take_min, length-take,
  All, ltb, if◌then◌else◌, ◌>>=◌, u16, arith,
}
use zmk_ble_hid_host.Central.State.{Stack, Central}
use zmk_ble_hid_host.Central.Discovery.{append_chunk, report_map_read_cb}

module _ {A : Type 0} where
  take-take-append : (n : ℕ) (xs ys : List A) → take n (take n xs ++ ys) ≡ take n (xs ++ ys)
  take-take-append zero xs ys = refl
  take-take-append (suc n) [] ys = refl
  take-take-append (suc n) (x ∷ xs) ys = ap (◌∷◌ x) (take-take-append n xs ys)

abbrev pub concat_chunks : List (List ℕ) → List ℕ
concat_chunks [] = []
concat_chunks (chunk ∷ chunks) = chunk ++ concat_chunks chunks

module _ {Q : Type 0} (answers : Stack) where
  -- The calls of report_map_read_cb for chunks that come one after the other.
  unfoldable pub read_chunks : List (List ℕ) → Central Q → Option (Central Q)
  read_chunks [] c = some c
  read_chunks (chunk ∷ chunks) c =
      report_map_read_cb answers 0 (some chunk) c >>= read_chunks chunks

  append_chunk-take :
      (chunk : List ℕ) (c : Central Q)
      → length c.rm_buf ≤ 512
      → append_chunk chunk c ≡ some (record c { rm_buf = take 512 (c.rm_buf ++ chunk) })
  unfolding append_chunk
  append_chunk-take chunk c h =
      let room = u16 (512 + 2 ^ 16 - length c.rm_buf) in
      let kept = take (if ltb (length chunk) room then length chunk else room) chunk in
      let exact : kept ≡ take (512 - length c.rm_buf) chunk =
        take_min room chunk ∙ ap (λ (n : ℕ). take n chunk) (omega arith) in
      let fits : length c.rm_buf + length kept ≤ 512 =
        omega (arith, ap length exact, length-take (512 - length c.rm_buf) chunk) in
      let no_fault : ltb 512 (length c.rm_buf + length kept) ≡ false = ground arith in
      rw no_fault (
        ap (λ buf. some (record c { rm_buf = buf }))
          (ap (◌++◌ c.rm_buf) exact ∙ sym (take-append 512 c.rm_buf chunk h)))

  -- Non-empty chunks, however they are cut and however long, fill the buffer with their bytes in
  -- order, up to its 512 bytes; the rest is dropped, and nothing else of the central changes.
  pub read_chunks_lem :
      (chunks : List (List ℕ)) (c : Central Q)
      → length c.rm_buf ≤ 512
      → All (λ chunk. chunk ≢ []) chunks
      → read_chunks chunks c
        ≡ some (record c { rm_buf = take 512 (c.rm_buf ++ concat_chunks chunks) })
  unfolding read_chunks report_map_read_cb
  read_chunks_lem [] c h full =
      ap (λ buf. some (record c { rm_buf = buf }))
        (sym (take_all 512 c.rm_buf h) ∙ ap (take 512) (sym (append-nil c.rm_buf)))
  read_chunks_lem ([] ∷ chunks) c h full = absurd (full.0 refl)
  read_chunks_lem ((b ∷ bs) ∷ chunks) c h full =
      let filled = take 512 (c.rm_buf ++ (b ∷ bs)) in
      ap (λ r. r >>= read_chunks chunks) (append_chunk-take (b ∷ bs) c h)
      ∙ read_chunks_lem chunks (record c { rm_buf = filled })
          (omega (arith, length-take 512 (c.rm_buf ++ (b ∷ bs)))) full.1
      ∙ ap (λ buf. some (record c { rm_buf = buf }))
          (take-take-append 512 (c.rm_buf ++ (b ∷ bs)) (concat_chunks chunks)
            ∙ ap (take 512) (append_assoc c.rm_buf (b ∷ bs) (concat_chunks chunks)))
