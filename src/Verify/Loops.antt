-- ===== src/Verify/Loops.antt =====
-- The loops of populate_verify_io_u and verify_io_u over the blocks of an io_u.
use fio_ssd.Prelude.{
  arith, refl, sym, ◌∙◌, ℕ, zero, suc, ◌+◌, ◌^◌, ◌≤◌, ◌<◌, ◌≡◌, inl, inr, Bool, true, false, some,
  dec_lt,
}
use fio_ssd.RandMap.{u32}
use fio_ssd.Bytes.{Mem, inside}
use fio_ssd.Verify.{Sums, VerifyOptions, Io, get_hdr_inc}
use fio_ssd.Verify.Populate.{populate_hdr, populate_blocks}
use fio_ssd.Verify.Check.{
  Checked, goes_on, verify_header, verify_digest, verify_io_u_meta, verify_io_u_pattern,
  verify_checksum, check_block, verify_block, verify_blocks,
}
use fio_ssd.Verify.Blocks.{HasSum}
use fio_ssd.Verify.Passes.{OffsetFits}
use fio_ssd.Verify.Accepted.{
  AllAccepted, AtBlock, AtBlock-InPlace, AtBlock-next, populate_hdr-Accepted,
}

-- The io_u `r` reads what `u` wrote.
pub record SameIo (u r : Io) : Type 0 where
  pub size : u.size ≡ r.size
  pub offset : u.offset ≡ r.offset
  pub buflen : u.buflen ≡ r.buflen
  pub unique_version : u.unique_version ≡ r.unique_version

-- An io_u with the fields that a block's checks read.
abbrev cut : ℕ → ℕ → ℕ → ℕ → Io
cut size offset buflen version = record {
  buf = λ i. 0;
  size = size;
  offset = offset;
  buflen = buflen;
  rand_seed = 0;
  unique_version = version;
  buf_filled_len = 0;
  reads = false;
  trimmed = false;
  start_sec = 0;
  start_usec = 0;
}

module _ (s : Sums) (is_match : ℕ → ℕ → Bool) (o : VerifyOptions) where
  verify_block-cut :
      (u : Io) (inc num p : ℕ) (m : Mem)
      → verify_block s is_match o u inc num p m
        ≡ verify_block s is_match o (cut u.size u.offset u.buflen u.unique_version) inc num p m
  unfolding verify_block check_block verify_header verify_checksum verify_digest verify_io_u_meta
      verify_io_u_pattern get_hdr_inc
  verify_block-cut u inc num p m = refl

  verify_block-same :
      (u r : Io)
      → SameIo u r
      → (inc num p : ℕ) (m : Mem)
      → verify_block s is_match o u inc num p m ≡ verify_block s is_match o r inc num p m
  verify_block-same u r e inc num p m =
      verify_block-cut u inc num p m
      ∙ (λ i.
          verify_block s is_match o (cut (e.size i) (e.offset i) (e.buflen i) (e.unique_version i))
            inc num p m)
      ∙ sym (verify_block-cut r inc num p m)

module _ (s : Sums) (is_match : ℕ → ℕ → Bool) (o : VerifyOptions) (u : Io) (inc : ℕ)
    (same : (v : ℕ) → is_match v v ≡ true) (fits : inc ≤ u.buflen) (has_sum : HasSum s o inc)
    (offset_fits : OffsetFits o inc) (version_small : u.unique_version < 2 ^ 128) where
  abbrev pub Ok : ℕ → ℕ → ℕ → Mem → Type 0
  Ok fuel num p w =
      AllAccepted s is_match o u inc same fits has_sum offset_fits version_small fuel num p w

  abbrev pub At : ℕ → ℕ → ℕ → ℕ → Type 0
  At fuel n num p =
      AtBlock s is_match o u inc same fits has_sum offset_fits version_small fuel n num p

  populate_blocks-step :
      (fuel num p : ℕ) (m m' w : Mem)
      → p < u.buflen
      → populate_hdr s o u num inc p m ≡ some m'
      → populate_blocks fuel s o u inc (u32 (num + 1)) (p + inc) m' ≡ some w
      → populate_blocks (suc fuel) s o u inc num p m ≡ some w
  unfolding populate_blocks
  populate_blocks-step fuel num p m m' w h e f = rw e (ground (arith, f))

  populate_blocks-end :
      (fuel num p : ℕ) (m : Mem)
      → u.buflen ≤ p
      → populate_blocks (suc fuel) s o u inc num p m ≡ some m
  unfolding populate_blocks
  populate_blocks-end fuel num p m h = ground arith

  all_at_end : (fuel num p : ℕ) (w : Mem) → u.buflen ≤ p → Ok fuel num p w
  all_at_end zero num p w h = tt
  all_at_end (suc fuel) num p w h =
      (λ l. absurd (omega arith), all_at_end fuel (u32 (num + 1)) (p + inc) w (omega arith))

  pub populate_blocks-Ok :
      (fuel n num p : ℕ) (m : Mem)
      → At fuel n num p
      → (w : Mem) × (populate_blocks fuel s o u inc num p m ≡ some w)
        × ((i : ℕ) → i < p → m i ≡ w i)
        × Ok fuel num p w
  populate_blocks-Ok zero n num p m at = absurd (omega (arith, at.enough, at.inside))
  populate_blocks-Ok (suc fuel) n num p m at = elim (dec_lt p u.buflen) [
    | yes h ↦
        let (place, inside) =
          AtBlock-InPlace s is_match o u inc same fits has_sum offset_fits version_small (suc fuel)
            n num p at h in
        let (m', filled, outside, accepted) =
          populate_hdr-Accepted s is_match o u inc same fits has_sum offset_fits version_small num p
            m place in
        let (w, rest, kept, all) = populate_blocks-Ok fuel n (u32 (num + 1)) (p + inc) m' (
          AtBlock-next s is_match o u inc same fits has_sum offset_fits version_small fuel n num p
            at h) in
        (
          w,
          populate_blocks-step fuel num p m m' w h filled rest,
          λ i l. outside i (inl l) ∙ kept i (omega arith),
          (λ l a agree. accepted a (λ i x y. kept i y ∙ agree i x y), all),
        )
    | no h ↦ (
      m,
      populate_blocks-end fuel num p m (omega arith),
      λ i l. refl,
      all_at_end (suc fuel) num p m (omega arith),
    )
  ]

  verify_blocks-step :
      (r : Io) (fuel num p : ℕ) (m m' : Mem) (c : Checked × Mem)
      → p < r.buflen
      → verify_block s is_match o r inc num p m ≡ some (goes_on 0, m')
      → verify_blocks s is_match o r fuel inc (u32 (num + 1)) (p + inc) 0 m' ≡ some c
      → verify_blocks s is_match o r (suc fuel) inc num p 0 m ≡ some c
  unfolding verify_blocks
  verify_blocks-step r fuel num p m m' c h e f = rw e (ground (arith, f))

  verify_blocks-end :
      (r : Io) (fuel num p : ℕ) (m : Mem)
      → r.buflen ≤ p
      → verify_blocks s is_match o r (suc fuel) inc num p 0 m ≡ some (goes_on 0, m)
  unfolding verify_blocks
  verify_blocks-end r fuel num p m h = ground arith

  pub verify_blocks-Ok :
      (r : Io)
      → SameIo u r
      → (fuel n num p : ℕ) (w m : Mem) → At fuel n num p
      → Ok fuel num p w
      → ((i : ℕ) → p ≤ i → w i ≡ m i)
      → (m' : Mem) × (verify_blocks s is_match o r fuel inc num p 0 m ≡ some (goes_on 0, m'))
  verify_blocks-Ok r read zero n num p w m at ok agree =
      absurd (omega (arith, at.enough, at.inside))
  verify_blocks-Ok r read (suc fuel) n num p w m at ok agree = elim (dec_lt p u.buflen) [
    | yes h ↦
        let (m', done, outside) = ok.0 h m (λ i x y. agree i x) in
        let (m'', rest) =
          verify_blocks-Ok r read fuel n (u32 (num + 1)) (p + inc) w m'
            (AtBlock-next s is_match o u inc same fits has_sum offset_fits version_small fuel n num
              p at h)
            ok.1 (λ i x. agree i (omega arith) ∙ outside i (inr x)) in
        (
          m'',
          verify_blocks-step r fuel num p m m' (goes_on 0, m'') (omega (arith, read.buflen))
              (sym (verify_block-same s is_match o u r read inc num p m) ∙ done) rest,
        )
    | no h ↦ (m, verify_blocks-end r fuel num p m (omega (arith, read.buflen)))
  ]
