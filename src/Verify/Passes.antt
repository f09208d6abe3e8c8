-- ===== src/Verify/Passes.antt =====
-- populate_hdr and the body of the loop of verify_io_u, on one block.
use fio_ssd.Prelude.{
  arith, sym, ◌∙◌, ℕ, ◌+◌, ◌-◌, ◌%◌, ◌^◌, ◌≤◌, ◌≡◌, ◌⊎◌, inl, inr, Bool, true, false, some, not,
  ◌&&◌, if◌then◌else◌, Bool-cases,
}
use fio_ssd.RandMap.{u32}
use fio_ssd.Bytes.{Mem, get, put}
use fio_ssd.Bytes.Laws.{Agree, put-below, put-above}
use fio_ssd.Verify.{VerifyType, verify_meta, Sums, digest, hdr_size, VerifyOptions, Io}
use fio_ssd.Verify.Populate.{write_version, write_header, fill_digest, fill_meta, fill_checksum}
use fio_ssd.Verify.Check.{verify_header, verify_checksum, check_block, goes_on}
use fio_ssd.Verify.Blocks.{
  HasSum, InPlace, Header, Outside, digest_size, digest_passes, meta_passes,
}

-- The place of the header in its block: at the front, or behind where it would be there.
abbrev pub OffsetFits : VerifyOptions → ℕ → Type 0
OffsetFits o inc =
    (o.verify_offset ≡ 0)
    ⊎ ((hdr_size o.verify ≤ o.verify_offset) × (o.verify_offset + hdr_size o.verify ≤ inc))

pub hdr_size-le : (t : VerifyType) → hdr_size t ≤ 200
unfolding hdr_size
hdr_size-le verify_meta = omega arith
hdr_size-le _ = omega arith

pub hdr_size-ge : (t : VerifyType) → 56 ≤ hdr_size t
unfolding hdr_size
hdr_size-ge verify_meta = omega arith
hdr_size-ge _ = omega arith

module _ (s : Sums) (o : VerifyOptions) (u : Io) (num inc p : ℕ) (m : Mem) where
  pub write_header-Outside : Outside p (p + 56) m (write_header s o u num inc p m)
  unfolding write_header write_version
  write_header-Outside i (inl h) = sym (
      put-below 4 (p + 32) _ _ i (omega arith)
      ∙ put-below 8 (p + 24) _ _ i (omega arith)
      ∙ put-below 4 (p + 16) _ _ i (omega arith)
      ∙ version_below (Bool-cases o.verify_inner) _
      ∙ put-below 8 (p + 8) _ _ i (omega arith)
      ∙ put-below 2 (p + 2) _ _ i (omega arith)
      ∙ put-below 2 p _ _ i (omega arith))
    where
      version_below :
          (o.verify_inner ≡ true) ⊎ (o.verify_inner ≡ false)
          → (m' : Mem)
          → (if o.verify_inner then put 16 (p + 40) (u.unique_version % 2 ^ 128) m' else m') i
            ≡ m' i
      version_below (inl e) m' = rw e (put-below 16 (p + 40) _ m' i (omega arith))
      version_below (inr e) m' = rw e
  write_header-Outside i (inr h) = sym (
      put-above 4 (p + 32) _ _ i (omega arith)
      ∙ put-above 8 (p + 24) _ _ i (omega arith)
      ∙ put-above 4 (p + 16) _ _ i (omega arith)
      ∙ version_above (Bool-cases o.verify_inner) _
      ∙ put-above 8 (p + 8) _ _ i (omega arith)
      ∙ put-above 2 (p + 2) _ _ i (omega arith)
      ∙ put-above 2 p _ _ i (omega arith))
    where
      version_above :
          (o.verify_inner ≡ true) ⊎ (o.verify_inner ≡ false)
          → (m' : Mem)
          → (if o.verify_inner then put 16 (p + 40) (u.unique_version % 2 ^ 128) m' else m') i
            ≡ m' i
      version_above (inl e) m' = rw e (put-above 16 (p + 40) _ m' i (omega arith))
      version_above (inr e) m' = rw e

  fill_meta-Outside : 88 ≤ inc → Outside p (p + inc) m (fill_meta o u num p m)
  unfolding fill_meta
  fill_meta-Outside room i (inl h) = sym (
      put-below 8 (p + 56) _ _ i (omega arith)
      ∙ put-below 2 (p + 66) _ _ i (omega arith)
      ∙ put-below 8 (p + 80) _ _ i (omega arith)
      ∙ put-below 8 (p + 72) _ _ i (omega arith)
      ∙ put-below 1 (p + 64) _ _ i (omega arith))
  fill_meta-Outside room i (inr h) = sym (
      put-above 8 (p + 56) _ _ i (omega arith)
      ∙ put-above 2 (p + 66) _ _ i (omega arith)
      ∙ put-above 8 (p + 80) _ _ i (omega arith)
      ∙ put-above 8 (p + 72) _ _ i (omega arith)
      ∙ put-above 1 (p + 64) _ _ i (omega arith))

fill_checksum-meta :
    (s : Sums) (o : VerifyOptions) (u : Io) (num p a len : ℕ) (m : Mem)
    → o.verify ≡ verify_meta
    → fill_checksum s o u num p a len m ≡ some (fill_meta o u num p m)
unfolding fill_checksum digest
fill_checksum-meta s o u num p a len m e = ground (arith, e)

meta_room :
    (o : VerifyOptions) (inc : ℕ) → o.verify ≡ verify_meta → hdr_size o.verify ≤ inc → 88 ≤ inc
unfolding hdr_size
meta_room o inc e h = ground (arith, e)

module _ (s : Sums) (is_match : ℕ → ℕ → Bool) (o : VerifyOptions) (u : Io) (num inc p : ℕ)
    (at : InPlace o u num inc p) (same : (v : ℕ) → is_match v v ≡ true)
    (fits : inc ≤ u.buflen) where
  matched :
      (m : Mem)
      → Header s o u num inc p m
      → (o.verify_inner && not (is_match (get 16 (p + 40) m) u.unique_version)) ≡ false
  matched m h = elim (Bool-cases o.verify_inner) [
    | inl e ↦ rw (e, h.version e, same u.unique_version)
    | inr e ↦ rw e
  ]

  check_block-goes_on :
      (m : Mem)
      → Header s o u num inc p m
      → verify_checksum s o u num p m ≡ some 0
      → check_block s is_match o u inc num p m ≡ some (goes_on 0)
  unfolding check_block verify_header
  check_block-goes_on m h e =
      rw (h.magic, h.len, h.crc, h.offset, matched m h, e) (ground (arith, fits))

  -- A block that passes, whatever stands in the other blocks.
  abbrev pub Passes : Mem → Type 0
  Passes b =
      (m' : Mem)
      → Agree p (p + inc) b m'
      → check_block s is_match o u inc num p m' ≡ some (goes_on 0)

  pub fill_checksum-Passes :
      (m : Mem)
      → Header s o u num inc p m
      → HasSum s o inc
      → (b : Mem) × (fill_checksum s o u num p
            (p + hdr_size o.verify)
            (u32 (inc + 2 ^ 32 - hdr_size o.verify))
            m
          ≡ some b)
        × Outside p (p + inc) m b
        × Passes b
  unfolding fill_checksum fill_digest
  fill_checksum-Passes m h (inl ((w, sum), e, is)) =
      let n : u32 (inc + 2 ^ 32 - hdr_size o.verify) ≡ inc - hdr_size o.verify =
        omega (arith, at.small, at.room) in
      let size = digest_size s o.verify w sum e in
      (
        fill_digest w (sum (get w (p + 56) m)) p (p + hdr_size o.verify) (inc - hdr_size o.verify)
            m,
        ground (arith, n, e, at.in_size, at.room),
        λ i side. elim side [
          | inl below ↦ sym (put-below w (p + 56) _ m i (omega arith))
          | inr above ↦ sym (put-above w (p + 56) _ m i (omega (arith, size, at.room)))
        ],
        λ m' agree.
            let (header, passed) =
              digest_passes s o u num inc p at w sum (get w (p + 56) m) m m' e is h agree in
            check_block-goes_on m' header passed,
      )
  fill_checksum-Passes m h (inr (e, no_pattern)) = (
    fill_meta o u num p m,
    fill_checksum-meta s o u num p _ _ m e,
    fill_meta-Outside s o u num inc p m (omega (arith, meta_room o inc e at.room)),
    λ m' agree.
        let (header, passed) = meta_passes s o u num inc p at m m' e no_pattern h agree in
        check_block-goes_on m' header passed,
  )
