-- ===== src/Verify/Accepted.antt =====
-- A block that populate_hdr fills is one that verify_io_u accepts, and the place of the loops.
use fio_ssd.Prelude.{
  arith, refl, sym, ◌∙◌, ℕ, zero, suc, ◌+◌, ◌-◌, ◌*◌, ◌^◌, ◌≤◌, ◌<◌, ◌≡◌, inl, inr, Bool, true,
  some, dec_lt,
}
use fio_ssd.RandMap.{u32}
use fio_ssd.Bytes.{Mem, swap}
use fio_ssd.Bytes.Laws.{Agree, swap-Agree, swap-swap, swap_apart, memswp-eq}
use fio_ssd.Verify.{Sums, hdr_size, VerifyOptions, Io}
use fio_ssd.Verify.Populate.{write_header, fill_checksum, populate_hdr}
use fio_ssd.Verify.Check.{goes_on, check_block, verify_block, unswap}
use fio_ssd.Verify.Blocks.{HasSum, InPlace, Outside, write_header-Header}
use fio_ssd.Verify.Passes.{
  OffsetFits, fill_checksum-Passes, write_header-Outside, hdr_size-le, hdr_size-ge,
}

mul_mono : (a b c : ℕ) → a ≤ b → a * c ≤ b * c
mul_mono a b c h = grind arith

mul_step : (a b c : ℕ) → a < b → a * c + c ≤ b * c
mul_step a b c h = grind arith

whole_inside :
    (num n inc p buflen : ℕ) → num * inc ≡ p → n * inc ≡ buflen → p < buflen → p + inc ≤ buflen
whole_inside num n inc p buflen e f h = elim (dec_lt num n) [
  | yes l ↦ omega (arith, mul_step num n inc l)
  | no l ↦ absurd (omega (arith, mul_mono n num inc (omega arith)))
]

-- The number of the next block does not wrap.
next_place :
    (num inc p buflen : ℕ)
    → num * inc ≡ p
    → 0 < inc
    → p < buflen
    → buflen + inc < 2 ^ 32
    → u32 (num + 1) * inc ≡ p + inc
next_place num inc p buflen e pos h small =
    let le : num ≤ p = grind arith in
    let same : u32 (num + 1) ≡ num + 1 = omega arith in rw same (grind arith)

module _ (s : Sums) (is_match : ℕ → ℕ → Bool) (o : VerifyOptions) (u : Io) (inc : ℕ)
    (same : (v : ℕ) → is_match v v ≡ true) (fits : inc ≤ u.buflen) (has_sum : HasSum s o inc)
    (offset_fits : OffsetFits o inc) (version_small : u.unique_version < 2 ^ 128) where
  -- The body of the loop accepts the block, and changes no other.
  abbrev pub Accepted : ℕ → ℕ → Mem → Type 0
  Accepted num p w =
      (m' : Mem)
      → Agree p (p + inc) w m'
      → (m'' : Mem) × (verify_block s is_match o u inc num p m' ≡ some (goes_on 0, m''))
        × Outside p (p + inc) m' m''

  verify_block-eq :
      (num p : ℕ) (m m' : Mem)
      → p + hdr_size o.verify ≤ u.size
      → unswap o u p m ≡ some m'
      → check_block s is_match o u inc num p m' ≡ some (goes_on 0)
      → verify_block s is_match o u inc num p m ≡ some (goes_on 0, m')
  unfolding verify_block
  verify_block-eq num p m m' h e c = rw (e, c) (ground arith)

  populate_hdr-front :
      (num p : ℕ) (m b : Mem)
      → p + hdr_size o.verify ≤ u.size
      → o.verify_offset ≡ 0
      → fill_checksum s o u num p
          (p + hdr_size o.verify)
          (u32 (inc + 2 ^ 32 - hdr_size o.verify))
          (write_header s o u num inc p m)
        ≡ some b
      → populate_hdr s o u num inc p m ≡ some b
  unfolding populate_hdr
  populate_hdr-front num p m b h z e = rw e (ground (arith, z))

  populate_hdr-behind :
      (num p : ℕ) (m b : Mem)
      → hdr_size o.verify ≤ o.verify_offset
      → p + (o.verify_offset + hdr_size o.verify) ≤ u.size
      → fill_checksum s o u num p
          (p + hdr_size o.verify)
          (u32 (inc + 2 ^ 32 - hdr_size o.verify))
          (write_header s o u num inc p m)
        ≡ some b
      → populate_hdr s o u num inc p m ≡ some (swap p (p + o.verify_offset) (hdr_size o.verify) b)
  unfolding populate_hdr
  populate_hdr-behind num p m b h k e =
      rw
        (
          e,
          memswp-eq p (p + o.verify_offset) (hdr_size o.verify) b (hdr_size-le o.verify)
              (omega arith),
        )
        (ground (arith, hdr_size-ge o.verify))

  unswap-front : (p : ℕ) (m : Mem) → o.verify_offset ≡ 0 → unswap o u p m ≡ some m
  unswap-front p m z = rw z

  unswap-behind :
      (p : ℕ) (m : Mem)
      → hdr_size o.verify ≤ o.verify_offset
      → p + (o.verify_offset + hdr_size o.verify) ≤ u.size
      → unswap o u p m ≡ some (swap p (p + o.verify_offset) (hdr_size o.verify) m)
  unswap-behind p m h k =
      rw
        (memswp-eq p (p + o.verify_offset) (hdr_size o.verify) m (hdr_size-le o.verify)
          (omega arith))
        (ground (arith, hdr_size-ge o.verify))

  pub populate_hdr-Accepted :
      (num p : ℕ) (m : Mem)
      → InPlace o u num inc p
      → (w : Mem) × (populate_hdr s o u num inc p m ≡ some w)
        × Outside p (p + inc) m w
        × Accepted num p w
  populate_hdr-Accepted num p m at =
      let h = write_header s o u num inc p m in
      let (b, filled, outside, passes) =
        fill_checksum-Passes s is_match o u num inc p at same fits h
          (write_header-Header s o u num inc p m (omega (arith, at.small)) version_small) has_sum in
      let kept : Outside p (p + inc) m b = λ i side. elim side [
        | inl below ↦ write_header-Outside s o u num inc p m i (inl below) ∙ outside i (inl below)
        | inr above ↦
            write_header-Outside s o u num inc p m i
              (inr (omega (arith, hdr_size-ge o.verify, at.room)))
            ∙ outside i (inr above)
      ] in
      elim offset_fits [
        | inl z ↦ (
          b,
          populate_hdr-front num p m b (omega (arith, at.room, at.in_size)) z filled,
          kept,
          λ m' agree. (
            m',
            verify_block-eq num p m' m' (omega (arith, at.room, at.in_size)) (unswap-front p m' z)
                (passes m' agree),
            λ i side. refl,
          ),
        )
        | inr (low, high) ↦
            let q = p + o.verify_offset in
            let n = hdr_size o.verify in
            let w = swap p q n b in
            (
              w,
              populate_hdr-behind num p m b low (omega (arith, at.in_size)) filled,
              λ i side. elim side [
                | inl below ↦
                    kept i (inl below) ∙ sym (swap_apart p q n b i (inl below) (omega arith))
                | inr above ↦
                    kept i (inr above)
                    ∙ sym (swap_apart p q n b i (inr (omega arith)) (omega arith))
              ],
              λ m' agree. (
                swap p q n m',
                verify_block-eq num p m' (swap p q n m') (omega (arith, at.room, at.in_size))
                    (unswap-behind p m' low (omega (arith, at.in_size)))
                    (passes (swap p q n m') (λ i x y.
                      sym (swap-swap p q n b i (omega arith))
                      ∙ swap-Agree p q n p (p + inc) w m' (omega arith) (omega (arith, at.room))
                          (omega arith) (omega arith) agree i x y)),
                λ i side. elim side [
                  | inl below ↦ sym (swap_apart p q n m' i (inl below) (omega arith))
                  | inr above ↦ sym (swap_apart p q n m' i (inr (omega arith)) (omega arith))
                ],
              ),
            )
      ]

  -- The blocks from the one at `p` on are accepted, `fuel` of them at most.
  abbrev pub AllAccepted : ℕ → ℕ → ℕ → Mem → Type 0
  AllAccepted zero num p w = Unit {0}
  AllAccepted (suc fuel) num p w =
      (p < u.buflen → Accepted num p w) × AllAccepted fuel (u32 (num + 1)) (p + inc) w

  -- The blocks of the io_u are whole, and the loop is at one of them.
  pub record AtBlock (fuel n num p : ℕ) : Type 0 where
    pub place : num * inc ≡ p
    pub whole : n * inc ≡ u.buflen
    pub positive : 0 < inc
    pub small : u.buflen + inc < 2 ^ 32
    pub in_size : u.buflen ≤ u.size
    pub room : hdr_size o.verify ≤ inc
    pub inside : p ≤ u.buflen
    pub enough : u.buflen < p + fuel

  pub AtBlock-InPlace :
      (fuel n num p : ℕ)
      → AtBlock fuel n num p
      → p < u.buflen
      → InPlace o u num inc p × (p + inc ≤ u.buflen)
  AtBlock-InPlace fuel n num p at h =
      let inside : p + inc ≤ u.buflen = whole_inside num n inc p u.buflen at.place at.whole h in
      (
        record {
          place = at.place;
          small = omega (arith, at.small);
          room = at.room;
          in_size = omega (arith, at.in_size, inside);
        },
        inside,
      )

  pub AtBlock-next :
      (fuel n num p : ℕ)
      → AtBlock (suc fuel) n num p
      → p < u.buflen
      → AtBlock fuel n (u32 (num + 1)) (p + inc)
  AtBlock-next fuel n num p at h = record {
    place = next_place num inc p u.buflen at.place at.positive (omega arith) at.small;
    whole = at.whole;
    positive = at.positive;
    small = at.small;
    in_size = at.in_size;
    room = at.room;
    inside = (AtBlock-InPlace (suc fuel) n num p at h).1;
    enough = omega (arith, at.enough, at.positive);
  }
