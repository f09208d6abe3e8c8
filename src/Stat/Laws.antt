-- ===== src/Stat/Laws.antt =====
-- What the latency buckets promise: every bucket is found by its value, the value is near, and the
-- order is kept.
use native.Mathlib.Nat.{pow-suc, one-le-pow, pow-le-pow_right, mul-le-mul_right, add-mul}
use fio_ssd.Prelude.{
  arith, ap, ◌∙◌, ℕ, suc, ◌+◌, ◌-◌, ◌*◌, ◌/◌, ◌%◌, ◌^◌, ◌≤◌, ◌<◌, ◌≡◌, dec_lt, ℕ_discrete, some,
}
use fio_ssd.Stat.{plat_val_to_idx, plat_idx_to_val}
use fio_ssd.Stat.Bucket.{
  InGroup, has_group, InGroup-range, InGroup-idx, plat_val_to_idx_small, plat_idx_to_val-InGroup,
}

plat_idx_to_val_small : (idx : ℕ) → idx < 128 → plat_idx_to_val idx ≡ some idx
unfolding plat_idx_to_val
plat_idx_to_val_small idx h = ground arith

half_lt : (e : ℕ) → 0 < e → (2 ^ e ≡ 2 * 2 ^ (e - 1)) × (0 < 2 ^ (e - 1))
half_lt e pos = (
  ap (λ (t : ℕ). 2 ^ t) earlier ∙ omega (arith, pow-suc 2 (e - 1)),
  omega (arith, one-le-pow (e - 1) 2),
)
  where
    earlier : e ≡ suc (e - 1)
    earlier = omega arith

-- Each of the 1216 buckets has a value, and plat_val_to_idx puts that value into this bucket.
pub plat_val_to_idx-plat_idx_to_val :
    (idx : ℕ)
    → idx < 1216
    → (val : ℕ) × (plat_idx_to_val idx ≡ some val) × (plat_val_to_idx val ≡ idx)
plat_val_to_idx-plat_idx_to_val idx h = elim (dec_lt idx 128) [
  | yes low ↦ (idx, plat_idx_to_val_small idx low, plat_val_to_idx_small idx low)
  | no high ↦ (
    q * 2 ^ e + 2 ^ (e - 1),
    ap plat_idx_to_val (whole high)
        ∙ plat_idx_to_val-InGroup e q (omega arith) (omega arith) (omega arith) (omega arith),
    InGroup-idx (q * 2 ^ e + 2 ^ (e - 1)) e q (middle (omega arith)) (omega arith) ∙ omega arith,
  )
]
  where
    e : ℕ
    e = idx / 64 - 1

    q : ℕ
    q = idx % 64 + 64

    whole : ¬ (idx < 128) → idx ≡ 64 * e + q
    whole high = omega arith

    middle : 0 < e → InGroup (q * 2 ^ e + 2 ^ (e - 1)) e q
    middle pos = record {
      above = omega arith;
      below = omega (arith, half_lt e pos);
      first = omega arith;
      last = omega arith;
    }

-- A value from 128 on is in a group that discards a bit.
large_group :
    (val : ℕ) → 128 ≤ val → val < 2 ^ 32 → (e : ℕ) × (q : ℕ) × InGroup val e q × (e < 26) × (0 < e)
large_group val big h =
    let (e, q, g, small) = has_group val (omega arith) h in
    (
      e,
      q,
      g,
      small,
      elim (ℕ_discrete e 0) [
        | yes none_lost ↦
            absurd (omega (arith, InGroup-range val e q g, ap (λ (t : ℕ). 2 ^ t) none_lost))
        | no some_lost ↦ omega arith
      ],
    )

few_bits : (val e q : ℕ) → InGroup val e q → val < 2 ^ 24 → e < 18
few_bits val e q g h = elim (dec_lt e 18) [
  | yes few ↦ few
  | no many ↦ absurd (
      omega (
        arith,
        InGroup-range val e q g,
        pow-le-pow_right {n = 2} (omega arith) {i = 18} {j = e} (omega arith),
      ))
]

-- The value of the bucket of a latency below 2 ^ 24 exists and differs from the latency by at most
-- the 128th part of it.
pub plat_idx_to_val-plat_val_to_idx :
    (val : ℕ)
    → val < 2 ^ 24
    → (near : ℕ) × (plat_idx_to_val (plat_val_to_idx val) ≡ some near)
      × (128 * near ≤ 128 * val + val)
      × (128 * val ≤ 128 * near + val)
plat_idx_to_val-plat_val_to_idx val h = elim (dec_lt val 128) [
  | yes low ↦ (
    val,
    ap plat_idx_to_val (plat_val_to_idx_small val low) ∙ plat_idx_to_val_small val low,
    omega arith,
    omega arith,
  )
  | no high ↦
      let (e, q, g, small, pos) = large_group val (omega arith) (omega arith) in
      let few : e < 18 = few_bits val e q g h in
      (
        q * 2 ^ e + 2 ^ (e - 1),
        ap plat_idx_to_val (InGroup-idx val e q g small ∙ omega (arith, g.first, g.last))
            ∙ plat_idx_to_val-InGroup e q few pos g.first g.last,
        omega (arith, half_lt e pos, g.above, g.below, InGroup-range val e q g),
        omega (arith, half_lt e pos, g.above, g.below, InGroup-range val e q g),
      )
]

-- A higher value is not in a lower group, nor in a lower place of its group.
group_mono :
    (v w e q e' q' : ℕ) → v ≤ w → InGroup v e q → InGroup w e' q' → 64 * e + q ≤ 64 * e' + q'
group_mono v w e q e' q' le g g' = elim (dec_lt e' e) [
  | yes lower ↦ absurd (
      omega (
        arith,
        InGroup-range v e q g,
        InGroup-range w e' q' g',
        pow-suc 2 e',
        pow-le-pow_right {n = 2} (omega arith) {i = suc e'} {j = e} lower,
      ))
  | no not_lower ↦ elim (dec_lt e e') [
    | yes higher ↦ omega (arith, g.last, g'.first)
    | no not_higher ↦
        let same : e ≡ e' = omega arith in
        elim (dec_lt q' q) [
          | yes before ↦ absurd (
              omega (
                arith,
                g.above,
                g'.below,
                ap (λ (t : ℕ). q * 2 ^ t) same,
                add-mul q' 1 (2 ^ e'),
                mul-le-mul_right {m = suc q'} {n = q} (2 ^ e') before,
              ))
          | no after ↦ omega arith
        ]
  ]
]

plat_val_to_idx_large :
    (v w : ℕ)
    → v ≤ w
    → 128 ≤ v
    → w < 2 ^ 32
    → (plat_val_to_idx v ≤ plat_val_to_idx w)
      × (128 ≤ plat_val_to_idx w)
      × (plat_val_to_idx w < 1216)
plat_val_to_idx_large v w le big h =
    let (e, q, g, small, pos) = large_group v big (omega arith) in
    let (e', q', g', small', pos') = large_group w (omega arith) h in
    rw (InGroup-idx v e q g small, InGroup-idx w e' q' g' small')
      (omega (arith, group_mono v w e q e' q' le g g'), omega (arith, g'.first), omega arith)

-- plat_val_to_idx keeps the order of latencies below 2 ^ 32, and gives an index below 1216.
pub plat_val_to_idx_mono :
    (v w : ℕ)
    → v ≤ w
    → w < 2 ^ 32
    → (plat_val_to_idx v ≤ plat_val_to_idx w) × (plat_val_to_idx w < 1216)
plat_val_to_idx_mono v w le h = elim (dec_lt v 128) [
  | yes low ↦ elim (dec_lt w 128) [
    | yes low' ↦ omega (arith, plat_val_to_idx_small v low, plat_val_to_idx_small w low')
    | no high' ↦ omega (
      arith,
      plat_val_to_idx_small v low,
      plat_val_to_idx_large w w (omega arith) (omega arith) h,
    )
  ]
  | no high ↦
      let (ordered, _, bound) = plat_val_to_idx_large v w le (omega arith) h in (ordered, bound)
]
