-- ===== src/Verify/Pattern.antt =====
-- verify_io_u_pattern compares chunks with memcmp, and the first that differs byte by byte; this is
-- the same as comparing every byte.
use fio_ssd.Prelude.{
  arith, refl, sym, ap, ◌∙◌, ℕ, zero, suc, ◌+◌, ◌-◌, ◌%◌, ◌^◌, ◌≤◌, ◌<◌, ◌≡◌, inl, inr, List, true,
  some, min, get_or, leb, ◌==◌, if◌then◌else◌, Bool-cases, dec_lt,
}
use fio_ssd.RandMap.{u32}
use fio_ssd.Bytes.{Mem}
use fio_ssd.Verify.{VerifyOptions, Io, hdr_size, get_hdr_inc}
use fio_ssd.Verify.Check.{same_bytes, compare_chunks, compare_slowly, verify_io_u_pattern}

module _ (pattern : List ℕ) (m : Mem) where
  same_first :
      (n b phase : ℕ) → same_bytes (suc n) b phase pattern m ≡ true → m b ≡ get_or pattern phase 0
  unfolding same_bytes
  same_first n b phase e = ground arith

  same_rest :
      (n a i phase : ℕ)
      → same_bytes (suc n) (a + i) phase pattern m ≡ true
      → same_bytes n (a + suc i) (phase + 1) pattern m ≡ true
  unfolding same_bytes
  same_rest n a i phase e =
      let e1 : a + suc i ≡ suc (a + i) = omega arith in
      let e2 : phase + 1 ≡ suc phase = omega arith in
      (λ j. same_bytes n (e1 j) (e2 j) pattern m) ∙ same_tail n (a + i) phase e
    where
      same_tail :
          (n' b phase' : ℕ)
          → same_bytes (suc n') b phase' pattern m ≡ true
          → same_bytes n' (suc b) (suc phase') pattern m ≡ true
      same_tail n' b phase' e' = elim (Bool-cases (m b == get_or pattern phase' 0)) [
        | inl z ↦ rw z at e'
        | inr z ↦ absurd (cc (rw z at e'))
      ]

module _ (pattern : List ℕ) (size a : ℕ) (m : Mem) where
  -- The place in the pattern behind `phase`.
  abbrev pub around : ℕ → ℕ
  around phase = if phase == size then 0 else phase

  wraps : (n : ℕ) → n ≡ size → around n ≡ 0
  wraps n e = ground arith

  slowly_step :
      (n i phase : ℕ)
      → m (a + i) ≡ get_or pattern phase 0
      → compare_slowly (suc n) pattern size a i phase m
        ≡ compare_slowly n pattern size a (suc i) (around (phase + 1)) m
  unfolding compare_slowly
  slowly_step n i phase e = ground (arith, e)

  -- Bytes that memcmp finds equal change nothing for the slow loop.
  slowly_behind :
      (n k i phase : ℕ)
      → phase + n ≤ size
      → phase < size
      → same_bytes n (a + i) phase pattern m ≡ true
      → compare_slowly (n + k) pattern size a i phase m
        ≡ compare_slowly k pattern size a (i + n) (around (phase + n)) m
  unfolding same_bytes
  slowly_behind zero k i phase h l e =
      let e1 : 0 + k ≡ k = omega arith in
      let e2 : i ≡ i + 0 = omega arith in
      let e3 : phase ≡ around (phase + 0) = ground arith in
      λ j. compare_slowly (e1 j) pattern size a (e2 j) (e3 j) m
  slowly_behind (suc n) k i phase h l e =
      let first : m (a + i) ≡ get_or pattern phase 0 = same_first pattern m n (a + i) phase e in
      let others : same_bytes n (a + suc i) (phase + 1) pattern m ≡ true =
        same_rest pattern m n a i phase e in
      let e1 : suc n + k ≡ suc (n + k) = omega arith in
      let e2 : suc i + n ≡ i + suc n = omega arith in
      let step =
        (λ j. compare_slowly (e1 j) pattern size a i phase m) ∙ slowly_step (n + k) i phase first in
      elim (dec_lt (phase + 1) size) [
        | yes inside ↦
            let e3 : around (phase + 1) ≡ phase + 1 = ground arith in
            let e4 : around (phase + 1 + n) ≡ around (phase + suc n) = ap around (omega arith) in
            step
            ∙ (λ j. compare_slowly (n + k) pattern size a (suc i) (e3 j) m)
            ∙ slowly_behind n k (suc i) (phase + 1) (omega arith) inside others
            ∙ (λ j. compare_slowly k pattern size a (e2 j) (e4 j) m)
        | no last ↦
            let e5 : n + k ≡ k = omega arith in
            let e6 : suc i ≡ i + suc n = omega arith in
            let e7 : around (phase + 1) ≡ around (phase + suc n) = ap around (omega arith) in
            step ∙ (λ j. compare_slowly (e5 j) pattern size a (e6 j) (e7 j) m)
      ]

  slowly_end : (i phase : ℕ) → compare_slowly 0 pattern size a i phase m ≡ 0
  unfolding compare_slowly
  slowly_end i phase = refl

  -- After a chunk that is equal, the fast loop starts the pattern again.
  chunk_behind :
      (len i phase : ℕ)
      → i < len
      → phase < size
      → same_bytes (min (size - phase) (len - i)) (a + i) phase pattern m ≡ true
      → compare_slowly (len - i) pattern size a i phase m
        ≡ compare_slowly
            (len - (i + min (size - phase) (len - i)))
            pattern
            size
            a
            (i + min (size - phase) (len - i))
            0
            m
  chunk_behind len i phase h l e =
      let n : ℕ = min (size - phase) (len - i) in
      let k : ℕ = len - (i + n) in
      let e1 : len - i ≡ n + k = omega arith in
      let behind =
        (λ j. compare_slowly (e1 j) pattern size a i phase m)
        ∙ slowly_behind n k i phase (omega arith) l e in
      elim (dec_lt (phase + n) size) [
        | yes short ↦
            let e2 : k ≡ 0 = omega arith in
            behind
            ∙ (λ j. compare_slowly (e2 j) pattern size a (i + n) (around (phase + n)) m)
            ∙ slowly_end (i + n) (around (phase + n))
            ∙ sym (slowly_end (i + n) 0)
            ∙ (λ j. compare_slowly (sym e2 j) pattern size a (i + n) 0 m)
        | no whole ↦
            let e3 : around (phase + n) ≡ 0 = wraps (phase + n) (omega arith) in
            behind ∙ (λ j. compare_slowly k pattern size a (i + n) (e3 j) m)
      ]

  -- Where the fast loop stops, the slow loop has as much to say as from the start.
  pub chunks_behind :
      (fuel len i phase : ℕ)
      → len < i + fuel
      → i ≤ len
      → phase < size
      → (r : ℕ × ℕ) × (compare_chunks fuel pattern size a len i phase m ≡ some r)
        × (compare_slowly (len - r.0) pattern size a r.0 r.1 m
            ≡ compare_slowly (len - i) pattern size a i phase m)
  unfolding compare_chunks
  chunks_behind zero len i phase h l p = absurd (omega arith)
  chunks_behind (suc fuel) len i phase h l p = elim (dec_lt i len) [
    | yes more ↦
        let n : ℕ = min (size - phase) (len - i) in
        elim (Bool-cases (same_bytes n (a + i) phase pattern m)) [
          | inl equal ↦
              let (r, found, e) =
                chunks_behind fuel len (i + n) 0 (omega arith) (omega arith) (omega arith) in
              (r, rw equal (ground (arith, found)), e ∙ sym (chunk_behind len i phase more p equal))
          | inr differ ↦ ((i, phase), rw differ (ground arith), refl)
        ]
    | no ended ↦ ((i, phase), ground arith, refl)
  ]

-- For a pattern of at least two bytes and a block that has room for its header and lies in the
-- buffer, verify_io_u_pattern gives what its slow loop alone gives for all the bytes behind the
-- header.
pub verify_io_u_pattern-eq :
    (o : VerifyOptions) (u : Io) (p : ℕ) (m : Mem)
    → 2 ≤ o.verify_pattern_bytes
    → hdr_size o.verify ≤ get_hdr_inc o u
    → get_hdr_inc o u < 2 ^ 32
    → p + get_hdr_inc o u ≤ u.size
    → verify_io_u_pattern o u p m
      ≡ some (
          compare_slowly
            (get_hdr_inc o u - hdr_size o.verify)
            o.verify_pattern
            o.verify_pattern_bytes
            (p + hdr_size o.verify)
            0
            (hdr_size o.verify % o.verify_pattern_bytes)
            m)
unfolding verify_io_u_pattern
verify_io_u_pattern-eq o u p m h room small inside =
    let n : ℕ = get_hdr_inc o u - hdr_size o.verify in
    let e : u32 (get_hdr_inc o u + 2 ^ 32 - hdr_size o.verify) ≡ n = omega arith in
    let size : (if leb o.verify_pattern_bytes 1 then 512 else o.verify_pattern_bytes)
        ≡ o.verify_pattern_bytes =
      ground arith in
    let (r, found, same) =
      chunks_behind o.verify_pattern o.verify_pattern_bytes (p + hdr_size o.verify) m (n + 1) n 0
        (hdr_size o.verify % o.verify_pattern_bytes) (omega arith) (omega arith) (grind arith) in
    rw (e, size, found) (ground (arith, same))
