-- ===== src/Verify/Found.antt =====
-- What verify_io_u_pattern has found where it gives 0.
use native.Mathlib.Nat.{add-mod_left, mod-eq_of_lt, mod-lt, mod-add-mod}
use fio_ssd.Prelude.{
  arith, ap, ◌∙◌, sym, ℕ, zero, suc, ◌+◌, ◌-◌, ◌%◌, ◌^◌, ◌≡◌, ◌≤◌, ◌<◌, ◌⊎◌, inl, inr, List, some,
  get_or, leb, ◌==◌, if◌then◌else◌, Bool-cases, dec_lt,
}
use fio_ssd.RandMap.{u32}
use fio_ssd.Bytes.{Mem}
use fio_ssd.Verify.{VerifyOptions, Io, hdr_size, get_hdr_inc, in_buffer}
use fio_ssd.Verify.Check.{compare_slowly, verify_io_u_pattern}
use fio_ssd.Verify.Pattern.{around, chunks_behind}

-- Each byte behind the header of the block at `p` is the one of the pattern, which is repeated from
-- the start of the block on; for a pattern of at least two bytes.
abbrev pub Found : VerifyOptions → Io → ℕ → Mem → Type 0
Found o u p m =
    (verify_io_u_pattern o u p m ≡ some 0)
    × ((o.verify_pattern_bytes ≤ 1)
        ⊎ ((j : ℕ)
            → j < u32 (get_hdr_inc o u + 2 ^ 32 - hdr_size o.verify)
            → m (p + hdr_size o.verify + j)
              ≡ get_or o.verify_pattern ((hdr_size o.verify + j) % o.verify_pattern_bytes) 0))

module _ (pattern : List ℕ) (size a : ℕ) (m : Mem) where
  around_mod :
      (phase j : ℕ)
      → phase < size
      → (around pattern size a m (phase + 1) + j) % size ≡ (phase + suc j) % size
  around_mod phase j h = elim (Bool-cases (phase + 1 == size)) [
    | inl e ↦
        let last : size + j ≡ phase + suc j = ground arith in
        rw e (
          ap (λ (k : ℕ). k % size) (omega arith)
          ∙ sym (add-mod_left size j)
          ∙ ap (λ (k : ℕ). k % size) last)
    | inr e ↦ rw e (ap (λ (k : ℕ). k % size) (omega arith))
  ]

  around_lt : (phase : ℕ) → phase < size → around pattern size a m (phase + 1) < size
  around_lt phase h = ground arith

  first_found :
      (n i phase : ℕ)
      → compare_slowly (suc n) pattern size a i phase m ≡ 0
      → (m (a + i) ≡ get_or pattern phase 0)
        × (compare_slowly n pattern size a (suc i) (around pattern size a m (phase + 1)) m ≡ 0)
  unfolding compare_slowly
  first_found n i phase e = elim (Bool-cases (m (a + i) == get_or pattern phase 0)) [
    | inl same ↦ (ground arith, rw same at e)
    | inr other ↦ absurd (cc (rw other at e))
  ]

  slowly_found :
      (n i phase j : ℕ)
      → phase < size
      → compare_slowly n pattern size a i phase m ≡ 0
      → j < n
      → m (a + (i + j)) ≡ get_or pattern ((phase + j) % size) 0
  slowly_found zero i phase j h e l = absurd (omega arith)
  slowly_found (suc n) i phase zero h e l =
      ap m (omega arith)
      ∙ (first_found n i phase e).0
      ∙ ap (λ (k : ℕ). get_or pattern k 0)
          (sym (mod-eq_of_lt h) ∙ ap (λ (k : ℕ). k % size) (omega arith))
  slowly_found (suc n) i phase (suc j) h e l =
      ap m (omega arith)
      ∙ slowly_found n (suc i) (around pattern size a m (phase + 1)) j (around_lt phase h)
          (first_found n i phase e).1 (omega arith)
      ∙ ap (λ (k : ℕ). get_or pattern k 0) (around_mod phase j h)

module _ (o : VerifyOptions) (u : Io) (p : ℕ) (m : Mem) where
  len : ℕ
  len = u32 (get_hdr_inc o u + 2 ^ 32 - hdr_size o.verify)

  slow_zero :
      1 < o.verify_pattern_bytes
      → verify_io_u_pattern o u p m ≡ some 0
      → compare_slowly len o.verify_pattern o.verify_pattern_bytes
          (p + hdr_size o.verify)
          0
          (hdr_size o.verify % o.verify_pattern_bytes)
          m
        ≡ 0
  unfolding verify_io_u_pattern len
  slow_zero h e =
      let size : (if leb o.verify_pattern_bytes 1 then 512 else o.verify_pattern_bytes)
          ≡ o.verify_pattern_bytes =
        ground arith in
      let (r, found, same) =
        chunks_behind o.verify_pattern o.verify_pattern_bytes (p + hdr_size o.verify) m (len + 1)
          len 0 (hdr_size o.verify % o.verify_pattern_bytes) (omega arith) (omega arith)
          (mod-lt (hdr_size o.verify) (omega arith)) in
      elim (Bool-cases (in_buffer u (p + hdr_size o.verify) len)) [
        | inl inside ↦
            ap
              (λ (n : ℕ).
                compare_slowly n o.verify_pattern o.verify_pattern_bytes (p + hdr_size o.verify) 0
                  (hdr_size o.verify % o.verify_pattern_bytes) m)
              (omega arith)
            ∙ sym same
            ∙ cc (rw (inside, size, found) at e)
        | inr outside ↦ absurd (cc (rw outside at e))
      ]

  pub verify_io_u_pattern-Found : verify_io_u_pattern o u p m ≡ some 0 → Found o u p m
  unfolding len
  verify_io_u_pattern-Found e = (
    e,
    elim (dec_lt 1 o.verify_pattern_bytes) [
      | no few ↦ inl (omega arith)
      | yes many ↦ inr (λ j l.
          ap m (omega arith)
          ∙ slowly_found o.verify_pattern o.verify_pattern_bytes (p + hdr_size o.verify) m len 0
              (hdr_size o.verify % o.verify_pattern_bytes) j
              (mod-lt (hdr_size o.verify) (omega arith)) (slow_zero many e) l
          ∙ ap (λ (k : ℕ). get_or o.verify_pattern k 0)
              (mod-add-mod (hdr_size o.verify) o.verify_pattern_bytes j))
    ],
  )
