-- ===== src/Verify/Sound.antt =====
-- What verify_io_u has found where the switch on the type of a header gives 0.
use fio_ssd.Prelude.{
  arith, refl, ap, ◌∙◌, sym, ℕ, zero, suc, ◌+◌, ◌-◌, ◌*◌, ◌%◌, ◌^◌, ◌≡◌, ◌⊎◌, inl, inr, bit_or,
  List, true, none, some, get_or, leb, ◌==◌, if◌then◌else◌, Bool-cases, Option-cases, Option,
}
use fio_ssd.RandMap.{u32, u64, ◌>>=◌}
use fio_ssd.Bytes.{Mem, get, bytes}
use fio_ssd.Verify.{
  VerifyType, verify_meta, verify_pattern, verify_type, eilseq, einval, Sums, digest, hdr_size,
  VerifyOptions, Io, in_buffer, get_hdr_inc,
}
use fio_ssd.Verify.Check.{
  verify_digest, compare_slowly, compare_chunks, verify_io_u_pattern, verify_io_u_meta,
  verify_checksum,
}
use fio_ssd.Verify.Found.{Found, verify_io_u_pattern-Found}

-- What the type in the header at `p` asks of the bytes `m`. A checksum is one of the data that the
-- length in the header makes the block with the number `num` have, behind a header of its type.
pub data Sound (s : Sums) (o : VerifyOptions) (u : Io) (num p : ℕ) (m : Mem) : Type 0 where
  by_digest :
      (t : VerifyType) (width : ℕ) (sum : ℕ → List ℕ → ℕ)
      → verify_type (get 2 (p + 2) m) ≡ some t
      → digest s t ≡ some (width, sum)
      → get width (p + 56) m
        ≡ sum (s.stack num) (
            bytes
              (u32 (get 4 (p + 16) m + 2 ^ 32 - hdr_size t))
              (u32 (num * get 4 (p + 16) m) + hdr_size t)
              m)
          % 256 ^ width
      → Sound s o u num p m
  by_meta :
      verify_type (get 2 (p + 2) m) ≡ some verify_meta
      → get 8 (p + 56) m ≡ u64 (u.offset + u32 (num * o.verify_interval))
      → (o.verify_pattern_bytes ≡ 0) ⊎ Found o u p m
      → Sound s o u num p m
  by_pattern :
      verify_type (get 2 (p + 2) m) ≡ some verify_pattern → Found o u p m → Sound s o u num p m

slowly_cases :
    (n : ℕ) (pattern : List ℕ) (size a i phase : ℕ) (m : Mem)
    → (compare_slowly n pattern size a i phase m ≡ 0)
      ⊎ (compare_slowly n pattern size a i phase m ≡ eilseq)
unfolding compare_slowly
slowly_cases zero pattern size a i phase m = inl refl
slowly_cases (suc n) pattern size a i phase m =
    elim (Bool-cases (m (a + i) == get_or pattern phase 0)) [
      | inl e ↦
          rw e
            (slowly_cases n pattern size a (suc i) (if phase + 1 == size then 0 else phase + 1) m)
      | inr e ↦ inr (rw e)
    ]

bound_cases :
    (c : Option (ℕ × ℕ)) (f : ℕ × ℕ → ℕ)
    → ((x : ℕ × ℕ) → (f x ≡ 0) ⊎ (f x ≡ eilseq))
    → (r : ℕ) → (c >>= (λ (x : ℕ × ℕ). some (f x))) ≡ some r
    → (r ≡ 0) ⊎ (r ≡ eilseq)
bound_cases none f each r e = absurd (cc e)
bound_cases (some x) f each r e =
    let same : f x ≡ r = cc e in
    elim (each x) [ inl z ↦ inl (sym same ∙ z) | inr bad ↦ inr (sym same ∙ bad) ]

module _ (s : Sums) (o : VerifyOptions) (u : Io) (num p : ℕ) (m : Mem) where
  pattern_cases : (r : ℕ) → verify_io_u_pattern o u p m ≡ some r → (r ≡ 0) ⊎ (r ≡ eilseq)
  unfolding verify_io_u_pattern
  pattern_cases r e =
      let a = p + hdr_size o.verify in
      let len = u32 (get_hdr_inc o u + 2 ^ 32 - hdr_size o.verify) in
      let size = if leb o.verify_pattern_bytes 1 then 512 else o.verify_pattern_bytes in
      elim (Bool-cases (in_buffer u a len)) [
        | inl b ↦
            bound_cases
              (compare_chunks (len + 1) o.verify_pattern size a len 0 (hdr_size o.verify % size) m)
              (λ x. compare_slowly (len - x.0) o.verify_pattern o.verify_pattern_bytes a x.0 x.1 m)
              (λ x. slowly_cases (len - x.0) o.verify_pattern o.verify_pattern_bytes a x.0 x.1 m) r
              (rw b at e)
        | inr b ↦ absurd (cc (rw b at e))
      ]

  -- `ret |= ...` gives 0 only where both sides are 0.
  clean_both :
      (r : ℕ)
      → verify_io_u_pattern o u p m ≡ some r
      → bit_or
          (if get 8 (p + 56) m == u64 (u.offset + u32 (num * o.verify_interval)) then 0 else eilseq)
          r
        ≡ 0
      → ((get 8 (p + 56) m == u64 (u.offset + u32 (num * o.verify_interval))) ≡ true) × (r ≡ 0)
  clean_both r f e =
      elim (Bool-cases (get 8 (p + 56) m == u64 (u.offset + u32 (num * o.verify_interval)))) [
        | inl stored ↦ elim (pattern_cases r f) [
          | inl z ↦ (stored, z)
          | inr bad ↦ absurd (cc (rw (stored, bad) at e))
        ]
        | inr other ↦ elim (pattern_cases r f) [
          | inl z ↦ absurd (cc (rw (other, z) at e))
          | inr bad ↦ absurd (cc (rw (other, bad) at e))
        ]
      ]

  meta_lem :
      verify_io_u_meta o u num p m ≡ some 0
      → (get 8 (p + 56) m ≡ u64 (u.offset + u32 (num * o.verify_interval)))
        × ((o.verify_pattern_bytes ≡ 0) ⊎ Found o u p m)
  unfolding verify_io_u_meta
  meta_lem e = elim (Bool-cases (in_buffer u p (hdr_size verify_meta))) [
    | inr out ↦ absurd (ground (arith, out))
    | inl inside ↦ elim (Bool-cases (o.verify_pattern_bytes == 0)) [
      | inl z ↦ (ground (arith, inside, z), inl (ground arith))
      | inr nz ↦ elim (Option-cases (verify_io_u_pattern o u p m)) [
        | inl fault ↦ absurd (ground (arith, inside, nz, fault))
        | inr (r, f) ↦
            let both = clean_both r f (ground (arith, inside, nz, f)) in
            (ground (arith, both.0), inr (verify_io_u_pattern-Found o u p m (f ∙ ap some both.1)))
      ]
    ]
  ]

  verify_digest_lem :
      (t : VerifyType) (width : ℕ) (sum : List ℕ → ℕ)
      → verify_digest width sum t u num p m ≡ some 0
      → get width (p + 56) m
        ≡ sum (
            bytes
              (u32 (get 4 (p + 16) m + 2 ^ 32 - hdr_size t))
              (u32 (num * get 4 (p + 16) m) + hdr_size t)
              m)
          % 256 ^ width
  unfolding verify_digest
  verify_digest_lem t width sum e = ground (arith, e)

  switched :
      (t : VerifyType) (width : ℕ) (sum : ℕ → List ℕ → ℕ)
      → verify_type (get 2 (p + 2) m) ≡ some t
      → digest s t ≡ some (width, sum)
      → verify_checksum s o u num p m ≡ verify_digest width (sum (s.stack num)) t u num p m
  unfolding verify_checksum
  switched t width sum e d = ground (arith, e, d)

  unknown : verify_type (get 2 (p + 2) m) ≡ none → verify_checksum s o u num p m ≡ some einval
  unfolding verify_checksum
  unknown e = ground (arith, e)

  without_digest :
      (t : VerifyType)
      → verify_type (get 2 (p + 2) m) ≡ some t
      → digest s t ≡ none
      → verify_checksum s o u num p m ≡ some 0
      → Sound s o u num p m
  unfolding verify_checksum digest
  without_digest verify_meta e d c =
      let (stored, same) = meta_lem (ground (arith, e, c)) in by_meta e stored same
  without_digest verify_pattern e d c =
      by_pattern e (verify_io_u_pattern-Found o u p m (ground (arith, e, c)))
  without_digest _ e d c = absurd (ground (arith, e, c, d))

  pub verify_checksum-Sound : verify_checksum s o u num p m ≡ some 0 → Sound s o u num p m
  verify_checksum-Sound c = elim (Option-cases (verify_type (get 2 (p + 2) m))) [
    | inl none_there ↦ absurd (cc (unknown none_there, c))
    | inr (t, e) ↦ elim (Option-cases (digest s t)) [
      | inl plain ↦ without_digest t e plain c
      | inr ((width, sum), d) ↦
          by_digest t width sum e d
            (verify_digest_lem t width (sum (s.stack num)) (sym (switched t width sum e d) ∙ c))
    ]
  ]
