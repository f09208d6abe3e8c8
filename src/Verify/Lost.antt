-- ===== src/Verify/Lost.antt =====
-- What verify_io_u reports of a block that fails.
use fio_ssd.Prelude.{
  arith, sym, ◌∙◌, ℕ, zero, suc, ◌+◌, ◌*◌, ◌≤◌, ◌<◌, ◌≡◌, ◌≢◌, inl, inr, Bool, true, false, Option,
  none, some, ◌==◌, Bool-cases, Option-cases, dec_lt,
}
use mathlib.Core.Option
use fio_ssd.RandMap.{u32, u64, ◌>>=◌}
use fio_ssd.Bytes.{Mem, get, bytes}
use fio_ssd.Verify.{Sums, hdr_magic, VerifyOptions, Io, get_hdr_inc, is_null_type}
use fio_ssd.Verify.Check.{
  Checked, behind_block, goes_on, returned, verify_header, check_block, unswap, verify_block,
  verify_blocks, finish_checks, Verified, verify_io_u,
}
use fio_ssd.Verify.Sound.{Sound, verify_checksum-Sound}

module _ (s : Sums) (is_match : ℕ → ℕ → Bool) (o : VerifyOptions) (u : Io) (inc : ℕ) where
  -- Without verify_fatal, where verify_io_u finds a wrong checksum in a block that is not the last
  -- one, whatever the error, it goes on as if the block were right.
  pub verify_blocks-lost :
      (fuel num p e : ℕ) (m m' : Mem)
      → o.verify_fatal ≡ false
      → p < u.buflen
      → p + inc < u.buflen
      → verify_block s is_match o u inc num p m ≡ some (goes_on e, m')
      → verify_blocks s is_match o u (suc (suc fuel)) inc num p 0 m
        ≡ verify_blocks s is_match o u (suc fuel) inc (u32 (num + 1)) (p + inc) 0 m'
  unfolding verify_blocks
  verify_blocks-lost fuel num p e m m' lenient h k failed = rw (failed, lenient) (ground arith)

  verify_blocks-fatal :
      (fuel num p e : ℕ) (m m' : Mem)
      → o.verify_fatal ≡ true
      → p < u.buflen
      → e ≢ 0
      → verify_block s is_match o u inc num p m ≡ some (goes_on e, m')
      → verify_blocks s is_match o u (suc (suc fuel)) inc num p 0 m ≡ some (goes_on e, m')
  unfolding verify_blocks
  verify_blocks-fatal fuel num p e m m' fatal h failed_block failed =
      rw (failed, fatal) (ground arith)

  -- The block at `p`, whose bytes `unswap` puts back as `m'`, passes each check.
  pub record Passed (num p : ℕ) (m m' : Mem) : Type 0 where
    pub unswapped : unswap o u p m ≡ some m'
    pub magic : get 2 p m' ≡ hdr_magic
    pub len : get 4 (p + 16) m' ≤ u.buflen
    pub crc : get 4 (p + 32) m' ≡ u32 (s.crc32c (bytes 32 p m'))
    pub offset : get 8 (p + 8) m' ≡ u64 (u.offset + u32 (num * inc))
    pub version : o.verify_inner ≡ true → is_match (get 16 (p + 40) m') u.unique_version ≡ true
    pub checksum : Sound s o u num p m'

  -- Each block from `p` on passes, one after the other.
  abbrev pub EachPassed : ℕ → ℕ → ℕ → Mem → Type 0
  EachPassed zero num p m = Unit {0}
  EachPassed (suc fuel) num p m =
      p < u.buflen → (m' : Mem) × Passed num p m m' × EachPassed fuel (u32 (num + 1)) (p + inc) m'

  check_block-Passed :
      (num p : ℕ) (m m' : Mem)
      → unswap o u p m ≡ some m'
      → check_block s is_match o u inc num p m' ≡ some (goes_on 0)
      → Passed num p m m'
  unfolding check_block verify_header
  check_block-Passed num p m m' e c = record {
    unswapped = e;
    magic = ground arith;
    len = ground arith;
    crc = ground arith;
    offset = ground arith;
    version = λ inner. ground arith;
    checksum = verify_checksum-Sound s o u num p m' (ground arith);
  }

  verify_block-Passed :
      (num p : ℕ) (m m' : Mem)
      → verify_block s is_match o u inc num p m ≡ some (goes_on 0, m')
      → Passed num p m m'
  unfolding verify_block
  verify_block-Passed num p m m' e = elim (Option-cases (unswap o u p m)) [
    | inl none_there ↦ absurd (ground arith)
    | inr (b, there) ↦ check_block-Passed num p m m' (ground arith) (ground arith)
  ]

  -- What the rest of the loop gets from a block that was checked.
  verify_blocks-behind :
      (fuel num p ret : ℕ) (m m' : Mem) (c : Option (Checked × Mem))
      → p < u.buflen
      → o.verify_fatal ≡ true
      → verify_block s is_match o u inc num p m ≡ c
      → verify_blocks s is_match o u (suc fuel) inc num p ret m ≡ some (goes_on 0, m')
      → (ret ≡ 0)
        × ((c
              >>= behind_block
                  (λ r b. verify_blocks s is_match o u fuel inc (u32 (num + 1)) (p + inc) r b))
            ≡ some (goes_on 0, m'))
  unfolding verify_blocks
  verify_blocks-behind fuel num p ret m m' c h fatal f e = elim (Bool-cases (ret == 0)) [
    | inl z ↦ (ground arith, rw (← f) (ground arith))
    | inr nz ↦ absurd (ground arith)
  ]

  verify_blocks-EachPassed :
      (fuel num p ret : ℕ) (m m' : Mem)
      → o.verify_fatal ≡ true
      → verify_blocks s is_match o u fuel inc num p ret m ≡ some (goes_on 0, m')
      → (ret ≡ 0) × EachPassed fuel num p m
  unfolding verify_blocks
  verify_blocks-EachPassed zero num p ret m m' fatal e = absurd (cc e)
  verify_blocks-EachPassed (suc fuel) num p ret m m' fatal e = elim (dec_lt p u.buflen) [
    | yes h ↦ elim (Option-cases (verify_block s is_match o u inc num p m)) [
      | inl f ↦ absurd (cc ((verify_blocks-behind fuel num p ret m m' none h fatal f e).1))
      | inr ((returned, b), f) ↦
          absurd
            (cc ((verify_blocks-behind fuel num p ret m m' (some (returned, b)) h fatal f e).1))
      | inr ((goes_on r, b), f) ↦
          let (z, rest) =
            verify_blocks-behind fuel num p ret m m' (some (goes_on r, b)) h fatal f e in
          let (passed, each) =
            verify_blocks-EachPassed fuel (u32 (num + 1)) (p + inc) r b m' fatal rest in
          (z, λ l. (b, verify_block-Passed num p m b (rw passed at f), each))
    ]
    | no h ↦ (ground arith, λ l. absurd (h l))
  ]

verify_io_u-blocks :
    (s : Sums) (is_match : ℕ → ℕ → Bool) (o : VerifyOptions) (u : Io)
    → u.reads ≡ true
    → u.trimmed ≡ false
    → is_null_type o.verify ≡ false
    → verify_io_u s is_match o u
      ≡ Option.map
          (finish_checks o)
          (verify_blocks s is_match o u (u.buflen + 1) (get_hdr_inc o u) 0 0 0 u.buf)
unfolding verify_io_u
verify_io_u-blocks s is_match o u reads kept typed = ground (arith, reads, kept, typed)

finished_clean :
    (o : VerifyOptions) (r : Option (Checked × Mem)) (v : Verified)
    → Option.map (finish_checks o) r ≡ some v
    → v.ret ≡ 0
    → (m : Mem) × (r ≡ some (goes_on 0, m))
finished_clean o none v e z = absurd (cc e)
finished_clean o (some (returned, m)) v e z = absurd (ground arith)
finished_clean o (some (goes_on r, m)) v e z = (m, ground arith)

-- With verify_fatal set, where verify_io_u of a read that was not trimmed returns 0, with a type
-- other than VERIFY_NULL, each block of the buffer has a header with the magic number, a length
-- that is at most that of the io_u, the checksum of its first 32 bytes, the offset of the block
-- and, with verify_inner, a version that matches; and of the type in the header, which is a known
-- one: a checksum that is stored behind the header is that of the bytes that the length in the
-- header places at as many such lengths as the number of the block, of sha256 and sha512 the block
-- buffer that the code compares; for meta the offset there is the one of the block in steps of
-- verify_interval, and for meta with a pattern and for pattern verify_io_u_pattern gives 0 and, for
-- a pattern of at least two bytes, each byte behind the header is that of the pattern, repeated
-- from the start of the block on.
pub verify_io_u-EachPassed :
    (s : Sums) (is_match : ℕ → ℕ → Bool) (o : VerifyOptions) (u : Io) (v : Verified)
    → o.verify_fatal ≡ true
    → u.reads ≡ true
    → u.trimmed ≡ false
    → is_null_type o.verify ≡ false
    → verify_io_u s is_match o u ≡ some v
    → v.ret ≡ 0
    → EachPassed s is_match o u (get_hdr_inc o u) (u.buflen + 1) 0 0 u.buf
verify_io_u-EachPassed s is_match o u v fatal reads kept typed e z =
    let (m, clean) =
      finished_clean o (verify_blocks s is_match o u (u.buflen + 1) (get_hdr_inc o u) 0 0 0 u.buf) v
        (sym (verify_io_u-blocks s is_match o u reads kept typed) ∙ e) z in
    (verify_blocks-EachPassed s is_match o u (get_hdr_inc o u) (u.buflen + 1) 0 0 0 u.buf m fatal
      clean).1
