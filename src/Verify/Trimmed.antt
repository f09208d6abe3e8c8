-- ===== src/Verify/Trimmed.antt =====
-- verify_trimmed_io_u compares a buffer with zeros, 1024 bytes at a time.
use fio_ssd.Prelude.{
  arith, ◌∙◌, ℕ, zero, suc, ◌+◌, ◌-◌, ◌^◌, ◌≤◌, ◌<◌, ◌≡◌, inl, inr, true, some, ◌&&◌, ◌==◌,
  if◌then◌else◌, Bool-cases, dec_lt,
}
use fio_ssd.RandMap.{u32}
use fio_ssd.Bytes.{Mem}
use fio_ssd.Verify.{VerifyOptions, Io, eilseq}
use fio_ssd.Verify.Check.{all_zero, zero_chunks, verify_trimmed_io_u}

all_zero-add :
    (n k p : ℕ) (m : Mem) → all_zero (n + k) p m ≡ (all_zero n p m && all_zero k (p + n) m)
unfolding all_zero
all_zero-add zero k p m =
    let e : 0 + k ≡ k = omega arith in
    let f : p ≡ p + 0 = omega arith in λ i. all_zero (e i) (f i) m
all_zero-add (suc n) k p m =
    let e : suc n + k ≡ suc (n + k) = omega arith in
    let f : p + suc n ≡ suc p + n = omega arith in
    (λ i. all_zero (e i) p m)
    ∙ elim (Bool-cases (m p == 0)) [ inl z ↦ rw (z, f) (all_zero-add n k (suc p) m) | inr z ↦ rw z ]

-- The whole loop, against one comparison of all the bytes.
zero_chunks-eq :
    (fuel p len : ℕ) (m : Mem)
    → len < fuel
    → zero_chunks fuel p len m ≡ some (if all_zero len p m then 0 else eilseq)
unfolding zero_chunks
zero_chunks-eq zero p len m h = absurd (omega arith)
zero_chunks-eq (suc fuel) p len m h = elim (dec_lt 1024 len) [
  | yes more ↦ ground (
    arith,
    all_zero-add 1024 (len - 1024) p m,
    zero_chunks-eq fuel (p + 1024) (len - 1024) m (omega arith),
  )
  | no last ↦ ground arith
]

-- With trim_zero, for an io_u in its buffer, verify_trimmed_io_u ends, and returns 0 where all
-- bytes of the io_u are zero and else EILSEQ.
pub verify_trimmed_io_u-eq :
    (o : VerifyOptions) (u : Io)
    → o.trim_zero ≡ true
    → u.buflen ≤ u.size
    → u.buflen < 2 ^ 32
    → verify_trimmed_io_u o u ≡ some (if all_zero u.buflen 0 u.buf then 0 else eilseq)
unfolding verify_trimmed_io_u
verify_trimmed_io_u-eq o u e h small =
    let whole : u32 u.buflen ≡ u.buflen = omega arith in
    rw (e, whole, zero_chunks-eq (u.buflen + 1) 0 u.buflen u.buf (omega arith)) (ground arith)
