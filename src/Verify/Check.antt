-- ===== src/Verify/Check.antt =====
-- Checking an io_u that was read, verify.c. `none` is a failed assert, an access outside the buffer,
-- or a loop that does not end; logging is not modelled.
use fio_ssd.Prelude.{
  ℕ, zero, suc, ◌+◌, ◌-◌, ◌*◌, ◌%◌, ◌^◌, min, bit_or, List, Bool, true, false, Option, none, some,
  get_or, not, ◌&&◌, ◌||◌, leb, ltb, ◌==◌, if◌then◌else◌,
}
use mathlib.Core.Option
use fio_ssd.RandMap.{u32, u64, ◌>>=◌}
use fio_ssd.Bytes.{Mem, get, bytes, memswp}
use fio_ssd.Verify.{
  VerifyType, verify_meta, verify_pattern, verify_type, hdr_magic, eilseq, einval, Sums, digest,
  hdr_size, VerifyOptions, Io, in_buffer, get_hdr_inc, is_null_type,
}

-- verify_header
unfoldable pub verify_header : Sums → Io → ℕ → Mem → Bool
verify_header s u p m =
    if not (get 2 p m == hdr_magic)
    then false
    else if ltb u.buflen (get 4 (p + 16) m)
    then false
    else u32 (s.crc32c (bytes 32 p m)) == get 4 (p + 32) m

-- verify_io_u_md5 to verify_io_u_sha512: the data is where hdr->len and the number of the header say.
unfoldable pub verify_digest : ℕ → (List ℕ → ℕ) → VerifyType → Io → ℕ → ℕ → Mem → Option ℕ
verify_digest width sum t u hdr_num p m =
    let len = get 4 (p + 16) m in
    let a = u32 (hdr_num * len) + hdr_size t in
    let data_len = u32 (len + 2 ^ 32 - hdr_size t) in
    if in_buffer u a data_len && in_buffer u p (hdr_size t)
    then some (if get width (p + 56) m == sum (bytes data_len a m) % 256 ^ width then 0 else eilseq)
    else none

-- memcmp: whether the `n` bytes at `a` are those of the pattern from `i` on.
unfoldable pub same_bytes : ℕ → ℕ → ℕ → List ℕ → Mem → Bool
same_bytes zero a i pattern m = true
same_bytes (suc n) a i pattern m =
    (m a == get_or pattern i 0) && same_bytes n (suc a) (suc i) pattern m

-- The fast loop of verify_io_u_pattern: the place where it stops, and the place `phase` in the pattern.
unfoldable pub compare_chunks : ℕ → List ℕ → ℕ → ℕ → ℕ → ℕ → ℕ → Mem → Option (ℕ × ℕ)
compare_chunks zero pattern pattern_size a len i phase m = none
compare_chunks (suc fuel) pattern pattern_size a len i phase m =
    let size = min (pattern_size - phase) (len - i) in
    let rest = compare_chunks fuel pattern pattern_size a len (i + size) 0 m in
    if leb len i
    then some (i, phase)
    else if same_bytes size (a + i) phase pattern m
    then rest
    else some (i, phase)

-- The slow loop, over the `n` bytes that are left.
unfoldable pub compare_slowly : ℕ → List ℕ → ℕ → ℕ → ℕ → ℕ → Mem → ℕ
compare_slowly zero pattern pattern_bytes a i phase m = 0
compare_slowly (suc n) pattern pattern_bytes a i phase m =
    let rest =
      compare_slowly n pattern pattern_bytes a (suc i)
        (if phase + 1 == pattern_bytes then 0 else phase + 1) m in
    if m (a + i) == get_or pattern phase 0 then rest else eilseq

-- verify_io_u_pattern; MAX_PATTERN_SIZE is 512.
unfoldable pub verify_io_u_pattern : VerifyOptions → Io → ℕ → Mem → Option ℕ
verify_io_u_pattern o u p m =
    let header_size = hdr_size o.verify in
    let pattern_size = if leb o.verify_pattern_bytes 1 then 512 else o.verify_pattern_bytes in
    let a = p + header_size in
    let len = u32 (get_hdr_inc o u + 2 ^ 32 - header_size) in
    if in_buffer u a len
    then (do
      (i, phase) ←
          compare_chunks (len + 1) o.verify_pattern pattern_size a len 0
            (header_size % pattern_size) m
      some (compare_slowly (len - i) o.verify_pattern o.verify_pattern_bytes a i phase m))
    else none

-- verify_io_u_meta
unfoldable pub verify_io_u_meta : VerifyOptions → Io → ℕ → ℕ → Mem → Option ℕ
verify_io_u_meta o u hdr_num p m =
    let ret =
      if get 8 (p + 56) m == u64 (u.offset + u32 (hdr_num * o.verify_interval))
      then 0
      else eilseq in
    if not (in_buffer u p (hdr_size verify_meta))
    then none
    else if o.verify_pattern_bytes == 0
    then some ret
    else (do r ← verify_io_u_pattern o u p m; some (bit_or ret r))

-- The switch of verify_io_u on the type in the header.
unfoldable pub verify_checksum : Sums → VerifyOptions → Io → ℕ → ℕ → Mem → Option ℕ
verify_checksum s o u hdr_num p m = elim (verify_type (get 2 (p + 2) m)) [
  | none ↦ some einval
  | some t ↦ elim (digest s t) [
    | some (width, sum) ↦ verify_digest width (sum (s.stack hdr_num)) t u hdr_num p m
    | none ↦ elim t [
      | verify_meta ↦ verify_io_u_meta o u hdr_num p m
      | verify_pattern ↦ verify_io_u_pattern o u p m
      | _ ↦ some einval
    ]
  ]
]

-- What verify_io_u does behind a block: return EILSEQ at once, or go on with `ret`.
pub data Checked : Type 0 where
  returned : Checked
  goes_on : ℕ → Checked

abbrev pub behind_block :
    (ℕ → Mem → Option (Checked × Mem)) → Checked × Mem → Option (Checked × Mem)
behind_block rest (returned, m) = some (returned, m)
behind_block rest (goes_on ret, m) = rest ret m

-- The bytes of the block at `p` back in their places.
abbrev pub unswap : VerifyOptions → Io → ℕ → Mem → Option Mem
unswap o u p m =
    if o.verify_offset == 0
    then some m
    else if in_buffer u (p + o.verify_offset) (hdr_size o.verify)
    then memswp p (p + o.verify_offset) (hdr_size o.verify) m
    else none

module _ (s : Sums) (is_match : ℕ → ℕ → Bool) (o : VerifyOptions) (u : Io) where
  -- The checks of one block, its bytes in their places.
  unfoldable pub check_block : ℕ → ℕ → ℕ → Mem → Option Checked
  check_block hdr_inc hdr_num p m =
      let sums = Option.map goes_on (verify_checksum s o u hdr_num p m) in
      if not (verify_header s u p m)
      then some returned
      else if not (get 8 (p + 8) m == u64 (u.offset + u32 (hdr_num * hdr_inc)))
      then some returned
      else if o.verify_inner && not (is_match (get 16 (p + 40) m) u.unique_version)
      then some returned
      else sums

  -- The body of the loop of verify_io_u.
  unfoldable pub verify_block : ℕ → ℕ → ℕ → Mem → Option (Checked × Mem)
  verify_block hdr_inc hdr_num p m =
      if not (in_buffer u p (hdr_size o.verify))
      then none
      else (do m' ← unswap o u p m; c ← check_block hdr_inc hdr_num p m'; some (c, m'))

  -- The loop of verify_io_u.
  unfoldable pub verify_blocks : ℕ → ℕ → ℕ → ℕ → ℕ → Mem → Option (Checked × Mem)
  verify_blocks zero hdr_inc hdr_num p ret m = none
  verify_blocks (suc fuel) hdr_inc hdr_num p ret m =
      let rest = λ (ret' : ℕ) (m' : Mem).
        verify_blocks fuel hdr_inc (u32 (hdr_num + 1)) (p + hdr_inc) ret' m' in
      if leb u.buflen p
      then some (goes_on ret, m)
      else if not (ret == 0) && o.verify_fatal
      then some (goes_on ret, m)
      else verify_block hdr_inc hdr_num p m >>= behind_block rest

-- Whether the `n` bytes at `a` are those of zero_buf.
unfoldable pub all_zero : ℕ → ℕ → Mem → Bool
all_zero zero a m = true
all_zero (suc n) a m = (m a == 0) && all_zero n (suc a) m

-- The do-while of verify_trimmed_io_u, with 1024 bytes a round.
unfoldable pub zero_chunks : ℕ → ℕ → ℕ → Mem → Option ℕ
zero_chunks zero p len m = none
zero_chunks (suc fuel) p len m =
    let this_len = min 1024 len in
    let rest = zero_chunks fuel (p + this_len) (len - this_len) m in
    if not (all_zero this_len p m)
    then some eilseq
    else if len - this_len == 0
    then some 0
    else rest

-- verify_trimmed_io_u
unfoldable pub verify_trimmed_io_u : VerifyOptions → Io → Option ℕ
verify_trimmed_io_u o u =
    if not o.trim_zero
    then some 0
    else if in_buffer u 0 u.buflen
    then zero_chunks (u.buflen + 1) 0 (u32 u.buflen) u.buf
    else none

-- What verify_io_u returns, whether it sets td->terminate, and the buffer behind it.
pub record Verified : Type 0 where
  pub ret : ℕ
  pub terminate : Bool
  pub buf : Mem

-- The end of verify_io_u behind its label `done`.
abbrev pub done : VerifyOptions → ℕ → Mem → Verified
done o ret m = record { ret = ret; terminate = not (ret == 0) && o.verify_fatal; buf = m }

abbrev pub finish_checks : VerifyOptions → Checked × Mem → Verified
finish_checks o (returned, m) = record { ret = eilseq; terminate = false; buf = m }
finish_checks o (goes_on ret, m) = done o ret m

-- verify_io_u
unfoldable pub verify_io_u : Sums → (ℕ → ℕ → Bool) → VerifyOptions → Io → Option Verified
verify_io_u s is_match o u =
    let blocks = verify_blocks s is_match o u (u.buflen + 1) (get_hdr_inc o u) 0 0 0 u.buf in
    if is_null_type o.verify || not u.reads
    then some (record { ret = 0; terminate = false; buf = u.buf })
    else if u.trimmed
    then Option.map (λ ret. done o ret u.buf) (verify_trimmed_io_u o u)
    else Option.map (finish_checks o) blocks
