-- ===== src/Verify/Populate.antt =====
-- Filling an io_u, verify.c: the pattern, the headers and the checksums. `none` is a failed assert,
-- an access outside the buffer, or a loop that does not end.
use fio_ssd.Prelude.{
  ℕ, zero, suc, ◌+◌, ◌-◌, ◌*◌, ◌%◌, ◌^◌, min, List, Bool, false, Option, none, some, get_or, not,
  leb, ltb, ◌==◌, if◌then◌else◌,
}
use fio_ssd.RandMap.{u32, u64, ◌>>=◌}
use fio_ssd.Bytes.{Mem, get, put, bytes, inside, memswp}
use fio_ssd.Verify.{
  verify_meta, verify_pattern, number, hdr_magic, Sums, digest, hdr_size, VerifyOptions, Io,
  in_buffer, get_hdr_inc, is_null_type,
}

-- The loop that copies the pattern, from offset `i` on.
unfoldable pub copy_pattern : ℕ → VerifyOptions → ℕ → ℕ → Mem → Option Mem
copy_pattern zero o len i m = none
copy_pattern (suc fuel) o len i m =
    let size = min o.verify_pattern_bytes (len - i) in
    let rest =
      copy_pattern fuel o len (i + size)
        (λ j. if inside i size j then get_or o.verify_pattern (j - i) 0 else m j) in
    if ltb i len then rest else some m

-- `copy` of the unique_ops: both kinds copy the 16 bytes.
unfoldable pub write_version : VerifyOptions → Io → ℕ → Mem → Mem
write_version o u p m = if o.verify_inner then put 16 (p + 40) (u.unique_version % 2 ^ 128) m else m

-- The header up to its checksum, which crc32c computes from the 32 bytes before it.
unfoldable pub write_header : Sums → VerifyOptions → Io → ℕ → ℕ → ℕ → Mem → Mem
write_header s o u header_num header_len p m =
    let m = put 2 p hdr_magic m in
    let m = put 2 (p + 2) (number o.verify) m in
    let m = put 8 (p + 8) (u64 (u.offset + u32 (header_num * header_len))) m in
    let m = write_version o u p m in
    let m = put 4 (p + 16) header_len m in
    let m = put 8 (p + 24) (u64 u.rand_seed) m in put 4 (p + 32) (u32 (s.crc32c (bytes 32 p m))) m

-- fill_md5 to fill_sha512: the checksum of the `len` bytes at `a` goes behind the header at `p`.
unfoldable pub fill_digest : ℕ → (List ℕ → ℕ) → ℕ → ℕ → ℕ → Mem → Mem
fill_digest width sum p a len m = put width (p + 56) (sum (bytes len a m) % 256 ^ width) m

-- fill_meta
unfoldable pub fill_meta : VerifyOptions → Io → ℕ → ℕ → Mem → Mem
fill_meta o u header_num p m =
    let m = put 1 (p + 64) (o.thread_number % 256) m in
    let m = put 8 (p + 72) (u64 u.start_sec) m in
    let m = put 8 (p + 80) (u64 u.start_usec) m in
    let m = put 2 (p + 66) (o.write_issues % 65536) m in
    put 8 (p + 56) (u64 (u.offset + u32 (header_num * o.verify_interval))) m

-- The switch of populate_hdr.
unfoldable pub fill_checksum : Sums → VerifyOptions → Io → ℕ → ℕ → ℕ → ℕ → Mem → Option Mem
fill_checksum s o u header_num p a len m = elim (digest s o.verify) [
  | some (width, sum) ↦
      if in_buffer u a len
      then some (fill_digest width (sum (get width (p + 56) m)) p a len m)
      else none
  | none ↦ elim o.verify [
    | verify_meta ↦ some (fill_meta o u header_num p m)
    | verify_pattern ↦ some m
    | _ ↦ none
  ]
]

-- populate_hdr for the block at offset `p` of the buffer.
unfoldable pub populate_hdr : Sums → VerifyOptions → Io → ℕ → ℕ → ℕ → Mem → Option Mem
populate_hdr s o u header_num header_len p m =
    let size = hdr_size o.verify in
    let data_len = u32 (header_len + 2 ^ 32 - size) in
    let header = write_header s o u header_num header_len p m in
    let filled = fill_checksum s o u header_num p (p + size) data_len header in
    if not (in_buffer u p size)
    then none
    else if o.verify_offset == 0
    then filled
    else if in_buffer u (p + o.verify_offset) size
    then filled >>= memswp p (p + o.verify_offset) size
    else none

-- The loop of fill_pattern_headers over the blocks of the io_u.
unfoldable pub populate_blocks : ℕ → Sums → VerifyOptions → Io → ℕ → ℕ → ℕ → Mem → Option Mem
populate_blocks zero s o u hdr_inc header_num p m = none
populate_blocks (suc fuel) s o u hdr_inc header_num p m =
    let rest = (do
      m' ← populate_hdr s o u header_num hdr_inc p m
      populate_blocks fuel s o u hdr_inc (u32 (header_num + 1)) (p + hdr_inc) m') in
    if ltb p u.buflen then rest else some m

-- The io_u with `len` bytes filled, if its buffer has them.
abbrev pub stored : Io → ℕ → Io → Option Io
stored u len w = if leb len u.size then some w else none

-- `random seed len m` is a buffer that __fill_random_buf has filled from `seed`, and `fresh` the seed
-- that fill_random_buf draws.
module _ (random : ℕ → ℕ → Mem → Mem) (fresh : ℕ) where
  -- fill_pattern
  unfoldable pub fill_pattern : VerifyOptions → ℕ → Io → ℕ → Bool → Option Io
  fill_pattern o len u seed use_seed =
      if o.verify_pattern_bytes == 0
      then stored u len (
          if use_seed
          then record u { buf = random seed len u.buf }
          else record u { buf = random fresh len u.buf; rand_seed = fresh })
      else if leb len u.buf_filled_len
      then some u
      else if o.verify_pattern_bytes == 1
      then stored u len (record u {
        buf = λ j. if ltb j len then get_or o.verify_pattern 0 0 else u.buf j;
        buf_filled_len = len;
      })
      else (do
        m ← copy_pattern (len + 1) o len 0 u.buf
        stored u len (record u { buf = m; buf_filled_len = len }))

  -- fill_pattern_headers
  unfoldable pub fill_pattern_headers : Sums → VerifyOptions → Io → ℕ → Bool → Option Io
  fill_pattern_headers s o u seed use_seed = do
    w ← fill_pattern o u.buflen u seed use_seed
    m ← populate_blocks (w.buflen + 1) s o w (get_hdr_inc o w) 0 0 w.buf
    some (record w { buf = m })

  -- populate_verify_io_u
  unfoldable pub populate_verify_io_u : Sums → VerifyOptions → Io → Option Io
  populate_verify_io_u s o u =
      let filled = fill_pattern_headers s o u 0 false in
      if is_null_type o.verify then some u else filled
