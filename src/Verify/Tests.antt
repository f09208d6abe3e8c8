-- ===== src/Verify/Tests.antt =====
-- Tests of verification.
use fio_ssd.Prelude.{
  ℕ, ◌+◌, ◌-◌, ◌*◌, ◌%◌, ◌≤◌, ◌≡◌, refl, arith, inl, inr, Bool, List, [], ◌∷◌, true, false, Option,
  none, some, ◌==◌, leb, length, if◌then◌else◌,
}
use fio_ssd.RandMap.{u32, ◌>>=◌}
use fio_ssd.Bytes.{Mem, get, put, bytes, swap, memswp}
use fio_ssd.Verify.{
  verify_crc32c, verify_sha256, verify_pattern, number, verify_type, Sums, digest, hdr_size,
  VerifyOptions, Io, get_hdr_inc, eilseq,
}
use fio_ssd.Verify.Populate.{
  copy_pattern, write_version, write_header, fill_digest, fill_checksum, populate_hdr,
  populate_blocks, fill_pattern, fill_pattern_headers, populate_verify_io_u,
}
use fio_ssd.Verify.Check.{
  verify_header, verify_digest, same_bytes, all_zero, verify_trimmed_io_u, compare_chunks,
  compare_slowly, verify_io_u_pattern, done, verify_checksum, check_block, verify_block,
  verify_blocks, verify_io_u, Verified, goes_on,
}
use fio_ssd.Verify.RoundTrip.{IsRoomy, read_back, verify_io_u-populate_verify_io_u}
use fio_ssd.Verify.Lost.{EachPassed, verify_io_u-EachPassed, verify_blocks-lost}
use fio_ssd.Verify.Pattern.{verify_io_u_pattern-eq}
use fio_ssd.Verify.Trimmed.{verify_trimmed_io_u-eq}

sum : List ℕ → ℕ
sum [] = 7
sum (x ∷ xs) = x + 3 * sum xs

equal : ℕ → ℕ → Bool
equal a b = a == b

abbrev sums : Sums
sums = record {
  md5 = sum;
  crc64 = sum;
  crc32 = sum;
  crc32c = sum;
  crc16 = sum;
  crc7 = sum;
  sha256 = λ old xs. if leb 64 (length xs) then sum xs else sum xs + old;
  sha512 = λ old xs. if leb 128 (length xs) then sum xs else sum xs + old;
  sha1 = sum;
  stack = λ num. num + 1;
  sha256_full = λ a b xs h. ground (arith, h);
  sha512_full = λ a b xs h. ground (arith, h);
}

-- Blocks of 256 bytes, with the header 128 bytes into the block.
abbrev options : VerifyOptions
options = record {
  verify = verify_crc32c;
  verify_interval = 256;
  verify_offset = 128;
  verify_pattern = 1 ∷ 2 ∷ 3 ∷ [];
  verify_pattern_bytes = 3;
  verify_fatal = false;
  verify_inner = true;
  trim_zero = false;
  randomagain = false;
  rw_min_bs = 512;
  thread_number = 1;
  write_issues = 9;
}

abbrev io : Io
io = record {
  buf = λ i. 0;
  size = 1024;
  offset = 4096;
  buflen = 512;
  rand_seed = 11;
  unique_version = 300;
  buf_filled_len = 0;
  reads = true;
  trimmed = false;
  start_sec = 5;
  start_usec = 6;
}

-- What verify_io_u returns for the filled io_u with one byte cleared.
ret_of : Option Verified → ℕ
ret_of none = 999
ret_of (some v) = v.ret

no_random : ℕ → ℕ → Mem → Mem
no_random seed len m = m

run : VerifyOptions → ℕ → ℕ
unfolding ret_of no_random sum get put bytes swap memswp number verify_type digest hdr_size
    get_hdr_inc copy_pattern write_version write_header fill_digest fill_checksum populate_hdr
    populate_blocks fill_pattern fill_pattern_headers populate_verify_io_u verify_header
    verify_digest verify_checksum check_block verify_block verify_blocks verify_io_u equal
run o broken = ret_of (
    populate_verify_io_u no_random 3 sums o io >>= (λ w.
      verify_io_u sums equal o
        (record w { buf = λ i. if i == broken then 0 else w.buf i; reads = true })))

pattern_ret : VerifyOptions → ℕ
unfolding ret_of no_random sum get put bytes swap memswp number verify_type digest hdr_size
    get_hdr_inc copy_pattern write_version write_header fill_checksum populate_hdr populate_blocks
    fill_pattern fill_pattern_headers populate_verify_io_u verify_header verify_io_u_pattern
    compare_chunks compare_slowly same_bytes verify_checksum check_block verify_block verify_blocks
    verify_io_u equal
pattern_ret o = ret_of (
    populate_verify_io_u no_random 3 sums o io
    >>= (λ w. verify_io_u sums equal o (record w { reads = true })))

intact : run options 2000 ≡ 0
unfolding run
intact = refl

bad_magic : run options 384 ≡ 84
unfolding run
bad_magic = refl

bad_data : run options 300 ≡ 84
unfolding run
bad_data = refl

-- The failure of the first block is lost, unless verify_fatal is set.
bad_first : run options 100 ≡ 0
unfolding run
bad_first = refl

bad_first_fatal : run (record options { verify_fatal = true }) 100 ≡ 84
unfolding run
bad_first_fatal = refl

-- The pattern is found again where the blocks hold it a whole number of times.
pattern_passes :
    pattern_ret (record options {
      verify = verify_pattern;
      verify_pattern = 1 ∷ 2 ∷ [];
      verify_pattern_bytes = 2;
    })
    ≡ 0
unfolding pattern_ret
pattern_passes = refl

pattern_fails : pattern_ret (record options { verify = verify_pattern }) ≡ 84
unfolding pattern_ret
pattern_fails = refl

-- Blocks of 128 bytes have data for a part of the buffer of sha256.
short_of_data :
    run (record options { verify = verify_sha256; verify_interval = 128; verify_offset = 0 }) 2000
    ≡ 84
unfolding run
short_of_data = refl

equal_self : (v : ℕ) → equal v v ≡ true
unfolding equal
equal_self v = ground arith

io-IsRoomy : IsRoomy sums options io 2
unfolding get_hdr_inc hdr_size digest
io-IsRoomy = record {
  whole = omega arith;
  nonempty = omega arith;
  small = omega arith;
  in_size = omega arith;
  room = omega arith;
  offset_fits = inr (omega arith, omega arith);
  has_sum = inl ((4, λ old xs. sum xs), refl, tt);
  version_small = omega arith;
}

abbrev fatal_options : VerifyOptions
fatal_options = record options { verify_fatal = true }

fatal-IsRoomy : IsRoomy sums fatal_options io 2
unfolding get_hdr_inc hdr_size digest
fatal-IsRoomy = record {
  whole = omega arith;
  nonempty = omega arith;
  small = omega arith;
  in_size = omega arith;
  room = omega arith;
  offset_fits = inr (omega arith, omega arith);
  has_sum = inl ((4, λ old xs. sum xs), refl, tt);
  version_small = omega arith;
}

verify_io_u-populate_verify_io_u_example :
    (w : Io) × (populate_verify_io_u no_random 3 sums options io ≡ some w)
    × (m : Mem) × (verify_io_u sums equal options (read_back io w) ≡ some (done options 0 m))
verify_io_u-populate_verify_io_u_example =
    verify_io_u-populate_verify_io_u no_random 3 sums equal options equal_self io io 2 io-IsRoomy

-- The io_u that was filled, read back.
written :
    (w : Io) × (m : Mem) × (verify_io_u sums equal fatal_options (read_back io w)
      ≡ some (done fatal_options 0 m))
written =
    let (w, filled, m, accepted) =
      verify_io_u-populate_verify_io_u no_random 3 sums equal fatal_options equal_self io io 2
        fatal-IsRoomy in
    (w, m, accepted)

verify_io_u-EachPassed_example :
    EachPassed sums equal fatal_options
      (read_back io written.0)
      (get_hdr_inc fatal_options (read_back io written.0))
      ((read_back io written.0).buflen + 1)
      0
      0
      (read_back io written.0).buf
verify_io_u-EachPassed_example =
    verify_io_u-EachPassed sums equal fatal_options (read_back io written.0)
      (done fatal_options 0 written.1) refl refl refl refl written.2 refl

-- The header is in front, and the first data byte of the first block is cleared.
abbrev front_options : VerifyOptions
front_options = record options { verify_offset = 0; verify_inner = false }

broken : Mem
unfolding no_random sum get put bytes number digest hdr_size get_hdr_inc copy_pattern write_version
    write_header fill_digest fill_checksum populate_hdr populate_blocks fill_pattern
    fill_pattern_headers populate_verify_io_u
broken i = elim (populate_verify_io_u no_random 3 sums front_options io) [
  | some w ↦ if i == 60 then 0 else w.buf i
  | none ↦ 0
]

broken_block : verify_block sums equal front_options io 256 0 0 broken ≡ some (goes_on 84, broken)
unfolding broken sum get bytes verify_type digest hdr_size verify_header verify_digest
    verify_checksum check_block verify_block
broken_block = refl

verify_blocks-lost_example :
    verify_blocks sums equal front_options io 513 256 0 0 0 broken
    ≡ verify_blocks sums equal front_options io 512 256 (u32 (0 + 1)) (0 + 256) 0 broken
verify_blocks-lost_example =
    verify_blocks-lost sums equal front_options io 256 511 0 0 84 broken broken refl (omega arith)
      (omega arith) broken_block

verify_trimmed_io_u-eq_example :
    verify_trimmed_io_u (record options { trim_zero = true }) io
    ≡ some (if all_zero 512 0 (λ i. 0) then 0 else eilseq)
verify_trimmed_io_u-eq_example =
    verify_trimmed_io_u-eq (record options { trim_zero = true }) io refl (omega arith) (omega arith)

pattern_room : (hdr_size verify_crc32c ≤ get_hdr_inc options io) × (get_hdr_inc options io ≡ 256)
unfolding get_hdr_inc hdr_size
pattern_room = (omega arith, refl)

verify_io_u_pattern-eq_example :
    verify_io_u_pattern options io 256 broken
    ≡ some (
        compare_slowly
          (get_hdr_inc options io - hdr_size verify_crc32c)
          (1 ∷ 2 ∷ 3 ∷ [])
          3
          (256 + hdr_size verify_crc32c)
          0
          (hdr_size verify_crc32c % 3)
          broken)
verify_io_u_pattern-eq_example =
    verify_io_u_pattern-eq options io 256 broken (omega arith) pattern_room.0
      (omega (arith, pattern_room.1)) (omega (arith, pattern_room.1))
