-- ===== src/Verify.antt =====
-- The verification of io_us, verify.c: the kinds of checksum, the options, and the io_u with its
-- buffer. Populate writes the headers, Check reads them, and RoundTrip puts the two together.
pub mod Populate
pub mod Check
pub mod Blocks
pub mod Passes
pub mod Accepted
pub mod Loops
pub mod RoundTrip
pub mod Pattern
pub mod Trimmed
pub mod Found
pub mod Sound
pub mod Lost
mod Tests
use fio_ssd.Prelude.{
  ℕ, ◌+◌, ◌%◌, ◌^◌, ◌≤◌, ◌≡◌, length, List, [], ◌∷◌, Bool, true, false, Option, none, some,
  get_elem?, not, ◌&&◌, leb, ◌==◌, if◌then◌else◌,
}
use fio_ssd.RandMap.{u32}
use fio_ssd.Bytes.{Mem}

-- The verify types, in the order of their numbers.
pub data VerifyType : Type 0 where
  verify_none : VerifyType
  verify_md5 : VerifyType
  verify_crc64 : VerifyType
  verify_crc32 : VerifyType
  verify_crc32c : VerifyType
  verify_crc32c_intel : VerifyType
  verify_crc16 : VerifyType
  verify_crc7 : VerifyType
  verify_sha256 : VerifyType
  verify_sha512 : VerifyType
  verify_meta : VerifyType
  verify_sha1 : VerifyType
  verify_pattern : VerifyType
  verify_null : VerifyType

unfoldable pub number : VerifyType → ℕ
number verify_none = 0
number verify_md5 = 1
number verify_crc64 = 2
number verify_crc32 = 3
number verify_crc32c = 4
number verify_crc32c_intel = 5
number verify_crc16 = 6
number verify_crc7 = 7
number verify_sha256 = 8
number verify_sha512 = 9
number verify_meta = 10
number verify_sha1 = 11
number verify_pattern = 12
number verify_null = 13

-- The type of a number that a header holds; `none` is the default of a switch.
unfoldable pub verify_type : ℕ → Option VerifyType
verify_type = get_elem? (
    verify_none ∷ verify_md5 ∷ verify_crc64 ∷ verify_crc32 ∷ verify_crc32c ∷ verify_crc32c_intel
    ∷ verify_crc16 ∷ verify_crc7 ∷ verify_sha256 ∷ verify_sha512 ∷ verify_meta ∷ verify_sha1
    ∷ verify_pattern ∷ verify_null ∷ [])

-- `verify == VERIFY_NULL`
abbrev pub is_null_type : VerifyType → Bool
is_null_type verify_null = true
is_null_type _ = false

-- FIO_HDR_MAGIC, EILSEQ and EINVAL.
abbrev pub hdr_magic : ℕ
hdr_magic = 0xacca

abbrev pub eilseq : ℕ
eilseq = 84

abbrev pub einval : ℕ
einval = 22

-- The functions of crc/, from the bytes of the data to the number that the checksum's bytes stand
-- for. Of sha256 and sha512 the code keeps the block buffer of the context, not the hash: it depends
-- on what the buffer held before, unless there are data for all of it. `stack` is what the local
-- buffer of verify_io_u_sha256 or verify_io_u_sha512 holds at first, for the block with a number.
pub record Sums : Type 0 where
  pub md5 : List ℕ → ℕ
  pub crc64 : List ℕ → ℕ
  pub crc32 : List ℕ → ℕ
  pub crc32c : List ℕ → ℕ
  pub crc16 : List ℕ → ℕ
  pub crc7 : List ℕ → ℕ
  pub sha256 : ℕ → List ℕ → ℕ
  pub sha512 : ℕ → List ℕ → ℕ
  pub sha1 : List ℕ → ℕ
  pub stack : ℕ → ℕ
  pub sha256_full : (a b : ℕ) (xs : List ℕ) → 64 ≤ length xs → sha256 a xs ≡ sha256 b xs
  pub sha512_full : (a b : ℕ) (xs : List ℕ) → 128 ≤ length xs → sha512 a xs ≡ sha512 b xs

-- The size of the struct vhdr_x of a checksum, and its function, of what the place of the checksum
-- held before and of the data.
unfoldable pub digest : Sums → VerifyType → Option (ℕ × (ℕ → List ℕ → ℕ))
digest s verify_md5 = some (16, λ old xs. s.md5 xs)
digest s verify_crc64 = some (8, λ old xs. s.crc64 xs)
digest s verify_crc32 = some (4, λ old xs. s.crc32 xs)
digest s verify_crc32c = some (4, λ old xs. s.crc32c xs)
digest s verify_crc32c_intel = some (4, λ old xs. s.crc32c xs)
digest s verify_crc16 = some (2, λ old xs. s.crc16 xs)
digest s verify_crc7 = some (1, λ old xs. s.crc7 xs)
digest s verify_sha256 = some (64, s.sha256)
digest s verify_sha512 = some (128, s.sha512)
digest s verify_sha1 = some (20, λ old xs. s.sha1 xs)
digest s _ = none

-- __hdr_size: the 56 bytes of struct verify_header, and those of the struct of the type.
unfoldable pub hdr_size : VerifyType → ℕ
hdr_size verify_md5 = 72
hdr_size verify_crc64 = 64
hdr_size verify_crc32 = 60
hdr_size verify_crc32c = 60
hdr_size verify_crc32c_intel = 60
hdr_size verify_crc16 = 58
hdr_size verify_crc7 = 57
hdr_size verify_sha256 = 120
hdr_size verify_sha512 = 184
hdr_size verify_meta = 88
hdr_size verify_sha1 = 76
hdr_size _ = 56

pub record VerifyOptions : Type 0 where
  pub verify : VerifyType
  pub verify_interval : ℕ
  pub verify_offset : ℕ
  pub verify_pattern : List ℕ
  pub verify_pattern_bytes : ℕ
  pub verify_fatal : Bool
  pub verify_inner : Bool
  pub trim_zero : Bool
  pub randomagain : Bool
  pub rw_min_bs : ℕ
  pub thread_number : ℕ
  pub write_issues : ℕ

-- The fields of struct io_u that verification uses. `buf` has `size` bytes, and `unique_version` is
-- the number that the 16 bytes of struct fio_unique stand for.
pub record Io : Type 0 where
  pub buf : Mem
  pub size : ℕ
  pub offset : ℕ
  pub buflen : ℕ
  pub rand_seed : ℕ
  pub unique_version : ℕ
  pub buf_filled_len : ℕ
  pub reads : Bool
  pub trimmed : Bool
  pub start_sec : ℕ
  pub start_usec : ℕ

-- Whether the `n` bytes at `a` lie in the buffer.
abbrev pub in_buffer : Io → ℕ → ℕ → Bool
in_buffer u a n = leb (a + n) u.size

-- get_hdr_inc
unfoldable pub get_hdr_inc : VerifyOptions → Io → ℕ
get_hdr_inc o u =
    if o.randomagain
    then o.rw_min_bs
    else if not (o.verify_interval == 0) && leb o.verify_interval u.buflen
    then o.verify_interval
    else u32 u.buflen
