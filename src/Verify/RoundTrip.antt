-- ===== src/Verify/RoundTrip.antt =====
-- What populate_verify_io_u fills, verify_io_u accepts.
use mathlib.Core.Path.{subst}
use fio_ssd.Prelude.{
  arith, refl, sym, ap, ◌∙◌, ℕ, zero, suc, ◌+◌, ◌-◌, ◌*◌, ◌^◌, ◌≤◌, ◌<◌, ◌≡◌, inl, inr, List, Bool,
  true, false, none, some, not, ◌&&◌, leb, ltb, ◌==◌, if◌then◌else◌, Bool-cases, dec_lt, min,
  get_or,
}
use fio_ssd.RandMap.{u32}
use fio_ssd.Bytes.{Mem, inside}
use fio_ssd.Verify.{
  VerifyType, Sums, hdr_size, digest, VerifyOptions, Io, get_hdr_inc, is_null_type, verify_null,
  verify_meta,
}
use fio_ssd.Verify.Populate.{
  populate_blocks, copy_pattern, stored, fill_pattern, fill_pattern_headers, populate_verify_io_u,
}
use fio_ssd.Verify.Check.{done, goes_on, verify_blocks, verify_io_u}
use fio_ssd.Verify.Blocks.{HasSum}
use fio_ssd.Verify.Passes.{OffsetFits, hdr_size-ge}
use fio_ssd.Verify.Loops.{SameIo, At, populate_blocks-Ok, verify_blocks-Ok}

-- An io_u for which the headers fit: its blocks are whole, and each has room for its header.
pub record IsRoomy (s : Sums) (o : VerifyOptions) (u : Io) (n : ℕ) : Type 0 where
  pub whole : n * get_hdr_inc o u ≡ u.buflen
  pub nonempty : 0 < n
  pub small : u.buflen < 2 ^ 31
  pub in_size : u.buflen ≤ u.size
  pub room : hdr_size o.verify ≤ get_hdr_inc o u
  pub offset_fits : OffsetFits o (get_hdr_inc o u)
  pub has_sum : HasSum s o (get_hdr_inc o u)
  pub version_small : u.unique_version < 2 ^ 128

copy_pattern_total :
    (fuel : ℕ) (o : VerifyOptions) (len i : ℕ) (m : Mem)
    → 0 < o.verify_pattern_bytes
    → len < i + fuel
    → i ≤ len
    → (w : Mem) × (copy_pattern fuel o len i m ≡ some w)
unfolding copy_pattern
copy_pattern_total zero o len i m h e l = absurd (omega arith)
copy_pattern_total (suc fuel) o len i m h e l = elim (dec_lt i len) [
  | yes p ↦
      let size = min o.verify_pattern_bytes (len - i) in
      let (w, r) =
        copy_pattern_total fuel o len (i + size)
          (λ j. if inside i size j then get_or o.verify_pattern (j - i) 0 else m j) h (omega arith)
          (omega arith) in
      (w, ground (arith, r))
  | no p ↦ (m, ground arith)
]

stored-SameIo :
    (u v : Io) (len : ℕ)
    → len ≤ u.size
    → SameIo u v
    → (w : Io) × (stored u len v ≡ some w) × SameIo u w
stored-SameIo u v len h e = (v, ground arith, e)

module _ (random : ℕ → ℕ → Mem → Mem) (fresh : ℕ) where
  fill_pattern_total :
      (o : VerifyOptions) (u : Io) (seed : ℕ) (use_seed : Bool)
      → u.buflen ≤ u.size
      → (w : Io) × (fill_pattern random fresh o u.buflen u seed use_seed ≡ some w) × SameIo u w
  unfolding fill_pattern
  fill_pattern_total o u seed use_seed h = elim (Bool-cases (o.verify_pattern_bytes == 0)) [
    | inl e ↦ elim (Bool-cases use_seed) [
      | inl f ↦ (
        record u { buf = random seed u.buflen u.buf },
        rw (e, f) (ground arith),
        record { size = refl; offset = refl; buflen = refl; unique_version = refl },
      )
      | inr f ↦ (
        record u { buf = random fresh u.buflen u.buf; rand_seed = fresh },
        rw (e, f) (ground arith),
        record { size = refl; offset = refl; buflen = refl; unique_version = refl },
      )
    ]
    | inr e ↦ elim (Bool-cases (leb u.buflen u.buf_filled_len)) [
      | inl f ↦ (
        u,
        rw (e, f),
        record { size = refl; offset = refl; buflen = refl; unique_version = refl },
      )
      | inr f ↦ elim (Bool-cases (o.verify_pattern_bytes == 1)) [
        | inl g ↦ (
          record u {
            buf = λ j. if ltb j u.buflen then get_or o.verify_pattern 0 0 else u.buf j;
            buf_filled_len = u.buflen;
          },
          rw (e, f, g) (ground arith),
          record { size = refl; offset = refl; buflen = refl; unique_version = refl },
        )
        | inr g ↦
            let (m, copied) =
              copy_pattern_total (u.buflen + 1) o u.buflen 0 u.buf (ground arith) (omega arith)
                (omega arith) in
            (
              record u { buf = m; buf_filled_len = u.buflen },
              rw (e, f, g, copied) (ground arith),
              record { size = refl; offset = refl; buflen = refl; unique_version = refl },
            )
      ]
    ]
  ]

-- The io_u `r` after it has read what `w` wrote, at the same place.
abbrev pub read_back : Io → Io → Io
read_back r w = record r {
  buf = w.buf;
  size = w.size;
  offset = w.offset;
  buflen = w.buflen;
  unique_version = w.unique_version;
  reads = true;
  trimmed = false;
}

get_hdr_inc-same :
    (o : VerifyOptions) (u r : Io) → u.buflen ≡ r.buflen → get_hdr_inc o u ≡ get_hdr_inc o r
unfolding get_hdr_inc
get_hdr_inc-same o u r e = λ i.
    if o.randomagain
    then o.rw_min_bs
    else if not (o.verify_interval == 0) && leb o.verify_interval (e i)
    then o.verify_interval
    else u32 (e i)

digest_null : (s : Sums) → digest s verify_null ≡ none
unfolding digest
digest_null s = refl

HasSum-not_null :
    (s : Sums) (o : VerifyOptions) (inc : ℕ) → HasSum s o inc → is_null_type o.verify ≡ false
HasSum-not_null s o inc (inl (d, e, is)) = not_null s o.verify d e
  where
    not_null :
        (s' : Sums) (t : VerifyType) (d' : ℕ × (ℕ → List ℕ → ℕ))
        → digest s' t ≡ some d'
        → is_null_type t ≡ false
    not_null s' verify_null d' e' = absurd (cc (sym (digest_null s') ∙ e'))
    not_null s' verify_meta d' e' = refl
    not_null s' _ d' e' = refl
HasSum-not_null s o inc (inr (e, f)) = ap is_null_type e

mul_ge : (n inc : ℕ) → 0 < n → inc ≤ n * inc
mul_ge n inc h = grind arith

module _ (random : ℕ → ℕ → Mem → Mem) (fresh : ℕ) (s : Sums) (is_match : ℕ → ℕ → Bool)
    (o : VerifyOptions) (same : (v : ℕ) → is_match v v ≡ true) where
  accepted_blocks :
      (u v : Io) (n : ℕ)
      → SameIo u v
      → IsRoomy s o u n
      → (m : Mem) × (populate_blocks (v.buflen + 1) s o v (get_hdr_inc o v) 0 0 v.buf ≡ some m)
        × ((r : Io)
            → SameIo v r
            → (m' : Mem) × (verify_blocks s is_match o r (r.buflen + 1) (get_hdr_inc o r) 0 0 0 m
                ≡ some (goes_on 0, m')))
  accepted_blocks u v n e roomy =
      let inc = get_hdr_inc o v in
      let inc_same = get_hdr_inc-same o u v e.buflen in
      let fits : inc ≤ v.buflen =
        omega (arith, roomy.whole, mul_ge n (get_hdr_inc o u) roomy.nonempty, e.buflen, inc_same) in
      let offset_fits : OffsetFits o inc = subst (OffsetFits o) inc_same roomy.offset_fits in
      let has_sum : HasSum s o inc = subst (HasSum s o) inc_same roomy.has_sum in
      let small : v.unique_version < 2 ^ 128 =
        omega (arith, roomy.version_small, e.unique_version) in
      let at : At s is_match o v inc same fits has_sum offset_fits small (v.buflen + 1) n 0 0 =
        record {
          place = omega arith;
          whole = ap (λ (k : ℕ). n * k) (sym inc_same) ∙ roomy.whole ∙ e.buflen;
          positive = omega (arith, hdr_size-ge o.verify, roomy.room, inc_same);
          small = omega (arith, fits, roomy.small, e.buflen);
          in_size = omega (arith, roomy.in_size, e.buflen, e.size);
          room = omega (arith, roomy.room, inc_same);
          inside = omega arith;
          enough = omega arith;
        } in
      let (m, filled, kept, ok) =
        populate_blocks-Ok s is_match o v inc same fits has_sum offset_fits small (v.buflen + 1) n 0
          0 v.buf at in
      (
        m,
        filled,
        λ r f.
            let (m', done) =
              verify_blocks-Ok s is_match o v inc same fits has_sum offset_fits small r f
                (v.buflen + 1) n 0 0 m m at ok (λ i x. refl) in
            (
              m',
              ap (λ (k : ℕ). verify_blocks s is_match o r k (get_hdr_inc o r) 0 0 0 m)
                    (omega (arith, f.buflen))
                  ∙ ap (λ (k : ℕ). verify_blocks s is_match o r (v.buflen + 1) k 0 0 0 m)
                      (sym (get_hdr_inc-same o v r f.buflen))
                  ∙ done,
            ),
      )

  -- Where the type has a checksum, for sha256 and sha512 with at least 64 and 128 bytes of data in
  -- a block, or is meta without a pattern, the io_u is made of whole blocks and lies in its buffer,
  -- each block has room for its header, at the front or verify_offset behind it without an overlap,
  -- and is_match holds of equal versions: populate_verify_io_u fills the io_u without a fault, and
  -- verify_io_u of any io_u that has read those bytes back, at the same place and with the same
  -- version, returns 0 and does not terminate the job.
  pub verify_io_u-populate_verify_io_u :
      (u r : Io) (n : ℕ)
      → IsRoomy s o u n
      → (w : Io) × (populate_verify_io_u random fresh s o u ≡ some w)
        × (m : Mem) × (verify_io_u s is_match o (read_back r w) ≡ some (done o 0 m))
  unfolding populate_verify_io_u fill_pattern_headers verify_io_u
  verify_io_u-populate_verify_io_u u r n roomy =
      let (v, filled, e) = fill_pattern_total random fresh o u 0 false roomy.in_size in
      let (m, populated, read) = accepted_blocks u v n e roomy in
      let w : Io = record v { buf = m } in
      let (m', accepted) =
        read (read_back r w)
          (record { size = refl; offset = refl; buflen = refl; unique_version = refl }) in
      let not_null = HasSum-not_null s o (get_hdr_inc o u) roomy.has_sum in
      (w, rw (not_null, filled, populated), m', rw (not_null, accepted))
