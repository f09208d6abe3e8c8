-- ===== src/Verify/Blocks.antt =====
-- A block that populate_hdr has filled passes the checks of verify_io_u.
use mathlib.Core.Path.{subst}
use fio_ssd.Prelude.{
  length, arith, refl, sym, ap, ◌∙◌, ℕ, zero, suc, ◌+◌, ◌-◌, ◌*◌, ◌%◌, ◌^◌, ◌≤◌, ◌<◌, ◌≡◌, ◌⊎◌, inl,
  inr, List, true, some, none, Option, Bool-cases,
}
use fio_ssd.RandMap.{u32, u64}
use fio_ssd.Bytes.{Mem, get, bytes}
use fio_ssd.Bytes.Laws.{
  Agree, get-Agree, bytes-Agree, get-put_apart, bytes-put_apart, get-put, put-below,
}
use fio_ssd.Verify.{
  VerifyType, verify_meta, verify_sha256, verify_sha512, number, verify_type, hdr_magic, Sums,
  digest, hdr_size, VerifyOptions, Io,
}
use fio_ssd.Verify.Populate.{write_version, write_header, fill_digest, fill_meta}
use fio_ssd.Verify.Check.{verify_digest, verify_io_u_meta, verify_checksum}

verify_type-number : (t : VerifyType) → verify_type (number t) ≡ some t
unfolding verify_type number
verify_type-number verify_meta = refl
verify_type-number _ = refl

module _ (o : VerifyOptions) (u : Io) (p : ℕ) (m : Mem) where
  get-write_version : (n a : ℕ) → a + n ≤ p + 40 → get n a (write_version o u p m) ≡ get n a m
  unfolding write_version
  get-write_version n a h = elim (Bool-cases o.verify_inner) [
    | inl e ↦ rw e (get-put_apart n a 16 (p + 40) (u.unique_version % 2 ^ 128) m (inl h))
    | inr e ↦ rw e
  ]

  get-write_version_same :
      o.verify_inner ≡ true
      → u.unique_version < 2 ^ 128
      → get 16 (p + 40) (write_version o u p m) ≡ u.unique_version
  unfolding write_version
  get-write_version_same e h =
      rw e (get-put 16 (p + 40) (u.unique_version % 2 ^ 128) m (omega arith) ∙ omega arith)

-- The header of a block, as verify_io_u reads it.
pub record Header (s : Sums) (o : VerifyOptions) (u : Io) (num inc p : ℕ) (m : Mem) : Type 0 where
  pub magic : get 2 p m ≡ hdr_magic
  pub kind : get 2 (p + 2) m ≡ number o.verify
  pub offset : get 8 (p + 8) m ≡ u64 (u.offset + u32 (num * inc))
  pub len : get 4 (p + 16) m ≡ inc
  pub crc : get 4 (p + 32) m ≡ u32 (s.crc32c (bytes 32 p m))
  pub version : o.verify_inner ≡ true → get 16 (p + 40) m ≡ u.unique_version

number-lt : (t : VerifyType) → number t < 256 ^ 2
unfolding number
number-lt verify_meta = omega arith
number-lt _ = omega arith

module _ (s : Sums) (o : VerifyOptions) (u : Io) (num inc p : ℕ) where
  pub write_header-Header :
      (m : Mem)
      → inc < 2 ^ 32
      → u.unique_version < 2 ^ 128
      → Header s o u num inc p (write_header s o u num inc p m)
  unfolding write_header
  write_header-Header m small version_small = record {
    magic =
        get-put_apart 2 p 4 (p + 32) _ _ (inl (omega arith))
        ∙ get-put_apart 2 p 8 (p + 24) _ _ (inl (omega arith))
        ∙ get-put_apart 2 p 4 (p + 16) _ _ (inl (omega arith))
        ∙ get-write_version o u p _ 2 p (omega arith)
        ∙ get-put_apart 2 p 8 (p + 8) _ _ (inl (omega arith))
        ∙ get-put_apart 2 p 2 (p + 2) _ _ (inl (omega arith))
        ∙ get-put 2 p hdr_magic m (omega arith);
    kind =
        get-put_apart 2 (p + 2) 4 (p + 32) _ _ (inl (omega arith))
        ∙ get-put_apart 2 (p + 2) 8 (p + 24) _ _ (inl (omega arith))
        ∙ get-put_apart 2 (p + 2) 4 (p + 16) _ _ (inl (omega arith))
        ∙ get-write_version o u p _ 2 (p + 2) (omega arith)
        ∙ get-put_apart 2 (p + 2) 8 (p + 8) _ _ (inl (omega arith))
        ∙ get-put 2 (p + 2) (number o.verify) _ (number-lt o.verify);
    offset =
        get-put_apart 8 (p + 8) 4 (p + 32) _ _ (inl (omega arith))
        ∙ get-put_apart 8 (p + 8) 8 (p + 24) _ _ (inl (omega arith))
        ∙ get-put_apart 8 (p + 8) 4 (p + 16) _ _ (inl (omega arith))
        ∙ get-write_version o u p _ 8 (p + 8) (omega arith)
        ∙ get-put 8 (p + 8) (u64 (u.offset + u32 (num * inc))) _ (omega arith);
    len =
        get-put_apart 4 (p + 16) 4 (p + 32) _ _ (inl (omega arith))
        ∙ get-put_apart 4 (p + 16) 8 (p + 24) _ _ (inl (omega arith))
        ∙ get-put 4 (p + 16) inc _ (omega arith);
    crc =
        get-put 4 (p + 32) (u32 (s.crc32c _)) _ (omega arith)
        ∙ ap (λ (b : List ℕ). u32 (s.crc32c b))
            (sym (bytes-put_apart 32 p 4 (p + 32) _ _ (inl (omega arith))));
    version = λ inner.
        get-put_apart 16 (p + 40) 4 (p + 32) _ _ (inr (omega arith))
        ∙ get-put_apart 16 (p + 40) 8 (p + 24) _ _ (inr (omega arith))
        ∙ get-put_apart 16 (p + 40) 4 (p + 16) _ _ (inr (omega arith))
        ∙ get-write_version_same o u p _ inner version_small;
  }

  Header-Agree :
      (m m' : Mem) → Agree p (p + 56) m m' → Header s o u num inc p m → Header s o u num inc p m'
  Header-Agree m m' h r =
      let field = λ (n a : ℕ) (low : p ≤ a) (high : a + n ≤ p + 56).
        get-Agree n a m m' (λ i x y. h i (omega arith) (omega arith)) in
      record {
        magic = sym (field 2 p (omega arith) (omega arith)) ∙ r.magic;
        kind = sym (field 2 (p + 2) (omega arith) (omega arith)) ∙ r.kind;
        offset = sym (field 8 (p + 8) (omega arith) (omega arith)) ∙ r.offset;
        len = sym (field 4 (p + 16) (omega arith) (omega arith)) ∙ r.len;
        crc =
            sym (field 4 (p + 32) (omega arith) (omega arith))
            ∙ r.crc
            ∙ ap (λ (b : List ℕ). u32 (s.crc32c b))
                (bytes-Agree 32 p m m' (λ i x y. h i (omega arith) (omega arith)));
        version = λ inner. sym (field 16 (p + 40) (omega arith) (omega arith)) ∙ r.version inner;
      }

pub digest_size :
    (s : Sums) (t : VerifyType) (w : ℕ) (sum : ℕ → List ℕ → ℕ)
    → digest s t ≡ some (w, sum)
    → hdr_size t ≡ 56 + w
unfolding digest hdr_size
digest_size s verify_meta w sum e = ground arith
digest_size s _ w sum e = ground arith

-- The checksum of `n` bytes of data does not depend on what its place held before.
abbrev pub IsFilled : VerifyType → ℕ → Type 0
IsFilled verify_sha256 n = 64 ≤ n
IsFilled verify_sha512 n = 128 ≤ n
IsFilled _ n = Unit {0}

abbrev sum_of : Option (ℕ × (ℕ → List ℕ → ℕ)) → ℕ → List ℕ → ℕ
sum_of none a xs = 0
sum_of (some d) a xs = d.1 a xs

digest_filled :
    (s : Sums) (t : VerifyType) (w : ℕ) (sum : ℕ → List ℕ → ℕ) (a b : ℕ) (xs : List ℕ)
    → digest s t ≡ some (w, sum)
    → IsFilled t (length xs)
    → sum a xs ≡ sum b xs
unfolding digest
digest_filled s t w sum a b xs e h =
    sym (ap (λ d. sum_of d a xs) e) ∙ same s t h ∙ ap (λ d. sum_of d b xs) e
  where
    same :
        (s' : Sums) (t' : VerifyType)
        → IsFilled t' (length xs)
        → sum_of (digest s' t') a xs ≡ sum_of (digest s' t') b xs
    same s' verify_sha256 h' = s'.sha256_full a b xs h'
    same s' verify_sha512 h' = s'.sha512_full a b xs h'
    same s' _ h' = refl

length-bytes : (n a : ℕ) (m : Mem) → length (bytes n a m) ≡ n
unfolding bytes
length-bytes zero a m = refl
length-bytes (suc n) a m = ground (arith, length-bytes n (suc a) m)

-- The type of the options has a checksum, with data for all of it in a block of `inc` bytes, or it is
-- meta without a pattern.
abbrev pub HasSum : Sums → VerifyOptions → ℕ → Type 0
HasSum s o inc =
    ((d : ℕ × (ℕ → List ℕ → ℕ)) × (digest s o.verify ≡ some d)
      × IsFilled o.verify (inc - hdr_size o.verify))
    ⊎ ((o.verify ≡ verify_meta) × (o.verify_pattern_bytes ≡ 0))

pow_pos : (w : ℕ) → 0 < 256 ^ w
pow_pos zero = omega arith
pow_pos (suc w) = grind (arith, pow_pos w)

mod_lt : (n w : ℕ) → n % 256 ^ w < 256 ^ w
mod_lt n w = grind (arith, pow_pos w)

verify_checksum-digest :
    (s : Sums) (o : VerifyOptions) (u : Io) (num p w : ℕ) (sum : ℕ → List ℕ → ℕ) (m : Mem)
    → verify_type (get 2 (p + 2) m) ≡ some o.verify
    → digest s o.verify ≡ some (w, sum)
    → verify_checksum s o u num p m ≡ verify_digest w (sum (s.stack num)) o.verify u num p m
unfolding verify_checksum
verify_checksum-digest s o u num p w sum m e d = ground (arith, e, d)

meta_size : (o : VerifyOptions) → o.verify ≡ verify_meta → hdr_size o.verify ≡ 88
unfolding hdr_size
meta_size o e = rw e

verify_checksum-meta :
    (s : Sums) (o : VerifyOptions) (u : Io) (num p : ℕ) (m : Mem)
    → verify_type (get 2 (p + 2) m) ≡ some o.verify
    → o.verify ≡ verify_meta
    → o.verify_pattern_bytes ≡ 0
    → p + 88 ≤ u.size
    → get 8 (p + 56) m ≡ u64 (u.offset + u32 (num * o.verify_interval))
    → verify_checksum s o u num p m ≡ some 0
unfolding verify_checksum verify_io_u_meta digest hdr_size
verify_checksum-meta s o u num p m e meta no_pattern room stored = ground (arith, e, meta)

-- The block at `p` is the one with the number `num`, has room for its header and lies in the buffer.
pub record InPlace (o : VerifyOptions) (u : Io) (num inc p : ℕ) : Type 0 where
  pub place : num * inc ≡ p
  pub small : p + inc < 2 ^ 32
  pub room : hdr_size o.verify ≤ inc
  pub in_size : p + inc ≤ u.size

module _ (s : Sums) (o : VerifyOptions) (u : Io) (num inc p : ℕ) (at : InPlace o u num inc p) where
  verify_digest-zero :
      (w : ℕ) (sum : List ℕ → ℕ) (m : Mem)
      → Header s o u num inc p m
      → get w (p + 56) m ≡ sum (bytes (inc - hdr_size o.verify) (p + hdr_size o.verify) m) % 256 ^ w
      → verify_digest w sum o.verify u num p m ≡ some 0
  unfolding verify_digest
  verify_digest-zero w sum m h e =
      let a : u32 (num * inc) + hdr_size o.verify ≡ p + hdr_size o.verify =
        omega (arith, at.place, at.small) in
      let n : u32 (inc + 2 ^ 32 - hdr_size o.verify) ≡ inc - hdr_size o.verify =
        omega (arith, at.small, at.room) in
      rw (h.len, a, n, e) (ground (arith, at.in_size, at.room))

  pub digest_passes :
      (w : ℕ) (sum : ℕ → List ℕ → ℕ) (old : ℕ) (m m' : Mem)
      → digest s o.verify ≡ some (w, sum)
      → IsFilled o.verify (inc - hdr_size o.verify)
      → Header s o u num inc p m
      → Agree p
          (p + inc)
          (fill_digest w (sum old) p (p + hdr_size o.verify) (inc - hdr_size o.verify) m)
          m'
      → Header s o u num inc p m' × (verify_checksum s o u num p m' ≡ some 0)
  unfolding fill_digest
  digest_passes w sum old m m' e is h same =
      let size = digest_size s o.verify w sum e in
      let len = inc - hdr_size o.verify in
      let a = p + hdr_size o.verify in
      let v = sum old (bytes len a m) % 256 ^ w in
      let filled : IsFilled o.verify (length (bytes len a m')) =
        subst (IsFilled o.verify) (sym (length-bytes len a m')) is in
      let header =
        Header-Agree s o u num inc p m m'
          (λ i x y.
            sym (put-below w (p + 56) v m i (omega arith))
            ∙ same i x (omega (arith, size, at.room)))
          h in
      let data_same : bytes len a m ≡ bytes len a m' =
        sym (bytes-put_apart len a w (p + 56) v m (inr (omega (arith, size))))
        ∙ bytes-Agree len a _ m' (λ i x y. same i (omega arith) (omega (arith, at.room))) in
      let stored : get w (p + 56) m' ≡ sum (s.stack num) (bytes len a m') % 256 ^ w =
        sym
          (get-Agree w (p + 56) _ m' (λ i x y. same i (omega arith) (omega (arith, size, at.room))))
        ∙ get-put w (p + 56) v m (mod_lt _ w)
        ∙ ap (λ (b : List ℕ). sum old b % 256 ^ w) data_same
        ∙ ap (λ (k : ℕ). k % 256 ^ w)
            (digest_filled s o.verify w sum old (s.stack num) (bytes len a m') e filled) in
      (
        header,
        verify_checksum-digest s o u num p w sum m'
              (ap verify_type header.kind ∙ verify_type-number o.verify) e
            ∙ verify_digest-zero w (sum (s.stack num)) m' header stored,
      )

  pub meta_passes :
      (m m' : Mem)
      → o.verify ≡ verify_meta
      → o.verify_pattern_bytes ≡ 0
      → Header s o u num inc p m
      → Agree p (p + inc) (fill_meta o u num p m) m'
      → Header s o u num inc p m' × (verify_checksum s o u num p m' ≡ some 0)
  unfolding fill_meta
  meta_passes m m' e no_pattern h same =
      let size : 88 ≤ inc = ground (arith, meta_size o e, at.room) in
      let v = u64 (u.offset + u32 (num * o.verify_interval)) in
      let header =
        Header-Agree s o u num inc p m m'
          (λ i x y.
            sym (
              put-below 8 (p + 56) v _ i (omega arith)
              ∙ put-below 2 (p + 66) _ _ i (omega arith)
              ∙ put-below 8 (p + 80) _ _ i (omega arith)
              ∙ put-below 8 (p + 72) _ _ i (omega arith)
              ∙ put-below 1 (p + 64) _ _ i (omega arith))
            ∙ same i x (omega (arith, size)))
          h in
      let stored : get 8 (p + 56) m' ≡ v =
        sym (get-Agree 8 (p + 56) _ m' (λ i x y. same i (omega arith) (omega (arith, size))))
        ∙ get-put 8 (p + 56) v _ (omega arith) in
      (
        header,
        verify_checksum-meta s o u num p m'
            (ap verify_type header.kind ∙ verify_type-number o.verify) e no_pattern
            (omega (arith, size, at.in_size)) stored,
      )

-- The bytes of the buffer from `lo` to `hi` may differ, and no other.
abbrev pub Outside : ℕ → ℕ → Mem → Mem → Type 0
Outside lo hi m m' = (i : ℕ) → (i < lo) ⊎ (hi ≤ i) → m i ≡ m' i
