-- ===== src/Offset/FreeBlock.antt =====
-- The loop of get_next_free_block of io_u.c: it finds the first clear block, or there is none.
use fio_ssd.Prelude.{
  ℕ, zero, suc, ◌+◌, ◌-◌, ◌*◌, ◌/◌, ◌%◌, ◌^◌, ◌<◌, ◌≤◌, ◌≡◌, ◌≢◌, ap, ◌∙◌, Option, none, some, List,
  Bool, true, false, ◌&&◌, ltb, ◌==◌, ==_iff, ==_iff_ne, if◌then◌else◌, get_or, get_elem?-eq-get_or,
  length, arith, Bool-cases, ◌⊎◌, inl, inr, ℕ_discrete, dec_lt,
}
use native.Mathlib.Nat.{mul-le-mul_right}
use fio_ssd.Bits.{test_bit, complement}
use fio_ssd.Bits.Laws.{test_bit-complement, test_bit-zero}
use fio_ssd.Ffz.{ffz}
use fio_ssd.Ffz.Laws.{ffz_lem}
use fio_ssd.FioFile.{File, minus_one}
use fio_ssd.RandMap.{u64}
use fio_ssd.RandMap.Word.{block_bit}
use fio_ssd.Offset.{free_scan}

-- The map has a bit for each block of the file, its words fit an `unsigned long`, and no position
-- in it wraps.
pub record Covers (min_bs : ℕ) (f : File) : Type 0 where
  pub words : (i : ℕ) → get_or f.file_map i 0 < 2 ^ 64
  pub covered : f.real_file_size ≤ 64 * length f.file_map * min_bs
  pub small : 64 * (length f.file_map + 1) * min_bs < 2 ^ 64
  pub min_bs-pos : 0 < min_bs
  pub int_index : length f.file_map < 2 ^ 31

-- `b` is the first clear block from `start` on, and at most `lastb`.
pub record FirstFree (m : List ℕ) (lastb start b : ℕ) : Type 0 where
  pub free : block_bit m b ≡ 0
  pub ge : start ≤ b
  pub le : b ≤ lastb
  pub busy_below : (j : ℕ) → start ≤ j → j < b → block_bit m j ≡ 1

-- Every block from `start` on that lies in the file, and is at most `lastb`, is set.
abbrev pub Exhausted : ℕ → ℕ → File → ℕ → Type 0
Exhausted min_bs lastb f start =
    (j : ℕ)
    → start ≤ j
    → j ≤ lastb
    → j * min_bs < f.real_file_size
    → j * min_bs < f.io_size
    → block_bit f.file_map j ≡ 1

-- What a search from word `i` on gives.
abbrev pub Searched : ℕ → ℕ → File → ℕ → Option (Option (ℕ × ℕ)) → Type 0
Searched min_bs lastb f i out =
    ((b : ℕ) × (out ≡ some (some (b, b / 64))) × FirstFree f.file_map lastb (64 * i) b)
    ⊎ ((out ≡ some none) × Exhausted min_bs lastb f (64 * i))

-- The bits of a word of the map are those of its blocks.
word_bit :
    (m : List ℕ) (i j : ℕ)
    → 64 * i ≤ j
    → j < 64 * i + 64
    → block_bit m j ≡ test_bit (get_or m i 0) (j - 64 * i)
word_bit m i j p q =
    let same : j / 64 ≡ i = omega arith in
    let bit : j % 64 ≡ j - 64 * i = omega arith in
    ap (λ k. test_bit (get_or m k 0) (j % 64)) same ∙ ap (test_bit (get_or m i 0)) bit

test_bit-minus_one : (j : ℕ) → j < 64 → test_bit minus_one j ≡ 1
test_bit-minus_one j h =
    unfold complement in ground (arith, test_bit-complement 64 0 j, test_bit-zero j)

module _ (min_bs lastb : ℕ) (f : File) (i : ℕ) where
  word : ℕ
  word = get_or f.file_map i 0

  -- A word with a clear bit ends the search.
  FirstFree-word :
      word < 2 ^ 64
      → word ≢ minus_one
      → 64 * i + ffz word ≤ lastb
      → FirstFree f.file_map lastb (64 * i) (64 * i + ffz word)
  unfolding word
  FirstFree-word small ne le =
      let (inside, clear, below) = ffz_lem word small ne in
      record {
        free =
            word_bit f.file_map i (64 * i + ffz word) (omega arith) (omega arith)
            ∙ ap (test_bit word) {x = 64 * i + ffz word - 64 * i} {y = ffz word} (omega arith)
            ∙ clear;
        ge = omega arith;
        le = le;
        busy_below =
            λ j p q. word_bit f.file_map i j p (omega arith) ∙ below (j - 64 * i) (omega arith);
      }

  busy_to_lastb :
      word < 2 ^ 64
      → word ≢ minus_one
      → lastb < 64 * i + ffz word
      → (j : ℕ) → 64 * i ≤ j
      → j ≤ lastb
      → block_bit f.file_map j ≡ 1
  unfolding word
  busy_to_lastb small ne p j q r =
      let (inside, clear, below) = ffz_lem word small ne in
      word_bit f.file_map i j q (omega arith) ∙ below (j - 64 * i) (omega arith)

  Searched-word :
      word < 2 ^ 64
      → word ≢ minus_one
      → Searched min_bs lastb f i
          (if ltb lastb (64 * i + ffz word) then some none else some (some (64 * i + ffz word, i)))
  Searched-word small ne = elim (dec_lt lastb (64 * i + ffz word)) [
    | yes p ↦ inr (ground arith, λ j q r u v. busy_to_lastb small ne p j q r)
    | no p ↦ inl (
      64 * i + ffz word,
      ground (arith, (ffz_lem word small ne).0),
      FirstFree-word small ne (omega arith),
    )
  ]

  busy : word ≡ minus_one → (j : ℕ) → 64 * i ≤ j → j < 64 * (i + 1) → block_bit f.file_map j ≡ 1
  unfolding word
  busy full j p q =
      word_bit f.file_map i j p (omega arith)
      ∙ ap (λ w. test_bit w (j - 64 * i)) full
      ∙ test_bit-minus_one (j - 64 * i) (omega arith)

  -- A full word is passed over.
  Searched-full :
      (out : Option (Option (ℕ × ℕ)))
      → word ≡ minus_one
      → Searched min_bs lastb f (i + 1) out
      → Searched min_bs lastb f i out
  Searched-full out full (inl (b, e, first)) = inl (
    b,
    e,
    record {
      free = first.free;
      ge = omega (arith, first.ge);
      le = first.le;
      busy_below = λ j p q. elim (dec_lt j (64 * (i + 1))) [
        | yes r ↦ busy full j p r
        | no r ↦ first.busy_below j (omega arith) q
      ];
    },
  )
  Searched-full out full (inr (e, none_left)) = inr (
    e,
    λ j p q u v. elim (dec_lt j (64 * (i + 1))) [
      | yes r ↦ busy full j p r
      | no r ↦ none_left j (omega arith) q u v
    ],
  )

-- The test of the loop.
abbrev inside_file : ℕ → File → ℕ → Bool
inside_file min_bs f block =
    ltb (u64 (block * min_bs)) f.real_file_size && ltb (u64 (block * min_bs)) f.io_size

module _ (min_bs lastb : ℕ) (f : File) (i : ℕ) (ok : Covers min_bs f)
    (inside : i ≤ length f.file_map) where
  no_wrap : u64 (64 * i * min_bs) ≡ 64 * i * min_bs
  no_wrap = grind (arith, ok.small)

  -- A word that the loop looks at is in the map.
  word_in_map : inside_file min_bs f (64 * i) ≡ true → i < length f.file_map
  word_in_map here = elim (dec_lt i (length f.file_map)) [
    | yes p ↦ p
    | no p ↦
        let last : i ≡ length f.file_map = omega arith in
        ground (arith, no_wrap, ok.covered, ap (λ (n : ℕ). 64 * n * min_bs) last)
  ]

  Exhausted-past : inside_file min_bs f (64 * i) ≡ false → Exhausted min_bs lastb f (64 * i)
  Exhausted-past past j p q u v = absurd (ground (arith, no_wrap, further j p))
    where
      further : (j : ℕ) → 64 * i ≤ j → 64 * i * min_bs ≤ j * min_bs
      further j p = mul-le-mul_right min_bs p

  free_scan-past :
      (fuel : ℕ)
      → inside_file min_bs f (64 * i) ≡ false
      → free_scan (suc fuel) min_bs lastb f i (64 * i) ≡ some none
  unfolding free_scan
  free_scan-past fuel past = rw past

  free_scan-here :
      (fuel : ℕ)
      → inside_file min_bs f (64 * i) ≡ true
      → free_scan (suc fuel) min_bs lastb f i (64 * i) ≡ (
          if get_or f.file_map i 0 == minus_one
          then free_scan fuel min_bs lastb f (i + 1) (64 * (i + 1))
          else if ltb lastb (64 * i + ffz (get_or f.file_map i 0))
          then some none
          else some (some (64 * i + ffz (get_or f.file_map i 0), i)))
  unfolding free_scan
  free_scan-here fuel here =
      rw (here, get_elem?-eq-get_or f.file_map i 0 (word_in_map here))
        (ap
          (λ n.
            if get_or f.file_map i 0 == minus_one
            then free_scan fuel min_bs lastb f (i + 1) n
            else if ltb lastb (64 * i + ffz (get_or f.file_map i 0))
            then some none
            else some (some (64 * i + ffz (get_or f.file_map i 0), i)))
          {x = u64 (64 * i + 64)} {y = 64 * (i + 1)} (omega (arith, ok.int_index)))

-- The search from word `i` on; one round more than words are left is enough fuel.
pub free_scan-Searched :
    (fuel min_bs lastb : ℕ) (f : File) (i : ℕ)
    → Covers min_bs f
    → i ≤ length f.file_map
    → length f.file_map < i + fuel
    → Searched min_bs lastb f i (free_scan fuel min_bs lastb f i (64 * i))
unfolding word
free_scan-Searched zero min_bs lastb f i ok inside enough = absurd (omega arith)
free_scan-Searched (suc fuel) min_bs lastb f i ok inside enough =
    elim (Bool-cases (inside_file min_bs f (64 * i))) [
      | inl here ↦
          rw (free_scan-here min_bs lastb f i ok inside fuel here)
            (elim (ℕ_discrete (get_or f.file_map i 0) minus_one) [
              | yes full ↦ rw ((==_iff (get_or f.file_map i 0) minus_one).1 full) (
                  Searched-full min_bs lastb f i _ full (
                    free_scan-Searched fuel min_bs lastb f (i + 1) ok
                      (omega (arith, word_in_map min_bs lastb f i ok inside here)) (omega arith)))
              | no ne ↦
                  rw ((==_iff_ne (get_or f.file_map i 0) minus_one).1 ne)
                    (Searched-word min_bs lastb f i (ok.words i) ne)
            ])
      | inr past ↦ inr (
        free_scan-past min_bs lastb f i ok inside fuel past,
        Exhausted-past min_bs lastb f i ok inside past,
      )
    ]
