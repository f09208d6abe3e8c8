-- ===== src/History/Cover.antt =====
-- The pieces of a file as disjoint intervals of blocks, and what overlap_divide cuts from them.
use fio_ssd.Prelude.{
  arith, refl, sym, ap, ◌∙◌, ℕ, ◌+◌, ◌-◌, ◌<◌, ◌≤◌, ◌≡◌, ◌≢◌, ◌↔◌, ◌⊎◌, inl, inr, Option, none,
  some, List, ltb, lt→ltb, le→leb, le→ltb_false, lt→leb_false, dec_lt, dec_le, if◌then◌else◌,
  ℕ_discrete,
}
use fio_ssd.SegMap.{map2_idx, map2_bit, set_bit, start}
use fio_ssd.History.{Key, Hist, overlap_divide}
use fio_ssd.History.Table.{same_key_refl}
use fio_ssd.History.Frame.{Content, IsHistory}
use fio_ssd.History.Divide.{divided, IsOverlap, other_block}
use fio_ssd.History.Refine.{overlap_divide-Divides}

-- A piece of version `v` lies over block `b`.
pub record Covers (m : Key → Option Content) (f b v : ℕ) : Type 0 where
  pub first : ℕ
  pub piece : Content
  pub stands : m (f, first) ≡ some piece
  pub low : first ≤ b
  pub high : b < first + piece.nr_blk
  pub version : piece.unique_version ≡ v

-- No two pieces of the file have a block in common.
abbrev pub Disjoint : (Key → Option Content) → ℕ → Type 0
Disjoint m f =
    (k l : ℕ) (c d : Content) → m (f, k) ≡ some c → m (f, l) ≡ some d → k < l → k + c.nr_blk ≤ l

module _ (m : Key → Option Content) (f block from len : ℕ) (c : Content)
    (present : m (f, block) ≡ some c) (behind : block < from + len)
    (before : from < block + c.nr_blk) where
  abbrev m' : Key → Option Content
  m' = divided f block from len c m

  abbrev head : Content
  head = record c { nr_blk = from - block }

  abbrev tail : Content
  tail = record c { nr_blk = block + c.nr_blk - (from + len) }

  at_head : block < from → m' (f, block) ≡ some head
  at_head h = rw (same_key_refl (f, block), lt→leb_false from block h) refl

  at_block : from ≤ block → m' (f, block) ≡ none
  at_block h = rw (same_key_refl (f, block), le→leb from block h) refl

  at_tail : from + len < block + c.nr_blk → m' (f, from + len) ≡ some tail
  at_tail h =
      rw
        (
          other_block f block (from + len) (omega arith),
          lt→ltb (from + len) (block + c.nr_blk) h,
          same_key_refl (f, from + len),
        )
        refl

  at_other :
      (k : ℕ)
      → block ≢ k
      → (from + len ≢ k) ⊎ (block + c.nr_blk ≤ from + len)
      → m' (f, k) ≡ m (f, k)
  at_other k ne (inl ne') = elim (dec_lt (from + len) (block + c.nr_blk)) [
    | yes h ↦
        rw
          (
            other_block f block k ne,
            lt→ltb (from + len) (block + c.nr_blk) h,
            other_block f (from + len) k ne',
          )
          refl
    | no h ↦
        rw (other_block f block k ne, le→ltb_false (from + len) (block + c.nr_blk) (omega arith))
          refl
  ]
  at_other k ne (inr h) =
      rw (other_block f block k ne, le→ltb_false (from + len) (block + c.nr_blk) h) refl

  -- Where a piece of the new map comes from.
  data Origin (k : ℕ) (d : Content) : Type 0 where
    is_head : block ≡ k → block < from → head ≡ d → Origin k d
    is_tail : from + len ≡ k → from + len < block + c.nr_blk → tail ≡ d → Origin k d
    is_old : block ≢ k → m (f, k) ≡ some d → Origin k d

  origin : (k : ℕ) (d : Content) → m' (f, k) ≡ some d → Origin k d
  origin k d e = elim (ℕ_discrete block k) [
    | yes at ↦ elim (dec_le from block) [
      | yes low ↦ absurd (cc (e, at_block low, ap (λ x. m' (f, x)) at))
      | no above ↦ is_head at (omega arith) (cc (e, at_head (omega arith), ap (λ x. m' (f, x)) at))
    ]
    | no ne ↦ elim (dec_lt (from + len) (block + c.nr_blk)) [
      | yes high ↦ elim (ℕ_discrete (from + len) k) [
        | yes at ↦ is_tail at high (cc (e, at_tail high, ap (λ x. m' (f, x)) at))
        | no ne' ↦ is_old ne (sym (at_other k ne (inl ne')) ∙ e)
      ]
      | no over ↦ is_old ne (sym (at_other k ne (inr (omega arith))) ∙ e)
    ]
  ]

  -- The blocks of the piece that the new segment takes.
  abbrev IsCut : ℕ → Type 0
  IsCut b = (block ≤ b) × (b < block + c.nr_blk) × (from ≤ b) × (b < from + len)

  module _ (disjoint : Disjoint m f) where
    Covers-old : (b v : ℕ) → Covers m' f b v → Covers m f b v × ¬ IsCut b
    Covers-old b v o = elim (origin o.first o.piece o.stands) [
      | is_head at above e ↦
          let size : from - block ≡ o.piece.nr_blk = ap (λ (d : Content). d.nr_blk) e in
          (
            record {
              first = block;
              piece = c;
              stands = present;
              low = omega (arith, at, o.low);
              high = omega (arith, at, o.high, size);
              version = ap (λ (d : Content). d.unique_version) e ∙ o.version;
            },
            λ cut. omega (arith, at, o.high, size, cut),
          )
      | is_tail at high e ↦
          let size : block + c.nr_blk - (from + len) ≡ o.piece.nr_blk =
            ap (λ (d : Content). d.nr_blk) e in
          (
            record {
              first = block;
              piece = c;
              stands = present;
              low = omega (arith, at, o.low);
              high = omega (arith, at, o.high, size);
              version = ap (λ (d : Content). d.unique_version) e ∙ o.version;
            },
            λ cut. omega (arith, at, o.low, cut),
          )
      | is_old ne e ↦ (
        record {
          first = o.first;
          piece = o.piece;
          stands = e;
          low = o.low;
          high = o.high;
          version = o.version;
        },
        λ cut. apart o ne e cut,
      )
    ]
      where
        apart :
            (o : Covers m' f b v) → block ≢ o.first → m (f, o.first) ≡ some o.piece → IsCut b → ⊥
        apart o ne e cut = elim (dec_lt block o.first) [
          | yes lt ↦ omega (arith, disjoint block o.first c o.piece present e lt, o.low, cut)
          | no ge ↦
              omega
                (arith, disjoint o.first block o.piece c e present (omega (arith, ne)), o.high, cut)
        ]

    Covers-new : (b v : ℕ) → Covers m f b v → ¬ IsCut b → Covers m' f b v
    Covers-new b v o kept = elim (ℕ_discrete block o.first) [
      | yes at ↦ elim (dec_lt b from) [
        | yes below ↦ record {
          first = block;
          piece = head;
          stands = at_head (omega (arith, o.low, at));
          low = omega (arith, o.low, at);
          high = omega (arith, o.low, at);
          version = ap (λ (d : Content). d.unique_version) (mine at) ∙ o.version;
        }
        | no above ↦ record {
          first = from + len;
          piece = tail;
          stands = at_tail (reach at above).1;
          low = (reach at above).0;
          high = omega (arith, reach at above, end_at at);
          version = ap (λ (d : Content). d.unique_version) (mine at) ∙ o.version;
        }
      ]
      | no ne ↦ record {
        first = o.first;
        piece = o.piece;
        stands =
            at_other o.first ne (elim (ℕ_discrete (from + len) o.first) [
              | yes at ↦ inr (omega (arith, not_inside ne at))
              | no ne' ↦ inl ne'
            ])
            ∙ o.stands;
        low = o.low;
        high = o.high;
        version = o.version;
      }
    ]
      where
        mine : block ≡ o.first → c ≡ o.piece
        mine at = cc (present, o.stands, ap (λ x. m (f, x)) at)

        end_at : block ≡ o.first → b < block + c.nr_blk
        end_at at = omega (arith, at, ap (λ (d : Content). d.nr_blk) (mine at), o.high)

        reach : block ≡ o.first → ¬ (b < from) → (from + len ≤ b) × (from + len < block + c.nr_blk)
        reach at above = elim (dec_le (from + len) b) [
          | yes le ↦ (le, omega (arith, end_at at))
          | no gt ↦ absurd (kept (omega (arith, o.low, at), end_at at, omega arith, omega arith))
        ]

        not_inside : block ≢ o.first → from + len ≡ o.first → block + c.nr_blk ≤ from + len
        not_inside ne at =
            omega (arith, at, disjoint block o.first c o.piece present o.stands (omega (arith, at)))

    Disjoint-divided : Disjoint m' f
    Disjoint-divided k l d e at_k at_l lt = elim (origin k d at_k) [
      | is_head a above p ↦ elim (origin l e at_l) [
        | is_head a' above' q ↦ absurd (omega (arith, a, a', lt))
        | is_tail a' high q ↦ omega (arith, a, a', size p)
        | is_old ne q ↦
            omega (arith, a, size p, disjoint block l c e present q (omega (arith, a, lt)))
      ]
      | is_tail a high p ↦ elim (origin l e at_l) [
        | is_head a' above q ↦ absurd (omega (arith, a, a', lt))
        | is_tail a' high' q ↦ absurd (omega (arith, a, a', lt))
        | is_old ne q ↦
            omega (arith, a, size p, disjoint block l c e present q (omega (arith, a, lt)))
      ]
      | is_old ne p ↦ elim (origin l e at_l) [
        | is_head a above q ↦
            omega (arith, a, disjoint k block d c p present (omega (arith, a, lt)))
        | is_tail a high q ↦ elim (dec_lt block k) [
          | yes after ↦ absurd (omega (arith, a, lt, disjoint block k c d present p after))
          | no first ↦ omega (arith, a, disjoint k block d c p present (omega (arith, ne)))
        ]
        | is_old ne' q ↦ disjoint k l d e p q lt
      ]
    ]
      where
        size : {d d' : Content} → d ≡ d' → d.nr_blk ≡ d'.nr_blk
        size p = ap (λ (d : Content). d.nr_blk) p

-- What overlap_divide leaves of a history: the same blocks with the same versions, but for those of
-- the piece that the new segment takes.
module _ (jhash : Key → ℕ) (malloc : Hist → ℕ) where
  -- Where the history holds a map of pieces that are disjoint in a file, and a listed piece of it
  -- overlaps the new segment, the cell of the first block behind the segment can be set, no sum
  -- wraps, and malloc gives an unused address, overlap_divide does not fault: the new history holds
  -- a map of disjoint pieces in this file that covers the same blocks with the same versions, but
  -- for the blocks of the piece that the segment takes.
  pub overlap_divide-Covers :
      (td : Hist) (m : Key → Option Content) (f block from len : ℕ) (c : Content)
      (map2 map2' : List ℕ)
      → IsHistory jhash td m
      → Disjoint m f
      → IsOverlap m f block from len c
      → set_bit map2 (map2_idx (from + len)) (map2_bit (from + len)) start ≡ some map2'
      → td.heap (malloc td) ≡ none
      → (td' : Hist) × (m' : Key → Option Content) × (overlap_divide jhash malloc f block from len
            (map2, td)
          ≡ some (if ltb (from + len) (block + c.nr_blk) then map2' else map2, td'))
        × IsHistory jhash td' m'
        × Disjoint m' f
        × ((b v : ℕ)
            → Covers m' f b v ↔ (
                Covers m f b v
                × ¬ ((block ≤ b) × (b < block + c.nr_blk) × (from ≤ b) × (b < from + len))))
  overlap_divide-Covers td m f block from len c map2 map2' is disjoint over marked free =
      let (td', run, is') =
        overlap_divide-Divides jhash malloc is from len map2 map2' marked free f block c over in
      (
        td',
        divided f block from len c m,
        run,
        is',
        Disjoint-divided m f block from len c over.present over.behind over.before disjoint,
        λ b v. (
          Covers-old m f block from len c over.present over.behind over.before disjoint b v,
          λ (o, kept).
              Covers-new m f block from len c over.present over.behind over.before disjoint b v o
                kept,
        ),
      )
