-- ===== src/Smalloc/Heap.antt =====
-- smalloc_pool and sfree_pool of smalloc.c: the place of header, payload and red zone in a run.
use mathlib.Core.Path.{subst}
use fio_ssd.Prelude.{
  arith, ℕ, ◌+◌, ◌-◌, ◌*◌, ◌/◌, ◌%◌, ◌^◌, ◌≤◌, ◌<◌, ◌≡◌, ◌⊎◌, inl, inr, refl, sym, ap, ◌∙◌, ltb,
  leb, if◌then◌else◌, true, Option, none, some, List,
}
use fio_ssd.RandMap.{u32}
use fio_ssd.Smalloc.{
  Pool, bpb, bpl, size_to_blocks, smalloc_blocks, alloc_size, postred_ptr, fill_header,
  smalloc_pool, check_redzone, pre_red, post_red, ptr_valid, sfree_pool, clear_blocks,
}
use fio_ssd.Smalloc.Word.{AllAre, Makes}
use fio_ssd.Smalloc.Iter.{Holds}
use fio_ssd.Smalloc.Blocks.{clear_blocks_lem}
use fio_ssd.Smalloc.Search.{Answer}
use fio_ssd.Smalloc.Alloc.{IsPool, size_to_blocks_lem, smalloc_blocks-Answer}

-- What smalloc_pool makes of the answer of __smalloc_pool.
record Handed (p : Pool) (size : ℕ) (q : Pool) (ptr : ℕ) : Type 0 where
  before : Pool
  hdr : ℕ
  answer : smalloc_blocks p (alloc_size size) ≡ some (before, some hdr)
  filled : q ≡ fill_header before hdr (alloc_size size)
  behind : ptr ≡ hdr + 8

module _ (p : Pool) (size : ℕ) where
  pub smalloc_pool-fault : smalloc_blocks p (alloc_size size) ≡ none → smalloc_pool p size ≡ none
  unfolding smalloc_pool
  smalloc_pool-fault e = rw e refl

  pub smalloc_pool-none :
      (q : Pool)
      → smalloc_blocks p (alloc_size size) ≡ some (q, none)
      → smalloc_pool p size ≡ some (q, none)
  unfolding smalloc_pool
  smalloc_pool-none q e = rw e refl

  pub smalloc_pool-some :
      (q : Pool) (hdr : ℕ)
      → smalloc_blocks p (alloc_size size) ≡ some (q, some hdr)
      → smalloc_pool p size ≡ some (fill_header q hdr (alloc_size size), some (hdr + 8))
  unfolding smalloc_pool
  smalloc_pool-some q hdr e = rw e refl

  smalloc_pool-Handed :
      (q : Pool) (ptr : ℕ) (out : Option (Pool × Option ℕ))
      → smalloc_blocks p (alloc_size size) ≡ out
      → smalloc_pool p size ≡ some (q, some ptr)
      → Handed p size q ptr
  smalloc_pool-Handed q ptr none e h = absurd (cc (smalloc_pool-fault e, h))
  smalloc_pool-Handed q ptr (some (q', none)) e h = absurd (cc (smalloc_pool-none q' e, h))
  smalloc_pool-Handed q ptr (some (q', some hdr)) e h = record {
    before = q';
    hdr = hdr;
    answer = e;
    filled = cc (smalloc_pool-some q' hdr e, h);
    behind = cc (smalloc_pool-some q' hdr e, h);
  }

-- In a run for a request of at most 2 ^ 31 bytes, with the header at a multiple of 4, the payload
-- lies behind the header, the red zone behind the payload, and all of them in the blocks of the
-- run; the size of the run is at most 2 ^ 31 + 2 ^ 30.
pub layout :
    (hdr size : ℕ)
    → size ≤ 2 ^ 31
    → hdr % 4 ≡ 0
    → (alloc_size size ≤ 2 ^ 31 + 2 ^ 30)
      × (size + 12 ≤ alloc_size size)
      × (hdr + 8 + size ≤ postred_ptr hdr (alloc_size size))
      × (postred_ptr hdr (alloc_size size) + 4 ≤ hdr + 32 * size_to_blocks (alloc_size size))
unfolding size_to_blocks
layout hdr size small aligned = (omega arith, omega arith, omega arith, omega arith)

module _ (q : Pool) (hdr size : ℕ) (big : 12 ≤ size) where
  -- The header that was filled is intact, and says the size.
  fill_header-size : (fill_header q hdr size).mem hdr ≡ size
  unfolding fill_header
  fill_header-size = ground arith

  fill_header-pre : (fill_header q hdr size).mem (hdr + 4) ≡ pre_red
  unfolding fill_header
  fill_header-pre = ground arith

  fill_header-post : (fill_header q hdr size).mem (postred_ptr hdr size) ≡ post_red
  unfolding fill_header
  fill_header-post = ground arith

  fill_header-redzone : check_redzone (fill_header q hdr size) hdr ≡ true
  unfolding check_redzone
  fill_header-redzone = rw (fill_header-pre, fill_header-size, fill_header-post) refl

-- The pool after the release of the `n` blocks at `hdr`, with the bitmap `m`.
abbrev pub released : Pool → ℕ → ℕ → List ℕ → Pool
released q hdr n m = record q {
  bitmap = m;
  next_non_full = if ltb (hdr / bpl) q.next_non_full then hdr / bpl else q.next_non_full;
  free_blocks = u32 (q.free_blocks + n);
}

module _ (q : Pool) (hdr n : ℕ) (h : Holds q.nr_blocks q.bitmap) (block : ℕ) (at : hdr ≡ 32 * block)
    (inside : block + n ≤ 32 * q.nr_blocks) (pos : 0 < n) where
  valid : ptr_valid q hdr ≡ true
  unfolding ptr_valid
  valid = ground (arith, h.small)

  sfree_pool-step :
      (m : List ℕ)
      → size_to_blocks (q.mem hdr) ≡ n
      → check_redzone q hdr ≡ true
      → clear_blocks q (hdr / bpl) (hdr % bpl / bpb) n ≡ some (record q { bitmap = m })
      → sfree_pool q (hdr + 8) ≡ some (released q hdr n m)
  unfolding sfree_pool
  sfree_pool-step m size intact e = rw (back, ge, size, valid, intact, e) refl
    where
      back : hdr + 8 - 8 ≡ hdr
      back = omega arith

      ge : leb 8 (hdr + 8) ≡ true
      ge = ground arith

  -- The release of a run of at least one block that lies in a pool of less than 2 ^ 22 words and is
  -- all in use, with the size of the run in its header and both red zones intact, does not fault:
  -- it frees the blocks of the run and no others, adds them to the count, and moves next_non_full
  -- back to the word of the run if that is lower.
  pub sfree_pool-Makes :
      size_to_blocks (q.mem hdr) ≡ n
      → check_redzone q hdr ≡ true
      → AllAre 1 q.bitmap block n
      → (m : List ℕ) × (sfree_pool q (hdr + 8) ≡ some (released q hdr n m))
        × Makes 0 q.bitmap block n m
  sfree_pool-Makes size intact all =
      let (m, e, made) =
        clear_blocks_lem q h (hdr / bpl) (hdr % bpl / bpb) n (omega arith) (omega arith)
          (subst (λ k. AllAre 1 q.bitmap k n) place all) in
      (m, sfree_pool-step m size intact e, subst (λ k. Makes 0 q.bitmap k n m) (sym place) made)
    where
      place : block ≡ 32 * (hdr / bpl) + hdr % bpl / bpb
      place = omega arith

-- What a successful allocation says.
pub record Allocated (p : Pool) (size : ℕ) (q : Pool) (ptr : ℕ) : Type 0 where
  pub block : ℕ
  pub blocks : ℕ
  pub at : ptr ≡ 32 * block + 8
  pub inside : block + blocks ≤ 32 * p.nr_blocks
  pub room : 32 * block + 8 + size + 4 ≤ 32 * block + 32 * blocks
  pub were_free : AllAre 0 p.bitmap block blocks
  pub taken : Makes 1 p.bitmap block blocks q.bitmap
  pub counted : q.free_blocks + blocks ≡ p.free_blocks
  pub same_nr : q.nr_blocks ≡ p.nr_blocks
  pub said : size_to_blocks (q.mem (32 * block)) ≡ blocks
  pub intact : check_redzone q (32 * block) ≡ true

module _ (p : Pool) (size : ℕ) (is : IsPool p) (small : size ≤ 2 ^ 31) where
  Took-Allocated :
      (q : Pool) (hdr : ℕ)
      → Answer p (size_to_blocks (alloc_size size)) (q, some hdr)
      → size_to_blocks (alloc_size size) ≤ p.free_blocks
      → Allocated p size (fill_header q hdr (alloc_size size)) (hdr + 8)
  unfolding fill_header
  Took-Allocated q hdr (keeps, took) enough = record {
    block = took.block;
    blocks = size_to_blocks (alloc_size size);
    at = omega (arith, took.at);
    inside = took.inside;
    room = omega (arith, sizes, layout 0 size small refl);
    were_free = took.were_free;
    taken = took.taken;
    counted = omega (arith, took.counted);
    same_nr = keeps.same_nr;
    said =
        ap (λ a. size_to_blocks ((fill_header q hdr (alloc_size size)).mem a)) (sym took.at)
        ∙ ap size_to_blocks (fill_header-size q hdr (alloc_size size) big);
    intact =
        ap (check_redzone (fill_header q hdr (alloc_size size))) (sym took.at)
        ∙ fill_header-redzone q hdr (alloc_size size) big;
  }
    where
      big : 12 ≤ alloc_size size
      big = omega (arith, layout 0 size small refl)

      sizes : alloc_size size ≤ 32 * size_to_blocks (alloc_size size)
      sizes =
          (size_to_blocks_lem (alloc_size size) (omega (arith, layout 0 size small refl))
            (omega (arith, layout 0 size small refl))).2

  pub smalloc_pool-Allocated :
      (q : Pool) (ptr : ℕ) → smalloc_pool p size ≡ some (q, some ptr) → Allocated p size q ptr
  smalloc_pool-Allocated q ptr e =
      let d = smalloc_pool-Handed p size q ptr (smalloc_blocks p (alloc_size size)) refl e in
      let (answer, enough) = answered d in
      subst (λ r. Allocated p size r ptr) (sym d.filled)
        (subst (Allocated p size (fill_header d.before d.hdr (alloc_size size))) (sym d.behind) (
          Took-Allocated d.before d.hdr answer
            (elim enough [ inl is_none ↦ absurd (cc (is_none)) | inr le ↦ le ])))
    where
      answered :
          (d : Handed p size q ptr)
          → Answer p (size_to_blocks (alloc_size size)) (d.before, some d.hdr)
            × ((◌≡◌ {A = Option ℕ} (some d.hdr) none)
                ⊎ (size_to_blocks (alloc_size size) ≤ p.free_blocks))
      answered d =
          smalloc_blocks-Answer p (alloc_size size) is (omega (arith, layout 0 size small refl))
            (omega (arith, layout 0 size small refl)) (d.before, some d.hdr) d.answer
