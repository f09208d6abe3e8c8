-- ===== src/Smalloc/Apart.antt =====
-- The payloads that smalloc_pool has handed out, over the requests to a pool.
use fio_ssd.Prelude.{
  arith, max, ℕ, ◌+◌, ◌^◌, ◌≤◌, ◌<◌, ◌≡◌, ◌⊎◌, inl, inr, refl, ap, ◌∙◌, some, none, Option, List,
  dec_lt, length,
}
use fio_ssd.Smalloc.{Pool, alloc_size, smalloc_blocks, smalloc_pool}
use fio_ssd.Smalloc.Word.{used}
use fio_ssd.Smalloc.Alloc.{IsPool, smalloc_blocks-Answer}
use fio_ssd.Smalloc.Heap.{
  Allocated, layout, smalloc_pool-fault, smalloc_pool-none, smalloc_pool-some,
  smalloc_pool-Allocated,
}
use fio_ssd.Smalloc.RoundTrip.{IsPool-Allocated}

-- Requests of at most 2 ^ 31 bytes, served or not, that lead from one state of a pool to another.
pub data Requests : Pool → Pool → Type 0 where
  no_more : (p : Pool) → Requests p p
  request :
      (p q r : Pool) (size : ℕ) (answer : Option ℕ)
      → size ≤ 2 ^ 31
      → smalloc_pool p size ≡ some (q, answer)
      → Requests q r
      → Requests p r

-- What is in use stays in use.
abbrev Stays : Pool → Pool → Type 0
Stays p q = (j : ℕ) → used p.bitmap j ≡ 1 → used q.bitmap j ≡ 1

module _ (p : Pool) (size : ℕ) (is : IsPool p) (small : size ≤ 2 ^ 31) (q : Pool) where
  refused :
      (out : Option (Pool × Option ℕ))
      → smalloc_blocks p (alloc_size size) ≡ out
      → smalloc_pool p size ≡ some (q, none)
      → smalloc_blocks p (alloc_size size) ≡ some (q, none)
  refused none e h = absurd (cc (smalloc_pool-fault p size e, h))
  refused (some (q', none)) e h = cc (smalloc_pool-none p size q' e, h, e)
  refused (some (q', some hdr)) e h = absurd (cc (smalloc_pool-some p size q' hdr e, h))

  request-Stays :
      (answer : Option ℕ) → smalloc_pool p size ≡ some (q, answer) → IsPool q × Stays p q
  request-Stays (some ptr) e =
      let a = smalloc_pool-Allocated p size is small q ptr e in
      (IsPool-Allocated p size is q ptr a, λ j u. ground (arith, a.taken.bits j, u))
  request-Stays none e =
      let (keeps, bitmap, free) =
        (smalloc_blocks-Answer p (alloc_size size) is (omega (arith, layout 0 size small refl))
          (omega (arith, layout 0 size small refl)) (q, none)
          (refused (smalloc_blocks p (alloc_size size)) refl e)).0 in
      (
        record {
          holds = record {
            allocated = omega (arith, is.holds.allocated, ap length bitmap, keeps.same_nr);
            small = omega (arith, is.holds.small, keeps.same_nr);
          };
          words = rw bitmap is.words;
          count = omega (arith, free, is.count);
        },
        λ j u. ap (λ (m : List ℕ). used m j) bitmap ∙ u,
      )

Requests-Stays : (p q : Pool) → IsPool p → Requests p q → IsPool q × Stays p q
Requests-Stays p q is (no_more _) = (is, λ j u. u)
Requests-Stays p r is (request _ q _ size answer small e rest) =
    let (is', stays) = request-Stays p size is small q answer e in
    let (is'', stays') = Requests-Stays q r is' rest in (is'', λ j u. stays' j (stays j u))

-- A run that is taken where another one is in use is apart from it.
Allocated-apart :
    (p : Pool) (size : ℕ) (q : Pool) (ptr : ℕ) (q' : Pool) (size' : ℕ) (r : Pool) (ptr' : ℕ)
    → Allocated p size q ptr
    → Stays q q'
    → Allocated q' size' r ptr'
    → (ptr + size < ptr') ⊎ (ptr' + size' < ptr)
Allocated-apart p size q ptr q' size' r ptr' a stays b =
    elim (dec_lt b.block (a.block + a.blocks)) [
      | no after ↦ inl (omega (arith, a.at, b.at, a.room))
      | yes before ↦ elim (dec_lt a.block (b.block + b.blocks)) [
        | no earlier ↦ inr (omega (arith, a.at, b.at, b.room))
        | yes meet ↦ absurd (omega (arith, shared meet before))
      ]
    ]
  where
    -- The later start of the two runs would be both free and taken.
    shared : a.block < b.block + b.blocks → b.block < a.block + a.blocks → ◌≡◌ {A = ℕ} 0 1
    shared meet before =
        let j = max a.block b.block in
        let in_use : used q'.bitmap j ≡ 1 = stays j (ground (arith, a.room, a.taken.bits j)) in
        ground (arith, b.room, in_use, b.were_free j)

-- The payloads of two allocations from one pool, of at most 2 ^ 31 bytes each, share no byte, where
-- any number of other requests of such sizes comes between them, served or not, and no release.
pub smalloc_pool-apart :
    (p : Pool) (size : ℕ) (q : Pool) (ptr : ℕ) (q' : Pool) (size' : ℕ) (r : Pool) (ptr' : ℕ)
    → IsPool p
    → size ≤ 2 ^ 31
    → size' ≤ 2 ^ 31
    → smalloc_pool p size ≡ some (q, some ptr)
    → Requests q q'
    → smalloc_pool q' size' ≡ some (r, some ptr')
    → (ptr + size < ptr') ⊎ (ptr' + size' < ptr)
smalloc_pool-apart p size q ptr q' size' r ptr' is small small' e between e' =
    let a = smalloc_pool-Allocated p size is small q ptr e in
    let (is', stays) = Requests-Stays q q' (IsPool-Allocated p size is q ptr a) between in
    Allocated-apart p size q ptr q' size' r ptr' a stays
      (smalloc_pool-Allocated q' size' is' small' r ptr' e')
