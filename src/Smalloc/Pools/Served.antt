-- ===== src/Smalloc/Pools/Served.antt =====
-- What smalloc hands out comes from one of the pools, or from a new one.
use fio_ssd.Prelude.{
  arith, refl, sym, ap, ◌∙◌, ℕ, zero, suc, ◌+◌, ◌^◌, ◌≤◌, ◌≡◌, inl, inr, Option, none, some, List,
  [], ◌∷◌, ◌++◌, length, Bool, ltb, if◌then◌else◌, get_elem?, get_elem?-eq-none, Option-cases,
  Bool-cases,
}
use mathlib.Core.Path.{subst}
use fio_ssd.Chains.{bind_some, some_eq}
use fio_ssd.RandMap.{◌>>=◌}
use fio_ssd.Smalloc.{Pool, smalloc_pool}
use fio_ssd.Smalloc.Alloc.{IsPool}
use fio_ssd.Smalloc.AddPool.{add_pool, add_pool-IsFresh}
use fio_ssd.Smalloc.Pools.{Pools, behind, try_pools, smalloc_loop, max_pools}

-- Pool `j` of `mp'` is `q`, which has served the request at `offset`; before it was one of `mp`.
pub record Serves (size i : ℕ) (mp mp' : List Pool) (j offset : ℕ) : Type 0 where
  pub p : Pool
  pub q : Pool
  pub before : get_elem? mp j ≡ some p
  pub after : get_elem? mp' j ≡ some q
  pub from : i ≤ j
  pub served : smalloc_pool p size ≡ some (q, some offset)

-- What a try from pool `i` on comes to.
abbrev Tried : ℕ → ℕ → List Pool → List Pool × Option (ℕ × ℕ) → Type 0
Tried size i mp (mp', none) = length mp' ≡ length mp
Tried size i mp (mp', some (j, offset)) = (length mp' ≡ length mp) × Serves size i mp mp' j offset

Tried-behind :
    (size i : ℕ) (p q : Pool) (mp : List Pool) (r : List Pool × Option (ℕ × ℕ))
    → Tried size i mp r
    → (k : ℕ) → k ≤ suc i
    → Tried size k (p ∷ mp) (behind q r)
Tried-behind size i p q mp (mp', none) h k l = ap suc h
Tried-behind size i p q mp (mp', some (j, offset)) (h, s) k l = (
  ap suc h,
  record {
    p = s.p;
    q = s.q;
    before = s.before;
    after = s.after;
    from = omega (arith, s.from);
    served = s.served;
  },
)

pub try_pools-Tried :
    (i size : ℕ) (mp : List Pool) (r : List Pool × Option (ℕ × ℕ))
    → try_pools i size mp ≡ some r
    → Tried size i mp r
unfolding try_pools
try_pools-Tried zero size [] r e = subst (Tried size 0 []) (some_eq e) refl
try_pools-Tried (suc i) size [] r e = subst (Tried size (suc i) []) (some_eq e) refl
try_pools-Tried zero size (p ∷ mp) r e =
    let ((q, ptr), served, e1) =
      bind_some (smalloc_pool p size)
        (λ (q, ptr). elim ptr [
          | some offset ↦ some (q ∷ mp, some (zero, offset))
          | none ↦ try_pools zero size mp >>= (λ r'. some (behind q r'))
        ])
        r e in
    front q ptr served e1 (λ r' tried. try_pools-Tried zero size mp r' tried)
  where
    front :
        (q : Pool) (ptr : Option ℕ)
        → smalloc_pool p size ≡ some (q, ptr)
        → ◌≡◌ {A = Option (List Pool × Option (ℕ × ℕ))}
            (elim ptr [
              | some offset ↦ some (q ∷ mp, some (zero, offset))
              | none ↦ try_pools zero size mp >>= (λ r'. some (behind q r'))
            ])
            (some r)
        → ((r' : List Pool × Option (ℕ × ℕ))
            → try_pools zero size mp ≡ some r'
            → Tried size zero mp r')
        → Tried size 0 (p ∷ mp) r
    front q (some offset) served e1 later = subst (Tried size 0 (p ∷ mp)) (some_eq e1) (
      refl,
      record { p = p; q = q; before = refl; after = refl; from = omega arith; served = served },
    )
    front q none served e1 later =
        let (r', tried, e2) = bind_some (try_pools zero size mp) (λ r'. some (behind q r')) r e1 in
        subst (Tried size 0 (p ∷ mp)) (some_eq e2)
          (Tried-behind size 0 p q mp r' (later r' tried) 0 (omega arith))
try_pools-Tried (suc i) size (p ∷ mp) r e =
    let (r', tried, e1) = bind_some (try_pools i size mp) (λ r'. some (behind p r')) r e in
    subst (Tried size (suc i) (p ∷ mp)) (some_eq e1)
      (Tried-behind size i p p mp r' (try_pools-Tried i size mp r' tried) (suc i) (omega arith))

-- The pools from number `i` on are pools.
abbrev pub PoolsFrom : ℕ → List Pool → Type 0
PoolsFrom i mp = (k : ℕ) (p : Pool) → i ≤ k → get_elem? mp k ≡ some p → IsPool p

-- Pool `j` has served the request at `offset`, and was a pool before.
pub record Handed (size : ℕ) (h : Pools) (j offset : ℕ) : Type 0 where
  pub p : Pool
  pub q : Pool
  pub is_pool : IsPool p
  pub after : get_elem? h.mp j ≡ some q
  pub served : smalloc_pool p size ≡ some (q, some offset)

past_end : (mp : List Pool) (k : ℕ) (p : Pool) → length mp ≤ k → get_elem? mp k ≡ some p → IsPool p
past_end mp k p h e = absurd (cc (sym (get_elem?-eq-none mp k h) ∙ e))

at_end :
    (mp : List Pool) (k : ℕ) (n p : Pool)
    → length mp ≤ k
    → get_elem? (mp ++ n ∷ []) k ≡ some p
    → n ≡ p
at_end [] zero n p h e = some_eq e
at_end [] (suc k) n p h e = absurd (cc e)
at_end (x ∷ mp) zero n p h e = absurd (omega arith)
at_end (x ∷ mp) (suc k) n p h e = at_end mp k n p (omega arith) e

module _ (mapped : ℕ → Bool) (size : ℕ) (small : size ≤ 2 ^ 31) where
  Tried-Handed :
      (i : ℕ) (mp mp' : List Pool) (j offset : ℕ)
      → PoolsFrom i mp
      → Tried size i mp (mp', some (j, offset))
      → Handed size (record { mp = mp'; last_pool = j }) j offset
  Tried-Handed i mp mp' j offset pools (l, s) = record {
    p = s.p;
    q = s.q;
    is_pool = pools j s.p s.from s.before;
    after = s.after;
    served = s.served;
  }

  -- How smalloc goes on behind a loop over the pools.
  abbrev go_on : ℕ → ℕ → List Pool × Option (ℕ × ℕ) → Option (Pools × Option (ℕ × ℕ))
  go_on fuel last (mp, some (j, offset)) =
      some (record { mp = mp; last_pool = j }, some (j, offset))
  go_on fuel last (mp, none) =
      let again = smalloc_loop mapped fuel (length mp) size (record { mp = mp; last_pool = 0 }) in
      let added : Option (Pools × Option (ℕ × ℕ)) = elim (add_pool mapped size) [
        | none ↦ some (record { mp = mp; last_pool = last }, none)
        | some p ↦
            smalloc_loop mapped fuel (length mp) size
              (record { mp = mp ++ (p ∷ []); last_pool = 0 })
      ] in
      if ltb 0 last
      then again
      else if ltb max_pools (length mp + 1)
      then some (record { mp = mp; last_pool = last }, none)
      else added

  smalloc_loop-go_on :
      (fuel i : ℕ) (h : Pools) (r : List Pool × Option (ℕ × ℕ))
      → try_pools i size h.mp ≡ some r
      → smalloc_loop mapped (suc fuel) i size h ≡ go_on fuel h.last_pool r
  unfolding smalloc_loop
  smalloc_loop-go_on fuel i h (mp, some (j, offset)) e = rw e
  smalloc_loop-go_on fuel i h (mp, none) e = rw e

  -- What a call hands out, if it hands out something.
  abbrev pub HandsOut : Pools × Option (ℕ × ℕ) → Type 0
  HandsOut (h, none) = Unit {0}
  HandsOut (h, some (j, offset)) = Handed size h j offset

  go_on-HandsOut :
      (fuel i last : ℕ) (mp : List Pool) (r : List Pool × Option (ℕ × ℕ))
      (x : Pools × Option (ℕ × ℕ))
      → ((n : ℕ) (h : Pools)
          → PoolsFrom n h.mp
          → smalloc_loop mapped fuel n size h ≡ some x
          → HandsOut x)
      → PoolsFrom i mp
      → Tried size i mp r
      → go_on fuel last r ≡ some x
      → HandsOut x
  go_on-HandsOut fuel i last mp (mp', some (j, offset)) x next pools tried e =
      subst HandsOut (some_eq e) (Tried-Handed i mp mp' j offset pools tried)
  go_on-HandsOut fuel i last mp (mp', none) x next pools tried e = elim (Bool-cases (ltb 0 last)) [
    | inl again ↦
        next (length mp') (record { mp = mp'; last_pool = 0 }) (past_end mp') (rw again at e)
    | inr first ↦ elim (Bool-cases (ltb max_pools (length mp' + 1))) [
      | inl full ↦ subst HandsOut (some_eq (rw (first, full) at e)) tt
      | inr room ↦ elim (Option-cases (add_pool mapped size)) [
        | inl failed ↦ subst HandsOut (some_eq (rw (first, room, failed) at e)) tt
        | inr (p, added) ↦
            next (length mp') (record { mp = mp' ++ (p ∷ []); last_pool = 0 })
              (λ k q l f.
                subst IsPool (at_end mp' k p q l f)
                  (add_pool-IsFresh mapped size p small added).is_pool)
              (rw (first, room, added) at e)
      ]
    ]
  ]

  smalloc_loop-none :
      (fuel i : ℕ) (h : Pools)
      → try_pools i size h.mp ≡ none
      → smalloc_loop mapped (suc fuel) i size h ≡ none
  unfolding smalloc_loop
  smalloc_loop-none fuel i h e = rw e

  smalloc_loop-zero : (i : ℕ) (h : Pools) → smalloc_loop mapped zero i size h ≡ none
  unfolding smalloc_loop
  smalloc_loop-zero i h = refl

  pub smalloc_loop-HandsOut :
      (fuel i : ℕ) (h : Pools) (x : Pools × Option (ℕ × ℕ))
      → PoolsFrom i h.mp
      → smalloc_loop mapped fuel i size h ≡ some x
      → HandsOut x
  smalloc_loop-HandsOut zero i h x pools e = absurd (cc (sym (smalloc_loop-zero i h) ∙ e))
  smalloc_loop-HandsOut (suc fuel) i h x pools e = elim (Option-cases (try_pools i size h.mp)) [
    | inl f ↦ absurd (cc (sym (smalloc_loop-none fuel i h f) ∙ e))
    | inr (r, f) ↦
        go_on-HandsOut fuel i h.last_pool h.mp r x
          (λ n h' p d. smalloc_loop-HandsOut fuel n h' x p d) pools
          (try_pools-Tried i size h.mp r f) (sym (smalloc_loop-go_on fuel i h r f) ∙ e)
  ]
