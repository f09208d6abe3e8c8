-- ===== src/Flow/References.antt =====
-- The references of a flow are the jobs that have it.
use fio_ssd.Prelude.{
  arith, refl, sym, ap, ◌∙◌, ℕ, ◌+◌, ◌-◌, ◌^◌, ◌<◌, ◌≡◌, ◌≢◌, List, [], ◌∷◌, Bool, ◌==◌, ==_iff,
  ==_iff_ne, if◌then◌else◌, inl, inr, Bool-cases, ℕ_discrete,
}
use fio_ssd.RandMap.{u32}
use fio_ssd.Flow.{Flow, FlowOptions, flow_get, flow_put, exceeds, check_flow}

abbrev pub refs_of : ℕ → List Flow → ℕ
refs_of i [] = 0
refs_of i (flow ∷ flows) = if flow.id == i then flow.refs else refs_of i flows

-- Each flow is used, and the list has no other of its id.
abbrev pub AllUsed : List Flow → Type 0
AllUsed [] = Unit
AllUsed (flow ∷ flows) =
    (0 < flow.refs) × (flow.refs < 2 ^ 32) × (refs_of flow.id flows ≡ 0) × AllUsed flows

abbrev pub one_if : Bool → ℕ
one_if b = if b then 1 else 0

here :
    (j : ℕ) (flow : Flow) (flows : List Flow) → flow.id ≡ j → refs_of j (flow ∷ flows) ≡ flow.refs
here j flow flows same = rw ((==_iff flow.id j).1 same) refl

there :
    (j : ℕ) (flow : Flow) (flows : List Flow)
    → flow.id ≢ j
    → refs_of j (flow ∷ flows) ≡ refs_of j flows
there j flow flows other = rw ((==_iff_ne flow.id j).1 other) refl

less : (n : ℕ) → 0 < n → n < 2 ^ 32 → u32 (n + 2 ^ 32 - 1) ≡ n - 1
less n h k = omega arith

none_of :
    (flow : Flow) (flows : List Flow) (i : ℕ)
    → refs_of flow.id flows ≡ 0
    → flow.id ≡ i
    → refs_of i flows ≡ 0
none_of flow flows i none_here at = ap (λ k. refs_of k flows) (sym at) ∙ none_here

module _ (j : ℕ) where
  pub refs_of-flow_get :
      (i : ℕ) (flows : List Flow)
      → refs_of j flows + 1 < 2 ^ 32
      → refs_of i (flow_get j flows) ≡ refs_of i flows + one_if (j == i)
  unfolding flow_get
  refs_of-flow_get i [] h = ground arith
  refs_of-flow_get i (flow ∷ flows) h = elim (ℕ_discrete flow.id j) [
    | yes same ↦ rw ((==_iff flow.id j).1 same) (ground (arith, here j flow flows same, h, same))
    | no other ↦ rw ((==_iff_ne flow.id j).1 other) (
        ground
          (arith, refs_of-flow_get i flows (omega (arith, there j flow flows other, h)), other))
  ]

  pub AllUsed-flow_get :
      (flows : List Flow)
      → refs_of j flows + 1 < 2 ^ 32
      → AllUsed flows
      → AllUsed (flow_get j flows)
  unfolding flow_get
  AllUsed-flow_get [] h all = (omega arith, omega arith, refl, tt)
  AllUsed-flow_get (flow ∷ flows) h all = elim (ℕ_discrete flow.id j) [
    | yes same ↦ rw ((==_iff flow.id j).1 same) (
      omega (arith, here j flow flows same, h),
      omega (arith, here j flow flows same, h),
      all.2,
      all.3,
    )
    | no other ↦ rw ((==_iff_ne flow.id j).1 other) (
      all.0,
      all.1,
      ground (
        arith,
        refs_of-flow_get flow.id flows (omega (arith, there j flow flows other, h)),
        all.2,
        other,
      ),
      AllUsed-flow_get flows (omega (arith, there j flow flows other, h)) all.3,
    )
  ]

  pub refs_of-flow_put :
      (i : ℕ) (flows : List Flow)
      → AllUsed flows
      → refs_of i (flow_put j flows) ≡ refs_of i flows - one_if (j == i)
  unfolding flow_put
  refs_of-flow_put i [] all = ground arith
  refs_of-flow_put i (flow ∷ flows) all = elim (ℕ_discrete flow.id j) [
    | yes same ↦
        rw ((==_iff flow.id j).1 same, less flow.refs all.0 all.1)
          (elim (Bool-cases (flow.refs - 1 == 0)) [
            | inl last ↦ rw last (elim (ℕ_discrete flow.id i) [
              | yes at ↦ ground (arith, none_of flow flows i all.2 at, at, same, last, all.0)
              | no ne ↦ ground (arith, ne, same)
            ])
            | inr more ↦ rw more (ground (arith, same))
          ])
    | no other ↦
        rw ((==_iff_ne flow.id j).1 other) (ground (arith, refs_of-flow_put i flows all.3, other))
  ]

  pub AllUsed-flow_put : (flows : List Flow) → AllUsed flows → AllUsed (flow_put j flows)
  unfolding flow_put
  AllUsed-flow_put [] all = tt
  AllUsed-flow_put (flow ∷ flows) all = elim (ℕ_discrete flow.id j) [
    | yes same ↦
        rw ((==_iff flow.id j).1 same, less flow.refs all.0 all.1)
          (elim (Bool-cases (flow.refs - 1 == 0)) [
            | inl last ↦ rw last all.3
            | inr more ↦ rw more (ground (arith, more), omega (arith, all.1), all.2, all.3)
          ])
    | no other ↦ rw ((==_iff_ne flow.id j).1 other) (
      all.0,
      all.1,
      ground (arith, refs_of-flow_put flow.id flows all.3, all.2, other),
      AllUsed-flow_put flows all.3,
    )
  ]

  -- Checking a threshold changes no reference.
  pub refs_of-check_flow :
      (o : FlowOptions) (i : ℕ) (flows : List Flow)
      → refs_of i ((check_flow o j flows).0) ≡ refs_of i flows
  unfolding check_flow
  refs_of-check_flow o i [] = refl
  refs_of-check_flow o i (flow ∷ flows) = elim (ℕ_discrete flow.id j) [
    | yes same ↦
        rw ((==_iff flow.id j).1 same) (elim (Bool-cases (exceeds o flow.flow_counter)) [
          | inl e ↦ rw e refl
          | inr e ↦ rw e refl
        ])
    | no other ↦ rw ((==_iff_ne flow.id j).1 other, refs_of-check_flow o i flows) refl
  ]

  pub AllUsed-check_flow :
      (o : FlowOptions) (flows : List Flow) → AllUsed flows → AllUsed ((check_flow o j flows).0)
  unfolding check_flow
  AllUsed-check_flow o [] all = tt
  AllUsed-check_flow o (flow ∷ flows) all = elim (ℕ_discrete flow.id j) [
    | yes same ↦
        rw ((==_iff flow.id j).1 same)
          (elim (Bool-cases (exceeds o flow.flow_counter)) [ inl e ↦ rw e all | inr e ↦ rw e all ])
    | no other ↦
        rw ((==_iff_ne flow.id j).1 other) (
          all.0,
          all.1,
          refs_of-check_flow o flow.id flows ∙ all.2,
          AllUsed-check_flow o flows all.3,
        )
  ]
