-- ===== src/Flow/Jobs.antt =====
-- Runs of the jobs: a flow has as many references as jobs have it, and goes with the last of them.
use fio_ssd.Prelude.{
  arith, update, update_self, update_other, refl, sym, ap, ◌∙◌, ℕ, zero, suc, ◌+◌, ◌^◌, ◌≤◌, ◌<◌,
  ◌≡◌, ◌↔◌, Option, none, some, List, [], ◌∷◌, ◌==◌, inl, inr, Bool-cases, Option-cases, ℕ_discrete,
}
use fio_ssd.Flow.{
  Flow, FlowOptions, Flows, nonzero, flow_init_job, flow_exit_job, flow_threshold_exceeded,
}
use fio_ssd.Flow.References.{
  refs_of, AllUsed, one_if, refs_of-flow_get, AllUsed-flow_get, refs_of-flow_put, AllUsed-flow_put,
  refs_of-check_flow, AllUsed-check_flow,
}

abbrev pub has : ℕ → Option ℕ → ℕ
has i none = 0
has i (some id) = one_if (id == i)

-- How many of the first `n` jobs have flow `i`.
abbrev pub holders : (ℕ → Option ℕ) → ℕ → ℕ → ℕ
holders flow_of i zero = 0
holders flow_of i (suc n) = has i (flow_of n) + holders flow_of i n

holders-le : (f : ℕ → Option ℕ) (i n : ℕ) → holders f i n ≤ n
holders-le f i zero = omega arith
holders-le f i (suc n) = omega (arith, holders-le f i n, has-le (f n))
  where
    has-le : (o : Option ℕ) → has i o ≤ 1
    has-le none = omega arith
    has-le (some id) = ground arith

holders_out :
    (f : ℕ → Option ℕ) (i n j : ℕ) (v : Option ℕ)
    → n ≤ j
    → holders (update f j v) i n ≡ holders f i n
holders_out f i zero j v h = refl
holders_out f i (suc n) j v h = omega (
  arith,
  holders_out f i n j v (omega (arith, h)),
  ap (has i) (update_other f j n v (λ e. omega (arith, h, e))),
)

holders-update :
    (f : ℕ → Option ℕ) (i n j : ℕ) (v : Option ℕ)
    → j < n
    → holders (update f j v) i n + has i (f j) ≡ holders f i n + has i v
holders-update f i zero j v h = absurd (omega (arith, h))
holders-update f i (suc n) j v h = elim (ℕ_discrete j n) [
  | yes same ↦ omega (
    arith,
    holders_out f i n j v (omega (arith, same)),
    ap (has i) (ap (update f j v) (sym same) ∙ update_self f j v),
    ap (λ k. has i (f k)) same,
  )
  | no other ↦ omega (
    arith,
    holders-update f i n j v (omega (arith, h, other)),
    ap (has i) (update_other f j n v (λ e. other (sym e))),
  )
]

-- What the `n` jobs have, and the list of flows.
pub record IsShared (n : ℕ) (flows : Flows) : Type 0 where
  pub used : AllUsed flows.flow_list
  pub shared : (i : ℕ) → refs_of i flows.flow_list ≡ holders flows.flow_of i n

-- A step of job `job`: it begins, ends, or asks whether it must wait.
pub data FlowStep (o : ℕ → FlowOptions) (n : ℕ) (flows : Flows) : Flows → Type 0 where
  begins :
      (job : ℕ)
      → job < n
      → flows.flow_of job ≡ none
      → FlowStep o n flows (flow_init_job o flows job)
  ends : (job : ℕ) → job < n → FlowStep o n flows (flow_exit_job flows job)
  asks : (job : ℕ) → FlowStep o n flows ((flow_threshold_exceeded o flows job).0)

pub data FlowRun (o : ℕ → FlowOptions) (n : ℕ) (flows : Flows) : Flows → Type 0 where
  start_run : FlowRun o n flows flows
  next_run :
      (flows' flows'' : Flows)
      → FlowRun o n flows flows'
      → FlowStep o n flows' flows''
      → FlowRun o n flows flows''

module _ (o : ℕ → FlowOptions) (n : ℕ) (few : n < 2 ^ 31) {flows : Flows}
    (is : IsShared n flows) where
  room : (i : ℕ) → refs_of i flows.flow_list + 1 < 2 ^ 32
  room i = omega (arith, is.shared i, holders-le flows.flow_of i n, few)

  flow_init_job-IsShared :
      (job : ℕ) → job < n → flows.flow_of job ≡ none → IsShared n (flow_init_job o flows job)
  unfolding flow_init_job
  flow_init_job-IsShared job lt free = elim (Bool-cases (nonzero (o job).flow)) [
    | inr off ↦ rw off is
    | inl set ↦ rw set (record {
      used = AllUsed-flow_get (o job).flow_id flows.flow_list (room (o job).flow_id) is.used;
      shared = λ i. omega (
        arith,
        refs_of-flow_get (o job).flow_id i flows.flow_list (room (o job).flow_id),
        is.shared i,
        holders-update flows.flow_of i n job (some (o job).flow_id) lt,
        ap (has i) free,
      );
    })
  ]

  flow_exit_job-IsShared : (job : ℕ) → job < n → IsShared n (flow_exit_job flows job)
  unfolding flow_exit_job
  flow_exit_job-IsShared job lt = elim (Option-cases (flows.flow_of job)) [
    | inl without ↦ rw (flow_exit_job, without) is
    | inr (id, with) ↦
        rw (flow_exit_job, with)
          (record {
            used = AllUsed-flow_put id flows.flow_list is.used;
            shared = λ i. omega (
              arith,
              refs_of-flow_put id i flows.flow_list is.used,
              is.shared i,
              holders-update flows.flow_of i n job none lt,
              ap (has i) with,
            );
          })
  ]

  threshold-IsShared : (job : ℕ) → IsShared n ((flow_threshold_exceeded o flows job).0)
  unfolding flow_threshold_exceeded
  threshold-IsShared job = elim (Option-cases (flows.flow_of job)) [
    | inl without ↦ rw (flow_threshold_exceeded, without) is
    | inr (id, with) ↦
        rw (flow_threshold_exceeded, with)
          (record {
            used = AllUsed-check_flow id (o job) flows.flow_list is.used;
            shared = λ i. refs_of-check_flow id (o job) i flows.flow_list ∙ is.shared i;
          })
  ]

FlowStep-IsShared :
    (o : ℕ → FlowOptions) (n : ℕ) (flows flows' : Flows)
    → n < 2 ^ 31
    → IsShared n flows
    → FlowStep o n flows flows'
    → IsShared n flows'
FlowStep-IsShared o n flows _ few is (begins job lt free) =
    flow_init_job-IsShared o n few is job lt free
FlowStep-IsShared o n flows _ few is (ends job lt) = flow_exit_job-IsShared o n few is job lt
FlowStep-IsShared o n flows _ few is (asks job) = threshold-IsShared o n few is job

IsShared-FlowRun :
    (o : ℕ → FlowOptions) (n : ℕ) (flows flows' : Flows)
    → n < 2 ^ 31
    → IsShared n flows
    → FlowRun o n flows flows'
    → IsShared n flows'
IsShared-FlowRun o n flows _ few is start_run = is
IsShared-FlowRun o n flows _ few is (next_run flows' flows'' run step) =
    FlowStep-IsShared o n flows' flows'' few (IsShared-FlowRun o n flows flows' few is run) step

-- What flow_init leaves, before any job begins.
abbrev pub no_flows : Flows
no_flows = record { flow_list = []; flow_of = λ job. none }

no_holders : (i n : ℕ) → holders (λ job. none) i n ≡ 0
no_holders i zero = refl
no_holders i (suc n) = omega (arith, no_holders i n)

AllUsed-empty : (flows : List Flow) → AllUsed flows → ((i : ℕ) → refs_of i flows ≡ 0) → flows ≡ []
AllUsed-empty [] all none_left = refl
AllUsed-empty (flow ∷ flows) all none_left = absurd (ground (arith, none_left flow.id, all.0))

-- However fewer than 2 ^ 31 jobs begin, end and ask for their threshold, each flow of the list is
-- used and alone with its id, its references are the number of jobs that have it, and the list is
-- empty exactly where no job has a flow.
pub FlowRun-IsShared :
    (o : ℕ → FlowOptions) (n : ℕ) (flows : Flows)
    → n < 2 ^ 31
    → FlowRun o n no_flows flows
    → IsShared n flows × (((i : ℕ) → holders flows.flow_of i n ≡ 0) ↔ (flows.flow_list ≡ []))
FlowRun-IsShared o n flows few run = (
  shared,
  (
    λ left. AllUsed-empty flows.flow_list shared.used (λ i. shared.shared i ∙ left i),
    λ gone i. sym (shared.shared i) ∙ ap (refs_of i) gone,
  ),
)
  where
    shared : IsShared n flows
    shared =
        IsShared-FlowRun o n no_flows flows few
          (record { used = tt; shared = λ i. sym (no_holders i n) }) run
