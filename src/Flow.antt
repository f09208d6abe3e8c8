-- ===== src/Flow.antt =====
-- Flow control between jobs, flow.c. A flow is known by its id, of which the list has at most one;
-- a job is known by its number. The mutex is not modelled: a step is what one job does.
pub mod References
pub mod Jobs
mod Tests
use fio_ssd.Prelude.{
  update, ℕ, ◌+◌, ◌-◌, ◌%◌, ◌^◌, Option, none, some, List, [], ◌∷◌, Bool, true, false, not, ◌&&◌,
  ltb, leb, ◌==◌, if◌then◌else◌,
}
use fio_ssd.Prelude.Int.{ℤ, pos, pos_part, neg_part, ◌+ℤ◌, ◌-ℤ◌, ltb_ℤ}
use fio_ssd.RandMap.{u32}

-- struct fio_flow
pub record Flow : Type 0 where
  pub refs : ℕ
  pub id : ℕ
  pub flow_counter : ℤ

-- The options of a job.
pub record FlowOptions : Type 0 where
  pub flow : ℤ
  pub flow_id : ℕ
  pub flow_watermark : ℤ

-- flow_list, and td->flow of each job.
pub record Flows : Type 0 where
  pub flow_list : List Flow
  pub flow_of : ℕ → Option ℕ

-- flow_get: the flow gains a reference, or a new one comes to the end of the list.
unfoldable pub flow_get : ℕ → List Flow → List Flow
flow_get id [] = record { refs = 1; id = id; flow_counter = pos 0 } ∷ []
flow_get id (flow ∷ flows) =
    if flow.id == id
    then record flow { refs = u32 (flow.refs + 1) } ∷ flows
    else flow ∷ flow_get id flows

-- flow_put: the last reference takes the flow from the list.
unfoldable pub flow_put : ℕ → List Flow → List Flow
flow_put id [] = []
flow_put id (flow ∷ flows) =
    if flow.id == id
    then (if u32 (flow.refs + 2 ^ 32 - 1) == 0
        then flows
        else record flow { refs = u32 (flow.refs + 2 ^ 32 - 1) } ∷ flows)
    else flow ∷ flow_put id flows

-- Whether an option is set.
abbrev pub nonzero : ℤ → Bool
nonzero n = not (pos_part n == 0 && neg_part n == 0)

-- flow_init_job
unfoldable pub flow_init_job : (ℕ → FlowOptions) → Flows → ℕ → Flows
flow_init_job o flows job =
    if nonzero (o job).flow
    then record {
      flow_list = flow_get (o job).flow_id flows.flow_list;
      flow_of = update flows.flow_of job (some (o job).flow_id);
    }
    else flows

-- flow_exit_job
unfoldable pub flow_exit_job : Flows → ℕ → Flows
flow_exit_job flows job = elim (flows.flow_of job) [
  | none ↦ flows
  | some id ↦ record {
    flow_list = flow_put id flows.flow_list;
    flow_of = update flows.flow_of job none;
  }
]

-- The test of flow_threshold_exceeded, with `sign * flow_counter` written out.
abbrev pub exceeds : FlowOptions → ℤ → Bool
exceeds o counter =
    ltb_ℤ o.flow_watermark (if ltb_ℤ (pos 0) o.flow then counter else pos 0 -ℤ counter)

-- flow_threshold_exceeded on the list: whether the job must wait, or else its flow is counted.
unfoldable pub check_flow : FlowOptions → ℕ → List Flow → List Flow × Bool
check_flow o id [] = ([], false)
check_flow o id (flow ∷ flows) =
    let (rest, exceeded) = check_flow o id flows in
    if flow.id == id
    then (if exceeds o flow.flow_counter
        then (flow ∷ flows, true)
        else (record flow { flow_counter = flow.flow_counter +ℤ o.flow } ∷ flows, false))
    else (flow ∷ rest, exceeded)

-- flow_threshold_exceeded
unfoldable pub flow_threshold_exceeded : (ℕ → FlowOptions) → Flows → ℕ → Flows × Bool
flow_threshold_exceeded o flows job = elim (flows.flow_of job) [
  | none ↦ (flows, false)
  | some id ↦
      let (list, exceeded) = check_flow (o job) id flows.flow_list in
      (record flows { flow_list = list }, exceeded)
]
