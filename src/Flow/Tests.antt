-- ===== src/Flow/Tests.antt =====
-- Tests of the flows, and their theorem at a concrete run.
use fio_ssd.Prelude.{arith, refl, ℕ, ◌≡◌, ◌↔◌, [], true, if◌then◌else◌, ◌==◌}
use fio_ssd.Prelude.Int.{pos, negsuc, ◌+ℤ◌}
use fio_ssd.Flow.{
  FlowOptions, Flows, flow_get, flow_init_job, flow_exit_job, flow_threshold_exceeded, check_flow,
}
use fio_ssd.Flow.Jobs.{
  holders, IsShared, FlowRun, start_run, next_run, begins, ends, no_flows, FlowRun-IsShared,
}

-- Job 0 adds 8 to flow 5, job 1 takes 1 from it.
abbrev jobs : ℕ → FlowOptions
jobs job = record {
  flow = if job == 0 then pos 8 else negsuc 0;
  flow_id = 5;
  flow_watermark = pos 4;
}

abbrev two_jobs : Flows
two_jobs = flow_init_job jobs (flow_init_job jobs no_flows 0) 1

-- The first check of job 0 is below the watermark, the next one is not.
waits : (flow_threshold_exceeded jobs ((flow_threshold_exceeded jobs two_jobs 0).0) 0).1 ≡ true
unfolding flow_threshold_exceeded check_flow flow_init_job flow_get ◌+ℤ◌
waits = refl

two_jobs-FlowRun : FlowRun jobs 2 no_flows (flow_exit_job two_jobs 0)
unfolding flow_init_job
two_jobs-FlowRun =
    next_run two_jobs (flow_exit_job two_jobs 0)
      (next_run (flow_init_job jobs no_flows 0) two_jobs
        (next_run no_flows (flow_init_job jobs no_flows 0) start_run (begins 0 (omega arith) refl))
        (begins 1 (omega arith) refl))
      (ends 0 (omega arith))

FlowRun-IsShared_example :
    IsShared 2 (flow_exit_job two_jobs 0)
    × (((i : ℕ) → holders (flow_exit_job two_jobs 0).flow_of i 2 ≡ 0)
        ↔ ((flow_exit_job two_jobs 0).flow_list ≡ []))
FlowRun-IsShared_example =
    FlowRun-IsShared jobs 2 (flow_exit_job two_jobs 0) (omega arith) two_jobs-FlowRun
