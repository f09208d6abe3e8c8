-- ===== src/Stat/Tests.antt =====
-- Tests of the latency buckets, and their theorems at concrete inputs.
use fio_ssd.Prelude.{ℕ, ◌+◌, ◌-◌, ◌*◌, ◌^◌, ◌≤◌, ◌<◌, ◌≡◌, refl, arith, some}
use fio_ssd.Stat.{msb_below, plat_val_to_idx, plat_idx_to_val}
use fio_ssd.Stat.Laws.{
  plat_val_to_idx-plat_idx_to_val, plat_idx_to_val-plat_val_to_idx, plat_val_to_idx_mono,
}

-- 5000 has its highest bit at 12: six bits are lost, and the place is 5000 / 64 = 78.
bucket_of_5000 : plat_val_to_idx 5000 ≡ 462
unfolding plat_val_to_idx msb_below
bucket_of_5000 = refl

value_of_462 : plat_idx_to_val 462 ≡ some 5024
unfolding plat_idx_to_val
value_of_462 = refl

last_bucket : plat_val_to_idx (2 ^ 32 - 1) ≡ 1215
unfolding plat_val_to_idx msb_below
last_bucket = refl

plat_val_to_idx-plat_idx_to_val_example :
    (val : ℕ) × (plat_idx_to_val 462 ≡ some val) × (plat_val_to_idx val ≡ 462)
plat_val_to_idx-plat_idx_to_val_example = plat_val_to_idx-plat_idx_to_val 462 (omega arith)

plat_idx_to_val-plat_val_to_idx_example :
    (near : ℕ) × (plat_idx_to_val (plat_val_to_idx 5000) ≡ some near)
    × (128 * near ≤ 128 * 5000 + 5000)
    × (128 * 5000 ≤ 128 * near + 5000)
plat_idx_to_val-plat_val_to_idx_example = plat_idx_to_val-plat_val_to_idx 5000 (omega arith)

plat_val_to_idx_mono_example :
    (plat_val_to_idx 100 ≤ plat_val_to_idx 5000) × (plat_val_to_idx 5000 < 1216)
plat_val_to_idx_mono_example = plat_val_to_idx_mono 100 5000 (omega arith) (omega arith)
