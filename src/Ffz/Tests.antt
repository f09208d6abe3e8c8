-- ===== src/Ffz/Tests.antt =====
-- Tests of lib/ffz.h.
use fio_ssd.Prelude.{◌≡◌, refl}
use fio_ssd.Ffz.{ffz}

ffz_table : ffz 0x00ff_ffff_ffff ≡ 40
unfolding ffz
ffz_table = refl
