-- ===== src/Hdd/Reading.antt =====
-- Reading a run of sectors with soc/firmware/src/hdd_hal.c, on hardware whose clock runs.
use flux_ripper.Hdd.State.{Hdd}
