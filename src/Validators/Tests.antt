-- ===== src/Validators/Tests.antt =====
-- The figures of concrete readings.
use stake_basket.Prelude.{◌over◌}
use stake_basket.Validators.{Reading}

abbrev reading : Reading
reading = record {
  performance_random = 1 over 2;
  uptime_random = 1 over 4;
  hash = 30864;
  now = 100000000;
}
