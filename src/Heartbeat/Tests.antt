-- ===== src/Heartbeat/Tests.antt =====
-- src/heartbeat_samples.c: the theorems at 48 and 192 kHz.
use putv.Prelude.{◌+◌, ◌*◌, ◌≤◌, ◌<◌, ◌≡◌, refl, arith, true, some}
use putv.Prelude.Int.{pos}
use putv.Heartbeat.Samples.{Heartbeat, heartbeat_wait, nanoseconds, heartbeat_wait_lem}

abbrev started : Heartbeat
started = record {
  tv_sec = 1;
  tv_nsec = 500;
  nsamples = 0;
  samplerate = 48000;
  samplesize = 2;
  nchannels = 2;
}

heartbeat_wait_lem_example :
    (after : Heartbeat) × (heartbeat_wait true 1024 started ≡ some (pos 0, 0, after))
    × (nanoseconds after * 48000 ≤ 1024 * 1000000000)
    × (1024 * 1000000000 < (nanoseconds after + 10000) * 48000)
    × (after.tv_nsec < 1000000000)
heartbeat_wait_lem_example =
    heartbeat_wait_lem started 1024 480 (omega arith) (omega arith) (omega arith) (omega arith) refl
