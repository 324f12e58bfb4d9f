-- ===== src/TimestampProvider.antt =====
-- engine/runtime/TimestampProvider.hpp and TimestampProvider.cpp: nanoseconds from the steady clock, or
-- from the time stamp counter if the processor has the instruction. What CPUID, the counter and the clock
-- say is an argument.
use event_driven_trading_sys.Base.{
  ℕ, ◌/◌, ◌%◌, ◌^◌, Bool, true, false, not, ◌||◌, ◌==◌, if◌then◌else◌, List, Option, none, some,
  sub64, u64_mod,
}
use event_driven_trading_sys.Text.{codes}
use event_driven_trading_sys.Doubles.{Doubles}

-- `ChronoTimestampProvider::now`, with the count of nanoseconds of the steady clock.
unfoldable pub chrono_now : ℕ → ℕ
chrono_now count = count % u64_mod

pub record RdtscpTimestampProvider : Type 0 where
  pub rdtscp_available : Bool
  pub tsc_hz : ℕ

-- With the register EDX of the leaf 0x80000001, `none` on another processor than x86.
unfoldable pub detect_rdtscp : Option ℕ → Bool
detect_rdtscp none = false
detect_rdtscp (some edx) = edx / 2 ^ 27 % 2 == 1

module _ {Float : Type 0} (d : Doubles Float) where
  -- With the counter and the steady clock before and after the sleep.
  unfoldable pub calibrate_tsc_hz : ℕ → ℕ → ℕ → ℕ → ℕ
  calibrate_tsc_hz tsc0 t0 tsc1 t1 =
      let elapsed_s = d.mul (d.of_nat (sub64 t1 t0)) (d.literal 1 9) in
      if d.le elapsed_s (d.literal 0 0)
      then 0
      else d.to_nat (d.div (d.of_nat (sub64 tsc1 tsc0)) elapsed_s)

  -- The constructor: the counter is calibrated only if it is there.
  unfoldable pub make_provider : Option ℕ → ℕ → ℕ → ℕ → ℕ → RdtscpTimestampProvider
  unfolding detect_rdtscp calibrate_tsc_hz
  make_provider edx tsc0 t0 tsc1 t1 =
      if detect_rdtscp edx
      then record { rdtscp_available = true; tsc_hz = calibrate_tsc_hz tsc0 t0 tsc1 t1 }
      else record { rdtscp_available = false; tsc_hz = 0 }

  -- With what the counter and the steady clock read.
  unfoldable pub now : RdtscpTimestampProvider → ℕ → ℕ → ℕ
  unfolding chrono_now
  now p tsc count =
      if not p.rdtscp_available || p.tsc_hz == 0
      then chrono_now count
      else d.to_nat (d.div (d.mul (d.of_nat tsc) (d.literal 1_000_000_000 0)) (d.of_nat p.tsc_hz))

unfoldable pub name : RdtscpTimestampProvider → List ℕ
name p = if p.rdtscp_available then codes "rdtscp" else codes "rdtscp(fallback→chrono)"
