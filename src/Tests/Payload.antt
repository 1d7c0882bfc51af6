-- ===== src/Tests/Payload.antt =====
-- Payloads of the packs, to run the decoders on.
use solar_monitor.Prelude.{ℕ, zero, suc, [], replicate, arith}
use solar_monitor.Prelude.Bytes.{All, IsByte}
use solar_monitor.Meritsun.Layout.{Layout, AllBytes}

-- 13.200 V, 1 A, 100 Ah, 300 cycles, 80 %, 25 degrees, and the status
abbrev pub layout : Layout
layout = record {
  v0 = 0x90;
  v1 = 0x33;
  v2 = 0;
  v3 = 0;
  c0 = 0xE8;
  c1 = 3;
  c2 = 0;
  c3 = 0;
  q0 = 0xA0;
  q1 = 0x86;
  q2 = 1;
  q3 = 0;
  y0 = 44;
  y1 = 1;
  s0 = 80;
  s1 = 0;
  t0 = 0xA5;
  t1 = 11;
  u0 = 1;
  rest = [];
}

pub layout-AllBytes : AllBytes layout
layout-AllBytes = (
  (omega arith, (omega arith, (omega arith, (omega arith, tt)))),
  (omega arith, (omega arith, (omega arith, (omega arith, tt)))),
  (omega arith, (omega arith, (omega arith, (omega arith, tt)))),
  (omega arith, (omega arith, tt)),
  (omega arith, (omega arith, tt)),
  (omega arith, (omega arith, tt)),
  (omega arith, tt),
)

pub zeros_bytes : (n : ℕ) → All IsByte (replicate n 0)
zeros_bytes zero = tt
zeros_bytes (suc n) = (omega arith, zeros_bytes n)
