-- ===== src/Common/Time.antt =====
-- Go's time.Time and time.Duration, in nanoseconds. A time is an unbounded integer; a duration is
-- an int64, and the difference of two times is cut off at its bounds, as `Time.Sub` documents.
use go_user_system.Common.Tests.{if◌then◌else◌}
use go_user_system.Common.Int.{
  ℤ, pos, ◌+ℤ◌, ◌-ℤ◌, ◌≤ℤ◌, ◌<ℤ◌, ltb_ℤ, max_int64, min_int64, -ℤ_parts,
}
use mathlib.Core.Logic.{◌↔◌}
use mathlib.Core.Bool.{Bool}
use native.Mathlib.Omega.{arith}

abbrev pub Time : Type 0
Time = ℤ

abbrev pub Duration : Type 0
Duration = ℤ

-- `t.After(u)`
abbrev pub after : Time → Time → Bool
after t u = ltb_ℤ u t

-- `t.Add(d)`
abbrev pub add : Time → Duration → Time
add t d = t +ℤ d

-- A difference that does not fit a duration is cut off.
abbrev pub saturate : ℤ → Duration
saturate d = if ltb_ℤ max_int64 d then max_int64 else if ltb_ℤ d min_int64 then min_int64 else d

-- `t.Sub(u)`
unfoldable pub sub : Time → Time → Duration
sub t u = saturate (t -ℤ u)

abbrev pub second : Duration
second = pos 1000000000

pub sub-pos_iff : (t u : Time) → (pos 0 <ℤ sub t u) ↔ (u <ℤ t)
unfolding sub
sub-pos_iff t u = ground (arith, -ℤ_parts t u)

pub sub-le : (t u : Time) → u ≤ℤ t → sub t u ≤ℤ t -ℤ u
unfolding sub
sub-le t u h = ground (arith, -ℤ_parts t u)
