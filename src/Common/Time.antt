-- ===== src/Common/Time.antt =====
-- The part of Go's package `time` that the program uses: an instant is its distance from the Unix
-- epoch in nanoseconds, a duration an `int64` number of nanoseconds. The present is an argument of
-- each function that calls `time.Now`.
use Prim.Native.Nat.{ℕ, suc, ◌-◌, ◌/◌, ◌^◌}
use mathlib.Core.Bool.{Bool}
use native.Mathlib.Omega.{arith}
use vuhive_cloud.Common.Tests.{if◌then◌else◌, leb}
use vuhive_cloud.Common.Int.{ℤ, pos, negsuc, ◌+ℤ◌, ◌-ℤ◌, ltb_ℤ, ◌≤ℤ◌}

abbrev pub Time : Type 0
Time = ℤ

abbrev pub Duration : Type 0
Duration = ℤ

abbrev pub millisecond : ℕ
millisecond = 1000000

abbrev pub second : ℕ
second = 1000000000

abbrev pub hour : ℕ
hour = 3600000000000

-- `t.Add(d)`.
abbrev pub add : Time → Duration → Time
add t d = t +ℤ d

abbrev pub after : Time → Time → Bool
after t u = ltb_ℤ u t

abbrev pub before : Time → Time → Bool
before t u = ltb_ℤ t u

-- `t.Sub(u)` keeps to the range of `int64`.
unfoldable pub sub : Time → Time → Duration
sub t u =
    let d = t -ℤ u in
    if ltb_ℤ (pos (2 ^ 63 - 1)) d
    then pos (2 ^ 63 - 1)
    else if ltb_ℤ d (negsuc (2 ^ 63 - 1))
    then negsuc (2 ^ 63 - 1)
    else d

-- `d.Milliseconds()` rounds towards zero.
unfoldable pub milliseconds : Duration → ℤ
milliseconds (pos n) = pos (n / millisecond)
milliseconds (negsuc n) =
    let q : ℕ = suc n / millisecond in if leb q 0 then pos 0 else negsuc (q - 1)

pub sub_self_pos : (t u : Time) → u ≤ℤ t → pos 0 ≤ℤ sub t u
unfolding sub ◌-ℤ◌
sub_self_pos t u h = ground arith
