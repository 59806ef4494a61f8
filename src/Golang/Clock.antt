-- ===== src/Golang/Clock.antt =====
-- Package time. A `time.Time` is the number of nanoseconds since the zero time, so that `IsZero`
-- is a test for 0; a `time.Duration` is an int64 number of nanoseconds.
use storage_provider_openneb.Prelude.{ℕ, ◌+◌, ◌-◌, ◌*◌, Bool, ltb, leb, ◌==◌, if◌then◌else◌}
use storage_provider_openneb.Prelude.Int.{ℤ, pos, negsuc, max_int64}

abbrev pub Time : Type 0
Time = ℕ

abbrev pub Duration : Type 0
Duration = ℤ

abbrev pub zero_time : Time
zero_time = 0

abbrev pub is_zero : Time → Bool
is_zero t = t == 0

-- `a.After(b)`
abbrev pub after : Time → Time → Bool
after a b = ltb b a

-- `t.Add(d)`; the program adds to the present time durations that do not lead before the zero time.
abbrev pub add : Time → Duration → Time
add t (pos n) = t + n
add t (negsuc n) = t - n - 1

-- `a.Sub(b)`, which stops at the least and at the greatest duration.
unfoldable pub sub : Time → Time → Duration
sub a b =
    if leb b a
    then (if leb (a - b) max_int64 then pos (a - b) else pos max_int64)
    else (if leb (b - a - 1) max_int64 then negsuc (b - a - 1) else negsuc max_int64)

abbrev pub second : ℕ
second = 1000000000

abbrev pub minute : ℕ
minute = 60 * second
