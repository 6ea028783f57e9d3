-- ===== src/Core/Ids.antt =====
-- core/ids.rs and the time types of core/types.rs. Identifiers are UUIDs, which the code only
-- compares; a fresh one (`Uuid::new_v4`) is an argument of the operation that draws it.
use propfirm_engine.Base.{ℕ, ◌+◌, ◌*◌, ◌-◌, ◌/◌, if◌then◌else◌, leb}
use propfirm_engine.Base.Int.{ℤ, pos, pos_part, neg_part, sub_ℕ}

abbrev pub Uuid : Type 0
Uuid = ℕ

-- Nanoseconds since the earliest instant that `chrono` represents.
abbrev pub Timestamp : Type 0
Timestamp = ℕ

abbrev pub nanos_per_minute : ℕ
nanos_per_minute = 60_000_000_000

abbrev pub nanos_per_hour : ℕ
nanos_per_hour = 60 * nanos_per_minute

abbrev pub nanos_per_day : ℕ
nanos_per_day = 24 * nanos_per_hour

abbrev pub nanos_per_second : ℕ
nanos_per_second = 1_000_000_000

-- The whole units of `later - earlier`, cut towards zero: `num_seconds`, `num_minutes`, `num_days`.
abbrev pub whole : ℕ → Timestamp → Timestamp → ℤ
whole unit later earlier =
    if leb earlier later then pos ((later - earlier) / unit) else sub_ℕ 0 ((earlier - later) / unit)

-- A timestamp moved by a signed duration.
abbrev pub shift : Timestamp → ℤ → ℕ → Timestamp
shift t n unit = t + pos_part n * unit - neg_part n * unit
