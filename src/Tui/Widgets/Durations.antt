-- ===== src/Tui/Widgets/Durations.antt =====
-- crates/blackbox-server/src/tui/widgets.rs: what `format_duration` shows.
use k_blackbox.Base.{ℕ, ◌+◌, ◌*◌, ◌≤◌, ◌<◌, arith}
use k_blackbox.Tui.Widgets.{Duration, secs, mins, hours, format_duration}

-- The least number of seconds that the text stands for.
abbrev pub least : Duration → ℕ
least (secs s) = s
least (mins m s) = 60 * m + s
least (hours h m) = 3600 * h + 60 * m

-- How many numbers of seconds have the text.
abbrev pub unit : Duration → ℕ
unit (secs s) = 1
unit (mins m s) = 1
unit (hours h m) = 60

abbrev pub InRange : Duration → Type 0
InRange (secs s) = s < 60
InRange (mins m s) = (0 < m) × (m < 60) × (s < 60)
InRange (hours h m) = (0 < h) × (m < 60)

-- The text of a duration is right up to the unit that it shows, a second below an hour and a minute from
-- there on. Its minutes and seconds are below 60, and the unit that comes first is not zero, but for the
-- seconds.
pub format_duration_lem :
    (n : ℕ) → let d = format_duration n in (least d ≤ n) × (n < least d + unit d) × InRange d
unfolding format_duration
format_duration_lem n = ground arith
