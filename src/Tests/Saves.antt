-- ===== src/Tests/Saves.antt =====
-- Two saves of one field that overlap, and a button that is clicked three times.
use wuflow.Base.{false, none}
use wuflow.Guards.{Field, Flight}

abbrev quiet_field : Field
quiet_field = record { saves = 0; busy = false }

abbrev never_called : Flight
never_called = record { in_flight = none; started = 0 }
