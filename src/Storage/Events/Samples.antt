-- ===== src/Storage/Events/Samples.antt =====
-- A log of two events.
use kernel_generation_china.Prelude.{ℕ, ◌+◌, ◌≡◌, refl, none, some, List, [], ◌∷◌, arith}
use kernel_generation_china.Prelude.Table.{select_one, select_all}
use kernel_generation_china.Prelude.Result.{ok}
use kernel_generation_china.Storage.Events.{
  Event, NewEvent, EventLog, Draw, custom, custom_aggregate, custom_payload, chosen_id, chosen_time,
  new_event, insert_event, reuse_or_insert, append, read, passes, take, no_filter,
}
use kernel_generation_china.Storage.Events.Appending.{IsLog, Extends, append-IsLog, append_replay}
use kernel_generation_china.Storage.Events.Reading.{cursor, read_pages}

abbrev draw : Draw
draw = record { uuid = 50; clock = 9 }

abbrev event : ℕ → ℕ → Event
event n i = record {
  sequence = n;
  event_id = i;
  event_type = custom 1;
  aggregate = custom_aggregate 1 2;
  experiment_id = some 1;
  task_id = none;
  round_number = none;
  payload = custom_payload 3;
  occurred_at = 9;
}

abbrev log : EventLog
log = record { rows = event 1 40 ∷ event 3 41 ∷ []; last = 4 }

log-IsLog : IsLog log
log-IsLog = record { ascending = omega arith; distinct = ((omega arith, tt), (tt, tt)) }

abbrev requested : NewEvent
requested = record {
  event_type = custom 1;
  aggregate = custom_aggregate 1 2;
  experiment_id = some 1;
  task_id = none;
  round_number = none;
  payload = custom_payload 3;
  event_id = some 42;
  occurred_at = none;
}

abbrev log' : EventLog
log' = record { rows = event 1 40 ∷ event 3 41 ∷ event 5 42 ∷ []; last = 5 }

appended : append draw requested log ≡ ok (event 5 42, log')
unfolding append reuse_or_insert insert_event new_event chosen_id chosen_time select_one
appended = refl

append-IsLog_example : IsLog log' × Extends log log'
append-IsLog_example = append-IsLog draw requested log (event 5 42) log' log-IsLog appended

append_replay_example :
    append (record { uuid = 51; clock = 12 }) requested log' ≡ ok (event 5 42, log')
append_replay_example =
    append_replay draw (record { uuid = 51; clock = 12 }) requested 41 log (event 5 42) log' refl
      appended

first_page : read 0 1 no_filter log ≡ ok (event 1 40 ∷ [])
unfolding read passes take select_all
first_page = refl

read_pages_example :
    (next : List Event) × (read (cursor 0 (event 1 40 ∷ [])) 2 no_filter log ≡ ok next)
    × (read 0 (1 + 2) no_filter log ≡ ok (event 1 40 ∷ next))
read_pages_example =
    read_pages no_filter 1 2 0 log (event 1 40 ∷ []) log-IsLog (omega arith) (omega arith)
      (omega arith) first_page
