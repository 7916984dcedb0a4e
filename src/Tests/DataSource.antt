-- ===== src/Tests/DataSource.antt =====
-- The data sources at small inputs.
use cppservicelib.Prelude.{
  ◌⊎◌, ℕ, ◌≡◌, ◌≤◌, ◌<◌, ◌*◌, ◌/◌, ◌+◌, ◌-◌, refl, Bool, true, false, List, [], ◌∷◌, some, length,
  ◌==◌, if◌then◌else◌, arith,
}
use cppservicelib.DataSource.RequestAdmission.{
  new_admission, acquire, release, stop, Section, acquires, releases, stops, section, sections,
}
use cppservicelib.DataSource.RequestAdmission.Drain.{stop_ends_admission, no_stop_waits_in_vain}
use cppservicelib.DataSource.LocalInterval.{
  LocalInterval, Text, ok, err, invalid_text, invalid_period, starts_with, ends_with, digits_value,
  parse_local_interval, make_interval, take_due, delay,
}
use cppservicelib.DataSource.LocalInterval.Grid.{
  step, delay_reaches, instants, Spaced, instants-Spaced,
}
use cppservicelib.DataSource.LocalInterval.Parse.{
  interval_text, written, parse_local_interval-reads,
}
use cppservicelib.DataSource.CronExpression.{split_fields, to_libcron_expression}
use cppservicelib.DataSource.CronEndpoint
use cppservicelib.DataSource.CronEndpoint.{
  skip_overlap, fire_once, EndpointConfig, configure, configure_schedule, enter, dispatch,
  fire_interval, end_output, leave, finish_stop, Source, new_source, stop_endpoint, start, starts,
  ticks, outputs_end, leaves,
}
use cppservicelib.DataSource.CronEndpoint.Overlap.{no_overlap}

abbrev stopped_late : List Section
stopped_late = acquires ∷ acquires ∷ releases ∷ stops ∷ acquires ∷ releases ∷ []

abbrev stopped_early : List Section
stopped_early = acquires ∷ acquires ∷ stops ∷ releases ∷ []

one_drained : 0 < (sections stopped_late new_admission).drained
unfolding sections section acquire release stop
one_drained = omega arith

stop_ends_admission_example :
    ((sections stopped_late new_admission).leases ≡ 0)
    × (acquire (sections stopped_late new_admission) ≡ (false, sections stopped_late new_admission))
stop_ends_admission_example = stop_ends_admission stopped_late (omega arith) one_drained

one_waits : 0 < (sections stopped_early new_admission).waiting
unfolding sections section acquire release stop
one_waits = omega arith

no_stop_waits_in_vain_example :
    (0 < (sections stopped_early new_admission).leases)
    × ((release (sections stopped_early new_admission)).waiting ≡ (
        if (sections stopped_early new_admission).leases == 1
        then 0
        else (sections stopped_early new_admission).waiting))
no_stop_waits_in_vain_example = no_stop_waits_in_vain stopped_early (omega arith) one_waits

abbrev every_ten : LocalInterval
every_ten = record { period = 10; next = 70000 }

delay_reaches_example :
    (0 < delay 1000 65500 every_ten)
    × (every_ten.next ≤ 65500 + delay 1000 65500 every_ten * 1000)
    × (65500 + (delay 1000 65500 every_ten - 1) * 1000 < every_ten.next)
delay_reaches_example = delay_reaches 1000 every_ten (omega arith) (omega arith) 65500 (omega arith)

abbrev readings : List ℕ
readings = 71000 ∷ 60000 ∷ 95000 ∷ []

instants-Spaced_example :
    Spaced (step 1000 every_ten) every_ten.next (instants 1000 readings every_ten)
instants-Spaced_example = instants-Spaced 1000 readings every_ten (omega arith) (omega arith)

abbrev fifty : Text
fifty = 53 ∷ 48 ∷ []

fifty_value : digits_value 0 fifty ≡ some 50
unfolding digits_value
fifty_value = refl

fifty_read : parse_local_interval (interval_text fifty) ≡ ok (some 50)
unfolding parse_local_interval starts_with ends_with digits_value
fifty_read = refl

-- The digits of 50, from the ones on.
abbrev fifty_ones : Text
fifty_ones = 48 ∷ 53 ∷ []

parse_local_interval-reads_example :
    ((10 ≤ 50)
      × (50 ≤ 86400000)
      × (parse_local_interval (interval_text (written fifty_ones)) ≡ ok (some 50))
      × (make_interval 1000 50 65500
          ≡ ok (record { period = 50; next = 65500 / 1000 * 1000 + 50 * 1000 })))
    ⊎ (((50 < 10) ⊎ (86400000 < 50))
        × (parse_local_interval (interval_text (written fifty_ones)) ≡ err invalid_text)
        × (make_interval 1000 50 65500 ≡ err invalid_period))
parse_local_interval-reads_example =
    parse_local_interval-reads 1000 65500 fifty_ones refl refl (omega arith)

abbrev no_expression : Text → Bool
no_expression text = false

abbrev each_fifty : EndpointConfig
each_fifty = record {
  enabled = true;
  timezone_is_utc = true;
  overlap_policy = skip_overlap;
  missed_run_policy = fire_once;
  schedule = interval_text fifty;
}

abbrev busy_run : List (CronEndpoint.Section 1000 no_expression)
busy_run =
    starts false each_fifty 65500
    ∷ ticks false true 116000
    ∷ ticks false true 170000
    ∷ CronEndpoint.stops
    ∷ ticks false true 300000
    ∷ []

abbrev idle_run : List (CronEndpoint.Section 1000 no_expression)
idle_run =
    starts false each_fifty 65500
    ∷ ticks false true 116000
    ∷ outputs_end 0
    ∷ leaves
    ∷ CronEndpoint.stops
    ∷ []

one_output :
    (CronEndpoint.sections 1000 no_expression busy_run new_source).endpoint.overlap_policy
    ≡ skip_overlap
unfolding CronEndpoint.sections CronEndpoint.section start configure configure_schedule
    parse_local_interval starts_with ends_with digits_value make_interval fire_interval take_due
    dispatch enter stop_endpoint finish_stop
one_output = refl

one_running :
    length (CronEndpoint.sections 1000 no_expression busy_run new_source).endpoint.outputs ≡ 1
unfolding CronEndpoint.sections CronEndpoint.section start configure configure_schedule
    parse_local_interval starts_with ends_with digits_value make_interval fire_interval take_due
    dispatch enter stop_endpoint finish_stop
one_running = refl

no_overlap_example :
    length (CronEndpoint.sections 1000 no_expression busy_run new_source).endpoint.outputs ≤ 1
no_overlap_example = no_overlap 1000 no_expression busy_run one_output

not_started : (CronEndpoint.sections 1000 no_expression idle_run new_source).started ≡ false
unfolding CronEndpoint.sections CronEndpoint.section start configure configure_schedule
    parse_local_interval starts_with ends_with digits_value make_interval fire_interval take_due
    dispatch enter end_output leave stop_endpoint finish_stop
not_started = refl

-- "*/5 2  * 1 3", with two spaces.
on_wednesdays :
    to_libcron_expression (42 ∷ 47 ∷ 53 ∷ 32 ∷ 50 ∷ 32 ∷ 32 ∷ 42 ∷ 32 ∷ 49 ∷ 32 ∷ 51 ∷ [])
    ≡ some (48 ∷ 32 ∷ 42 ∷ 47 ∷ 53 ∷ 32 ∷ 50 ∷ 32 ∷ 63 ∷ 32 ∷ 49 ∷ 32 ∷ 51 ∷ [])
unfolding to_libcron_expression split_fields
on_wednesdays = refl
