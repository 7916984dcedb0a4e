-- ===== src/DataSource/CronEndpoint.antt =====
-- src/datasource/cron/libcron.cpp: a cron data source with one endpoint. The ticker is one coroutine, and
-- it is stopped before the endpoint, so that a dispatch is one section; tasks end at any time, in two
-- sections, one for each of their guards. `outputs` are the tasks whose output runs, each with its
-- `ownsRunning`, and `leaving` counts those behind their output; both are no part of the code. The
-- instants of an expression of five fields are those of libcron, which the source only calls.
pub mod Invariant
pub mod Overlap
use cppservicelib.Prelude.{
  ℕ, zero, suc, ◌+◌, ◌-◌, Bool, true, false, not, ◌&&◌, ◌||◌, List, [], ◌∷◌, Option, none, some,
  ltb, ◌==◌, if◌then◌else◌, length,
}
use cppservicelib.DataSource.CronExpression.{to_libcron_expression}
use cppservicelib.DataSource.LocalInterval.{
  LocalInterval, Due, Text, Result, ok, err, parse_local_interval, make_interval, take_due,
}

pub data OverlapPolicy : Type 0 where
  skip_overlap allow_overlap : OverlapPolicy

pub data MissedRunPolicy : Type 0 where
  skip_missed fire_once : MissedRunPolicy

pub record Endpoint : Type 0 where
  pub overlap_policy : OverlapPolicy
  pub missed_run_policy : MissedRunPolicy
  pub interval : Option LocalInterval
  pub running : Bool
  pub stopping : Bool
  pub active : ℕ
  -- `tasks` has a value
  pub storage : Bool
  pub outputs : List Bool
  pub leaving : ℕ

abbrev pub new_endpoint : Endpoint
new_endpoint = record {
  overlap_policy = skip_overlap;
  missed_run_policy = skip_missed;
  interval = none;
  running = false;
  stopping = true;
  active = 0;
  storage = false;
  outputs = [];
  leaving = 0;
}

abbrev pub is_skip : OverlapPolicy → Bool
is_skip skip_overlap = true
is_skip allow_overlap = false

abbrev pub skips_missed : MissedRunPolicy → Bool
skips_missed skip_missed = true
skips_missed fire_once = false

-- What `configure` reads of the configuration of the endpoint.
pub record EndpointConfig : Type 0 where
  pub enabled : Bool
  pub timezone_is_utc : Bool
  pub overlap_policy : OverlapPolicy
  pub missed_run_policy : MissedRunPolicy
  pub schedule : Text

abbrev pub configured : EndpointConfig → Option LocalInterval → Endpoint → Endpoint
configured cfg interval e = record e {
  interval = interval;
  overlap_policy = cfg.overlap_policy;
  missed_run_policy = cfg.missed_run_policy;
  storage = true;
  stopping = false;
}

-- `interval.emplace`, which throws where the constructor does.
abbrev pub with_interval : EndpointConfig → Result LocalInterval → Endpoint → Bool × Endpoint
with_interval cfg (ok i) e = (true, configured cfg (some i) e)
with_interval cfg (err f) e = (false, e)

-- `ToLibcronExpression` throws, or libcron has its say.
abbrev pub is_taken : (Text → Bool) → Option Text → Bool
is_taken libcron_takes none = false
is_taken libcron_takes (some expression) = libcron_takes expression

module _ (tick_rate : ℕ) (libcron_takes : Text → Bool) where
  -- `configure` behind its first tests, for what `ParseLocalInterval` answers.
  unfoldable pub configure_schedule :
      EndpointConfig → ℕ → Result (Option ℕ) → Endpoint → Bool × Endpoint
  configure_schedule cfg now (err f) e = (false, e)
  configure_schedule cfg now (ok none) e =
      if is_taken libcron_takes (to_libcron_expression cfg.schedule)
      then (true, configured cfg none e)
      else (false, e)
  configure_schedule cfg now (ok (some period)) e =
      with_interval cfg (make_interval tick_rate period now) e

  -- `configure`: false where it throws. The policies are stored before the schedule is read.
  unfoldable pub configure : EndpointConfig → ℕ → Endpoint → Bool × Endpoint
  configure cfg now e =
      let fresh = record e { interval = none } in
      if not cfg.enabled
      then (true, fresh)
      else if not cfg.timezone_is_utc
      then (false, fresh)
      else configure_schedule cfg now (parse_local_interval cfg.schedule) (record fresh {
        overlap_policy = cfg.overlap_policy;
        missed_run_policy = cfg.missed_run_policy;
      })

-- `dispatch` under `activeMutex`, and the start of the task, where the engine can spawn it or not.
unfoldable pub enter : Bool → Bool → Endpoint → Endpoint
enter owns spawned e =
    if e.stopping
    then record e { running = e.running && not owns }
    else if not spawned
    then record e { running = e.running && not owns }
    else record e { active = e.active + 1; outputs = owns ∷ e.outputs }

-- `dispatch`
unfoldable pub dispatch : Bool → Bool → Bool → Endpoint → Endpoint
dispatch cancelled missed spawned e =
    if cancelled
    then e
    else if missed && skips_missed e.missed_run_policy
    then e
    else if e.stopping
    then e
    else if is_skip e.overlap_policy
    then (if e.running then e else enter true spawned (record e { running = true }))
    else enter false spawned e

-- `fireInterval`
unfoldable pub fire_interval : ℕ → Bool → Bool → ℕ → Endpoint → Endpoint
fire_interval tick_rate cancelled spawned now e = elim e.interval [
  | none ↦ e
  | some i ↦
      if cancelled
      then e
      else (let (due, next) = take_due tick_rate now i in
          let told = record e { interval = some next } in
          elim due [ none ↦ told | some d ↦ dispatch cancelled d.missed spawned told ])
]

abbrev pub drop_output : ℕ → List Bool → Option Bool × List Bool
drop_output n [] = (none, [])
drop_output zero (o ∷ os) = (some o, os)
drop_output (suc n) (o ∷ os) = let (found, rest) = drop_output n os in (found, o ∷ rest)

-- The output of the nth task returns or throws, and `RunningGuard` ends.
unfoldable pub end_output : ℕ → Endpoint → Endpoint
end_output n e =
    let (found, rest) = drop_output n e.outputs in
    elim found [
      | none ↦ e
      | some owns ↦ record e {
        outputs = rest;
        leaving = e.leaving + 1;
        running = e.running && not owns;
      }
    ]

-- `ActiveGuard` ends.
unfoldable pub leave : Endpoint → Endpoint
leave e = if e.leaving == 0 then e else record e { leaving = e.leaving - 1; active = e.active - 1 }

-- `stop` where `WaitForDrain` has found no active task.
unfoldable pub finish_stop : Endpoint → Endpoint
finish_stop e = record e { storage = false; running = false }

-- `LibcronDataSource`, with its `ticker`.
pub record Source : Type 0 where
  pub started : Bool
  pub ticking : Bool
  pub endpoint : Endpoint

abbrev pub new_source : Source
new_source = record { started = false; ticking = false; endpoint = new_endpoint }

-- The stop of the endpoint in `start` and in `stop`: true where the context lets it wait for the end.
unfoldable pub stop_endpoint : Source → Source
stop_endpoint s =
    let e = record s.endpoint { stopping = true } in
    if e.active == 0
    then record s { ticking = false; started = false; endpoint = finish_stop e }
    else record s { ticking = false; endpoint = e }

module _ (tick_rate : ℕ) (libcron_takes : Text → Bool) where
  -- `start`
  unfoldable pub start : Bool → EndpointConfig → ℕ → Source → Source
  start cancelled cfg now s =
      if cancelled
      then s
      else if s.started
      then s
      else (let (fine, e) = configure tick_rate libcron_takes cfg now s.endpoint in
          if fine
          then record s { started = true; ticking = true; endpoint = e }
          else stop_endpoint (record s { started = true; endpoint = e }))

  pub data Section : Type 0 where
    starts : Bool → EndpointConfig → ℕ → Section
    -- the ticker, for an interval and for a schedule of libcron
    ticks : Bool → Bool → ℕ → Section
    fires : Bool → Bool → Bool → Section
    -- tasks
    outputs_end : ℕ → Section
    leaves : Section
    -- `stop`, where no task is active, or where its context ends before
    stops : Section

  unfoldable pub section : Section → Source → Source
  section (starts cancelled cfg now) s = start cancelled cfg now s
  section (ticks cancelled spawned now) s =
      if s.ticking
      then record s { endpoint = fire_interval tick_rate cancelled spawned now s.endpoint }
      else s
  section (fires cancelled missed spawned) s =
      if s.ticking then record s { endpoint = dispatch cancelled missed spawned s.endpoint } else s
  section (outputs_end n) s = record s { endpoint = end_output n s.endpoint }
  section leaves s = record s { endpoint = leave s.endpoint }
  section stops s = if s.started then stop_endpoint s else s

  unfoldable pub sections : List Section → Source → Source
  sections [] s = s
  sections (x ∷ xs) s = sections xs (section x s)
