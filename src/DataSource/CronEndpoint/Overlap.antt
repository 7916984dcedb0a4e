-- ===== src/DataSource/CronEndpoint/Overlap.antt =====
-- src/datasource/cron/libcron.cpp: the outputs of an endpoint and its stop.
use cppservicelib.Prelude.{
  ℕ, ◌≤◌, ◌≡◌, refl, ◌⊎◌, Bool, true, false, List, [], ◌∷◌, inl, inr, ◌==◌, if_elim, length, arith,
}
use cppservicelib.DataSource.LocalInterval.{Text}
use cppservicelib.DataSource.CronEndpoint.{
  skip_overlap, Endpoint, EndpointConfig, configure, leave, finish_stop, Source, new_source,
  stop_endpoint, start, Section, starts, ticks, fires, outputs_end, leaves, stops, section,
  sections,
}
use cppservicelib.DataSource.CronEndpoint.Invariant.{
  IsValid, dispatch-IsValid, fire_interval-IsValid, end_output-IsValid, end_output-active,
  leave-IsValid, owners-empty, configure-IsIdle,
}

record IsSourceValid (s : Source) : Type 0 where
  endpoint : IsValid s.endpoint
  idle : s.started ≡ true ⊎ s.endpoint.active ≡ 0
  quiet : s.started ≡ true ⊎ s.ticking ≡ false

stop_endpoint-IsValid :
    (s : Source) → s.started ≡ true → IsSourceValid s → IsSourceValid (stop_endpoint s)
unfolding stop_endpoint finish_stop
stop_endpoint-IsValid s h v =
    if_elim IsSourceValid (s.endpoint.active == 0)
      (λ k. record {
        endpoint = record {
          counted = ground (arith, v.endpoint.counted);
          owned = owners-empty s.endpoint.outputs (ground (arith, v.endpoint.counted, k));
          alone = v.endpoint.alone;
        };
        idle = inr (ground arith);
        quiet = inr refl;
      })
      (λ _. record {
        endpoint = record {
          counted = v.endpoint.counted;
          owned = v.endpoint.owned;
          alone = v.endpoint.alone;
        };
        idle = inl h;
        quiet = inr refl;
      })

abbrev source_with : Endpoint → Source → Source
source_with e s = record s { endpoint = e }

module _ (tick_rate : ℕ) (libcron_takes : Text → Bool) where
  start-IsValid :
      (cancelled : Bool) (cfg : EndpointConfig) (now : ℕ) (s : Source)
      → IsSourceValid s
      → IsSourceValid (start tick_rate libcron_takes cancelled cfg now s)
  unfolding start
  start-IsValid cancelled cfg now s v =
      if_elim IsSourceValid cancelled (λ _. v)
        (λ _.
          if_elim IsSourceValid s.started (λ _. v)
            (λ h.
              let idle =
                configure-IsIdle tick_rate libcron_takes cfg now s.endpoint
                  (v.endpoint, ground (arith, v.idle, h)) in
              if_elim IsSourceValid (configure tick_rate libcron_takes cfg now s.endpoint).0
                (λ _. record { endpoint = idle.0; idle = inl refl; quiet = inl refl })
                (λ _.
                  stop_endpoint-IsValid _ refl
                    (record { endpoint = idle.0; idle = inl refl; quiet = inl refl }))))

  -- A ticker runs only in a started source.
  tick-IsValid :
      (e : Endpoint) (s : Source)
      → s.ticking ≡ true
      → IsValid e
      → IsSourceValid s
      → IsSourceValid (source_with e s)
  tick-IsValid e s h w v = record {
    endpoint = w;
    idle = inl (ground (arith, v.quiet, h));
    quiet = v.quiet;
  }

  section-IsValid :
      (x : Section tick_rate libcron_takes) (s : Source)
      → IsSourceValid s
      → IsSourceValid (section tick_rate libcron_takes x s)
  unfolding section leave
  section-IsValid (starts cancelled cfg now) s v = start-IsValid cancelled cfg now s v
  section-IsValid (ticks cancelled spawned now) s v =
      if_elim IsSourceValid s.ticking
        (λ h.
          tick-IsValid _ s h
            (fire_interval-IsValid tick_rate cancelled spawned now s.endpoint v.endpoint) v)
        (λ _. v)
  section-IsValid (fires cancelled missed spawned) s v =
      if_elim IsSourceValid s.ticking
        (λ h.
          tick-IsValid _ s h (dispatch-IsValid cancelled missed spawned s.endpoint v.endpoint) v)
        (λ _. v)
  section-IsValid (outputs_end n) s v = record {
    endpoint = end_output-IsValid n s.endpoint v.endpoint;
    idle = rw (end_output-active n s.endpoint) v.idle;
    quiet = v.quiet;
  }
  section-IsValid leaves s v = record {
    endpoint = leave-IsValid s.endpoint v.endpoint;
    idle = ground (arith, v.idle);
    quiet = v.quiet;
  }
  section-IsValid stops s v =
      if_elim IsSourceValid s.started (λ h. stop_endpoint-IsValid s h v) (λ _. v)

  sections-IsValid :
      (xs : List (Section tick_rate libcron_takes)) (s : Source)
      → IsSourceValid s
      → IsSourceValid (sections tick_rate libcron_takes xs s)
  unfolding sections
  sections-IsValid [] s v = v
  sections-IsValid (x ∷ xs) s v =
      sections-IsValid xs (section tick_rate libcron_takes x s) (section-IsValid x s v)

new-IsValid : IsSourceValid new_source
new-IsValid = record {
  endpoint = record { counted = refl; owned = refl; alone = inr refl };
  idle = inr refl;
  quiet = inr refl;
}

-- Whatever starts, ticks, tasks that end and stops do to a new cron data source, in any order: while its
-- endpoint skips overlaps, at most one output runs.
pub no_overlap :
    (tick_rate : ℕ) (libcron_takes : Text → Bool) (xs : List (Section tick_rate libcron_takes))
    → (sections tick_rate libcron_takes xs new_source).endpoint.overlap_policy ≡ skip_overlap
    → length (sections tick_rate libcron_takes xs new_source).endpoint.outputs ≤ 1
no_overlap tick_rate libcron_takes xs e =
    let v = sections-IsValid tick_rate libcron_takes xs new_source new-IsValid in
    ground (arith, e, v.endpoint.alone, v.endpoint.owned)

-- Whatever starts, ticks, tasks that end and stops do to a new cron data source, in any order: where
-- the source is not started, because a stop has returned or no start has been successful, no output
-- runs, no task is active, and a tick changes nothing.
pub stopped_is_idle :
    (tick_rate : ℕ) (libcron_takes : Text → Bool) (xs : List (Section tick_rate libcron_takes))
    (cancelled spawned : Bool) (now : ℕ)
    → (sections tick_rate libcron_takes xs new_source).started ≡ false
    → (length (sections tick_rate libcron_takes xs new_source).endpoint.outputs ≡ 0)
      × ((sections tick_rate libcron_takes xs new_source).endpoint.active ≡ 0)
      × (section tick_rate libcron_takes
            (ticks cancelled spawned now)
            (sections tick_rate libcron_takes xs new_source)
          ≡ sections tick_rate libcron_takes xs new_source)
unfolding section
stopped_is_idle tick_rate libcron_takes xs cancelled spawned now e =
    let s = sections tick_rate libcron_takes xs new_source in
    let v = sections-IsValid tick_rate libcron_takes xs new_source new-IsValid in
    let idle : s.endpoint.active ≡ 0 = ground (arith, e, v.idle) in
    let quiet : s.ticking ≡ false = ground (arith, e, v.quiet) in
    (omega (arith, idle, v.endpoint.counted), idle, rw (quiet, section) refl)
