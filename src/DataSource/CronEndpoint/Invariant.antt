-- ===== src/DataSource/CronEndpoint/Invariant.antt =====
-- src/datasource/cron/libcron.cpp: what the sections of an endpoint keep.
use cppservicelib.Prelude.{
  ℕ, zero, suc, ◌+◌, ◌≤◌, ◌≡◌, refl, ◌⊎◌, Bool, true, false, not, ◌&&◌, List, [], ◌∷◌, Option, none,
  some, inl, inr, ◌==◌, if◌then◌else◌, if_elim, length, arith,
}
use cppservicelib.DataSource.LocalInterval.{
  LocalInterval, Due, Text, Result, ok, err, parse_local_interval, make_interval, take_due,
}
use cppservicelib.DataSource.CronExpression.{to_libcron_expression}
use cppservicelib.DataSource.CronEndpoint.{
  is_taken, OverlapPolicy, MissedRunPolicy, Endpoint, is_skip, skips_missed, EndpointConfig,
  configure_schedule, with_interval, configure, enter, dispatch, fire_interval, drop_output,
  end_output, leave,
}

abbrev pub bit : Bool → ℕ
bit true = 1
bit false = 0

abbrev pub owners : List Bool → ℕ
owners [] = 0
owners (o ∷ os) = bit o + owners os

pub record IsValid (e : Endpoint) : Type 0 where
  pub counted : e.active ≡ length e.outputs + e.leaving
  -- `running` is set by the one task that owns it
  pub owned : owners e.outputs ≡ bit e.running
  -- with the policy to skip, every task owns it
  pub alone : is_skip e.overlap_policy ≡ false ⊎ length e.outputs ≡ owners e.outputs

pub enter_owner-IsValid :
    (spawned : Bool) (e : Endpoint)
    → e.running ≡ false
    → IsValid e
    → IsValid (enter true spawned (record e { running = true }))
unfolding enter
enter_owner-IsValid spawned e h v = record {
  counted = ground (arith, v.counted);
  owned = ground (arith, v.owned, h);
  alone = ground (arith, v.alone, v.owned, h);
}

pub enter_other-IsValid :
    (spawned : Bool) (e : Endpoint)
    → is_skip e.overlap_policy ≡ false
    → IsValid e
    → IsValid (enter false spawned e)
unfolding enter
enter_other-IsValid spawned e h v = record {
  counted = ground (arith, v.counted);
  owned = ground (arith, v.owned);
  alone = ground (arith, v.alone, h);
}

pub dispatch-IsValid :
    (cancelled missed spawned : Bool) (e : Endpoint)
    → IsValid e
    → IsValid (dispatch cancelled missed spawned e)
unfolding dispatch
dispatch-IsValid cancelled missed spawned e v =
    if_elim IsValid cancelled (λ _. v)
      (λ _.
        if_elim IsValid (missed && skips_missed e.missed_run_policy) (λ _. v)
          (λ _.
            if_elim IsValid e.stopping (λ _. v)
              (λ _.
                if_elim IsValid (is_skip e.overlap_policy)
                  (λ _. if_elim IsValid e.running (λ _. v) (λ h. enter_owner-IsValid spawned e h v))
                  (λ h. enter_other-IsValid spawned e h v))))

-- Only the interval differs.
pub retime-IsValid :
    (i : Option LocalInterval) (e : Endpoint) → IsValid e → IsValid (record e { interval = i })
retime-IsValid i e v = record { counted = v.counted; owned = v.owned; alone = v.alone }

pub fire_interval-IsValid :
    (tick_rate : ℕ) (cancelled spawned : Bool) (now : ℕ) (e : Endpoint)
    → IsValid e
    → IsValid (fire_interval tick_rate cancelled spawned now e)
unfolding fire_interval
fire_interval-IsValid tick_rate cancelled spawned now e v = go e.interval
  where
    after :
        (due : Option Due) (told : Endpoint)
        → IsValid told
        → IsValid (elim due [ none ↦ told | some d ↦ dispatch cancelled d.missed spawned told ])
    after none told w = w
    after (some d) told w = dispatch-IsValid cancelled d.missed spawned told w

    go :
        (found : Option LocalInterval)
        → IsValid (elim found [
          | none ↦ e
          | some i ↦
              if cancelled
              then e
              else (let (due, next) = take_due tick_rate now i in
                  let told = record e { interval = some next } in
                  elim due [ none ↦ told | some d ↦ dispatch cancelled d.missed spawned told ])
        ])
    go none = v
    go (some i) =
        if_elim IsValid cancelled (λ _. v)
          (λ _.
            after (take_due tick_rate now i).0 _
              (retime-IsValid (some (take_due tick_rate now i).1) e v))

drop_output_lem :
    (n : ℕ) (os : List Bool)
    → ((o : Bool) × ((drop_output n os).0 ≡ some o)
        × (length os ≡ suc (length (drop_output n os).1))
        × (owners os ≡ bit o + owners (drop_output n os).1))
      ⊎ (drop_output n os).0 ≡ none
drop_output_lem n [] = inr refl
drop_output_lem zero (o ∷ os) = inl (o, refl, refl, refl)
drop_output_lem (suc n) (o ∷ os) = elim (drop_output_lem n os) [
  | inl f ↦ inl (f.0, f.1, omega (arith, f.2), omega (arith, f.3))
  | inr e ↦ inr e
]

owners-le : (os : List Bool) → owners os ≤ length os
owners-le [] = omega arith
owners-le (o ∷ os) = ground (arith, owners-le os)

pub end_output-active : (n : ℕ) (e : Endpoint) → (end_output n e).active ≡ e.active
unfolding end_output
end_output-active n e = ground arith

pub end_output-IsValid : (n : ℕ) (e : Endpoint) → IsValid e → IsValid (end_output n e)
unfolding end_output
end_output-IsValid n e v = elim (drop_output_lem n e.outputs) [
  | inl f ↦
      rw (f.1, end_output)
        (record {
          counted = omega (arith, v.counted, f.2);
          owned = ground (arith, v.owned, f.3);
          alone = ground (arith, v.alone, v.owned, f.2, f.3, owners-le (drop_output n e.outputs).1);
        })
  | inr h ↦ rw (h, end_output) v
]

pub leave-IsValid : (e : Endpoint) → IsValid e → IsValid (leave e)
unfolding leave
leave-IsValid e v =
    if_elim IsValid (e.leaving == 0) (λ _. v)
      (λ h. record { counted = ground (arith, v.counted, h); owned = v.owned; alone = v.alone })

pub owners-empty : (os : List Bool) → length os ≡ 0 → owners os ≡ 0
owners-empty [] h = refl
owners-empty (o ∷ os) h = absurd (omega arith)

abbrev pub IsIdle : Endpoint → Type 0
IsIdle e = IsValid e × (e.active ≡ 0)

-- An endpoint without tasks may change its policies.
IsIdle-any :
    (e : Endpoint) (p : OverlapPolicy) (m : MissedRunPolicy) (i : Option LocalInterval)
    (stopping storage : Bool)
    → IsIdle e
    → IsIdle (record e {
      overlap_policy = p;
      missed_run_policy = m;
      interval = i;
      stopping = stopping;
      storage = storage;
    })
IsIdle-any e p m i stopping storage (v, z) =
    let empty = owners-empty e.outputs (omega (arith, v.counted)) in
    (
      record {
        counted = v.counted;
        owned = v.owned;
        alone = inr (omega (arith, v.counted, empty));
      },
      z,
    )

module _ (tick_rate : ℕ) (libcron_takes : Text → Bool) where
  pub configure_schedule-IsIdle :
      (cfg : EndpointConfig) (now : ℕ) (r : Result (Option ℕ)) (e : Endpoint)
      → IsIdle e
      → IsIdle (configure_schedule tick_rate libcron_takes cfg now r e).1
  unfolding configure_schedule
  configure_schedule-IsIdle cfg now (err f) e v = v
  configure_schedule-IsIdle cfg now (ok none) e v =
      if_elim (λ (r : Bool × Endpoint). IsIdle r.1)
        (is_taken libcron_takes (to_libcron_expression cfg.schedule))
        (λ _. IsIdle-any e cfg.overlap_policy cfg.missed_run_policy none false true v) (λ _. v)
  configure_schedule-IsIdle cfg now (ok (some period)) e v = go (make_interval tick_rate period now)
    where
      go : (r : Result LocalInterval) → IsIdle (with_interval cfg r e).1
      go (ok i) = IsIdle-any e cfg.overlap_policy cfg.missed_run_policy (some i) false true v
      go (err f) = v

  pub configure-IsIdle :
      (cfg : EndpointConfig) (now : ℕ) (e : Endpoint)
      → IsIdle e
      → IsIdle (configure tick_rate libcron_takes cfg now e).1
  unfolding configure
  configure-IsIdle cfg now e v =
      let fresh = IsIdle-any e e.overlap_policy e.missed_run_policy none e.stopping e.storage v in
      if_elim (λ (r : Bool × Endpoint). IsIdle r.1) (not cfg.enabled) (λ _. fresh)
        (λ _.
          if_elim (λ (r : Bool × Endpoint). IsIdle r.1) (not cfg.timezone_is_utc) (λ _. fresh)
            (λ _.
              configure_schedule-IsIdle cfg now (parse_local_interval cfg.schedule) _ (
                IsIdle-any e cfg.overlap_policy cfg.missed_run_policy none e.stopping e.storage v)))
