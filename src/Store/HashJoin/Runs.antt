-- ===== src/Store/HashJoin/Runs.antt =====
-- runtime/store/hashmap.hpp: what holds after every schedule of the sections.
use cppservicelib.Prelude.{
  ℕ, ◌<◌, ◌≡◌, subst, ◌∙◌, inl, inr, Bool, true, false, not, ◌&&◌, List, [], ◌∷◌, ltb, ◌==◌,
  if_elim, ℤ, length, Bool-cases, Option-cases, ==_eq, arith,
}
use cppservicelib.Dict.{Key}
use cppservicelib.Store.HashJoin.{HashJoin, item_at, find_item}
use cppservicelib.Store.HashJoin.Join.{
  Round, Request, insert_item, publish, enter_new, enter_found, finish_stop,
}
use cppservicelib.Store.HashJoin.Frame.{Frame-trans, cancel_requested-Frame}
use cppservicelib.Store.HashJoin.Invariant.{WellLogged, MapsAreValid, IsValid, Frame-IsValid}
use cppservicelib.Store.HashJoin.Maps.{rotate-rest, remove_if_same-rest}
use cppservicelib.Store.HashJoin.Sections.{expire-IsValid}
use cppservicelib.Store.HashJoin.Spared.{
  holds, Spares, items-Spares, Frame-Spares, expire-Spares, enter_new-Spares, enter_found-Spares,
  insert_item-Spares, reset_callbacks-Frame,
}
use cppservicelib.Store.HashJoin.Turns.{
  enter_new-IsValid, enter_found-IsValid, insert_item-Open, remove_if_same-IsValid, publish_absent,
  publish_present,
}
use cppservicelib.Store.HashJoin.Schedule.{
  Section, enters, leaves, publishes, enters_made, enters_found, removes, expires, cancels, rotates,
  starts, begins_stop, finishes_stop, Shared, release, holds-release, released, has_timer,
  is_generation, is_stopping, hold_made, section, sections, constructed, fresh-IsValid,
  rotate-IsValid, finish_stop-IsValid, Untouched, Untouched-IsValid, enters-Untouched,
  starts-Untouched, begins_stop-Untouched, leaves-Untouched,
}

module _ {K V : Type 0} ⦃key : Key K⦄ where
  -- The storage is valid, and an item that its maker holds is there and not processed.
  record IsSound (w : Shared K V) : Type 0 where
    valid : IsValid w.store
    open_held :
        (id : ℕ)
        → holds id w.held ≡ true
        → (id < length w.store.items) × ((item_at id w.store).processed ≡ false)

  -- A section that leaves the held items alone.
  spared-IsSound :
      (held : List ℕ) (w : Shared K V) (t : HashJoin K V)
      → IsSound w
      → ((j : ℕ) → holds j held ≡ true → holds j w.held ≡ true)
      → IsValid t
      → Spares held w.store t
      → IsSound (record { store = t; held = held })
  spared-IsSound held w t v fewer valid spares = record {
    valid = valid;
    open_held = λ j h.
        let (inside, free) = v.open_held j (fewer j h) in
        (omega (arith, inside, spares.inside), spares.same j h inside ∙ free);
  }

  kept-IsSound :
      (w : Shared K V) (t : HashJoin K V)
      → IsSound w
      → IsValid t
      → Spares w.held w.store t
      → IsSound (record w { store = t })
  kept-IsSound w t v valid spares = spared-IsSound w.held w t v (λ j h. h) valid spares

  Untouched-IsSound :
      (w : Shared K V) (t : HashJoin K V)
      → IsSound w
      → Untouched w.store t
      → IsSound (record w { store = t })
  Untouched-IsSound w t v u =
      kept-IsSound w t v (Untouched-IsValid u v.valid) (items-Spares w.held u.items)

  publish-IsSound :
      (r : Request K V) (made_at : ℕ) (w : Shared K V)
      → IsSound w
      → IsSound (hold_made w.held (publish r made_at w.store))
  publish-IsSound r made_at w v = elim (Option-cases (find_item r.key w.store)) [
    | inr (id, e) ↦
        rw (publish_present r made_at w.store e)
          (record { valid = v.valid; open_held = v.open_held })
    | inl e ↦
        let o = insert_item-Open r made_at w.store e v.valid in
        let kept = insert_item-Spares w.held r made_at w.store in
        rw (publish_absent r made_at w.store e) (record {
          valid = o.valid;
          open_held = λ j h. elim (Bool-cases ((insert_item r made_at w.store).0 == j)) [
            | inl same ↦
                subst
                  (λ i.
                    (i < length (insert_item r made_at w.store).1.items)
                    × ((item_at i (insert_item r made_at w.store).1).processed ≡ false))
                  (==_eq _ j same) (o.inside, o.free)
            | inr other ↦
                let (inside, free) = v.open_held j (ground (arith, other)) in
                (
                  omega (arith, inside, kept.inside),
                  kept.same j (ground (arith, other)) inside ∙ free,
                )
          ];
        })
  ]

  enter_made-IsSound :
      (id : ℕ) (r : Request K V) (round : Round) (w : Shared K V)
      → IsSound w
      → holds id w.held ≡ true
      → IsSound (record { store = (enter_new id r round w.store).1; held = release id w.held })
  enter_made-IsSound id r round w v e =
      let (inside, free) = v.open_held id e in
      spared-IsSound (release id w.held) w _ v (λ j h. holds-release j id w.held h)
        (enter_new-IsValid id r round w.store
          (record { valid = v.valid; inside = inside; free = free }))
        (enter_new-Spares (release id w.held) id r round w.store (released id w.held))

  enter_found-IsSound :
      (id : ℕ) (r : Request K V) (round : Round) (w : Shared K V)
      → IsSound w
      → (ltb id (length w.store.items) && not (holds id w.held)) ≡ true
      → IsSound (record w { store = (enter_found id r round w.store).1 })
  enter_found-IsSound id r round w v e =
      kept-IsSound w _ v (enter_found-IsValid id r round w.store v.valid (ground arith))
        (enter_found-Spares w.held id r round w.store (ground arith))

  finish_stop-Spares : (held : List ℕ) (s : HashJoin K V) → Spares held s (finish_stop s)
  unfolding finish_stop
  finish_stop-Spares held s =
      let f =
        Frame-trans (reset_callbacks-Frame s.current s) (reset_callbacks-Frame s.previous _) in
      let spared = Frame-Spares held f in record { inside = spared.inside; same = spared.same }

  section-IsSound : (x : Section K V) (w : Shared K V) → IsSound w → IsSound (section x w)
  unfolding section
  section-IsSound enters w v = Untouched-IsSound w _ v (enters-Untouched w.store)
  section-IsSound leaves w v = Untouched-IsSound w _ v (leaves-Untouched w.store)
  section-IsSound (publishes r made_at) w v =
      if_elim IsSound (ltb 0 w.store.active_operations) (λ _. publish-IsSound r made_at w v)
        (λ _. v)
  section-IsSound (enters_made id r round) w v =
      if_elim IsSound (holds id w.held) (λ e. enter_made-IsSound id r round w v e) (λ _. v)
  section-IsSound (enters_found id r round) w v =
      if_elim IsSound (ltb id (length w.store.items) && not (holds id w.held))
        (λ e. enter_found-IsSound id r round w v e) (λ _. v)
  section-IsSound (removes k id) w v =
      if_elim IsSound (item_at id w.store).processed
        (λ _.
          kept-IsSound w _ v (remove_if_same-IsValid k id w.store v.valid)
            (items-Spares w.held (remove_if_same-rest k id w.store).0))
        (λ _. v)
  section-IsSound (expires t) w v =
      if_elim IsSound (has_timer t.item t.generation w.store.timers && not (holds t.item w.held))
        (λ e.
          kept-IsSound w _ v (expire-IsValid t.item t.generation w.store v.valid)
            (expire-Spares w.held t.item t.generation w.store (ground arith)))
        (λ _. v)
  section-IsSound (cancels k id generation spawned) w v =
      if_elim IsSound (is_generation (item_at id w.store).cancel_callback generation)
        (λ _.
          let f = cancel_requested-Frame k id generation spawned w.store in
          kept-IsSound w _ v (Frame-IsValid f v.valid) (Frame-Spares w.held f))
        (λ _. v)
  section-IsSound rotates w v =
      kept-IsSound w _ v (rotate-IsValid w.store v.valid)
        (items-Spares w.held (rotate-rest w.store).0)
  section-IsSound (starts spawned) w v = Untouched-IsSound w _ v (starts-Untouched spawned w.store)
  section-IsSound begins_stop w v = Untouched-IsSound w _ v (begins_stop-Untouched w.store)
  section-IsSound finishes_stop w v =
      if_elim IsSound (is_stopping w.store.state && w.store.active_operations == 0)
        (λ _.
          kept-IsSound w _ v (finish_stop-IsValid w.store v.valid)
            (finish_stop-Spares w.held w.store))
        (λ _. v)

  sections-IsSound :
      (xs : List (Section K V)) (w : Shared K V) → IsSound w → IsSound (sections xs w)
  unfolding sections
  sections-IsSound [] w v = v
  sections-IsSound (x ∷ xs) w v = sections-IsSound xs (section x w) (section-IsSound x w v)

  run-IsSound :
      (xs : List (Section K V)) (ttl : ℤ) (renew_ttl : Bool)
      → IsSound (sections xs (constructed ttl renew_ttl))
  run-IsSound xs ttl renew_ttl =
      sections-IsSound xs _ (record { valid = fresh-IsValid ttl renew_ttl; open_held = λ id e. cc })

  -- Whatever callers, timers, cancellations, rotations and stops do to a new storage, section by
  -- section in any order, with other sections between the lookup, the publication and the lock of
  -- an item: no callback runs on an item that one has completed before, by its answer or on expiry.
  pub completed_once :
      (xs : List (Section K V)) (ttl : ℤ) (renew_ttl : Bool)
      → WellLogged (sections xs (constructed ttl renew_ttl)).store.log
  completed_once xs ttl renew_ttl = (run-IsSound xs ttl renew_ttl).valid.log.ordered

  -- Whatever callers, timers, cancellations, rotations and stops do to a new storage, section by
  -- section in any order, with other sections between a lookup and the publication: `count` is the
  -- number of entries of the two generations, each of which has a key once, no key is in both, and
  -- each entry is an item of the storage.
  pub counted_once :
      (xs : List (Section K V)) (ttl : ℤ) (renew_ttl : Bool)
      → MapsAreValid (sections xs (constructed ttl renew_ttl)).store
  counted_once xs ttl renew_ttl = (run-IsSound xs ttl renew_ttl).valid.maps
