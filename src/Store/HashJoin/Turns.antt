-- ===== src/Store/HashJoin/Turns.antt =====
-- runtime/store/hashmap.hpp: a turn of the loop of `joinValue` keeps the storage valid.
use cppservicelib.Prelude.{
  ℕ, ◌+◌, ◌<◌, ◌≡◌, refl, ap, ◌∙◌, inl, inr, true, false, ◌&&◌, none, some, length, length-set,
  get_or-modify, get_or-append_last, if_elim, Option-cases, arith, length-append, is_positive,
}
use cppservicelib.Dict.{Key}
use cppservicelib.Store.{Result, ok, err}
use cppservicelib.Store.HashJoin.{Item, HashJoin, item_at, no_item, find_item}
use cppservicelib.Store.HashJoin.Items.{with_item, remove_if_same, expire_item}
use cppservicelib.Store.HashJoin.Join.{
  Round, Request, Next, again, finished, kept, thrown, undone, insert_item, publish,
  enter_published, accept, move_to_current, renew, enter_new, after_renewal, after_arming,
  after_first_arming, enter_found, is_past, work, settle, deadline_from,
}
use cppservicelib.Store.HashJoin.Frame.{Frame, arm_expiry-Frame}
use cppservicelib.Store.HashJoin.Invariant.{IsValid, Frame-IsValid, with_item-IsValid}
use cppservicelib.Store.HashJoin.Maps.{
  remove_if_same-MapsAreValid, remove_if_same-rest, move_to_current-MapsAreValid,
  move_to_current-rest,
}
use cppservicelib.Store.HashJoin.Sections.{
  same-LogIsValid, accept-IsValid, expire_item-IsValid, insert_item-IsValid,
}

module _ {K V : Type 0} ⦃key : Key K⦄ where
  -- Valid, and the item is there and open.
  pub record Open (id : ℕ) (s : HashJoin K V) : Type 0 where
    pub valid : IsValid s
    pub inside : id < length s.items
    pub free : (item_at id s).processed ≡ false

  Frame-Open : (id : ℕ) {s t : HashJoin K V} → Frame s t → Open id s → Open id t
  Frame-Open id f o = record {
    valid = Frame-IsValid f o.valid;
    inside = rw f.length_items o.inside;
    free = ap (λ c. c.2) (f.cores id) ∙ o.free;
  }

  -- An update of the item's timing keeps it open.
  with_item-Open :
      (f : Item V → Item V)
      → ((i : Item V) → (f i).processed ≡ i.processed)
      → (id : ℕ) (s : HashJoin K V) → Open id s
      → Open id (with_item id (f (item_at id s)) s)
  unfolding with_item
  with_item-Open f same id s o = record {
    valid = unfold with_item in with_item-IsValid f (λ i e. same i ∙ e) id s o.valid;
    inside = rw (length-set s.items id (f (item_at id s))) o.inside;
    free =
        get_or-modify (λ i. i.processed ≡ false) f no_item (λ i e. same i ∙ e) s.items id id o.free;
  }

  move_to_current-Open :
      (k : K) (id : ℕ) (s : HashJoin K V) → Open id s → Open id (move_to_current k id s)
  move_to_current-Open k id s o =
      let (items, log, _, _, _) = move_to_current-rest k id s in
      record {
        valid = record {
          maps = move_to_current-MapsAreValid k id s o.valid.maps;
          log = same-LogIsValid items log o.valid.log;
        };
        inside = rw items o.inside;
        free = rw items o.free;
      }

  pub remove_if_same-IsValid :
      (k : K) (id : ℕ) (s : HashJoin K V) → IsValid s → IsValid (remove_if_same k id s)
  remove_if_same-IsValid k id s v =
      let (items, log, _, _) = remove_if_same-rest k id s in
      record {
        maps = remove_if_same-MapsAreValid k id s v.maps;
        log = same-LogIsValid items log v.log;
      }

  pub settle-IsValid :
      (k : K) (next : Next) (s : HashJoin K V) → IsValid s → IsValid (settle k next s).1
  unfolding settle
  settle-IsValid k (again id) s v = remove_if_same-IsValid k id s v
  settle-IsValid k (finished id) s v = remove_if_same-IsValid k id s v
  settle-IsValid k kept s v = v
  settle-IsValid k (thrown e) s v = v
  settle-IsValid k (undone id e) s v = remove_if_same-IsValid k id s v

  after_arming-Open :
      (k : K) (id : ℕ) (old : Item V) (p : Result (Unit {0}) × HashJoin K V)
      → Open id p.1
      → Open id (after_arming k id old p).1
  unfolding after_arming
  after_arming-Open k id old (ok u, t) o = move_to_current-Open k id t o
  after_arming-Open k id old (err e, t) o =
      with_item-Open
        (λ i. record i {
          cancel_callback = none;
          deadline = old.deadline;
          generation = old.generation;
          armed_generation = old.armed_generation;
          cancelled_generation = old.cancelled_generation;
        })
        (λ i. refl) id t o

  renew-Open :
      (id : ℕ) (r : Request K V) (round : Round) (s : HashJoin K V)
      → Open id s
      → Open id (renew id r round s).1
  unfolding renew
  renew-Open id r round s o =
      let deadline = deadline_from r.context r.ttl round.now in
      after_arming-Open r.key id (item_at id s) _ (
        Frame-Open id (arm_expiry-Frame r.key id r.context _ deadline round.spawns _) (
          with_item-Open
            (λ i. record i {
              deadline = some deadline;
              generation = i.generation + 1;
              cancel_callback = none;
            })
            (λ i. refl) id s o))

  accept-Open :
      (id : ℕ) (r : Request K V) (s : HashJoin K V) → Open id s → IsValid (accept id r s).1
  accept-Open id r s o = accept-IsValid id r s o.valid o.inside o.free

  after_renewal-IsValid :
      (id : ℕ) (r : Request K V) (p : Result (Unit {0}) × HashJoin K V)
      → Open id p.1
      → IsValid (after_renewal id r p).1
  unfolding after_renewal
  after_renewal-IsValid id r (ok u, t) o = accept-Open id r t o
  after_renewal-IsValid id r (err e, t) o = o.valid

  after_first_arming-IsValid :
      (id : ℕ) (r : Request K V) (p : Result (Unit {0}) × HashJoin K V)
      → Open id p.1
      → IsValid (after_first_arming id r p).1
  unfolding after_first_arming
  after_first_arming-IsValid id r (ok u, t) o = accept-Open id r t o
  after_first_arming-IsValid id r (err e, t) o =
      with_item-IsValid (λ i. record i { processed = true; cancel_callback = none }) (λ i h. refl)
        id t o.valid

  pub enter_new-IsValid :
      (id : ℕ) (r : Request K V) (round : Round) (s : HashJoin K V)
      → Open id s
      → IsValid (enter_new id r round s).1
  unfolding enter_new
  enter_new-IsValid id r round s o = elim (Option-cases (item_at id s).deadline) [
    | inl e ↦ rw (e, enter_new) (accept-Open id r s o)
    | inr (d, e) ↦
        rw (e, enter_new)
          (after_first_arming-IsValid id r _ (
            Frame-Open id (arm_expiry-Frame r.key id r.context _ d round.spawns _) (
              with_item-Open (λ i. record i { generation = i.generation + 1 }) (λ i. refl) id s o)))
  ]

  -- The storage that a section leaves is valid.
  abbrev After : Next × HashJoin K V → Type 0
  After p = IsValid p.1

  expired-Open :
      (id : ℕ) (s : HashJoin K V)
      → Open id s
      → IsValid (
          expire_item id
            (with_item id (record (item_at id s) { generation = (item_at id s).generation + 1 }) s))
  expired-Open id s o =
      let p = with_item-Open (λ i. record i { generation = i.generation + 1 }) (λ i. refl) id s o in
      expire_item-IsValid id _ p.valid p.inside p.free

  pub enter_found-IsValid :
      (id : ℕ) (r : Request K V) (round : Round) (s : HashJoin K V)
      → IsValid s
      → id < length s.items
      → IsValid (enter_found id r round s).1
  unfolding enter_found
  enter_found-IsValid id r round s v inside =
      if_elim After (item_at id s).processed (λ e. v)
        λ free.
          let o : Open id s = record { valid = v; inside = inside; free = free } in
          if_elim After (is_past (item_at id s).deadline round.now) (λ e. expired-Open id s o)
            λ e.
              if_elim After (is_positive r.ttl && s.renew_ttl)
                (λ f. after_renewal-IsValid id r _ (renew-Open id r round s o))
                (λ f. accept-Open id r s o)

  pub insert_item-Open :
      (r : Request K V) (made_at : ℕ) (s : HashJoin K V)
      → find_item r.key s ≡ none
      → IsValid s
      → Open (insert_item r made_at s).0 (insert_item r made_at s).1
  insert_item-Open r made_at s absent v = record {
    valid = insert_item-IsValid r made_at s absent v;
    inside = unfold insert_item in (rw (length-append s.items _) (omega arith));
    free = unfold insert_item in (rw (get_or-append_last s.items _ no_item) refl);
  }

  pub publish_absent :
      (r : Request K V) (made_at : ℕ) (s : HashJoin K V)
      → find_item r.key s ≡ none
      → publish r made_at s ≡ ((true, (insert_item r made_at s).0), (insert_item r made_at s).1)
  unfolding publish
  publish_absent r made_at s e = rw (e, publish) refl

  pub publish_present :
      (r : Request K V) (made_at : ℕ) (s : HashJoin K V) {id : ℕ}
      → find_item r.key s ≡ some id
      → publish r made_at s ≡ ((false, id), s)
  unfolding publish
  publish_present r made_at s e = rw (e, publish) refl

  -- A turn of the loop, with whatever the clock and the engine do.
  pub work-IsValid :
      (r : Request K V) (round : Round) (s : HashJoin K V) → IsValid s → IsValid (work r round s).1
  unfolding work enter_published
  work-IsValid r round s v = elim (Option-cases (find_item r.key s)) [
    | inr (id, e) ↦ rw (e, work) (enter_found-IsValid id r round s v (v.maps.known r.key id e))
    | inl e ↦
        rw (e, work, publish_absent r round.made_at s e)
          (enter_new-IsValid _ r round _ (insert_item-Open r round.made_at s e v))
  ]
