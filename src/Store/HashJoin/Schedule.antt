-- ===== src/Store/HashJoin/Schedule.antt =====
-- runtime/store/hashmap.hpp: any number of callers, timers and rotations, section by section.
-- The section under an item's lock ends, for a renewal, with a look into the maps under `mu_`; the rest of
-- it neither reads nor writes the maps, so that it stands at that point.
use cppservicelib.Prelude.{
  ℕ, ◌≡◌, refl, inl, Bool, true, false, not, ◌&&◌, ◌||◌, List, [], ◌∷◌, Option, none, some, ltb,
  ◌==◌, if◌then◌else◌, ℤ, length, arith,
}
use cppservicelib.Dict.{Key, Dict, find}
use cppservicelib.Store.{Result, ok, err, State}
use cppservicelib.Store.HashJoin.{Timer, HashJoin, item_at, find_item, fresh}
use cppservicelib.Store.HashJoin.Items.{cancel_requested, remove_if_same, expire, rotate}
use cppservicelib.Store.HashJoin.Join.{
  Round, Request, publish, enter_new, enter_found, enter_operation, leave_operation, start,
  begin_stop, finish_stop, reset_callbacks,
}
use cppservicelib.Store.HashJoin.Invariant.{IsValid, with_item-IsValid}
use cppservicelib.Store.HashJoin.Maps.{rotate-MapsAreValid, rotate-rest}
use cppservicelib.Store.HashJoin.Sections.{same-LogIsValid}
use cppservicelib.Store.HashJoin.Spared.{holds}

pub data Section (K V : Type 0) : Type 0 where
  -- a caller of `joinValue`
  enters leaves : Section K V
  -- after a lookup that found nothing, under `mu_`
  publishes : Request K V → ℕ → Section K V
  -- under the lock of the item that the caller has just published, which it took before
  enters_made : ℕ → Request K V → Round → Section K V
  -- under the lock of an item that the caller found at any time before
  enters_found : ℕ → Request K V → Round → Section K V
  removes : K → ℕ → Section K V
  -- a timer, or the stop callback of an item
  expires : Timer K → Section K V
  cancels : K → ℕ → ℕ → Bool → Section K V
  rotates : Section K V
  starts : Bool → Section K V
  begins_stop finishes_stop : Section K V

abbrev pub has_timer : {K : Type 0} → ℕ → ℕ → List (Timer K) → Bool
has_timer id generation [] = false
has_timer id generation (t ∷ ts) =
    t.item == id && t.generation == generation || has_timer id generation ts

abbrev pub is_generation : Option ℕ → ℕ → Bool
is_generation none generation = false
is_generation (some g) generation = g == generation

abbrev pub is_stopping : State → Bool
is_stopping State.stopping = true
is_stopping _ = false

-- The storage, and the items that their makers have locked since before they published them.
pub record Shared (K V : Type 0) : Type 0 where
  pub store : HashJoin K V
  pub held : List ℕ

abbrev pub release : ℕ → List ℕ → List ℕ
release id [] = []
release id (x ∷ xs) = let rest = release id xs in if x == id then rest else x ∷ rest

pub holds-release :
    (j id : ℕ) (held : List ℕ) → holds j (release id held) ≡ true → holds j held ≡ true
holds-release j id [] e = e
holds-release j id (x ∷ xs) e = ground (arith, holds-release j id xs)

pub released : (id : ℕ) (held : List ℕ) → holds id (release id held) ≡ false
released id [] = refl
released id (x ∷ xs) = ground (arith, released id xs)

module _ {K V : Type 0} ⦃key : Key K⦄ where
  abbrev pub admitted : HashJoin K V → Result (HashJoin K V) → HashJoin K V
  admitted s (ok t) = t
  admitted s (err e) = s

  abbrev pub hold_made : List ℕ → (Bool × ℕ) × HashJoin K V → Shared K V
  hold_made held ((true, id), t) = record { store = t; held = id ∷ held }
  hold_made held ((false, id), t) = record { store = t; held = held }

  -- A section runs when its thread can be there: inside an operation, with the item's lock free or
  -- its own, with a processed item to remove, from a timer or a registered callback, or with no
  -- operation left to wait for. A caller may enter any item that is there, which is more than its
  -- lookup can have found.
  unfoldable pub section : Section K V → Shared K V → Shared K V
  section enters w = record w { store = admitted w.store (enter_operation w.store) }
  section leaves w = record w { store = leave_operation w.store }
  section (publishes r made_at) w =
      if ltb 0 w.store.active_operations then hold_made w.held (publish r made_at w.store) else w
  section (enters_made id r round) w =
      if holds id w.held
      then record { store = (enter_new id r round w.store).1; held = release id w.held }
      else w
  section (enters_found id r round) w =
      if ltb id (length w.store.items) && not (holds id w.held)
      then record w { store = (enter_found id r round w.store).1 }
      else w
  section (removes k id) w =
      if (item_at id w.store).processed then record w { store = remove_if_same k id w.store } else w
  section (expires t) w =
      if has_timer t.item t.generation w.store.timers && not (holds t.item w.held)
      then record w { store = expire t.item t.generation w.store }
      else w
  section (cancels k id generation spawned) w =
      if is_generation (item_at id w.store).cancel_callback generation
      then record w { store = cancel_requested k id generation spawned w.store }
      else w
  section rotates w = record w { store = rotate w.store }
  section (starts spawned) w = record w { store = (start spawned w.store).1 }
  section begins_stop w = record w { store = (begin_stop w.store).1 }
  section finishes_stop w =
      if is_stopping w.store.state && w.store.active_operations == 0
      then record w { store = finish_stop w.store }
      else w

  unfoldable pub sections : List (Section K V) → Shared K V → Shared K V
  sections [] w = w
  sections (x ∷ xs) w = sections xs (section x w)

  abbrev pub constructed : ℤ → Bool → Shared K V
  constructed ttl renew_ttl = record { store = fresh ttl renew_ttl; held = [] }

  pub fresh-IsValid : (ttl : ℤ) (renew_ttl : Bool) → IsValid {K = K} {V = V} (fresh ttl renew_ttl)
  unfolding find_item find
  fresh-IsValid ttl renew_ttl = record {
    maps = record {
      current_once = tt;
      previous_once = tt;
      apart = λ q. inl refl;
      counted = refl;
      known = λ k id e. cc;
    };
    log = record { ordered = tt; logged = λ id e. cc };
  }

  pub rotate-IsValid : (s : HashJoin K V) → IsValid s → IsValid (rotate s)
  rotate-IsValid s v =
      let (items, log, _, _) = rotate-rest s in
      record { maps = rotate-MapsAreValid s v.maps; log = same-LogIsValid items log v.log }

  reset_callbacks-IsValid :
      (d : Dict K ℕ) (s : HashJoin K V) → IsValid s → IsValid (reset_callbacks d s)
  unfolding reset_callbacks
  reset_callbacks-IsValid [] s v = v
  reset_callbacks-IsValid (e ∷ d) s v =
      reset_callbacks-IsValid d _
        (with_item-IsValid (λ i. record i { cancel_callback = none }) (λ i h. h) e.1 s v)

  pub finish_stop-IsValid : (s : HashJoin K V) → IsValid s → IsValid (finish_stop s)
  unfolding finish_stop find_item find
  finish_stop-IsValid s v =
      let w = reset_callbacks-IsValid s.previous _ (reset_callbacks-IsValid s.current s v) in
      record {
        maps = record {
          current_once = tt;
          previous_once = tt;
          apart = λ q. inl refl;
          counted = refl;
          known = λ k id e. cc;
        };
        log = record { ordered = w.log.ordered; logged = w.log.logged };
      }

  -- The lifecycle sections touch neither the maps nor the items.
  pub record Untouched (s t : HashJoin K V) : Type 0 where
    pub current : t.current ≡ s.current
    pub previous : t.previous ≡ s.previous
    pub count : t.count ≡ s.count
    pub items : t.items ≡ s.items
    pub log : t.log ≡ s.log

  pub Untouched-IsValid : {s t : HashJoin K V} → Untouched s t → IsValid s → IsValid t
  unfolding find_item
  Untouched-IsValid u v = record {
    maps = record {
      current_once = rw u.current v.maps.current_once;
      previous_once = rw u.previous v.maps.previous_once;
      apart = rw (u.current, u.previous) v.maps.apart;
      counted = rw (u.count, u.current, u.previous) v.maps.counted;
      known = λ k id e. rw u.items (v.maps.known k id (rw (u.current, u.previous) at e));
    };
    log = same-LogIsValid u.items u.log v.log;
  }

  pub enters-Untouched : (s : HashJoin K V) → Untouched s (admitted s (enter_operation s))
  unfolding enter_operation
  enters-Untouched s = ground arith

  pub starts-Untouched : (spawned : Bool) (s : HashJoin K V) → Untouched s (start spawned s).1
  unfolding start
  starts-Untouched spawned s = ground arith

  pub begins_stop-Untouched : (s : HashJoin K V) → Untouched s (begin_stop s).1
  unfolding begin_stop
  begins_stop-Untouched s = ground arith

  pub leaves-Untouched : (s : HashJoin K V) → Untouched s (leave_operation s)
  unfolding leave_operation
  leaves-Untouched s = ground arith
