-- ===== src/Store/HashJoin/Invariant.antt =====
-- runtime/store/hashmap.hpp: what holds between two sections.
use cppservicelib.Prelude.{
  ℕ, ◌+◌, ◌<◌, ◌≡◌, refl, sym, ap, ◌∙◌, Bool, true, false, ◌&&◌, ◌||◌, List, [], ◌∷◌, some, ◌==◌,
  or_else, length, length-set, get_or-modify, arith,
}
use cppservicelib.Dict.{Key, find, Unique}
use cppservicelib.Dict.Laws.{Apart}
use cppservicelib.Store.HashJoin.{
  Item, Event, joined, expired, HashJoin, item_at, no_item, find_item,
}
use cppservicelib.Store.HashJoin.Items.{with_item}
use cppservicelib.Store.HashJoin.Frame.{Frame}

-- Whether the callback has completed the item: by its answer, or on expiry.
abbrev pub finished_in : {V : Type 0} → ℕ → List (Event V) → Bool
finished_in id [] = false
finished_in id (joined j vs done ∷ l) = j == id && done || finished_in id l
finished_in id (expired j vs ∷ l) = j == id || finished_in id l

abbrev pub item_of : {V : Type 0} → Event V → ℕ
item_of (joined j vs done) = j
item_of (expired j vs) = j

-- No callback runs on an item after one has completed it.
abbrev pub WellLogged : {V : Type 0} → List (Event V) → Type 0
WellLogged [] = Unit {0}
WellLogged (e ∷ l) = (finished_in (item_of e) l ≡ false) × WellLogged l

module _ {K V : Type 0} ⦃key : Key K⦄ where
  -- Each key is in the maps once, and `count` is the number of keys.
  pub record MapsAreValid (s : HashJoin K V) : Type 0 where
    pub current_once : Unique s.current
    pub previous_once : Unique s.previous
    pub apart : Apart s.current s.previous
    pub counted : s.count ≡ length s.current + length s.previous
    pub known : (k : K) (id : ℕ) → find_item k s ≡ some id → id < length s.items

  -- An item that a callback has completed is processed.
  pub record LogIsValid (s : HashJoin K V) : Type 0 where
    pub ordered : WellLogged s.log
    pub logged :
        (id : ℕ)
        → finished_in id s.log ≡ true
        → (id < length s.items) × ((item_at id s).processed ≡ true)

  pub record IsValid (s : HashJoin K V) : Type 0 where
    pub maps : MapsAreValid s
    pub log : LogIsValid s

  pub find_item-or_else :
      (k : K) (s : HashJoin K V) → find_item k s ≡ or_else (find k s.current) (find k s.previous)
  unfolding find_item
  find_item-or_else k s = ground arith

  pub Frame-find_item : {s t : HashJoin K V} (k : K) → Frame s t → find_item k t ≡ find_item k s
  unfolding find_item
  Frame-find_item k f = rw (f.current, f.previous) refl

  pub Frame-IsValid : {s t : HashJoin K V} → Frame s t → IsValid s → IsValid t
  Frame-IsValid {s} {t} f v = record {
    maps = record {
      current_once = rw f.current v.maps.current_once;
      previous_once = rw f.previous v.maps.previous_once;
      apart = rw (f.current, f.previous) v.maps.apart;
      counted = rw (f.count, f.current, f.previous) v.maps.counted;
      known = λ k id e. rw f.length_items (v.maps.known k id (sym (Frame-find_item k f) ∙ e));
    };
    log = record {
      ordered = rw f.log v.log.ordered;
      logged = λ id e.
          let (inside, done) = v.log.logged id (rw f.log at e) in
          (rw f.length_items inside, ap (λ c. c.2) (f.cores id) ∙ done);
    };
  }

  -- An update of an item that takes no item back from `processed`.
  pub with_item-IsValid :
      (f : Item V → Item V)
      → ((i : Item V) → i.processed ≡ true → (f i).processed ≡ true)
      → (id : ℕ) (s : HashJoin K V) → IsValid s
      → IsValid (with_item id (f (item_at id s)) s)
  unfolding with_item find_item
  with_item-IsValid f keep id s v = record {
    maps = record {
      current_once = v.maps.current_once;
      previous_once = v.maps.previous_once;
      apart = v.maps.apart;
      counted = v.maps.counted;
      known = λ k j e. rw (length-set s.items id (f (item_at id s))) (v.maps.known k j e);
    };
    log = record {
      ordered = v.log.ordered;
      logged = λ j e.
          let (inside, done) = v.log.logged j e in
          (
            rw (length-set s.items id (f (item_at id s))) inside,
            get_or-modify (λ i. i.processed ≡ true) f no_item keep s.items id j done,
          );
    };
  }
