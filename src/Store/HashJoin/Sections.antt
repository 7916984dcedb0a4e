-- ===== src/Store/HashJoin/Sections.antt =====
-- runtime/store/hashmap.hpp: every section keeps the storage valid.
use cppservicelib.Prelude.{
  ℕ, zero, suc, ◌<◌, ◌≡◌, refl, sym, subst, inl, inr, true, false, not, ◌||◌, List, [], ◌∷◌, none,
  ◌==◌, length, get_or, length-set, get_or-set, get_or-append_left, Bool-cases, arith, ==_eq,
  length-append,
}
use cppservicelib.Dict.{Key}
use cppservicelib.Dict.Laws.{find-emplace, emplace-Unique, length-emplace, find_congr}
use cppservicelib.Store.HashJoin.{
  Item, Event, joined, expired, HashJoin, item_at, no_item, find_item,
}
use cppservicelib.Store.HashJoin.Items.{with_item, expire_item, expire}
use cppservicelib.Store.HashJoin.Join.{Request, insert_item, accept}
use cppservicelib.Store.HashJoin.Invariant.{finished_in, item_of, LogIsValid, IsValid}

inside_of_open :
    {V : Type 0} (is : List (Item V)) (i : ℕ)
    → (get_or is i no_item).processed ≡ false
    → i < length is
inside_of_open [] i e = cc
inside_of_open (x ∷ is) zero e = omega arith
inside_of_open (x ∷ is) (suc i) e = omega (arith, inside_of_open is i e)

module _ {V : Type 0} where
  finished_in-cons :
      (j : ℕ) (e : Event V) (l : List (Event V))
      → finished_in j (e ∷ l) ≡ finished_in j (e ∷ []) || finished_in j l
  finished_in-cons j (joined i vs done) l = ground arith
  finished_in-cons j (expired i vs) l = ground arith

  finished_in_other :
      (j : ℕ) (e : Event V) → (item_of e == j) ≡ false → finished_in j (e ∷ []) ≡ false
  finished_in_other j (joined i vs done) h = ground arith
  finished_in_other j (expired i vs) h = ground arith

module _ {K V : Type 0} ⦃key : Key K⦄ where
  pub same-LogIsValid :
      {s t : HashJoin K V} → t.items ≡ s.items → t.log ≡ s.log → LogIsValid s → LogIsValid t
  same-LogIsValid i l v = record {
    ordered = rw l v.ordered;
    logged = λ id e. rw i (v.logged id (rw l at e));
  }

  unfinished :
      (id : ℕ) (s : HashJoin K V)
      → LogIsValid s
      → (item_at id s).processed ≡ false
      → finished_in id s.log ≡ false
  unfinished id s v free = elim (Bool-cases (finished_in id s.log)) [
    | inr e ↦ e
    | inl e ↦ let p = v.logged id e in ground (arith, p.1)
  ]

  -- A call on an item that is not processed yet, which leaves `item` in its place.
  pub called-IsValid :
      (id : ℕ) (item : Item V) (e : Event V) (s : HashJoin K V)
      → IsValid s
      → id < length s.items
      → (item_at id s).processed ≡ false
      → item_of e ≡ id
      → (finished_in id (e ∷ []) ≡ true → item.processed ≡ true)
      → IsValid (record (with_item id item s) { log = e ∷ s.log })
  unfolding with_item find_item
  called-IsValid id item e s v inside free about completes = record {
    maps = record {
      current_once = v.maps.current_once;
      previous_once = v.maps.previous_once;
      apart = v.maps.apart;
      counted = v.maps.counted;
      known = λ k j found. rw (length-set s.items id item) (v.maps.known k j found);
    };
    log = record {
      ordered = (rw about quiet, v.log.ordered);
      logged = λ j done.
          rw (length-set s.items id item, get_or-set s.items id j item no_item inside)
            (elim (Bool-cases (id == j)) [
              | inl same ↦ rw same (
                rw (← ==_eq id j same) inside,
                completes (here j same (rw (finished_in-cons j e s.log) at done)),
              )
              | inr other ↦
                  rw other
                    (v.log.logged j (there j other (rw (finished_in-cons j e s.log) at done)))
            ]);
    };
  }
    where
      quiet : finished_in id s.log ≡ false
      quiet = unfinished id s v.log free

      here :
          (j : ℕ)
          → (id == j) ≡ true
          → (finished_in j (e ∷ []) || finished_in j s.log) ≡ true
          → finished_in id (e ∷ []) ≡ true
      here j same done =
          let old : finished_in j s.log ≡ false =
            subst (λ i. finished_in i s.log ≡ false) (==_eq id j same) quiet in
          subst (λ i. finished_in i (e ∷ []) ≡ true) (sym (==_eq id j same)) (ground arith)

      there :
          (j : ℕ)
          → (id == j) ≡ false
          → (finished_in j (e ∷ []) || finished_in j s.log) ≡ true
          → finished_in j s.log ≡ true
      there j other done = let f = finished_in_other j e (rw about other) in ground (arith, f)

  pub accept-IsValid :
      (id : ℕ) (r : Request K V) (s : HashJoin K V)
      → IsValid s
      → id < length s.items
      → (item_at id s).processed ≡ false
      → IsValid (accept id r s).1
  unfolding accept
  accept-IsValid id r s v inside free =
      called-IsValid id _ (joined id _ _) s v inside free refl (λ e. ground arith)

  pub expire_item-IsValid :
      (id : ℕ) (s : HashJoin K V)
      → IsValid s
      → id < length s.items
      → (item_at id s).processed ≡ false
      → IsValid (expire_item id s)
  unfolding expire_item
  expire_item-IsValid id s v inside free =
      called-IsValid id _ (expired id _) s v inside free refl (λ e. refl)

  pub expire-IsValid :
      (id generation : ℕ) (s : HashJoin K V) → IsValid s → IsValid (expire id generation s)
  unfolding expire
  expire-IsValid id generation s v =
      elim (Bool-cases
        ((item_at id s).processed || not ((item_at id s).generation == generation))) [
          | inl e ↦ rw e v
          | inr e ↦
              let free : (item_at id s).processed ≡ false = ground arith in
              rw e (expire_item-IsValid id s v (inside_of_open s.items id free) free)
        ]

  pub insert_item-IsValid :
      (r : Request K V) (made_at : ℕ) (s : HashJoin K V)
      → find_item r.key s ≡ none
      → IsValid s
      → IsValid (insert_item r made_at s).1
  unfolding insert_item find_item
  insert_item-IsValid r made_at s absent v = record {
    maps = record {
      current_once = emplace-Unique r.key (length s.items) s.current v.maps.current_once;
      previous_once = v.maps.previous_once;
      apart = λ q. ground (
        arith,
        absent,
        v.maps.apart q,
        find-emplace q r.key (length s.items) s.current,
        find_congr q r.key s.previous,
      );
      counted =
          ground (arith, absent, v.maps.counted, length-emplace r.key (length s.items) s.current);
      known = λ q j found. rw (length-append s.items _) (
          ground (
            arith,
            absent,
            found,
            v.maps.known q j,
            find-emplace q r.key (length s.items) s.current,
          ));
    };
    log = record {
      ordered = v.log.ordered;
      logged = λ j done.
          let (inside, processed) = v.log.logged j done in
          (
            rw (length-append s.items _) (omega arith),
            rw (get_or-append_left s.items _ j no_item inside) processed,
          );
    };
  }
