-- ===== src/Store/HashJoin/Spared.antt =====
-- runtime/store/hashmap.hpp: an item whose lock another thread holds is left alone.
use cppservicelib.Prelude.{
  ℕ, zero, suc, ◌+◌, ◌<◌, ◌≡◌, refl, ap, ◌∙◌, inl, inr, Bool, true, false, ◌&&◌, not, ◌||◌, List,
  [], ◌∷◌, none, ◌==◌, length, length-set, length-append, get_or, set, get_or-append_left, if_elim,
  Option-cases, arith, is_positive,
}
use cppservicelib.Dict.{Key, Dict}
use cppservicelib.Store.{Result, ok, err}
use cppservicelib.Store.HashJoin.{Item, HashJoin, item_at, no_item}
use cppservicelib.Store.HashJoin.Items.{with_item, expire_item, expire}
use cppservicelib.Store.HashJoin.Join.{
  Round, Request, Next, insert_item, accept, renew, enter_new, after_renewal, after_arming,
  after_first_arming, enter_found, is_past, reset_callbacks,
}
use cppservicelib.Store.HashJoin.Frame.{
  Frame, Frame-refl, Frame-trans, with_item-Frame, arm_expiry-Frame,
}
use cppservicelib.Store.HashJoin.Maps.{move_to_current-rest}

abbrev pub holds : ℕ → List ℕ → Bool
holds id [] = false
holds id (x ∷ xs) = x == id || holds id xs

set_other :
    {V : Type 0} (is : List (Item V)) (i j : ℕ) (v : Item V)
    → (i == j) ≡ false
    → get_or (set is i v) j no_item ≡ get_or is j no_item
set_other [] i j v h = refl
set_other (x ∷ is) zero zero v h = cc
set_other (x ∷ is) zero (suc j) v h = refl
set_other (x ∷ is) (suc i) zero v h = refl
set_other (x ∷ is) (suc i) (suc j) v h = set_other is i j v (ground arith)

other_of :
    (id j : ℕ) (held : List ℕ) → holds id held ≡ false → holds j held ≡ true → (id == j) ≡ false
other_of id j held h k = grind (arith)

module _ {K V : Type 0} ⦃key : Key K⦄ where
  -- The items of `held` stay, and stay as they are: processed or not.
  pub record Spares (held : List ℕ) (s t : HashJoin K V) : Type 0 where
    pub inside : length s.items < length t.items + 1
    pub same :
        (j : ℕ)
        → holds j held ≡ true
        → j < length s.items
        → (item_at j t).processed ≡ (item_at j s).processed

  pub items-Spares : (held : List ℕ) {s t : HashJoin K V} → t.items ≡ s.items → Spares held s t
  items-Spares held e = record { inside = rw e (omega arith); same = λ j h k. rw e refl }

  Spares-trans :
      {held : List ℕ} {s t u : HashJoin K V} → Spares held s t → Spares held t u → Spares held s u
  Spares-trans a b = record {
    inside = omega (arith, a.inside, b.inside);
    same = λ j h k. b.same j h (omega (arith, a.inside)) ∙ a.same j h k;
  }

  pub Frame-Spares : (held : List ℕ) {s t : HashJoin K V} → Frame s t → Spares held s t
  Frame-Spares held f = record {
    inside = rw f.length_items (omega arith);
    same = λ j h k. ap (λ c. c.2) (f.cores j);
  }

  with_item-Spares :
      (held : List ℕ) (id : ℕ) (item : Item V) (s : HashJoin K V)
      → holds id held ≡ false
      → Spares held s (with_item id item s)
  unfolding with_item
  with_item-Spares held id item s e = record {
    inside = rw (length-set s.items id item) (omega arith);
    same = λ j h k. ap (λ i. i.processed) (set_other s.items id j item (other_of id j held e h));
  }

  accept-Spares :
      (held : List ℕ) (id : ℕ) (r : Request K V) (s : HashJoin K V)
      → holds id held ≡ false
      → Spares held s (accept id r s).1
  unfolding accept
  accept-Spares held id r s e =
      Spares-trans (with_item-Spares held id _ s e) (items-Spares held refl)

  expire_item-Spares :
      (held : List ℕ) (id : ℕ) (s : HashJoin K V)
      → holds id held ≡ false
      → Spares held s (expire_item id s)
  unfolding expire_item
  expire_item-Spares held id s e =
      Spares-trans (with_item-Spares held id _ s e) (items-Spares held refl)

  pub expire-Spares :
      (held : List ℕ) (id generation : ℕ) (s : HashJoin K V)
      → holds id held ≡ false
      → Spares held s (expire id generation s)
  unfolding expire
  expire-Spares held id generation s e =
      if_elim (Spares held s)
        ((item_at id s).processed || not ((item_at id s).generation == generation))
        (λ _. items-Spares held refl) (λ _. expire_item-Spares held id s e)

  after_arming-Spares :
      (held : List ℕ) (k : K) (id : ℕ) (old : Item V) (p : Result (Unit {0}) × HashJoin K V)
      → holds id held ≡ false
      → Spares held p.1 (after_arming k id old p).1
  unfolding after_arming
  after_arming-Spares held k id old (ok u, t) e = items-Spares held (move_to_current-rest k id t).0
  after_arming-Spares held k id old (err x, t) e = with_item-Spares held id _ t e

  renew-Spares :
      (held : List ℕ) (id : ℕ) (r : Request K V) (round : Round) (s : HashJoin K V)
      → holds id held ≡ false
      → Spares held s (renew id r round s).1
  unfolding renew
  renew-Spares held id r round s e = Spares-trans (with_item-Spares held id _ s e) (
      Spares-trans (Frame-Spares held (arm_expiry-Frame r.key id r.context _ _ round.spawns _))
        (after_arming-Spares held r.key id _ _ e))

  after_renewal-Spares :
      (held : List ℕ) (id : ℕ) (r : Request K V) (p : Result (Unit {0}) × HashJoin K V)
      → holds id held ≡ false
      → Spares held p.1 (after_renewal id r p).1
  unfolding after_renewal
  after_renewal-Spares held id r (ok u, t) e = accept-Spares held id r t e
  after_renewal-Spares held id r (err x, t) e = items-Spares held refl

  after_first_arming-Spares :
      (held : List ℕ) (id : ℕ) (r : Request K V) (p : Result (Unit {0}) × HashJoin K V)
      → holds id held ≡ false
      → Spares held p.1 (after_first_arming id r p).1
  unfolding after_first_arming
  after_first_arming-Spares held id r (ok u, t) e = accept-Spares held id r t e
  after_first_arming-Spares held id r (err x, t) e = with_item-Spares held id _ t e

  pub enter_new-Spares :
      (held : List ℕ) (id : ℕ) (r : Request K V) (round : Round) (s : HashJoin K V)
      → holds id held ≡ false
      → Spares held s (enter_new id r round s).1
  unfolding enter_new
  enter_new-Spares held id r round s e = elim (Option-cases (item_at id s).deadline) [
    | inl f ↦ rw (f, enter_new) (accept-Spares held id r s e)
    | inr (d, f) ↦
        rw (f, enter_new)
          (Spares-trans (with_item-Spares held id _ s e) (
            Spares-trans
              (Frame-Spares held (arm_expiry-Frame r.key id r.context _ d round.spawns _))
              (after_first_arming-Spares held id r _ e)))
  ]

  pub enter_found-Spares :
      (held : List ℕ) (id : ℕ) (r : Request K V) (round : Round) (s : HashJoin K V)
      → holds id held ≡ false
      → Spares held s (enter_found id r round s).1
  unfolding enter_found
  enter_found-Spares held id r round s e =
      let Left : Next × HashJoin K V → Type 0 = λ p. Spares held s p.1 in
      if_elim Left (item_at id s).processed (λ _. items-Spares held refl)
        λ _.
          if_elim Left (is_past (item_at id s).deadline round.now)
            (λ _. Spares-trans (with_item-Spares held id _ s e) (expire_item-Spares held id _ e))
            λ _.
              if_elim Left (is_positive r.ttl && s.renew_ttl)
                (λ _.
                  Spares-trans (renew-Spares held id r round s e)
                    (after_renewal-Spares held id r _ e))
                (λ _. accept-Spares held id r s e)

  pub insert_item-Spares :
      (held : List ℕ) (r : Request K V) (made_at : ℕ) (s : HashJoin K V)
      → Spares held s (insert_item r made_at s).1
  unfolding insert_item
  insert_item-Spares held r made_at s = record {
    inside = rw (length-append s.items _) (omega arith);
    same = λ j h k. ap (λ i. i.processed) (get_or-append_left s.items _ j no_item k);
  }

  pub reset_callbacks-Frame : (d : Dict K ℕ) (s : HashJoin K V) → Frame s (reset_callbacks d s)
  unfolding reset_callbacks
  reset_callbacks-Frame [] s = Frame-refl s
  reset_callbacks-Frame (e ∷ d) s =
      Frame-trans (with_item-Frame (λ i. record i { cancel_callback = none }) (λ i. refl) e.1 s)
        (reset_callbacks-Frame d _)
