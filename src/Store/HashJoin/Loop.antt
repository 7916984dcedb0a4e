-- ===== src/Store/HashJoin/Loop.antt =====
-- runtime/store/hashmap.hpp: the loop of `joinValue` ends.
use cppservicelib.Prelude.{
  ℕ, ◌+◌, ◌≡◌, refl, sym, ap, subst, ◌⊎◌, inl, inr, Bool, true, false, ◌&&◌, List, [], ◌∷◌, Option,
  none, some, if_elim, Option-cases, arith, is_positive, ==_refl,
}
use cppservicelib.Dict.{Key}
use cppservicelib.Store.{Result, ok, err, Result-cases}
use cppservicelib.Store.HashJoin.{HashJoin, JoinFunction, Context, item_at, find_item}
use cppservicelib.Store.HashJoin.Items.{with_item, remove_if_same, expire_item}
use cppservicelib.Store.HashJoin.Join.{
  Round, Request, Next, again, finished, kept, thrown, undone, accept, enter_new, after_renewal,
  after_first_arming, enter_found, enter_published, is_past, work, settle, join_loop, join_value,
  enter_operation,
}
use cppservicelib.Store.HashJoin.Invariant.{MapsAreValid, IsValid}
use cppservicelib.Store.HashJoin.Maps.{find_item-remove_if_same}
use cppservicelib.Store.HashJoin.Turns.{work-IsValid, publish_absent}

abbrev pub is_again : Next → Bool
is_again (again id) = true
is_again _ = false

module _ {K V : Type 0} ⦃key : Key K⦄ where
  abbrev Stays : Next × HashJoin K V → Type 0
  Stays p = is_again p.0 ≡ false

  accept-Stays : (id : ℕ) (r : Request K V) (s : HashJoin K V) → Stays (accept id r s)
  unfolding accept
  accept-Stays id r s = ground arith

  after_renewal-Stays :
      (id : ℕ) (r : Request K V) (p : Result (Unit {0}) × HashJoin K V)
      → Stays (after_renewal id r p)
  unfolding after_renewal
  after_renewal-Stays id r (ok u, t) = accept-Stays id r t
  after_renewal-Stays id r (err e, t) = refl

  after_first_arming-Stays :
      (id : ℕ) (r : Request K V) (p : Result (Unit {0}) × HashJoin K V)
      → Stays (after_first_arming id r p)
  unfolding after_first_arming
  after_first_arming-Stays id r (ok u, t) = accept-Stays id r t
  after_first_arming-Stays id r (err e, t) = refl

  enter_new-Stays :
      (id : ℕ) (r : Request K V) (round : Round) (s : HashJoin K V) → Stays (enter_new id r round s)
  unfolding enter_new
  enter_new-Stays id r round s = elim (Option-cases (item_at id s).deadline) [
    | inl e ↦ rw (e, enter_new) (accept-Stays id r s)
    | inr (d, e) ↦ rw (e, enter_new) (after_first_arming-Stays id r _)
  ]

  -- Where the loop goes on, the item that it removes is the one that the key has.
  abbrev GoesOn : K → Next × HashJoin K V → Type 0
  GoesOn k p = (is_again p.0 ≡ false) ⊎ ((id : ℕ) × (p.0 ≡ again id) × (find_item k p.1 ≡ some id))

  enter_found-GoesOn :
      (id : ℕ) (r : Request K V) (round : Round) (s : HashJoin K V)
      → find_item r.key s ≡ some id
      → GoesOn r.key (enter_found id r round s)
  unfolding enter_found expire_item with_item find_item
  enter_found-GoesOn id r round s e =
      if_elim (GoesOn r.key) (item_at id s).processed (λ _. inr (id, refl, e))
        λ _.
          if_elim (GoesOn r.key) (is_past (item_at id s).deadline round.now)
            (λ _. inr (id, refl, e))
            λ _.
              if_elim (GoesOn r.key) (is_positive r.ttl && s.renew_ttl)
                (λ _. inl (after_renewal-Stays id r _)) (λ _. inl (accept-Stays id r s))

  work-GoesOn : (r : Request K V) (round : Round) (s : HashJoin K V) → GoesOn r.key (work r round s)
  unfolding work enter_published
  work-GoesOn r round s = elim (Option-cases (find_item r.key s)) [
    | inr (id, e) ↦ rw (e, work) (enter_found-GoesOn id r round s e)
    | inl e ↦ rw (e, work, publish_absent r round.made_at s e) (inl (enter_new-Stays _ r round _))
  ]

  work-Stays :
      (r : Request K V) (round : Round) (s : HashJoin K V)
      → find_item r.key s ≡ none
      → Stays (work r round s)
  unfolding work enter_published
  work-Stays r round s e =
      rw (e, work, publish_absent r round.made_at s e) (enter_new-Stays _ r round _)

  abbrev Answers : Option (Result (Unit {0})) × HashJoin K V → Type 0
  Answers p = (a : Result (Unit {0})) × (p.0 ≡ some a)

  -- The last turn of a loop.
  join_loop-Stays :
      (r : Request K V) (round : Round) (rounds : List Round) (s : HashJoin K V)
      → Stays (work r round s)
      → Answers (join_loop r (round ∷ rounds) s)
  unfolding join_loop settle
  join_loop-Stays r round rounds s e = go (work r round s) e
    where
      go :
          (p : Next × HashJoin K V)
          → Stays p
          → Answers (
              let (answer, u) = settle r.key p.0 p.1 in
              elim answer [ some a ↦ (some a, u) | none ↦ join_loop r rounds u ])
      go (again id, t) e = cc
      go (finished id, t) e = (ok tt, refl)
      go (kept, t) e = (ok tt, refl)
      go (thrown x, t) e = (err x, refl)
      go (undone id x, t) e = (err x, refl)

  removed_absent :
      (k : K) (id : ℕ) (s : HashJoin K V)
      → MapsAreValid s
      → find_item k s ≡ some id
      → find_item k (remove_if_same k id s) ≡ none
  removed_absent k id s v e =
      rw (find_item-remove_if_same k k id s v, e, key.same_refl k, ==_refl id) refl

  -- One turn more after a turn that removed the item of the key.
  join_loop_again :
      (r : Request K V) (a b : Round) (rounds : List Round) (s : HashJoin K V) (id : ℕ)
      → IsValid s
      → (work r a s).0 ≡ again id
      → find_item r.key (work r a s).1 ≡ some id
      → Answers (join_loop r (a ∷ b ∷ rounds) s)
  join_loop_again r a b rounds s id v e f = subst Answers (sym turn) (
      join_loop-Stays r b rounds _
        (work-Stays r b _ (removed_absent r.key id (work r a s).1 (work-IsValid r a s v).maps f)))
    where
      turn :
          join_loop r (a ∷ b ∷ rounds) s
          ≡ join_loop r (b ∷ rounds) (remove_if_same r.key id (work r a s).1)
      turn =
          unfold join_loop settle in
          (ap
            (λ next.
              let (answer, u) = settle r.key next (work r a s).1 in
              elim answer as (λ _. Option (Result (Unit {0})) × HashJoin K V) [
                | some x ↦ (some x, u)
                | none ↦ join_loop r (b ∷ rounds) u
              ])
            e)

  pub join_loop-Answers :
      (r : Request K V) (a b : Round) (rounds : List Round) (s : HashJoin K V)
      → IsValid s
      → Answers (join_loop r (a ∷ b ∷ rounds) s)
  join_loop-Answers r a b rounds s v = elim (work-GoesOn r a s) [
    | inl e ↦ join_loop-Stays r a (b ∷ rounds) s e
    | inr (id, e, f) ↦ join_loop_again r a b rounds s id v e f
  ]

  entered-IsValid :
      (s : HashJoin K V)
      → IsValid s
      → IsValid (record s { active_operations = s.active_operations + 1 })
  unfolding find_item
  entered-IsValid s v = record {
    maps = record {
      current_once = v.maps.current_once;
      previous_once = v.maps.previous_once;
      apart = v.maps.apart;
      counted = v.maps.counted;
      known = v.maps.known;
    };
    log = record { ordered = v.log.ordered; logged = v.log.logged };
  }

  entered_lem :
      (s : HashJoin K V) {t : HashJoin K V}
      → enter_operation s ≡ ok t
      → t ≡ record s { active_operations = s.active_operations + 1 }
  unfolding enter_operation
  entered_lem s e = ground arith

  -- A call of `joinValue` that no other caller disturbs returns or throws after two turns of its
  -- loop at most, whatever the clock and the engine do in them.
  pub join_value-Answers :
      (k : K) (index : ℕ) (value : V) (callback : JoinFunction V) (ctx : Context) (now : ℕ)
      (a b : Round) (s : HashJoin K V)
      → IsValid s
      → Answers (join_value k index value callback ctx now (a ∷ b ∷ []) s)
  unfolding join_value
  join_value-Answers k index value callback ctx now a b s v =
      elim (Result-cases (enter_operation s)) [
        | inr (e, refused) ↦ rw (refused, join_value) (err e, refl)
        | inl (t, entered) ↦
            rw (entered, join_value)
              (join_loop-Answers _ a b [] t (rw (entered_lem s entered) (entered-IsValid s v)))
      ]
