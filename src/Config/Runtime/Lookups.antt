-- ===== src/Config/Runtime/Lookups.antt =====
-- runtime/config/config.hpp: what the indices of a configuration find.
use cppservicelib.Prelude.{
  ◌≡◌, refl, ap, ◌∙◌, true, false, List, [], ◌∷◌, Option, none, some, if◌then◌else◌, or_else, All,
  arith,
}
use cppservicelib.Dict.{Key, Dict, find, contains, emplace}
use cppservicelib.Dict.Laws.{find-emplace, find_congr}
use cppservicelib.Config.Runtime.{Error, Result, ok, err, ◌>>=◌, insert_unique, index_by}

module _ {K V : Type 0} ⦃key : Key K⦄ where
  -- The first of the values with the key.
  abbrev pub first_with : (V → K) → K → List V → Option V
  first_with key_of k [] = none
  first_with key_of k (v ∷ vs) = if key.same k (key_of v) then some v else first_with key_of k vs

  -- No two of the values have the same key.
  abbrev pub Distinct : (V → K) → List V → Type 0
  Distinct key_of [] = Unit {0}
  Distinct key_of (v ∷ vs) = (first_with key_of (key_of v) vs ≡ none) × Distinct key_of vs

pub ok_injective : {A : Type 0} (a b : A) → ok a ≡ ok b → a ≡ b
ok_injective a b h = cc

-- A chain of results that succeeds has a first step that does.
pub bind-ok :
    {A B : Type 0} (m : Result A) (f : A → Result B) (b : B)
    → (m >>= f) ≡ ok b
    → (a : A) × (m ≡ ok a) × (f a ≡ ok b)
bind-ok (ok a) f b e = (a, refl, e)
bind-ok (err x) f b e = absurd (ground arith)

module _ {K V : Type 0} ⦃key : Key K⦄ where
  insert_unique-ok :
      (e : Error) (k : K) (v : V) (d d2 : Dict K V)
      → insert_unique e k v d ≡ ok d2
      → (contains k d ≡ false) × (d2 ≡ emplace k v d)
  unfolding insert_unique
  insert_unique-ok e k v d d2 h = ground (arith, h)

  find-insert_unique :
      (e : Error) (q k : K) (v : V) (d d2 : Dict K V)
      → insert_unique e k v d ≡ ok d2
      → find q d2 ≡ or_else (find q d) (if key.same q k then some v else none)
  find-insert_unique e q k v d d2 h =
      ap (find q) (insert_unique-ok e k v d d2 h).1 ∙ find-emplace q k v d

  -- An index that was made has the values of its start, and then the first value with each key.
  pub find-index_by :
      (e : Error) (key_of : V → K) (vs : List V) (d d2 : Dict K V)
      → index_by e key_of vs d ≡ ok d2
      → (q : K) → find q d2 ≡ or_else (find q d) (first_with key_of q vs)
  unfolding index_by
  find-index_by e key_of [] d d2 h q = ground (arith, ap (find q) (ok_injective d d2 h))
  find-index_by e key_of (v ∷ vs) d d2 h q =
      let (next, inserted, rest) =
        bind-ok (insert_unique e (key_of v) v d) (index_by e key_of vs) d2 h in
      let first = find-insert_unique e q (key_of v) v d next inserted in
      let others = find-index_by e key_of vs next d2 rest q in ground (arith, first, others)

  -- A key that the start has comes in no value.
  first_with-index_by :
      (e : Error) (key_of : V → K) (vs : List V) (d d2 : Dict K V) (q : K)
      → index_by e key_of vs d ≡ ok d2
      → contains q d ≡ true
      → first_with key_of q vs ≡ none
  unfolding index_by
  first_with-index_by e key_of [] d d2 q h c = refl
  first_with-index_by e key_of (v ∷ vs) d d2 q h c =
      let (next, inserted, rest) =
        bind-ok (insert_unique e (key_of v) v d) (index_by e key_of vs) d2 h in
      let first = find-insert_unique e q (key_of v) v d next inserted in
      let fresh = (insert_unique-ok e (key_of v) v d next inserted).0 in
      let same = find_congr q (key_of v) d in
      ground (arith, c, first, fresh, same, first_with-index_by e key_of vs next d2 q rest)

  pub index_by-Distinct :
      (e : Error) (key_of : V → K) (vs : List V) (d d2 : Dict K V)
      → index_by e key_of vs d ≡ ok d2
      → Distinct key_of vs
  unfolding index_by
  index_by-Distinct e key_of [] d d2 h = tt
  index_by-Distinct e key_of (v ∷ vs) d d2 h =
      let (next, inserted, rest) =
        bind-ok (insert_unique e (key_of v) v d) (index_by e key_of vs) d2 h in
      let first = find-insert_unique e (key_of v) (key_of v) v d next inserted in
      let itself = key.same_refl (key_of v) in
      let there : contains (key_of v) next ≡ true = ground (arith, first, itself) in
      (
        first_with-index_by e key_of vs next d2 (key_of v) rest there,
        index_by-Distinct e key_of vs next d2 rest,
      )

  apart :
      (key_of : V → K) (q : K) (vs : List V)
      → first_with key_of q vs ≡ none
      → All (λ v. key.same (key_of v) q ≡ false) vs
  apart key_of q [] h = tt
  apart key_of q (v ∷ vs) h =
      (ground (arith, h, key.same_symm q (key_of v)), apart key_of q vs (ground (arith, h)))

  still_fresh :
      (key_of : V → K) (q : K) (w : V) (d : Dict K V) (vs : List V)
      → All (λ v. key.same (key_of v) q ≡ false) vs
      → All (λ v. contains (key_of v) d ≡ false) vs
      → All (λ v. contains (key_of v) (emplace q w d) ≡ false) vs
  still_fresh key_of q w d [] a f = tt
  still_fresh key_of q w d (v ∷ vs) a f =
      (ground (arith, find-emplace (key_of v) q w d, a.0, f.0), still_fresh key_of q w d vs a.1 f.1)

  -- Values with different keys, none of which the start has, get their index.
  pub Distinct-index_by :
      (e : Error) (key_of : V → K) (vs : List V) (d : Dict K V)
      → Distinct key_of vs
      → All (λ v. contains (key_of v) d ≡ false) vs
      → (d2 : Dict K V) × (index_by e key_of vs d ≡ ok d2)
  unfolding index_by insert_unique
  Distinct-index_by e key_of [] d u f = (d, refl)
  Distinct-index_by e key_of (v ∷ vs) d u f =
      let next = emplace (key_of v) v d in
      let (d2, rest) =
        Distinct-index_by e key_of vs next u.1
          (still_fresh key_of (key_of v) v d vs (apart key_of (key_of v) vs u.0) f.1) in
      (d2, rw (f.0, index_by, insert_unique) rest)

  abbrev pub no_entries : Dict K V
  no_entries = []

  pub none_in :
      (key_of : V → K) (vs : List V) → All (λ v. contains (key_of v) no_entries ≡ false) vs
  unfolding find
  none_in key_of [] = tt
  none_in key_of (v ∷ vs) = (refl, none_in key_of vs)
