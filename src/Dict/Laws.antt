-- ===== src/Dict/Laws.antt =====
-- The laws of the hash map.
use cppservicelib.Prelude.{
  suc, ◌+◌, ◌≡◌, refl, true, [], ◌∷◌, none, some, if◌then◌else◌, or_else, length, arith, ◌||◌, ◌⊎◌,
}
use cppservicelib.Dict.{Key, Dict, find, contains, emplace, erase, assign, merge, Unique}

module _ {ℓ} {K : Type ℓ} ⦃key : Key K⦄ where
  pub same_congr_left : (a b c : K) → key.same a b ≡ true → key.same a c ≡ key.same b c
  same_congr_left a b c e =
      ground (arith, key.same_symm a b, key.same_trans a b c, key.same_trans b a c)

  pub same_congr_right : (a b c : K) → key.same b c ≡ true → key.same a b ≡ key.same a c
  same_congr_right a b c e =
      ground (arith, key.same_symm b c, key.same_trans a b c, key.same_trans a c b)

module _ {ℓ} {K V : Type ℓ} ⦃key : Key K⦄ where
  -- Equal keys find the same entry.
  pub find_congr : (a b : K) (d : Dict K V) → key.same a b ≡ true → find a d ≡ find b d
  unfolding find
  find_congr a b [] e = refl
  find_congr a b (x ∷ d) e = ground (arith, same_congr_left a b x.0 e, find_congr a b d e)

  pub find-emplace :
      (q k : K) (v : V) (d : Dict K V)
      → find q (emplace k v d) ≡ or_else (find q d) (if key.same q k then some v else none)
  unfolding find emplace
  find-emplace q k v d = ground (arith, find_congr q k d)

  pub find-erase :
      (q k : K) (d : Dict K V)
      → Unique d
      → find q (erase k d) ≡ (if key.same q k then none else find q d)
  unfolding find erase
  find-erase q k [] u = ground arith
  find-erase q k (e ∷ d) u = ground (
    arith,
    find-erase q k d u.1,
    find_congr q e.0 d,
    same_congr_left q k e.0,
    same_congr_right q k e.0,
    key.same_symm k e.0,
  )

  pub find-merge :
      (q : K) (into d : Dict K V) → find q (merge into d) ≡ or_else (find q into) (find q d)
  unfolding find merge
  find-merge q into [] = ground arith
  find-merge q into (e ∷ d) =
      ground (arith, find-merge q (emplace e.0 e.1 into) d, find-emplace q e.0 e.1 into)

  pub contains-emplace :
      (q k : K) (v : V) (d : Dict K V) → contains q (emplace k v d) ≡ contains q d || key.same q k
  contains-emplace q k v d = rw (find-emplace q k v d) (ground arith)

  pub emplace-Unique : (k : K) (v : V) (d : Dict K V) → Unique d → Unique (emplace k v d)
  unfolding emplace
  emplace-Unique k v d u = ground arith

  pub erase-Unique : (k : K) (d : Dict K V) → Unique d → Unique (erase k d)
  unfolding erase
  erase-Unique k [] u = u
  erase-Unique k (e ∷ d) u = ground (arith, erase-Unique k d u.1, find-erase e.0 k d u.1)

  pub assign-Unique : (k : K) (v : V) (d : Dict K V) → Unique d → Unique (assign k v d)
  unfolding assign
  assign-Unique k v d u = ground (arith, erase-Unique k d u, find-erase k k d u, key.same_refl k)

  pub find-assign :
      (q k : K) (v : V) (d : Dict K V)
      → Unique d
      → find q (assign k v d) ≡ (if key.same q k then some v else find q d)
  unfolding assign find
  find-assign q k v d u = ground (arith, find-erase q k d u)

  pub merge-Unique : (into d : Dict K V) → Unique into → Unique (merge into d)
  unfolding merge
  merge-Unique into [] u = u
  merge-Unique into (e ∷ d) u =
      merge-Unique (emplace e.0 e.1 into) d (emplace-Unique e.0 e.1 into u)

  pub length-emplace :
      (k : K) (v : V) (d : Dict K V)
      → length (emplace k v d) ≡ (if contains k d then length d else suc (length d))
  unfolding emplace
  length-emplace k v d = ground arith

  pub length-erase :
      (k : K) (d : Dict K V) → length (erase k d) + (if contains k d then 1 else 0) ≡ length d
  unfolding erase find
  length-erase k [] = omega arith
  length-erase k (e ∷ d) = ground (arith, length-erase k d)

  -- No key is in both maps.
  abbrev pub Apart : Dict K V → Dict K V → Type ℓ
  Apart c d = (q : K) → (find q c ≡ none) ⊎ (find q d ≡ none)

  emplace-Apart :
      (e : K × V) (into d : Dict K V)
      → find e.0 d ≡ none
      → Apart into (e ∷ d)
      → Apart (emplace e.0 e.1 into) d
  unfolding find
  emplace-Apart e into d u a q =
      ground (arith, a q, find-emplace q e.0 e.1 into, find_congr q e.0 d)

  -- A merge of maps with no common key loses no entry.
  pub length-merge :
      (into d : Dict K V) → Unique d → Apart into d → length (merge into d) ≡ length into + length d
  unfolding merge find
  length-merge into [] u a = omega arith
  length-merge into (e ∷ d) u a = ground (
    arith,
    length-merge (emplace e.0 e.1 into) d u.1 (emplace-Apart e into d u.0 a),
    length-emplace e.0 e.1 into,
    a e.0,
    key.same_refl e.0,
  )

  pub length-assign :
      (k : K) (v : V) (d : Dict K V)
      → length (assign k v d) ≡ (if contains k d then length d else suc (length d))
  unfolding assign
  length-assign k v d = ground (arith, length-erase k d)
