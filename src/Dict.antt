-- ===== src/Dict.antt =====
-- `std::unordered_map` as the stores use it: an association list, under the template parameters
-- `Hash` and `Equal`. The order of the entries is not specified there, and no result here depends
-- on it.
pub mod Laws
use cppservicelib.Prelude.{
  ℕ, ◌≡◌, Bool, true, false, List, [], ◌∷◌, Option, none, some, if◌then◌else◌, is_some,
}

-- `Equal` is an equivalence, and keys equal under it have one hash.
pub record Key {ℓ} (K : Type ℓ) : Type ℓ where
  pub same : K → K → Bool
  pub hash : K → ℕ
  pub same_refl : (a : K) → same a a ≡ true
  pub same_symm : (a b : K) → same a b ≡ same b a
  pub same_trans : (a b c : K) → same a b ≡ true → same b c ≡ true → same a c ≡ true
  pub hash-same : (a b : K) → same a b ≡ true → hash a ≡ hash b

abbrev pub Dict {ℓ} : Type ℓ → Type ℓ → Type ℓ
Dict K V = List (K × V)

module _ {ℓ} {K V : Type ℓ} ⦃key : Key K⦄ where
  unfoldable pub find : K → Dict K V → Option V
  find k [] = none
  find k (e ∷ d) = if key.same k e.0 then some e.1 else find k d

  abbrev pub contains : K → Dict K V → Bool
  contains k d = is_some (find k d)

  -- `emplace` and `try_emplace`: an entry that is there stays.
  unfoldable pub emplace : K → V → Dict K V → Dict K V
  emplace k v d = if contains k d then d else (k, v) ∷ d

  unfoldable pub erase : K → Dict K V → Dict K V
  erase k [] = []
  erase k (e ∷ d) = if key.same k e.0 then d else e ∷ erase k d

  -- `d[k] = v`
  unfoldable pub assign : K → V → Dict K V → Dict K V
  unfolding erase
  assign k v d = (k, v) ∷ erase k d

  -- `for (auto& [k, v] : d) into.try_emplace(k, v);`
  unfoldable pub merge : Dict K V → Dict K V → Dict K V
  unfolding emplace
  merge into [] = into
  merge into (e ∷ d) = merge (emplace e.0 e.1 into) d

  -- No two entries have the same key.
  abbrev pub Unique : Dict K V → Type ℓ
  Unique [] = Unit
  Unique (e ∷ d) = (find e.0 d ≡ none) × Unique d
