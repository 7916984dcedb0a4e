-- ===== src/Service/Lifecycle/Rollback.antt =====
-- runtime/serviceapp.hpp: a start of a ServiceLifecycle starts every registered component, or leaves none.
use cppservicelib.Prelude.{◌≡◌, Bool, true, false, not, ◌||◌, List, [], ◌∷◌, none, some, ◌⊎◌, ◌==◌}
use cppservicelib.Service.Lifecycle.{
  ComponentKind, index, Entry, Lifecycle, Outcome, Error, start_error, listed,
}
use cppservicelib.Service.Lifecycle.Log.{is_active}

module _ (ok : Entry → Bool) where
  -- The start of one of the entries throws, and this is its error.
  abbrev pub IsStartError : List Entry → Error → Type 0
  IsStartError es e = (p : Entry) × (e ≡ start_error p) × (listed p es ≡ true) × (ok p ≡ false)

  abbrev has_kind : ComponentKind → List ComponentKind → Bool
  has_kind k [] = false
  has_kind k (j ∷ js) = (index k == index j) || has_kind k js

  -- A start throws nothing and leaves every registered component active, or it throws the error of a
  -- registered component whose start throws, and leaves none active.
  abbrev pub StartsAllOrNone : Lifecycle → Outcome → Type 0
  StartsAllOrNone s r =
      ((r.0 ≡ none) × ((q : Entry) → not (listed q s.entries) || is_active r.1.log q ≡ true))
      ⊎ ((e : Error) × (r.0 ≡ some e)
          × IsStartError s.entries e
          × ((q : Entry) → is_active r.1.log q ≡ false))
