-- ===== src/Stream/Branches.antt =====
-- operators/split.inl and operators/case.inl: the order in which a split serves its branches, and the
-- branch that a case chooses. Branches are numbered as in the tuple.
pub mod Laws
use cppservicelib.Prelude.{
  ℕ, zero, suc, ◌+◌, ◌-◌, ◌/◌, Bool, true, false, not, List, [], ◌∷◌, ◌++◌, Option, none, some, ltb,
  leb, ◌==◌, if◌then◌else◌, length,
}

-- A branch that is served, and whether the payload is moved to it or copied.
pub record Served : Type 0 where
  pub branch : ℕ
  pub moved : Bool

-- `asyncBranches_[I] == async`
abbrev same_mode : Bool → Bool → Bool
same_mode true b = b
same_mode false b = not b

-- One branch in one pass: `remaining` is counted down for each branch that is served.
abbrev serve : Bool → Bool → ℕ → ℕ → List Served × ℕ
serve async branch i remaining =
    if same_mode async branch
    then (record { branch = i; moved = remaining - 1 == 0 } ∷ [], remaining - 1)
    else ([], remaining)

unfoldable pub pass : Bool → ℕ → List Bool → ℕ → List Served × ℕ
pass async i [] remaining = ([], remaining)
pass async i (b ∷ bs) remaining =
    let (first, r) = serve async b i remaining in
    let (rest, s) = pass async (suc i) bs r in (first ++ rest, s)

-- `dispatchBranches`, for the modes of the branches
unfoldable pub dispatch_branches : List Bool → List Served
unfolding pass
dispatch_branches bs = let (first, r) = pass true 0 bs (length bs) in first ++ (pass false 0 bs r).0

-- `dispatchBranch<Begin, End>`, with fuel for its nesting
unfoldable pub dispatch_branch : ℕ → ℕ → ℕ → ℕ → Option ℕ
dispatch_branch zero begin end index = none
dispatch_branch (suc n) begin end index =
    let middle = begin + (end - begin) / 2 in
    let rest =
      dispatch_branch n (if ltb index middle then begin else middle)
        (if ltb index middle then middle else end) index in
    if end - begin == 1 then some begin else rest

pub data Error : Type 0 where
  index_outside empty_name branch_ambiguous branch_not_found : Error

pub data Result : Type 0 where
  ok : ℕ → Result
  err : Error → Result

abbrev chosen : Option ℕ → Result
chosen none = err index_outside
chosen (some i) = ok i

-- `consume` of a case with `size` branches, where its function answers `index`
unfoldable pub choose : ℕ → ℕ → Result
unfolding dispatch_branch
choose size index =
    if leb size index then err index_outside else chosen (dispatch_branch size 0 size index)

module _ {Name : Type 0} (same : Name → Name → Bool) where
  -- The visits of `whenIndex`: `selected` is the size until a branch is found.
  unfoldable pub visit : Name → ℕ → ℕ → ℕ → List Name → Result
  visit name size selected i [] = if selected == size then err branch_not_found else ok selected
  visit name size selected i (b ∷ bs) =
      let now = same b name in
      let rest = visit name size (if now then i else selected) (suc i) bs in
      if now then (if selected == size then rest else err branch_ambiguous) else rest

  unfoldable pub when_index : (Name → Bool) → Name → List Name → Result
  unfolding visit
  when_index is_empty name bs =
      if is_empty name then err empty_name else visit name (length bs) (length bs) 0 bs
