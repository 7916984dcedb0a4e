-- ===== src/Stream/Branches/Laws.antt =====
-- operators/split.inl and operators/case.inl: what a split and a case do with their branches.
use cppservicelib.Prelude.{
  ℕ, zero, suc, ◌+◌, ◌-◌, ◌/◌, ◌≤◌, ◌<◌, ◌≡◌, refl, sym, ap, ◌∙◌, Bool, true, false, List, [], ◌∷◌,
  ◌++◌, some, ltb, leb, ◌==◌, if◌then◌else◌, length, length-append, Bool-cases, if_elim, ==_eq,
  ==_refl, ltb→lt, arith, inl, inr,
}
use cppservicelib.Stream.Branches.{
  Served, same_mode, pass, dispatch_branches, dispatch_branch, Result, ok, err, index_outside,
  empty_name, branch_ambiguous, branch_not_found, choose, visit, when_index,
}

-- The branches of a mode, in their order, from the number `i` on.
abbrev pub branches_in : Bool → ℕ → List Bool → List ℕ
branches_in async i [] = []
branches_in async i (b ∷ bs) =
    let rest = branches_in async (suc i) bs in if same_mode async b then i ∷ rest else rest

-- Copies for all but the last, which gets the payload itself.
abbrev pub served_in_order : List ℕ → List Served
served_in_order [] = []
served_in_order (i ∷ []) = record { branch = i; moved = true } ∷ []
served_in_order (i ∷ j ∷ is) = record { branch = i; moved = false } ∷ served_in_order (j ∷ is)

abbrev counted : ℕ → List ℕ → List Served
counted r [] = []
counted r (i ∷ is) = record { branch = i; moved = r - 1 == 0 } ∷ counted (r - 1) is

sub_zero : (r : ℕ) → r - 0 ≡ r
sub_zero r = omega arith

sub_suc : (r n : ℕ) → r - 1 - n ≡ r - suc n
sub_suc r n = omega arith

pass-counted :
    (async : Bool) (i : ℕ) (bs : List Bool) (r : ℕ)
    → pass async i bs r ≡ (counted r (branches_in async i bs), r - length (branches_in async i bs))
unfolding pass
pass-counted async i [] r = rw (sub_zero r) refl
pass-counted true i (true ∷ bs) r =
    rw (pass-counted true (suc i) bs (r - 1), sub_suc r (length (branches_in true (suc i) bs))) refl
pass-counted true i (false ∷ bs) r = pass-counted true (suc i) bs r
pass-counted false i (true ∷ bs) r = pass-counted false (suc i) bs r
pass-counted false i (false ∷ bs) r =
    rw (pass-counted false (suc i) bs (r - 1), sub_suc r (length (branches_in false (suc i) bs)))
      refl

counted-append :
    (r : ℕ) (is js : List ℕ) → counted r (is ++ js) ≡ counted r is ++ counted (r - length is) js
counted-append r [] js = rw (sub_zero r) refl
counted-append r (i ∷ is) js = rw (counted-append (r - 1) is js, sub_suc r (length is)) refl

pred_suc : (n : ℕ) → suc n - 1 ≡ n
pred_suc n = omega arith

suc_not_zero : (n : ℕ) → (suc n == 0) ≡ false
suc_not_zero n = ground arith

counted-length : (is : List ℕ) → counted (length is) is ≡ served_in_order is
counted-length [] = refl
counted-length (i ∷ []) = refl
counted-length (i ∷ j ∷ is) =
    rw (pred_suc (suc (length is)), suc_not_zero (length is), counted-length (j ∷ is)) refl

length-branches_in :
    (i : ℕ) (bs : List Bool)
    → length (branches_in true i bs) + length (branches_in false i bs) ≡ length bs
length-branches_in i [] = refl
length-branches_in i (true ∷ bs) = omega (arith, length-branches_in (suc i) bs)
length-branches_in i (false ∷ bs) = omega (arith, length-branches_in (suc i) bs)

-- A split serves its asynchronous branches in their order and then the others in theirs, with a copy of
-- the payload to all but the last.
pub split_serves_in_order :
    (bs : List Bool)
    → dispatch_branches bs ≡ served_in_order (branches_in true 0 bs ++ branches_in false 0 bs)
unfolding dispatch_branches
split_serves_in_order bs =
    let is = branches_in true 0 bs in
    let js = branches_in false 0 bs in
    let total : length bs ≡ length (is ++ js) =
      sym (length-append is js ∙ length-branches_in 0 bs) in
    rw (pass-counted true 0 bs (length bs), pass-counted false 0 bs (length bs - length is))
      (sym (counted-append (length bs) is js) ∙ rw total (counted-length (is ++ js)))

-- How often a branch is served.
abbrev pub times_served : ℕ → List Served → ℕ
times_served i [] = 0
times_served i (s ∷ ss) = (if s.branch == i then 1 else 0) + times_served i ss

abbrev times : ℕ → List ℕ → ℕ
times i [] = 0
times i (j ∷ js) = (if j == i then 1 else 0) + times i js

times-append : (k : ℕ) (is js : List ℕ) → times k (is ++ js) ≡ times k is + times k js
times-append k [] js = omega arith
times-append k (i ∷ is) js = omega (arith, times-append k is js)

times-served_in_order : (k : ℕ) (is : List ℕ) → times_served k (served_in_order is) ≡ times k is
times-served_in_order k [] = refl
times-served_in_order k (i ∷ []) = refl
times-served_in_order k (i ∷ j ∷ is) = ap (◌+◌ _) (times-served_in_order k (j ∷ is))

times-branches_in :
    (k i : ℕ) (bs : List Bool)
    → times k (branches_in true i bs) + times k (branches_in false i bs)
      ≡ (if leb i k then (if ltb k (i + length bs) then 1 else 0) else 0)
times-branches_in k i [] = ground arith
times-branches_in k i (true ∷ bs) = ground (arith, times-branches_in k (suc i) bs)
times-branches_in k i (false ∷ bs) = ground (arith, times-branches_in k (suc i) bs)

-- A split serves each of its branches once, and no other.
pub split_serves_once :
    (bs : List Bool) (k : ℕ)
    → times_served k (dispatch_branches bs) ≡ (if ltb k (length bs) then 1 else 0)
split_serves_once bs k =
    rw (split_serves_in_order bs, times-served_in_order)
      (times-append k (branches_in true 0 bs) (branches_in false 0 bs)
        ∙ times-branches_in k 0 bs
        ∙ ground arith)

two :
    (begin end index : ℕ)
    → begin ≤ index
    → index < end
    → (end - begin == 1) ≡ false
    → 2 ≤ end - begin
two begin end index h k e = ground arith

-- The decision tree of a case finds its index, within as many turns as there are branches.
dispatch_branch-index :
    (n begin end index : ℕ)
    → begin ≤ index
    → index < end
    → end - begin ≤ n
    → dispatch_branch n begin end index ≡ some index
unfolding dispatch_branch
dispatch_branch-index zero begin end index h k f = absurd (omega (arith, h, k, f))
dispatch_branch-index (suc n) begin end index h k f =
    let middle = begin + (end - begin) / 2 in
    if_elim (λ r. r ≡ some index) (end - begin == 1)
      (λ e. ap some (omega (arith, ==_eq (end - begin) 1 e, h, k)))
      (λ e. elim (Bool-cases (ltb index middle)) [
        | inl l ↦ rw l (
            dispatch_branch-index n begin middle index h (ltb→lt index middle l)
              (omega (arith, two begin end index h k e, f)))
        | inr l ↦ rw l (
            dispatch_branch-index n middle end index (ground (arith, l)) k
              (omega (arith, two begin end index h k e, f)))
      ])

-- A case serves the branch that its function names, and throws where there is none.
pub case_chooses :
    (size index : ℕ) → choose size index ≡ (if ltb index size then ok index else err index_outside)
unfolding choose
case_chooses size index = elim (Bool-cases (ltb index size)) [
  | inl l ↦
      let out : leb size index ≡ false = ground arith in
      rw
        (
          l,
          out,
          dispatch_branch-index size 0 size index (omega arith) (ltb→lt index size l) (omega arith),
        )
        refl
  | inr l ↦ let out : leb size index ≡ true = ground arith in rw (l, out) refl
]

lt-not_eq : (a b : ℕ) → a < b → (a == b) ≡ false
lt-not_eq a b h = ground arith

module _ {Name : Type 0} (same : Name → Name → Bool) where
  -- The branches of a name, from the number `i` on.
  abbrev pub places : Name → ℕ → List Name → List ℕ
  places name i [] = []
  places name i (b ∷ bs) =
      let rest = places name (suc i) bs in if same b name then i ∷ rest else rest

  abbrev pub only_place : List ℕ → Result
  only_place [] = err branch_not_found
  only_place (i ∷ []) = ok i
  only_place (i ∷ j ∷ is) = err branch_ambiguous

  abbrev also_at : ℕ → List ℕ → Result
  also_at selected [] = ok selected
  also_at selected (i ∷ is) = err branch_ambiguous

  only-also : (i : ℕ) (is : List ℕ) → also_at i is ≡ only_place (i ∷ is)
  only-also i [] = refl
  only-also i (j ∷ is) = refl

  visit_selected :
      (name : Name) (size selected i : ℕ) (bs : List Name)
      → selected < size
      → visit same name size selected i bs ≡ also_at selected (places name i bs)
  unfolding visit
  visit_selected name size selected i [] h = rw (lt-not_eq selected size h) refl
  visit_selected name size selected i (b ∷ bs) h = elim (Bool-cases (same b name)) [
    | inl e ↦ rw (e, lt-not_eq selected size h) refl
    | inr e ↦ rw e (visit_selected name size selected (suc i) bs h)
  ]

  visit_none :
      (name : Name) (size i : ℕ) (bs : List Name)
      → i + length bs ≡ size
      → visit same name size size i bs ≡ only_place (places name i bs)
  unfolding visit
  visit_none name size i [] h = rw (==_refl size) refl
  visit_none name size i (b ∷ bs) h = elim (Bool-cases (same b name)) [
    | inl e ↦
        rw (e, ==_refl size, visit_selected name size i (suc i) bs (omega (arith, h)))
          (only-also i (places name (suc i) bs))
    | inr e ↦ rw e (visit_none name size (suc i) bs (omega (arith, h)))
  ]

  -- A name finds the number of the only branch that has it, and is refused where it is empty, where no
  -- branch has it, and where two have it.
  pub when_index-only :
      (is_empty : Name → Bool) (name : Name) (bs : List Name)
      → when_index same is_empty name bs
        ≡ (if is_empty name then err empty_name else only_place (places name 0 bs))
  unfolding when_index
  when_index-only is_empty name bs = rw (visit_none name (length bs) 0 bs (omega arith)) refl
