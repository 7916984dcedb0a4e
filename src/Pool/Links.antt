-- ===== src/Pool/Links.antt =====
-- runtime/pool/taskpool.hpp: the doubly linked queue holds a list of tasks.
use cppservicelib.Prelude.{
  ℕ, ◌≡◌, ◌≢◌, refl, sym, subst, ◌∙◌, List, [], ◌∷◌, ◌++◌, Option, some, All, arith,
}
use cppservicelib.Pool.TaskPool.{PoolTask}

abbrev pub first : Option ℕ → List ℕ → Option ℕ
first e [] = e
first e (x ∷ xs) = some x

abbrev pub final : Option ℕ → List ℕ → Option ℕ
final p [] = p
final p (x ∷ xs) = final (some x) xs

-- The links of a chain between what stands before it and behind it.
abbrev pub Linked : (ℕ → PoolTask) → Option ℕ → Option ℕ → List ℕ → Type 0
Linked tasks p e [] = Unit {0}
Linked tasks p e (x ∷ xs) =
    ((tasks x).prev ≡ p) × ((tasks x).next ≡ first e xs) × Linked tasks (some x) e xs

abbrev pub Fresh : ℕ → List ℕ → Type 0
Fresh x xs = All (λ y. x ≢ y) xs

abbrev pub Distinct : List ℕ → Type 0
Distinct [] = Unit {0}
Distinct (x ∷ xs) = Fresh x xs × Distinct xs

abbrev pub SameLinks : (ℕ → PoolTask) → (ℕ → PoolTask) → ℕ → Type 0
SameLinks s t x = ((t x).prev ≡ (s x).prev) × ((t x).next ≡ (s x).next)

pub some_eq : {a b : ℕ} → some a ≡ some b → a ≡ b
some_eq e = cc

pub Linked-frame :
    (s t : ℕ → PoolTask) (p e : Option ℕ) (xs : List ℕ)
    → All (SameLinks s t) xs
    → Linked s p e xs
    → Linked t p e xs
Linked-frame s t p e [] h l = tt
Linked-frame s t p e (x ∷ xs) h l =
    (h.0.0 ∙ l.0, h.0.1 ∙ l.1, Linked-frame s t (some x) e xs h.1 l.2)

pub All-Fresh {ℓ} :
    {P : ℕ → Type ℓ} (t : ℕ) (xs : List ℕ) → ((x : ℕ) → t ≢ x → P x) → Fresh t xs → All P xs
All-Fresh t [] h f = tt
All-Fresh t (x ∷ xs) h f = (h x f.0, All-Fresh t xs h f.1)

pub final-Fresh :
    (x l : ℕ) (p : Option ℕ) (y : ℕ) (ys : List ℕ)
    → Fresh x (y ∷ ys)
    → final p (y ∷ ys) ≡ some l
    → x ≢ l
final-Fresh x l p y [] f e = ground arith
final-Fresh x l p y (z ∷ zs) f e = final-Fresh x l (some y) z zs f.1 e

-- The last task of a chain gets a new neighbour.
pub Linked-end :
    (s t : ℕ → PoolTask) (p e f : Option ℕ) (x : ℕ) (xs : List ℕ) (l : ℕ)
    → final p (x ∷ xs) ≡ some l
    → Distinct (x ∷ xs)
    → All (λ y. (t y).prev ≡ (s y).prev) (x ∷ xs)
    → All (λ y. y ≢ l → (t y).next ≡ (s y).next) (x ∷ xs)
    → (t l).next ≡ f
    → Linked s p e (x ∷ xs)
    → Linked t p f (x ∷ xs)
Linked-end s t p e f x [] l last d before behind end k =
    (before.0 ∙ k.0, subst (λ z. (t z).next ≡ f) (some_eq (sym last)) end, tt)
Linked-end s t p e f x (y ∷ ys) l last d before behind end k = (
  before.0 ∙ k.0,
  behind.0 (final-Fresh x l (some x) y ys d.0 last) ∙ k.1,
  Linked-end s t (some x) e f y ys l last d.1 before.1 behind.1 end k.2,
)

-- The first task of a chain gets a new neighbour.
pub Linked-start :
    (s t : ℕ → PoolTask) (p q e : Option ℕ) (x : ℕ) (xs : List ℕ)
    → (t x).prev ≡ q
    → (t x).next ≡ (s x).next
    → All (SameLinks s t) xs
    → Linked s p e (x ∷ xs)
    → Linked t q e (x ∷ xs)
Linked-start s t p q e x xs start behind rest k =
    (start, behind ∙ k.1, Linked-frame s t (some x) e xs rest k.2)

pub Linked-join :
    (t : ℕ → PoolTask) (p e : Option ℕ) (xs ys : List ℕ)
    → Linked t p (first e ys) xs
    → Linked t (final p xs) e ys
    → Linked t p e (xs ++ ys)
Linked-join t p e [] ys k l = l
Linked-join t p e (x ∷ []) ys k l = (k.0, k.1, l)
Linked-join t p e (x ∷ y ∷ zs) ys k l = (k.0, k.1, Linked-join t (some x) e (y ∷ zs) ys k.2 l)

pub Linked-split :
    (t : ℕ → PoolTask) (p e : Option ℕ) (xs ys : List ℕ)
    → Linked t p e (xs ++ ys)
    → Linked t p (first e ys) xs × Linked t (final p xs) e ys
Linked-split t p e [] ys k = (tt, k)
Linked-split t p e (x ∷ []) ys k = ((k.0, k.1, tt), k.2)
Linked-split t p e (x ∷ y ∷ zs) ys k =
    let (l, r) = Linked-split t (some x) e (y ∷ zs) ys k.2 in ((k.0, k.1, l), r)

pub final-append : (p : Option ℕ) (xs ys : List ℕ) → final p (xs ++ ys) ≡ final (final p xs) ys
final-append p [] ys = refl
final-append p (x ∷ xs) ys = final-append (some x) xs ys

pub final-some : (x : ℕ) (xs : List ℕ) → (l : ℕ) × (final (some x) xs ≡ some l)
final-some x [] = (x, refl)
final-some x (y ∷ ys) = final-some y ys
