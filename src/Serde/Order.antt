-- ===== src/Serde/Order.antt =====
-- runtime/serde/serdeimpl.hpp: the order of the bytes is the order of the integers, as keys of a sorted
-- store need it.
use cppservicelib.Prelude.{
  ℕ, zero, suc, ◌+◌, ◌*◌, ◌^◌, ◌<◌, ◌≡◌, refl, ◌∙◌, Bool, true, false, [], ◌∷◌, ltb, ◌==◌,
  if◌then◌else◌, length, ℤ, pos, negsuc, All, arith,
}
use cppservicelib.Serde.{SerdeData, u64_bytes, be_bytes, be_value}
use cppservicelib.Serde.Words.{value-u64}
use cppservicelib.Serde.Scalars.{to_word, flip_top}
use cppservicelib.Serde.Laws.{InRange}

-- The order of byte strings, as `memcmp` and then the length tell it.
unfoldable pub lex_lt : SerdeData → SerdeData → Bool
lex_lt [] [] = false
lex_lt [] (y ∷ ys) = true
lex_lt (x ∷ xs) [] = false
lex_lt (x ∷ xs) (y ∷ ys) = if x == y then lex_lt xs ys else ltb x y

abbrev pub lt_ℤ : ℤ → ℤ → Bool
lt_ℤ (pos a) (pos b) = ltb a b
lt_ℤ (pos a) (negsuc b) = false
lt_ℤ (negsuc a) (pos b) = true
lt_ℤ (negsuc a) (negsuc b) = ltb b a

abbrev AreBytes : SerdeData → Type 0
AreBytes xs = All (λ x. x < 256) xs

value_lt :
    (a b : ℕ) (xs ys : SerdeData)
    → a < b
    → length xs ≡ length ys
    → AreBytes xs
    → AreBytes ys
    → be_value a xs < be_value b ys
value_lt a b [] [] h e f g = h
value_lt a b [] (y ∷ ys) h e f g = absurd (omega arith)
value_lt a b (x ∷ xs) [] h e f g = absurd (omega arith)
value_lt a b (x ∷ xs) (y ∷ ys) h e f g =
    value_lt (a * 256 + x) (b * 256 + y) xs ys (omega (arith, f.0, g.0)) (omega arith) f.1 g.1

lex_lt-value :
    (a : ℕ) (xs ys : SerdeData)
    → length xs ≡ length ys
    → AreBytes xs
    → AreBytes ys
    → lex_lt xs ys ≡ ltb (be_value a xs) (be_value a ys)
unfolding lex_lt
lex_lt-value a [] [] e f g = ground arith
lex_lt-value a [] (y ∷ ys) e f g = absurd (omega arith)
lex_lt-value a (x ∷ xs) [] e f g = absurd (omega arith)
lex_lt-value a (x ∷ xs) (y ∷ ys) e f g = ground (
  arith,
  lex_lt-value (a * 256 + x) xs ys (omega arith) f.1 g.1,
  value_lt (a * 256 + x) (a * 256 + y) xs ys,
  value_lt (a * 256 + y) (a * 256 + x) ys xs,
  f.1,
  g.1,
)

be_bytes-AreBytes : (k n : ℕ) → AreBytes (be_bytes k n)
be_bytes-AreBytes zero n = tt
be_bytes-AreBytes (suc k) n = (omega arith, be_bytes-AreBytes k n)

flip_order :
    (a b : ℤ)
    → InRange 64 a
    → InRange 64 b
    → ltb (flip_top 64 (to_word 64 a)) (flip_top 64 (to_word 64 b)) ≡ lt_ℤ a b
flip_order (pos a) (pos b) h k = ground arith
flip_order (pos a) (negsuc b) h k = ground arith
flip_order (negsuc a) (pos b) h k = ground arith
flip_order (negsuc a) (negsuc b) h k = ground arith

flip_small : (a : ℤ) → InRange 64 a → flip_top 64 (to_word 64 a) < 2 ^ 64
flip_small (pos a) h = ground arith
flip_small (negsuc a) h = ground arith

-- The bytes of two signed integers of 64 bits are in the order of the integers.
pub int64_order :
    (a b : ℤ)
    → InRange 64 a
    → InRange 64 b
    → lex_lt (u64_bytes (flip_top 64 (to_word 64 a))) (u64_bytes (flip_top 64 (to_word 64 b)))
      ≡ lt_ℤ a b
int64_order a b h k =
    let m = flip_top 64 (to_word 64 a) in
    let n = flip_top 64 (to_word 64 b) in
    let bytes_order =
      lex_lt-value 0 (u64_bytes m) (u64_bytes n) refl (be_bytes-AreBytes 8 m)
        (be_bytes-AreBytes 8 n) in
    rw (value-u64 m (flip_small a h), value-u64 n (flip_small b k)) at bytes_order
    ∙ flip_order a b h k
