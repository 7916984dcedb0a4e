-- ===== src/Tests/Keys.antt =====
-- Numbers as keys, with the hash of a library that hashes a number to itself.
use cppservicelib.Prelude.{ℕ, ◌≡◌, true, ◌==◌, arith}
use cppservicelib.Dict.{Key}

pub symm : (a b : ℕ) → (a == b) ≡ (b == a)
symm a b = ground arith

pub trans : (a b c : ℕ) → (a == b) ≡ true → (b == c) ≡ true → (a == c) ≡ true
trans a b c e f = ground arith

pub same_hash : (a b : ℕ) → (a == b) ≡ true → a ≡ b
same_hash a b e = ground arith

pub refl_lem : (a : ℕ) → (a == a) ≡ true
refl_lem a = ground arith

instance abbrev pub nat_key : Key ℕ
nat_key = record {
  same = λ a b. a == b;
  hash = λ a. a;
  same_refl = refl_lem;
  same_symm = symm;
  same_trans = trans;
  hash-same = same_hash;
}
