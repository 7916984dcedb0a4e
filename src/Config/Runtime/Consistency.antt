-- ===== src/Config/Runtime/Consistency.antt =====
-- runtime/config/config.hpp: which configurations get their indices, and what these answer.
use cppservicelib.Prelude.{◌≡◌, true, List, [], ◌∷◌, inl, inr, Bool-cases, All, arith}
use cppservicelib.Dict.{Key, Dict, find}
use cppservicelib.Config.Runtime.{
  Kind, duplicate_name, duplicate_id, duplicate_link, ok, ◌>>=◌, LinkId, LinkConfig, is_valid_link,
  insert_unique, index_by, index_both, index_links,
}
use cppservicelib.Config.Runtime.Lookups.{
  first_with, Distinct, bind-ok, find-index_by, index_by-Distinct, Distinct-index_by, none_in,
}

-- Both indices of a part are made as each of them alone.
module _ {Name Number V : Type 0} ⦃names : Key Name⦄ ⦃ids : Key Number⦄ (kind : Kind)
    (name_of : V → Name) (id_of : V → Number) where
  index_both-index_by :
      (vs : List V) (a : Dict Name V) (b : Dict Number V) (r : Dict Name V × Dict Number V)
      → index_both kind name_of id_of vs a b ≡ ok r
      → (index_by (duplicate_name kind) name_of vs a ≡ ok r.0)
        × (index_by (duplicate_id kind) id_of vs b ≡ ok r.1)
  unfolding index_both index_by
  index_both-index_by [] a b r h = (cc, cc)
  index_both-index_by (v ∷ vs) a b r h =
      let (a2, first, more) =
        bind-ok (insert_unique (duplicate_name kind) (name_of v) v a)
          (λ x. insert_unique (duplicate_id kind) (id_of v) v b >>= λ y.
            index_both kind name_of id_of vs x y)
          r h in
      let (b2, second, rest) =
        bind-ok (insert_unique (duplicate_id kind) (id_of v) v b)
          (λ y. index_both kind name_of id_of vs a2 y) r more in
      let (p, q) = index_both-index_by vs a2 b2 r rest in (rw first p, rw second q)

  index_by-index_both :
      (vs : List V) (a a2 : Dict Name V) (b b2 : Dict Number V)
      → index_by (duplicate_name kind) name_of vs a ≡ ok a2
      → index_by (duplicate_id kind) id_of vs b ≡ ok b2
      → index_both kind name_of id_of vs a b ≡ ok (a2, b2)
  unfolding index_both index_by
  index_by-index_both [] a a2 b b2 h k = cc
  index_by-index_both (v ∷ vs) a a2 b b2 h k =
      let (a1, first, p) =
        bind-ok (insert_unique (duplicate_name kind) (name_of v) v a)
          (index_by (duplicate_name kind) name_of vs) a2 h in
      let (b1, second, q) =
        bind-ok (insert_unique (duplicate_id kind) (id_of v) v b)
          (index_by (duplicate_id kind) id_of vs) b2 k in
      rw (first, second) (index_by-index_both vs a1 a2 b1 b2 p q)

  -- What a part with two indices needs, and what the indices answer.
  pub both-ok :
      (vs : List V) (r : Dict Name V × Dict Number V)
      → index_both kind name_of id_of vs [] [] ≡ ok r
      → (Distinct name_of vs × Distinct id_of vs)
        × ((k : Name) → find k r.0 ≡ first_with name_of k vs)
        × ((k : Number) → find k r.1 ≡ first_with id_of k vs)
  unfolding find
  both-ok vs r h =
      let (p, q) = index_both-index_by vs [] [] r h in
      (
        (
          index_by-Distinct (duplicate_name kind) name_of vs [] r.0 p,
          index_by-Distinct (duplicate_id kind) id_of vs [] r.1 q,
        ),
        find-index_by (duplicate_name kind) name_of vs [] r.0 p,
        find-index_by (duplicate_id kind) id_of vs [] r.1 q,
      )

  pub both-made :
      (vs : List V)
      → Distinct name_of vs
      → Distinct id_of vs
      → (r : Dict Name V × Dict Number V) × (index_both kind name_of id_of vs [] [] ≡ ok r)
  both-made vs u w =
      let (a, p) = Distinct-index_by (duplicate_name kind) name_of vs [] u (none_in name_of vs) in
      let (b, q) = Distinct-index_by (duplicate_id kind) id_of vs [] w (none_in id_of vs) in
      ((a, b), index_by-index_both vs [] a [] b p q)

module _ {Number : Type 0} ⦃link_ids : Key (LinkId Number)⦄ where
  pub index_links-ok :
      (ls : List (LinkConfig Number)) (d d2 : Dict (LinkId Number) (LinkConfig Number))
      → index_links ls d ≡ ok d2
      → All (λ l. is_valid_link l.call_semantics ≡ true) ls
        × (index_by duplicate_link (λ l. l.link) ls d ≡ ok d2)
  unfolding index_links index_by
  index_links-ok [] d d2 h = (tt, h)
  index_links-ok (l ∷ ls) d d2 h = elim (Bool-cases (is_valid_link l.call_semantics)) [
    | inl e ↦
        let (next, first, rest) =
          bind-ok (insert_unique duplicate_link l.link l d) (index_links ls) d2 (rw e at h) in
        let (valid, indexed) = index_links-ok ls next d2 rest in ((e, valid), rw first indexed)
    | inr e ↦ absurd (ground (arith, rw e at h))
  ]

  pub index_links-made :
      (ls : List (LinkConfig Number)) (d d2 : Dict (LinkId Number) (LinkConfig Number))
      → All (λ l. is_valid_link l.call_semantics ≡ true) ls
      → index_by duplicate_link (λ l. l.link) ls d ≡ ok d2
      → index_links ls d ≡ ok d2
  unfolding index_links index_by
  index_links-made [] d d2 v h = h
  index_links-made (l ∷ ls) d d2 v h =
      let (next, first, rest) =
        bind-ok (insert_unique duplicate_link l.link l d) (index_by duplicate_link (λ l. l.link) ls)
          d2 h in
      rw (v.0, index_links, first) (index_links-made ls next d2 v.1 rest)
