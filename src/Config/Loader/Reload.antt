-- ===== src/Config/Loader/Reload.antt =====
-- runtime/config/loader.hpp: what polls publish.
use cppservicelib.Prelude.{
  ℕ, ◌≡◌, ◌≢◌, refl, ap, ◌⊎◌, inl, inr, Option-cases, Bool-cases, true, false, [], ◌∷◌, Option,
  none, some, ◌==◌, ==_refl, ==_eq, arith,
}
use cppservicelib.Config.Loader.{
  Text, same_text, same_time, same_contents, Files, Loader, has_override_changed,
  record_watched_mtime, publish, poll_once,
}

same_text_refl : (c : Text) → same_text c c ≡ true
unfolding same_text
same_text_refl [] = refl
same_text_refl (c ∷ cs) = rw (==_refl c) (same_text_refl cs)

same_text-eq : (c d : Text) → same_text c d ≡ true → c ≡ d
unfolding same_text
same_text-eq [] [] e = refl
same_text-eq [] (d ∷ ds) e = absurd (ground arith)
same_text-eq (c ∷ cs) [] e = absurd (ground arith)
same_text-eq (c ∷ cs) (d ∷ ds) e =
    let first : c ≡ d = ground arith in rw (first, same_text-eq cs ds (ground arith)) refl

recorded_time : (o : Option ℕ) (m : ℕ) → o ≢ some m → same_time o m ≡ false
recorded_time none m d = refl
recorded_time (some n) m d = elim (Bool-cases (n == m)) [
  | inl e ↦ absurd (d (ap some (==_eq n m e)))
  | inr e ↦ e
]

recorded_contents : (o : Option Text) (c : Text) → o ≢ some c → same_contents o c ≡ false
recorded_contents none c d = refl
recorded_contents (some b) c d = elim (Bool-cases (same_text b c)) [
  | inl e ↦ absurd (d (ap some (same_text-eq b c e)))
  | inr e ↦ e
]

module _ {Loaded : Type 0} where
  -- The time of the override file, or its contents where they can be read, are not the recorded ones.
  abbrev pub Differs : Files → ℕ → Loader Loaded → Type 0
  Differs f m l =
      (l.last_override_mtime ≢ some m)
      ⊎ ((c : Text) × (f.override_contents ≡ some c) × (l.last_override_contents ≢ some c))

  pub differs_lem :
      (f : Files) (m : ℕ) (l : Loader Loaded)
      → f.override_mtime ≡ some m
      → Differs f m l
      → has_override_changed f l ≡ true
  unfolding has_override_changed
  differs_lem f m l e (inl d) = rw (e, recorded_time l.last_override_mtime m d) refl
  differs_lem f m l e (inr (c, s, d)) =
      ground (arith, e, s, recorded_contents l.last_override_contents c d)

module _ {Loaded : Type 0} (load_once : Files → Option Loaded) where
  -- A configuration that was published, and the files at the record.
  published-unchanged :
      (f : Files) (m : ℕ) (c : Loaded) (l : Loader Loaded)
      → f.override_mtime ≡ some m
      → has_override_changed f (publish f (some c) l) ≡ false
  unfolding has_override_changed record_watched_mtime
  published-unchanged f m c l e = elim (Option-cases f.override_contents) [
    | inl n ↦ ground (arith, e, n)
    | inr (t, s) ↦ ground (arith, e, s, same_text_refl t)
  ]

  published-state :
      (f : Files) (c : Loaded) (l : Loader Loaded) → (publish f (some c) l).state ≡ some c
  unfolding record_watched_mtime
  published-state f c l = ground arith

  -- Where the files stand still while a poll runs, the override file has a time, and this time or the
  -- contents that can be read differ from those that were recorded: a poll publishes what the files give
  -- and the next one does nothing; and where they give nothing, it keeps what is published, and the next
  -- poll under which the same files give something publishes that.
  pub poll_follows_files :
      (f : Files) (m : ℕ) (l : Loader Loaded)
      → f.override_mtime ≡ some m
      → Differs f m l
      → ((c : Loaded) × (load_once f ≡ some c)
          × ((poll_once load_once f f f l).state ≡ some c)
          × (poll_once load_once f f f (poll_once load_once f f f l) ≡ poll_once load_once f f f l))
        ⊎ ((load_once f ≡ none)
            × ((poll_once load_once f f f l).state ≡ l.state)
            × ((retry : Files → Option Loaded) (c : Loaded)
                → retry f ≡ some c
                → (poll_once retry f f f (poll_once load_once f f f l)).state ≡ some c))
  unfolding poll_once
  poll_follows_files f m l e d =
      let h = differs_lem f m l e d in
      elim (Option-cases (load_once f)) [
        | inl n ↦
            let same : poll_once load_once f f f l ≡ l = rw (h, n, poll_once) refl in
            inr (
              n,
              ap (λ q. q.state) same,
              λ retry c s. rw same (rw (h, s, poll_once) (published-state f c l)),
            )
        | inr (c, s) ↦
            let now : poll_once load_once f f f l ≡ publish f (some c) l =
              rw (h, s, poll_once) refl in
            inl (
              c,
              s,
              rw now (published-state f c l),
              rw now (rw (published-unchanged f m c l e, poll_once) refl),
            )
      ]

  -- A change between the load and the record of a poll is not seen: the loader goes on to serve what the
  -- files gave before it, and no later poll changes that while the files stand still.
  pub change_while_polling :
      (tested loaded recorded : Files) (m : ℕ) (c : Loaded) (l : Loader Loaded)
      → has_override_changed tested l ≡ true
      → load_once loaded ≡ some c
      → recorded.override_mtime ≡ some m
      → ((poll_once load_once tested loaded recorded l).state ≡ some c)
        × (poll_once load_once recorded recorded recorded
              (poll_once load_once tested loaded recorded l)
            ≡ poll_once load_once tested loaded recorded l)
  unfolding poll_once
  change_while_polling tested loaded recorded m c l h s e =
      let now : poll_once load_once tested loaded recorded l ≡ publish recorded (some c) l =
        rw (h, s, poll_once) refl in
      (
        rw now (published-state recorded c l),
        rw now (rw (published-unchanged recorded m c l e, poll_once) refl),
      )
