-- ===== src/Config/Loader.antt =====
-- runtime/config/loader.hpp: ConfigLoader with an override file, its first load and its polls. The files
-- may change between any two of their readings, so that a poll takes them at its test, at its load and
-- at its record. `load_once` is what LoadOnce makes of the files, with the YAML of userver and the
-- generated code; it has no value where that throws.
pub mod Reload
use cppservicelib.Prelude.{
  ℕ, ◌+◌, Bool, true, false, not, ◌&&◌, List, [], ◌∷◌, Option, none, some, ◌==◌, if◌then◌else◌,
}

abbrev pub Text : Type 0
Text = List ℕ

unfoldable pub same_text : Text → Text → Bool
same_text [] [] = true
same_text [] (d ∷ ds) = false
same_text (c ∷ cs) [] = false
same_text (c ∷ cs) (d ∷ ds) = c == d && same_text cs ds

abbrev pub same_time : Option ℕ → ℕ → Bool
same_time none m = false
same_time (some n) m = n == m

abbrev pub same_contents : Option Text → Text → Bool
same_contents none c = false
same_contents (some d) c = same_text d c

-- The base file, and the override file with what `last_write_time` and an open of it give.
pub record Files : Type 0 where
  pub base : Text
  pub override_mtime : Option ℕ
  pub override_contents : Option Text

-- `delivered` has the configurations that `onReload_` got, newest first, and is no part of the code.
pub record Loader (Loaded : Type 0) : Type 0 where
  pub state : Option Loaded
  pub last_override_mtime : Option ℕ
  pub last_override_contents : Option Text
  pub delivered : List Loaded

module _ {Loaded : Type 0} where
  -- For the contents that were read.
  abbrev pub contents_changed : Loader Loaded → Option Text → Bool
  contents_changed l none = false
  contents_changed l (some c) = not (same_contents l.last_override_contents c)

  abbrev pub mtime_changed : Files → Loader Loaded → Option ℕ → Bool
  mtime_changed f l none = false
  mtime_changed f l (some m) =
      if not (same_time l.last_override_mtime m)
      then true
      else contents_changed l f.override_contents

  -- `HasOverrideChanged`
  unfoldable pub has_override_changed : Files → Loader Loaded → Bool
  has_override_changed f l = mtime_changed f l f.override_mtime

  abbrev pub record_mtime : Files → Loader Loaded → Option ℕ → Loader Loaded
  record_mtime f l none = l
  record_mtime f l (some m) = record l {
    last_override_mtime = some m;
    last_override_contents = f.override_contents;
  }

  -- `RecordWatchedMtime`
  unfoldable pub record_watched_mtime : Files → Loader Loaded → Loader Loaded
  record_watched_mtime f l = record_mtime f l f.override_mtime

  -- `PollOnce` behind its test, for what is loaded.
  abbrev pub publish : Files → Option Loaded → Loader Loaded → Loader Loaded
  publish f none l = l
  publish f (some c) l =
      let q = record_watched_mtime f (record l { state = some c }) in
      record q { delivered = c ∷ q.delivered }

  -- `PollOnce`
  unfoldable pub poll_once :
      (Files → Option Loaded) → Files → Files → Files → Loader Loaded → Loader Loaded
  poll_once load_once tested loaded recorded l =
      if not (has_override_changed tested l) then l else publish recorded (load_once loaded) l

  -- `Load`, where false stands for its exception.
  unfoldable pub load :
      (Files → Option Loaded) → Files → Files → Loader Loaded → Bool × Loader Loaded
  load load_once loaded recorded l = elim (load_once loaded) [
    | none ↦ (false, l)
    | some c ↦ (true, record (record_watched_mtime recorded l) { state = some c })
  ]

  -- `GetConfig` and `GetRuntimeConfig`, after a load.
  abbrev pub get_config : Loader Loaded → Option Loaded
  get_config l = l.state
