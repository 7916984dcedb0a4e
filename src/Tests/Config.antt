-- ===== src/Tests/Config.antt =====
-- The configuration at small inputs, with numbers for names and ids.
use cppservicelib.Prelude.{
  inl, Option, ◌⊎◌, none, ℕ, ◌+◌, ◌≡◌, refl, Bool, true, false, ◌&&◌, [], ◌∷◌, some, ◌==◌, arith,
}
use cppservicelib.Dict.{Key}
use cppservicelib.Config.Runtime.{
  ok, CallSemanticsGroup, LinkId, Config, RuntimeConfig, is_valid_group, is_valid_link,
  make_runtime_config,
}
use cppservicelib.Config.Runtime.Made.{IsConsistent, Answers, IsConsistent-make, make-IsConsistent}
use cppservicelib.Config.Loader.{
  Text, Files, Loader, has_override_changed, record_watched_mtime, load, poll_once,
}
use cppservicelib.Config.Loader.Reload.{Differs, poll_follows_files, change_while_polling}
use cppservicelib.Tests.Keys.{nat_key}

abbrev same_link : LinkId ℕ → LinkId ℕ → Bool
same_link a b = (a.from == b.from) && (a.to == b.to)

pub link_refl : (a : LinkId ℕ) → same_link a a ≡ true
link_refl a = ground arith

pub link_symm : (a b : LinkId ℕ) → same_link a b ≡ same_link b a
link_symm a b = ground arith

pub link_trans :
    (a b c : LinkId ℕ) → same_link a b ≡ true → same_link b c ≡ true → same_link a c ≡ true
link_trans a b c e f = ground arith

pub link_hash : (a b : LinkId ℕ) → same_link a b ≡ true → a.from + a.to ≡ b.from + b.to
link_hash a b e = ground arith

instance abbrev pub link_key : Key (LinkId ℕ)
link_key = record {
  same = same_link;
  hash = λ a. a.from + a.to;
  same_refl = link_refl;
  same_symm = link_symm;
  same_trans = link_trans;
  hash-same = link_hash;
}

abbrev by_call : CallSemanticsGroup
by_call = record {
  function_call = true;
  task_pool = false;
  priority_task_pool = false;
  parallel_call = false;
}

abbrev two_streams : Config ℕ ℕ
two_streams = record {
  services = record { name = 1; id = 1 } ∷ [];
  streams = record { name = 10; id = 1 } ∷ record { name = 11; id = 2 } ∷ [];
  data_connectors = record { name = 20; id = 7; type = 3 } ∷ [];
  endpoints = record { name = 30; id = 4; id_data_connector = 7; type = 3 } ∷ [];
  pools = record { name = 40; executors_count = 2 } ∷ [];
  links = record { link = record { from = 1; to = 2 }; call_semantics = some by_call } ∷ [];
  types = [];
}

two_streams-IsConsistent : IsConsistent two_streams
unfolding is_valid_link is_valid_group
two_streams-IsConsistent = record {
  streams = ((refl, (refl, tt)), (refl, (refl, tt)));
  services = ((refl, tt), (refl, tt));
  endpoints = ((refl, tt), (refl, tt));
  connectors = ((refl, tt), (refl, tt));
  refers = ((record { name = 20; id = 7; type = 3 }, refl, refl), tt);
  pools = (refl, tt);
  types = tt;
  valid_links = (refl, tt);
  links = (refl, tt);
}

IsConsistent-make_example : (r : RuntimeConfig ℕ ℕ) × (make_runtime_config two_streams ≡ ok r)
IsConsistent-make_example = IsConsistent-make two_streams two_streams-IsConsistent

abbrev two_streams_made : RuntimeConfig ℕ ℕ
two_streams_made = (IsConsistent-make two_streams two_streams-IsConsistent).0

two_streams_ok : make_runtime_config two_streams ≡ ok two_streams_made
two_streams_ok = (IsConsistent-make two_streams two_streams-IsConsistent).1

make-IsConsistent_example : IsConsistent two_streams × Answers two_streams two_streams_made
make-IsConsistent_example = make-IsConsistent two_streams two_streams_made two_streams_ok

-- The files give the text of the override file.
abbrev override_text : Files → Option Text
override_text f = f.override_contents

abbrev first_files : Files
first_files = record { base = []; override_mtime = some 5; override_contents = some (1 ∷ []) }

abbrev second_files : Files
second_files = record { base = []; override_mtime = some 6; override_contents = some (2 ∷ []) }

abbrev third_files : Files
third_files = record { base = []; override_mtime = some 6; override_contents = some (3 ∷ []) }

abbrev serving : Loader Text
serving = record {
  state = some (1 ∷ []);
  last_override_mtime = some 5;
  last_override_contents = some (1 ∷ []);
  delivered = [];
}

served_first :
    (load override_text first_files first_files (record {
      state = none;
      last_override_mtime = none;
      last_override_contents = none;
      delivered = [];
    }))
    ≡ (true, serving)
unfolding load record_watched_mtime
served_first = refl

sees_second : has_override_changed second_files serving ≡ true
unfolding has_override_changed
sees_second = refl

second-Differs : Differs second_files 6 serving
second-Differs = inl (λ e. absurd (cc))

poll_follows_files_example :
    ((c : Text) × (override_text second_files ≡ some c)
      × ((poll_once override_text second_files second_files second_files serving).state ≡ some c)
      × (poll_once override_text second_files second_files second_files
            (poll_once override_text second_files second_files second_files serving)
          ≡ poll_once override_text second_files second_files second_files serving))
    ⊎ ((override_text second_files ≡ none)
        × ((poll_once override_text second_files second_files second_files serving).state
            ≡ serving.state)
        × ((retry : Files → Option Text) (c : Text)
            → retry second_files ≡ some c
            → (poll_once retry second_files second_files second_files
                (poll_once override_text second_files second_files second_files serving)).state
              ≡ some c))
poll_follows_files_example =
    poll_follows_files override_text second_files 6 serving refl second-Differs

change_while_polling_example :
    ((poll_once override_text second_files second_files third_files serving).state ≡ some (2 ∷ []))
    × (poll_once override_text third_files third_files third_files
          (poll_once override_text second_files second_files third_files serving)
        ≡ poll_once override_text second_files second_files third_files serving)
change_while_polling_example =
    change_while_polling override_text second_files second_files third_files 6 (2 ∷ []) serving
      sees_second refl refl
