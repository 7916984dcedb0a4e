-- ===== src/DataSource/CronExpression.antt =====
-- src/datasource/cron/libcron.cpp: ToLibcronExpression, from the five portable fields to the six of
-- libcron.
use cppservicelib.Prelude.{
  ℕ, Bool, false, not, ◌&&◌, ◌||◌, List, [], ◌∷◌, ◌++◌, Option, none, some, ltb, ◌==◌,
  if◌then◌else◌,
}
use cppservicelib.DataSource.LocalInterval.{Text}

-- What `>>` skips.
abbrev pub is_space : ℕ → Bool
is_space c = c == 32 || (not (ltb c 9) && not (ltb 13 c))

abbrev pub push_field : Text → List Text → List Text
push_field [] fields = fields
push_field (c ∷ cs) fields = (c ∷ cs) ∷ fields

-- The field that the text starts in, and those behind it.
unfoldable pub split_fields : Text → Text × List Text
split_fields [] = ([], [])
split_fields (c ∷ cs) =
    let (field, fields) = split_fields cs in
    if is_space c then ([], push_field field fields) else (c ∷ field, fields)

abbrev pub is_star : Text → Bool
is_star [] = false
is_star (c ∷ []) = c == 42
is_star (c ∷ d ∷ cs) = false

abbrev pub space : Text
space = 32 ∷ []

abbrev pub question : Text
question = 63 ∷ []

-- The result with a field for the days of the month and one for those of the week.
abbrev pub six_fields : Text → Text → Text → Text → Text → Text
six_fields minute hour day month weekday =
    48 ∷ 32 ∷ (minute ++ space ++ hour ++ space ++ day ++ space ++ month ++ space ++ weekday)

abbrev pub translate_fields : List Text → Option Text
translate_fields (minute ∷ hour ∷ day ∷ month ∷ weekday ∷ []) =
    if not (is_star day) && not (is_star weekday)
    then none
    else if not (is_star day)
    then some (six_fields minute hour day month question)
    else if not (is_star weekday)
    then some (six_fields minute hour question month weekday)
    else some (six_fields minute hour day month question)
translate_fields _ = none

-- `ToLibcronExpression`
unfoldable pub to_libcron_expression : Text → Option Text
unfolding split_fields
to_libcron_expression expression =
    translate_fields (push_field (split_fields expression).0 (split_fields expression).1)
