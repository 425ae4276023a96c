-- ===== src/Fdw/Validate.antt =====
-- src/fdw/base.rs: `validate_options` and `validate_mapping_option`.
pub mod Exact
use pg_analytics.Prelude.{
  Bool, Option, none, some, List, [], ◌∷◌, ◌++◌, ◌≡◌, ◌⊎◌, ◌↔◌, flatten, map, any, if◌then◌else◌,
}
use pg_analytics.Text.{Text, str, same, concat, join, split}
use pg_analytics.Result.{Result, ok, err, error, IsOk, ◌>>=◌, ◌>>◌}
use pg_analytics.Options.{OptionEnum}

-- An element of the `opt_list` that PostgreSQL hands to a validator: `name=value`.
abbrev pub OptList : Type 0
OptList = List (Option Text)

abbrev head_or_empty : List Text → Text
head_or_empty [] = []
head_or_empty (part ∷ parts) = part

-- `opt.split('=').next().unwrap_or("")`
unfoldable pub option_name : Text → Text
option_name opt = head_or_empty (split b'=' opt)

-- `Vec::contains`
unfoldable pub contains : List Text → Text → Bool
contains texts t = any (λ x. same x t) texts

unfoldable pub check_names : List Text → List Text → Result (Unit {0})
check_names [] valid_options = ok tt
check_names (opt ∷ opts) valid_options =
    let rest = check_names opts valid_options in
    if contains valid_options opt
    then rest
    else err (
        error (
          concat (
            str "invalid option: "
            ∷ opt
            ∷ str ". valid options are: "
            ∷ join (str ", ") valid_options
            ∷ [])))

unfoldable pub validate_options : OptList → List Text → Result (Unit {0})
unfolding check_names option_name contains
validate_options opt_list valid_options =
    check_names (map option_name (flatten opt_list)) valid_options

-- `name=value` stands in the list, for some value.
abbrev pub Given : Text → OptList → Type 0
Given name [] = ⊥
Given name (o ∷ opts) = ((value : Text) × (o ≡ some (name ++ (b'=' ∷ value)))) ⊎ Given name opts

-- `check_options_contain` of supabase-wrappers, which looks for an element that begins with the
-- option's name and `=`, and fails if there is none.
pub record OptionCheck : Type 0 where
  pub check_options_contain : OptList → Text → Result (Unit {0})
  pub check_iff :
      (opts : OptList) (name : Text) → IsOk (check_options_contain opts name) ↔ Given name opts

module _ (T : Type 0) ⦃e : OptionEnum T⦄ (c : OptionCheck) where
  unfoldable pub check_required : List T → OptList → Result (Unit {0})
  check_required [] opt_list = ok tt
  check_required (opt ∷ opts) opt_list =
      let rest = check_required opts opt_list in
      if e.is_required opt then (c.check_options_contain opt_list (e.as_ref opt) >> rest) else rest

  unfoldable pub validate_mapping_option : OptList → Result (Unit {0})
  unfolding check_required validate_options
  validate_mapping_option opt_list = do
    validate_options opt_list (map e.as_ref e.iter)
    check_required e.iter opt_list
