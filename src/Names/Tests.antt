-- ===== src/Names/Tests.antt =====
-- The cases of kebab-case_test.go and pascal-case_test.go, and names that a pass of Go would give.
use jonson.Prelude.{ℕ, ◌≡◌, refl, [], ◌∷◌, ◌++◌, true, arith}
use jonson.Text.{codes, decimal}
use jonson.Names.Endpoint.{is_one_line, get_default_method_name_inj, split_method_name-versioned}
use jonson.Validate.{ok, panicked}
use jonson.Names.{
  to_kebab_case, to_pascal_case, split_method_name, get_default_method_name, slice_out_of_range,
  is_valid_identifier,
}

kebab_cases :
    (to_kebab_case (codes "camelCase") ≡ codes "camel-case")
    × (to_kebab_case (codes "snake_case") ≡ codes "snake-case")
    × (to_kebab_case (codes "Pascal_Snake") ≡ codes "pascal-snake")
    × (to_kebab_case (codes "SCREAMING-SNAKE") ≡ codes "screaming-snake")
    × (to_kebab_case (codes "AAAA") ≡ codes "aaaa")
    × (to_kebab_case (codes "AaAa") ≡ codes "aa-aa")
    × (to_kebab_case (codes "HTTPRequest") ≡ codes "http-request")
    × (to_kebab_case (codes "BatteryLifeValue") ≡ codes "battery-life-value")
    × (to_kebab_case (codes "ID0Value") ≡ codes "id0-value")
unfolding to_kebab_case
kebab_cases = (refl, refl, refl, refl, refl, refl, refl, refl, refl)

pascal_cases :
    (to_pascal_case [] ≡ ok [])
    × (to_pascal_case (codes "SCREAMING-KEBAB") ≡ ok (codes "ScreamingKebab"))
    × (to_pascal_case (codes "AAA") ≡ ok (codes "Aaa"))
    × (to_pascal_case (codes "Id0Value") ≡ ok (codes "Id0Value"))
    × (to_pascal_case (codes "a_") ≡ panicked slice_out_of_range)
unfolding to_pascal_case
pascal_cases = (refl, refl, refl, refl, refl)

method_names :
    (split_method_name (codes "GetProfileV1") ≡ (codes "get-profile", 1))
    × (split_method_name (codes "V2V12") ≡ (codes "v2", 12))
    × (split_method_name (codes "GetProfile") ≡ ([], 0))
    × (split_method_name (codes "V1") ≡ ([], 0))
    × (split_method_name (codes "GetV99999999999999999999") ≡ (codes "get", 18446744073709551615))
    × (get_default_method_name (codes "account") (codes "get-profile") 12
        ≡ codes "account/get-profile.v12")
unfolding split_method_name get_default_method_name
method_names = (refl, refl, refl, refl, refl, refl)

app_valid : is_valid_identifier (codes "app") ≡ true
unfolding is_valid_identifier
app_valid = refl

user_valid : is_valid_identifier (codes "get-user") ≡ true
unfolding is_valid_identifier
user_valid = refl

one_line : is_one_line (codes "GetUser") ≡ true
one_line = refl

get_default_method_name_inj_example :
    (codes "app" ≡ codes "app") × (codes "get-user" ≡ codes "get-user") × ◌≡◌ {A = ℕ} 2 2
get_default_method_name_inj_example =
    get_default_method_name_inj (codes "app") (codes "app") (codes "get-user") (codes "get-user") 2
      2 app_valid app_valid user_valid user_valid refl

split_method_name-versioned_example :
    split_method_name (codes "GetUser" ++ b'V' ∷ decimal 12) ≡ (to_kebab_case (codes "GetUser"), 12)
split_method_name-versioned_example =
    split_method_name-versioned b'G' (codes "etUser") 12 one_line (omega arith)
