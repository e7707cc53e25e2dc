-- ===== src/Common/Tests.antt =====
-- The theorems on parameters at concrete words.
use elbus.Base.{◌≡◌, arith, Bytes, List, [], ◌∷◌, ◌++◌, codes, map}
use elbus.Proto.{ok, err, error_data, literal}
use elbus.Common.Params.{Params, str_to_params_map}
use elbus.Common.Params.Laws.{HasLast, assign, last_of, str_to_params_map-assignments}

abbrev assignments : List (Bytes × Bytes)
assignments = (codes "a", codes "1") ∷ (codes "a", codes "true") ∷ []

str_to_params_map_example :
    ((m : Params) × (str_to_params_map (map assign assignments) ≡ ok m)
      × ((n : Bytes) → HasLast n m (last_of n assignments)))
    × (str_to_params_map (map assign assignments ++ (codes "b" ∷ codes "c=2" ∷ []))
        ≡ err (error_data (literal "var value not specified")))
str_to_params_map_example =
    str_to_params_map-assignments assignments 98 [] (codes "c=2" ∷ [])
      (
        ((omega arith, tt), (omega arith, tt)),
        (((omega arith, tt), (omega arith, (omega arith, (omega arith, (omega arith, tt))))), tt),
      )
      (omega arith, tt)
