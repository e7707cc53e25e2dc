-- ===== src/Common/Params.antt =====
-- src/common.rs: `str_to_params_map`, which reads the parameters of a call from `name=value` words.
pub mod Laws
use elbus.Base.{
  ℕ, zero, suc, ◌+◌, ◌-◌, ◌*◌, ◌^◌, Bool, true, false, ◌&&◌, ◌||◌, not, Bytes, List, [], ◌∷◌,
  Option, none, some, if◌then◌else◌, ◌==◌, leb, eq_bytes, codes, map, split_on,
}
use elbus.Proto.{Result, ok, err, error_data, literal, ◌>>=◌}

-- the integers, over the native numbers
pub data ℤ : Type 0 where
  pos : ℕ → ℤ
  negsuc : ℕ → ℤ

-- `serde_value::Value`, as far as it is made here. A floating point number is kept as its text.
pub data Value : Type 0 where
  bool : Bool → Value
  i64 : ℤ → Value
  f64 : Bytes → Value
  string : Bytes → Value

abbrev pub is_digit : ℕ → Bool
is_digit c = leb 48 c && leb c 57

-- decimal digits, behind a number that has been read
unfoldable pub digits_from : ℕ → Bytes → Option ℕ
digits_from n [] = some n
digits_from n (c ∷ cs) =
    let rest = digits_from (n * 10 + (c - 48)) cs in if is_digit c then rest else none

unfoldable pub digits : Bytes → Option ℕ
unfolding digits_from
digits [] = none
digits (c ∷ cs) = digits_from 0 (c ∷ cs)

non_negative : Option ℕ → Option ℤ
non_negative none = none
non_negative (some n) = if leb n (2 ^ 63 - 1) then some (pos n) else none

non_positive : Option ℕ → Option ℤ
non_positive none = none
non_positive (some zero) = some (pos 0)
non_positive (some (suc n)) = if leb (suc n) (2 ^ 63) then some (negsuc n) else none

-- `parse::<i64>()`
unfoldable pub parse_i64 : Bytes → Option ℤ
unfolding digits non_negative non_positive
parse_i64 [] = none
parse_i64 (c ∷ cs) =
    if c == 45
    then non_positive (digits cs)
    else if c == 43
    then non_negative (digits cs)
    else non_negative (digits (c ∷ cs))

-- a digit or several, and what follows them
skip_digits : Bytes → Bool × Bytes
skip_digits [] = (false, [])
skip_digits (c ∷ cs) =
    let rest = skip_digits cs in if is_digit c then (true, rest.1) else (false, c ∷ cs)

skip_sign : Bytes → Bytes
skip_sign [] = []
skip_sign (c ∷ cs) = if c == 43 || c == 45 then cs else c ∷ cs

-- `Exp?` at the end
is_exponent : Bytes → Bool
unfolding skip_digits skip_sign
is_exponent [] = true
is_exponent (c ∷ cs) =
    let (some_digits, rest) = skip_digits (skip_sign cs) in
    (c == 101 || c == 69) && (some_digits && eq_bytes rest [])

-- what follows the digits in front
fraction : Bool → Bytes → Bool
unfolding is_exponent
fraction some_digits [] = some_digits
fraction some_digits (c ∷ cs) =
    let (more_digits, rest) = skip_digits cs in
    if c == 46
    then (some_digits || more_digits) && is_exponent rest
    else some_digits && is_exponent (c ∷ cs)

is_number : Bytes → Bool
unfolding fraction
is_number s = let (some_digits, rest) = skip_digits s in fraction some_digits rest

abbrev lowered : Bytes → Bytes
lowered = map (λ c. if leb 65 c && leb c 90 then c + 32 else c)

-- whether `parse::<f64>()` succeeds: the grammar of the standard library
unfoldable pub is_f64 : Bytes → Bool
unfolding is_number skip_sign eq_bytes
is_f64 s =
    let t = skip_sign s in
    let word = lowered t in
    eq_bytes word (codes "inf")
    || (eq_bytes word (codes "infinity") || (eq_bytes word (codes "nan") || is_number t))

-- the value of a word, by what it can be read as
unfoldable pub value_of : Bytes → Value
unfolding eq_bytes parse_i64 is_f64
value_of v =
    if eq_bytes v (codes "false")
    then bool false
    else if eq_bytes v (codes "true")
    then bool true
    else elim (parse_i64 v) [ some i ↦ i64 i | none ↦ if is_f64 v then f64 v else string v ]

abbrev pub Params : Type 0
Params = List (Bytes × Value)

unfoldable pub get : Bytes → Params → Option Value
get n [] = none
get n ((m, v) ∷ rest) = let later = get n rest in if eq_bytes m n then some v else later

unfoldable pub remove : Bytes → Params → Params
remove n [] = []
remove n ((m, v) ∷ rest) =
    let later = remove n rest in if eq_bytes m n then later else (m, v) ∷ later

abbrev pub insert : Bytes → Value → Params → Params
insert n v params = (n, v) ∷ remove n params

-- the name and the value of a word, from its pieces between equal signs: the third one and any
-- further ones are dropped
unfoldable pub add_pair : List Bytes → Params → Result Params
unfolding value_of
add_pair [] params = err (error_data (literal "var name not specified"))
add_pair (var ∷ []) params = err (error_data (literal "var value not specified"))
add_pair (var ∷ v ∷ more) params = ok (insert var (value_of v) params)

-- the loop over the words; an empty one is passed over
unfoldable pub params_from : Params → List Bytes → Result Params
unfolding add_pair split_on
params_from params [] = ok params
params_from params ([] ∷ words) = params_from params words
params_from params ((c ∷ cs) ∷ words) =
    add_pair (split_on 61 (c ∷ cs)) params >>= λ more. params_from more words

unfoldable pub str_to_params_map : List Bytes → Result Params
unfolding params_from
str_to_params_map words = params_from [] words
