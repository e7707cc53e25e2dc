-- ===== src/Common/Params/Laws.antt =====
-- src/common.rs, `str_to_params_map`: what becomes of the words.
use elbus.Base.{
  ℕ, ◌≡◌, refl, sym, ◌∙◌, ap, arith, Bytes, List, [], ◌∷◌, ◌++◌, Option, none, some, if◌then◌else◌,
  true, false, ◌≢◌, inl, inr, subst, codes, Bool-cases, Option-cases, eq_bytes, eq_bytes→eq,
  eq_bytes_refl, map, All, split_on, Lacks, split_on-append, split_on-none, append-nil,
}
use elbus.Proto.{ok, err, error_data, literal, ◌>>=◌}
use elbus.Common.Params.{
  Value, ℤ, bool, i64, f64, string, parse_i64, is_f64, Params, get, remove, insert, value_of,
  add_pair, params_from, str_to_params_map,
}

-- `name=value`
abbrev pub assign : Bytes × Bytes → Bytes
assign (n, v) = n ++ (61 ∷ v)

-- Names and values without an equal sign.
abbrev pub AreWords : List (Bytes × Bytes) → Type 0
AreWords = All λ p. Lacks 61 p.0 × Lacks 61 p.1

-- the last value that a name is given
unfoldable pub last_of : Bytes → List (Bytes × Bytes) → Option Bytes
last_of n [] = none
last_of n ((m, v) ∷ rest) = elim (last_of n rest) [
  | some w ↦ some w
  | none ↦ if eq_bytes m n then some v else none
]

get-remove :
    (k n : Bytes) (m : Params) → get n (remove k m) ≡ (if eq_bytes k n then none else get n m)
unfolding get remove
get-remove k n [] = ground arith
get-remove k n ((j, v) ∷ rest) = ground (
  arith,
  get-remove k n rest,
  eq_bytes→eq j k,
  eq_bytes→eq j n,
  eq_bytes→eq k n,
  eq_bytes_refl k,
  eq_bytes_refl j,
  eq_bytes_refl n,
)

split_on-pair : (n v : Bytes) → Lacks 61 n → Lacks 61 v → split_on 61 (n ++ (61 ∷ v)) ≡ n ∷ v ∷ []
split_on-pair n v h k = split_on-append 61 n v h ∙ ap (λ rest. n ∷ rest) (split_on-none 61 v k)

-- One word that is an assignment goes into the map, and the loop goes on.
params_from-assign :
    (n v : Bytes) (params : Params) (words : List Bytes)
    → Lacks 61 n
    → Lacks 61 v
    → params_from params ((n ++ (61 ∷ v)) ∷ words)
      ≡ params_from (insert n (value_of v) params) words
unfolding params_from add_pair
params_from-assign [] v params words h k =
    ap (λ ps. add_pair ps params >>= λ more. params_from more words) (split_on-pair [] v h k)
params_from-assign (c ∷ cs) v params words h k =
    ap (λ ps. add_pair ps params >>= λ more. params_from more words) (split_on-pair (c ∷ cs) v h k)

abbrev else_get : Bytes → Params → Option Bytes → Option Value
else_get n params none = get n params
else_get n params (some v) = some (value_of v)

else_get-last_of :
    (n m v : Bytes) (rest : List (Bytes × Bytes)) (params : Params)
    → else_get n (insert m (value_of v) params) (last_of n rest)
      ≡ else_get n params (last_of n ((m, v) ∷ rest))
unfolding last_of get
else_get-last_of n m v rest params = ground (arith, get-remove m n params)

-- What the loop makes of assignments, and then of the other words.
params_from-assignments :
    (ps : List (Bytes × Bytes)) (params : Params) (words : List Bytes)
    → AreWords ps
    → (m : Params) × (params_from params (map assign ps ++ words) ≡ params_from m words)
      × ((n : Bytes) → get n m ≡ else_get n params (last_of n ps))
unfolding last_of
params_from-assignments [] params words w = (params, refl, λ n. refl)
params_from-assignments ((n, v) ∷ ps) params words ((h, k), w) =
    let (m, e, g) = params_from-assignments ps (insert n (value_of v) params) words w in
    (
      m,
      params_from-assign n v params (map assign ps ++ words) h k ∙ e,
      λ k. g k ∙ else_get-last_of k n v ps params,
    )

params_from-missing :
    (c : ℕ) (cs : Bytes) (params : Params) (words : List Bytes)
    → Lacks 61 (c ∷ cs)
    → params_from params ((c ∷ cs) ∷ words) ≡ err (error_data (literal "var value not specified"))
unfolding params_from add_pair
params_from-missing c cs params words h =
    rw (split_on-none 61 (c ∷ cs) h, params_from, add_pair) refl

-- What a word looks like: a truth value, an integer, another number, or else a text. What texts the
-- standard library reads as numbers is that of `parse`.
pub data LooksLike : Bytes → Value → Type 0 where
  truth : LooksLike (codes "true") (bool true)
  falsity : LooksLike (codes "false") (bool false)
  integer : {v : Bytes} (i : ℤ) → parse_i64 v ≡ some i → LooksLike v (i64 i)
  number : {v : Bytes} → parse_i64 v ≡ none → is_f64 v ≡ true → LooksLike v (f64 v)
  text :
      {v : Bytes}
      → v ≢ codes "true"
      → v ≢ codes "false"
      → parse_i64 v ≡ none
      → is_f64 v ≡ false
      → LooksLike v (string v)

-- A name has the value that the last word for it looks like, and no value if there is none.
abbrev pub HasLast : Bytes → Params → Option Bytes → Type 0
HasLast n m none = get n m ≡ none
HasLast n m (some v) = (x : Value) × (get n m ≡ some x) × LooksLike v x

eq_bytes-false : (v w : Bytes) → eq_bytes v w ≡ false → v ≢ w
eq_bytes-false v w h e = ground (arith, h, e, eq_bytes_refl w)

value_of-number :
    (v : Bytes)
    → eq_bytes v (codes "false") ≡ false
    → eq_bytes v (codes "true") ≡ false
    → LooksLike v
        (elim (parse_i64 v) [ some i ↦ i64 i | none ↦ if is_f64 v then f64 v else string v ])
value_of-number v h k = elim (Option-cases (parse_i64 v)) [
  | inr (i, e) ↦ rw e (integer i e)
  | inl e ↦ elim (Bool-cases (is_f64 v)) [
    | inl g ↦ rw (e, g) (number e g)
    | inr g ↦
        rw (e, g)
          (text (eq_bytes-false v (codes "true") k) (eq_bytes-false v (codes "false") h) e g)
  ]
]

value_of-LooksLike : (v : Bytes) → LooksLike v (value_of v)
unfolding value_of
value_of-LooksLike v = elim (Bool-cases (eq_bytes v (codes "false"))) [
  | inl h ↦ subst (λ w. LooksLike w (value_of w)) (sym (eq_bytes→eq v (codes "false") h)) falsity
  | inr h ↦ elim (Bool-cases (eq_bytes v (codes "true"))) [
    | inl k ↦ subst (λ w. LooksLike w (value_of w)) (sym (eq_bytes→eq v (codes "true") k)) truth
    | inr k ↦ rw (h, value_of) (rw k (value_of-number v h k))
  ]
]

-- Words `name=value`, with no further equal sign, give a map in which each name has the last value
-- that it is given, read as what it looks like: a truth value, an integer, another number, or else a
-- text; and no other name has a value. Behind them, a word that is not empty and has no equal sign is
-- an error, whatever follows it.
pub str_to_params_map-assignments :
    (ps : List (Bytes × Bytes)) (c : ℕ) (cs : Bytes) (words : List Bytes)
    → AreWords ps
    → Lacks 61 (c ∷ cs)
    → ((m : Params) × (str_to_params_map (map assign ps) ≡ ok m)
        × ((n : Bytes) → HasLast n m (last_of n ps)))
      × (str_to_params_map (map assign ps ++ ((c ∷ cs) ∷ words))
          ≡ err (error_data (literal "var value not specified")))
unfolding str_to_params_map get params_from
str_to_params_map-assignments ps c cs words w h =
    let (m, e, g) = params_from-assignments ps [] [] w in
    let (k, f, _) = params_from-assignments ps [] ((c ∷ cs) ∷ words) w in
    (
      (
        m,
        ap (params_from []) (sym (append-nil (map assign ps))) ∙ e,
        λ n. as_last n m (last_of n ps) (g n),
      ),
      f ∙ params_from-missing c cs k words h,
    )
  where
    as_last :
        (n : Bytes) (m : Params) (o : Option Bytes) → get n m ≡ else_get n [] o → HasLast n m o
    as_last n m none e = e
    as_last n m (some v) e = (value_of v, e, value_of-LooksLike v)
