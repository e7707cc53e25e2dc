-- ===== src/Proto/Sender.antt =====
-- src/lib.rs: names of primary and secondary clients.
use elbus.Base.{
  ◌≡◌, ◌≢◌, refl, arith, [], ◌∷◌, ◌++◌, some, Bytes, length, find, codes, take-length-append,
  append_assoc,
}
use elbus.Proto.Frame.{secondary_sep, primary_name}

-- No "%%" in the text, and no "%" at its end: such a name joined with "%%" has its first "%%" there.
abbrev pub IsPlain : Bytes → Type 0
IsPlain [] = Unit {0}
IsPlain (c ∷ []) = c ≢ b'%'
IsPlain (c ∷ d ∷ r) = (c ≡ b'%' → d ≢ b'%') × IsPlain (d ∷ r)

find-append :
    (n r : Bytes) → IsPlain n → find secondary_sep (n ++ (secondary_sep ++ r)) ≡ some (length n)
unfolding find
find-append [] r h = refl
find-append (c ∷ []) r h = ground arith
find-append (c ∷ d ∷ n) r h = ground (arith, find-append (d ∷ n) r h.1)

-- The primary name of a secondary client is the name that it was made from, if that name holds no
-- "%%" and does not end with "%".
primary_name-append : (n id : Bytes) → IsPlain n → primary_name (n ++ (secondary_sep ++ id)) ≡ n
unfolding primary_name
primary_name-append n id h = rw (find-append n id h, primary_name) (take-length-append n _)

-- A secondary client of a client whose name ends with "%" belongs to another primary name: the one
-- without that "%".
pub primary_name_percent :
    (n id : Bytes) → IsPlain n → primary_name ((n ++ codes "%") ++ (secondary_sep ++ id)) ≡ n
primary_name_percent n id h = rw (append_assoc n) (primary_name-append n (b'%' ∷ id) h)
