-- ===== src/Proto/Tests.antt =====
-- Tests of the protocol's codes and names, and the theorems at concrete inputs.
use elbus.Base.{◌≡◌, ◌≢◌, ◌↔◌, refl, codes, ◌++◌, arith}
use elbus.Proto.Errors.{kind_of_code, kind_code, other, err_timeout, busy, timeout, eof}
use elbus.Proto.Codes.{kind_of_code-kind_code}
use elbus.Proto.Frame.{primary_name, secondary_sep}
use elbus.Proto.Sender.{primary_name_percent}

timeout_code_is_other : kind_of_code err_timeout ≡ other
unfolding kind_of_code
timeout_code_is_other = refl

primary_of_secondary : primary_name (codes "db%%7") ≡ codes "db"
unfolding primary_name
primary_of_secondary = refl

primary_name_percent_example :
    primary_name ((codes "db" ++ codes "%") ++ (secondary_sep ++ codes "0")) ≡ codes "db"
primary_name_percent_example = primary_name_percent (codes "db") (codes "0") (omega arith)

kind_of_code-kind_code_example :
    (kind_of_code (kind_code busy) ≡ busy) ↔ ((busy ≢ timeout) × (busy ≢ eof))
kind_of_code-kind_code_example = kind_of_code-kind_code busy
