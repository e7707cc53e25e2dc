-- ===== src/Broker/Tests/Fifo.antt =====
-- What the broker's fifo understands, at a concrete line.
use elbus.Base.{◌≡◌, refl, arith, true, Bytes, [], ◌∷◌, codes, trim}
use elbus.Proto.{ok}
use elbus.Common.Params.{bool, str_to_params_map, remove}
use elbus.Broker.Fifo.{call0, fifo_command}
use elbus.Broker.Fifo.Commands.{joined, Says, calls, fifo_command-Says}

abbrev line : Bytes
line = joined (codes "t") (codes ":m" ∷ codes "a=true" ∷ [])

says : Says line (call0 (codes "t") (codes "m") ((codes "a", bool true) ∷ []))
unfolding str_to_params_map remove
says =
    calls (codes "t") (codes "m") (codes "a=true" ∷ []) ((codes "a", bool true) ∷ [])
      (omega arith, tt) (omega arith, tt)
      (
        (
          omega arith,
          (omega arith, (omega arith, (omega arith, (omega arith, (omega arith, tt))))),
        ),
        tt,
      )
      (omega arith) refl

fifo_command_example :
    fifo_command line ≡ ok (call0 (codes "t") (codes "m") ((codes "a", bool true) ∷ []))
unfolding trim
fifo_command_example =
    fifo_command-Says line (call0 (codes "t") (codes "m") ((codes "a", bool true) ∷ [])) says refl
