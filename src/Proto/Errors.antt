-- ===== src/Proto/Errors.antt =====
-- src/lib.rs: error codes, `ErrorKind`, `Error` and `IntoElbusResult`.
use Prim.Native.String.{String}
use elbus.Base.{◌≡◌, ◌⊎◌, inl, inr, refl, ℕ, Bytes, Option, none, some, ◌==◌, if◌then◌else◌, Bool}

abbrev pub response_ok : ℕ
response_ok = 0x01

abbrev pub err_client_not_registered : ℕ
err_client_not_registered = 0x71

abbrev pub err_data : ℕ
err_data = 0x72

abbrev pub err_io : ℕ
err_io = 0x73

abbrev pub err_other : ℕ
err_other = 0x74

abbrev pub err_not_supported : ℕ
err_not_supported = 0x75

abbrev pub err_busy : ℕ
err_busy = 0x76

abbrev pub err_not_delivered : ℕ
err_not_delivered = 0x77

abbrev pub err_timeout : ℕ
err_timeout = 0x78

abbrev pub err_access : ℕ
err_access = 0x79

pub data ErrorKind : Type 0 where
  not_registered not_supported io timeout bad_data busy not_delivered access other eof : ErrorKind

-- `kind as u8`
unfoldable pub kind_code : ErrorKind → ℕ
kind_code not_registered = err_client_not_registered
kind_code not_supported = err_not_supported
kind_code io = err_io
kind_code timeout = err_timeout
kind_code bad_data = err_data
kind_code busy = err_busy
kind_code not_delivered = err_not_delivered
kind_code access = err_access
kind_code other = err_other
kind_code eof = 0xff

-- `impl From<u8> for ErrorKind`
unfoldable pub kind_of_code : ℕ → ErrorKind
kind_of_code code =
    if code == err_client_not_registered
    then not_registered
    else if code == err_not_supported
    then not_supported
    else if code == err_io
    then io
    else if code == err_data
    then bad_data
    else if code == err_busy
    then busy
    else if code == err_not_delivered
    then not_delivered
    else if code == err_access
    then access
    else other

-- A message is kept as its literal, with the number or the text that the source formats into it;
-- `foreign` is the text of an error of the standard library or of the runtime.
pub data Message : Type 0 where
  literal : String → Message
  with_number : String → ℕ → Message
  with_text : String → Bytes → Message
  foreign : Message

pub record Error : Type 0 where
  pub kind : ErrorKind
  pub message : Option Message

abbrev pub error_new : ErrorKind → Option Message → Error
error_new kind message = record { kind = kind; message = message }

abbrev pub error_io : Message → Error
error_io e = record { kind = io; message = some e }

abbrev pub error_data : Message → Error
error_data e = record { kind = bad_data; message = some e }

abbrev pub error_access : Message → Error
error_access e = record { kind = access; message = some e }

abbrev pub error_not_supported : Message → Error
error_not_supported e = record { kind = not_supported; message = some e }

abbrev pub error_not_registered : Error
error_not_registered = record { kind = not_registered; message = none }

abbrev pub error_not_delivered : Error
error_not_delivered = record { kind = not_delivered; message = none }

abbrev pub error_timeout : Error
error_timeout = record { kind = timeout; message = none }

abbrev pub error_busy : Message → Error
error_busy e = record { kind = busy; message = some e }

-- what `?` makes of a closed stream or channel
abbrev pub error_eof : Error
error_eof = record { kind = eof; message = none }

-- `?` on an `std::io::Error`; the flag is whether its kind is UnexpectedEof, BrokenPipe or
-- ConnectionReset.
unfoldable pub error_of_io : Bool → Error
error_of_io disconnected = if disconnected then error_eof else error_io foreign

pub data Result {ℓ} (A : Type ℓ) : Type ℓ where
  ok : A → Result A
  err : Error → Result A

infixl 5 ◌>>=◌
abbrev pub ◌>>=◌ {ℓ κ} : {A : Type ℓ} {B : Type κ} → Result A → (A → Result B) → Result B
ok a >>= f = f a
err e >>= f = err e

-- `u8::to_elbus_result`
unfoldable pub to_elbus_result : ℕ → Result (Unit {0})
unfolding kind_of_code
to_elbus_result code =
    if code == response_ok then ok tt else err (record { kind = kind_of_code code; message = none })

pub Result-cases {ℓ} :
    {A : Type ℓ} (r : Result A) → ((a : A) × (r ≡ ok a)) ⊎ ((e : Error) × (r ≡ err e))
Result-cases (ok a) = inl (a, refl)
Result-cases (err e) = inr (e, refl)
