-- ===== src/Api/Classes.antt =====
-- Which exceptions the public functions raise.
use pyhdiff.Base.{◌≡◌, Bool, true, arith}
use pyhdiff.Errors.{catches, error}
use pyhdiff.Status.{Status}
use pyhdiff.Api.{exception_of}

-- Every status of the bridge becomes an exception that `except pyhdiff.Error` handles.
pub exception_of-IsError :
    (code : Status) (decoding : Bool) → catches error (exception_of code decoding).cls ≡ true
unfolding exception_of catches
exception_of-IsError code decoding = ground arith
