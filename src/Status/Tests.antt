-- ===== src/Status/Tests.antt =====
-- Runs of `Status::ToString`.
use rocksutil.Base.{◌≡◌, ◌≢◌, ◌↔◌, ap, Option, [], ◌∷◌, ◌++◌, codes, arith}
use rocksutil.Status.{ok, io_error, SubCode, deadlock, Status, with_message}
use rocksutil.Status.Text.{
  code_text, is_ok_code, to_string, to_string-none_iff, to_string-with_message,
}

abbrev deadlocked : Status
deadlocked = record { code = io_error; subcode = deadlock; state = Option.none }

to_string-none_iff_example :
    (to_string deadlocked ≡ Option.none) ↔ ((io_error ≢ ok) × (deadlock ≡ deadlock))
to_string-none_iff_example = to_string-none_iff deadlocked

io_error-ok : io_error ≢ ok
io_error-ok e = ground (arith, ap is_ok_code e)

to_string-with_message_example :
    to_string (with_message io_error SubCode.none (102 ∷ []) (103 ∷ []))
    ≡ Option.some (code_text io_error ++ ((102 ∷ []) ++ (codes ": " ++ 103 ∷ [])))
to_string-with_message_example =
    to_string-with_message io_error (102 ∷ []) (103 ∷ []) io_error-ok (omega arith)
