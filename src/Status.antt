-- ===== src/Status.antt =====
-- include/rocksutil/status.h, rutil/status.cc and rutil/status_message.cc: the result of an
-- operation. The state is the message behind its length, and `none` is the null pointer.
pub mod Text
mod Tests
use rocksutil.Base.{
  ℕ, ◌+◌, ◌-◌, ◌%◌, Bool, true, false, ◌==◌, if◌then◌else◌, Option, List, [], ◌++◌, length, take,
  codes, u32_mod,
}

pub data Code : Type 0 where
  ok not_found corruption not_supported invalid_argument io_error merge_in_progress incomplete
        shutdown_in_progress timed_out aborted busy expired try_again :
      Code

pub data SubCode : Type 0 where
  none mutex_timeout lock_timeout lock_limit no_space deadlock : SubCode

pub record Status : Type 0 where
  pub code : Code
  pub subcode : SubCode
  pub state : Option (List ℕ)

-- `Status::OK()`
abbrev pub ok_status : Status
ok_status = record { code = ok; subcode = SubCode.none; state = Option.none }

-- The constructor from a code and a sub-code.
abbrev pub of_subcode : Code → SubCode → Status
of_subcode code subcode = record { code = code; subcode = subcode; state = Option.none }

-- The constructor with messages: `msg`, or `msg: msg2`. The lengths are `uint32_t`, and so are their
-- sum, with two, and the size of the buffer. The state is what the buffer has behind the four bytes
-- of the size; where the sums wrap the copies write more, past the buffer.
unfoldable pub with_message : Code → SubCode → List ℕ → List ℕ → Status
with_message code subcode msg msg2 =
    let len1 = length msg % u32_mod in
    let len2 = length msg2 % u32_mod in
    let joined = if len2 == 0 then [] else codes ": " ++ take len2 msg2 in
    let size = (len1 + (if len2 == 0 then 0 else 2 + len2)) % u32_mod in
    let buffer = (size + 4) % u32_mod in
    let state = take (buffer - 4) (take len1 msg ++ joined) in
    record { code = code; subcode = subcode; state = Option.some state }

-- `Status::Corruption(reason)` and `Status::Incomplete(reason)`
unfoldable pub corruption_status : List ℕ → Status
unfolding with_message
corruption_status msg = with_message Code.corruption SubCode.none msg []

unfoldable pub incomplete_status : List ℕ → Status
unfolding with_message
incomplete_status msg = with_message Code.incomplete SubCode.none msg []

-- `ok()`
abbrev pub is_ok : Status → Bool
is_ok s = elim s.code [ ok ↦ true | _ ↦ false ]
