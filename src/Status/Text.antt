-- ===== src/Status/Text.antt =====
-- rutil/status.cc and rutil/status_message.cc: `Status::ToString`, and the copies and moves of
-- include/rocksutil/status.h.
use rocksutil.Base.{
  ℕ, ◌+◌, take, ◌-◌, length-append, ◌%◌, ◌≡◌, ◌≢◌, ◌↔◌, refl, ap, Bool, true, false, ◌==◌,
  if◌then◌else◌, Option, Bool-cases, inl, inr, List, [], ◌++◌, append-nil, length, take_all, codes,
  u32_mod, IsU32, arith,
}
use rocksutil.Status.{
  Code, ok, not_found, corruption, not_supported, invalid_argument, io_error, merge_in_progress,
  incomplete, shutdown_in_progress, timed_out, aborted, busy, expired, try_again, SubCode,
  mutex_timeout, lock_timeout, lock_limit, no_space, deadlock, Status, with_message,
}

-- The text of a code, as `ToString` has it. That of `kOk` is returned at once.
pub code_text : Code → List ℕ
code_text ok = codes "OK"
code_text not_found = codes "NotFound: "
code_text corruption = codes "Corruption: "
code_text not_supported = codes "Not implemented: "
code_text invalid_argument = codes "Invalid argument: "
code_text io_error = codes "IO error: "
code_text merge_in_progress = codes "Merge in progress: "
code_text incomplete = codes "Result incomplete: "
code_text shutdown_in_progress = codes "Shutdown in progress: "
code_text timed_out = codes "Operation timed out: "
code_text aborted = codes "Operation aborted: "
code_text busy = codes "Resource busy: "
code_text expired = codes "Operation expired: "
code_text try_again = codes "Operation failed. Try again.: "

-- `msgs`, six pointers with five initialisers: the last one is null.
pub msgs : SubCode → Option (List ℕ)
msgs SubCode.none = Option.some []
msgs mutex_timeout = Option.some (codes "Timeout Acquiring Mutex")
msgs lock_timeout = Option.some (codes "Timeout waiting to lock key")
msgs lock_limit = Option.some (codes "Failed to acquire lock due to max_num_locks limit")
msgs no_space = Option.some (codes "No space left on device")
msgs deadlock = Option.none

abbrev pub is_ok_code : Code → Bool
is_ok_code ok = true
is_ok_code _ = false

-- `result.append(msgs[index])`; the text of `kNone`, which is not appended, is empty.
append_text : List ℕ → Option (List ℕ) → Option (List ℕ)
append_text type Option.none = Option.none
append_text type (Option.some text) = Option.some (type ++ text)

-- `result.append(state_ + 4, length)`, unless the state is null.
append_state : Option (List ℕ) → Option (List ℕ) → Option (List ℕ)
append_state Option.none state = Option.none
append_state (Option.some text) Option.none = Option.some text
append_state (Option.some text) (Option.some message) = Option.some (text ++ message)

-- `ToString`. `none` stands for the append of a null pointer.
pub to_string : Status → Option (List ℕ)
to_string s =
    if is_ok_code s.code
    then Option.some (codes "OK")
    else append_state (append_text (code_text s.code) (msgs s.subcode)) s.state

-- `operator=(Status&&)` of two statuses that are not the same object: the target and the source.
pub move_assign : Status → Status → Status × Status
move_assign target source =
    (source, record { code = ok; subcode = SubCode.none; state = Option.none })

is_ok_code_lem : (c : Code) → is_ok_code c ≡ true → c ≡ ok
is_ok_code_lem ok h = refl
is_ok_code_lem not_found h = ground (arith, h)
is_ok_code_lem corruption h = ground (arith, h)
is_ok_code_lem not_supported h = ground (arith, h)
is_ok_code_lem invalid_argument h = ground (arith, h)
is_ok_code_lem io_error h = ground (arith, h)
is_ok_code_lem merge_in_progress h = ground (arith, h)
is_ok_code_lem incomplete h = ground (arith, h)
is_ok_code_lem shutdown_in_progress h = ground (arith, h)
is_ok_code_lem timed_out h = ground (arith, h)
is_ok_code_lem aborted h = ground (arith, h)
is_ok_code_lem busy h = ground (arith, h)
is_ok_code_lem expired h = ground (arith, h)
is_ok_code_lem try_again h = ground (arith, h)

-- The appends meet a null pointer just for the sub-code `kDeadlock`.
appended-none_iff :
    (type : List ℕ) (subcode : SubCode) (state : Option (List ℕ))
    → (append_state (append_text type (msgs subcode)) state ≡ Option.none) ↔ (subcode ≡ deadlock)
unfolding append_state append_text msgs
appended-none_iff type SubCode.none Option.none = (λ e. ground (arith, e), λ e. ground (arith, e))
appended-none_iff type SubCode.none (Option.some m) =
    (λ e. ground (arith, e), λ e. ground (arith, e))
appended-none_iff type mutex_timeout Option.none = (λ e. ground (arith, e), λ e. ground (arith, e))
appended-none_iff type mutex_timeout (Option.some m) =
    (λ e. ground (arith, e), λ e. ground (arith, e))
appended-none_iff type lock_timeout Option.none = (λ e. ground (arith, e), λ e. ground (arith, e))
appended-none_iff type lock_timeout (Option.some m) =
    (λ e. ground (arith, e), λ e. ground (arith, e))
appended-none_iff type lock_limit Option.none = (λ e. ground (arith, e), λ e. ground (arith, e))
appended-none_iff type lock_limit (Option.some m) = (λ e. ground (arith, e), λ e. ground (arith, e))
appended-none_iff type no_space Option.none = (λ e. ground (arith, e), λ e. ground (arith, e))
appended-none_iff type no_space (Option.some m) = (λ e. ground (arith, e), λ e. ground (arith, e))
appended-none_iff type deadlock state = (λ e. refl, λ e. refl)

-- `ToString` appends a null pointer just for a status that is not ok and whose sub-code is
-- `kDeadlock`.
pub to_string-none_iff :
    (s : Status) → (to_string s ≡ Option.none) ↔ ((s.code ≢ ok) × (s.subcode ≡ deadlock))
unfolding to_string
to_string-none_iff s =
    let (to, from) = appended-none_iff (code_text s.code) s.subcode s.state in
    elim (Bool-cases (is_ok_code s.code)) [
      | inl fine ↦ rw fine (λ e. ground (arith, e), λ p. absurd (p.0 (is_ok_code_lem s.code fine)))
      | inr failed ↦
          let other : s.code ≢ ok = λ e. ground (arith, failed, ap is_ok_code e) in
          rw failed (λ e. (other, to e), λ p. from p.1)
    ]

-- The buffer has room for both messages.
whole_state :
    (msg msg2 : List ℕ)
    → IsU32 (length msg + length msg2 + 6)
    → take
        (((length msg + (if length msg2 == 0 then 0 else 2 + length msg2)) % u32_mod + 4) % u32_mod
          - 4)
        (msg ++ (if length msg2 == 0 then [] else codes ": " ++ msg2))
      ≡ msg ++ (if length msg2 == 0 then [] else codes ": " ++ msg2)
whole_state msg msg2 h =
    let joined : List ℕ = if length msg2 == 0 then [] else codes ": " ++ msg2 in
    take_all _ (msg ++ joined) (
      rw (length-append msg joined) (elim (Bool-cases (length msg2 == 0)) [
        | inl none_left ↦ rw none_left (omega arith)
        | inr some_left ↦ rw some_left (omega arith)
      ]))

-- The text of a status with messages and no sub-code, whose code is not that of success, is the code's
-- text and the messages, which a colon and a space join where the second one is not empty. The
-- messages, the joint and the four bytes of the size are together shorter than 2 ^ 32.
pub to_string-with_message :
    (code : Code) (msg msg2 : List ℕ)
    → code ≢ ok
    → IsU32 (length msg + length msg2 + 6)
    → to_string (with_message code SubCode.none msg msg2)
      ≡ Option.some
          (code_text code ++ (msg ++ (if length msg2 == 0 then [] else codes ": " ++ msg2)))
unfolding to_string append_text append_state msgs with_message
to_string-with_message code msg msg2 other h =
    let failed : is_ok_code code ≡ false = elim (Bool-cases (is_ok_code code)) [
      | inl fine ↦ absurd (other (is_ok_code_lem code fine))
      | inr e ↦ e
    ] in
    let first : length msg % u32_mod ≡ length msg = omega arith in
    let second : length msg2 % u32_mod ≡ length msg2 = omega arith in
    rw
      (
        failed,
        first,
        second,
        take_all (length msg) msg (omega arith),
        take_all (length msg2) msg2 (omega arith),
        append-nil (code_text code),
        whole_state msg msg2 h,
      )
      refl
