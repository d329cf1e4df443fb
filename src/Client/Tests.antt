-- ===== src/Client/Tests.antt =====
-- Messages in pieces, and a daemon that refuses.
use clicon.Base.{ℕ, ◌+◌, ◌*◌, ◌/◌, ◌%◌, ◌≡◌, refl, Bool, true, List, [], ◌∷◌, leb, arith}
use clicon.Proto.Types.{Msg, CString}
use clicon.Client.Socket.{Arrival, bytes, again, atomicio, Host16, clicon_msg_rcv, rcv_failed}
use clicon.Client.Receive.{Whole, atomicio-Whole, clicon_msg_rcv-one_read, packed}
use clicon.Client.Rpc.{Remote}
use clicon.Client.Errors.{error_message}

-- Four bytes in two pieces, with an interruption between them.
abbrev pieces : List Arrival
pieces = bytes 1 [] ∷ again ∷ bytes 2 (3 ∷ 4 ∷ 5 ∷ []) ∷ []

atomicio-Whole_example : Whole 4 [] pieces (atomicio 4 pieces)
atomicio-Whole_example = atomicio-Whole 4 pieces tt (omega arith)

abbrev granted : ℕ → Bool
granted n = leb n 65536

abbrev little_endian : Host16
little_endian = record { pack = λ n. (n % 256, n / 256); unpack = λ b. b.0 + 256 * b.1 }

-- A message of two bytes in its body, of which the second comes later.
clicon_msg_rcv-one_read_example :
    clicon_msg_rcv granted little_endian (bytes 6 (0 ∷ 15 ∷ 0 ∷ 7 ∷ []) ∷ bytes 8 [] ∷ [])
    ≡ rcv_failed
clicon_msg_rcv-one_read_example =
    clicon_msg_rcv-one_read granted little_endian 6 0 15 0 7 [] (bytes 8 [] ∷ []) (omega arith) refl

abbrev lock_message : Msg
lock_message = record { op_len = 6; op_type = 9; op_body = 99 ∷ 0 ∷ [] }

abbrev reason : CString
reason = 108 ∷ 111 ∷ []

abbrev locked : Msg
locked = error_message 1 0 reason

abbrev refusing : Remote
refusing = record {
  granted = granted;
  host = little_endian;
  path_exists = true;
  path_is_socket = true;
  accepts = true;
  takes = λ msg. true;
  answers = λ msg. packed little_endian locked ∷ [];
  trouble = λ why. record { errno = 5; suberrno = 0; reason = [] };
}
