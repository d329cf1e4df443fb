-- ===== src/Backend/Tests.antt =====
-- A daemon on a file system of numbered contents, and two sessions.
use clicon.Base.{
  ◌+◌, ◌*◌, ◌/◌, ◌%◌, replicate, ℕ, ◌≤◌, ◌≡◌, ◌≢◌, refl, ap, true, some, none, List, [], ◌∷◌, leb,
  le→leb, arith, str_eq, eq_of_str_eq, if◌then◌else◌, All, Bool-cases, inl, inr,
}
use clicon.Proto.Types.{Sized, Msg, MsgType, CString}
use clicon.Proto.Buffer.{Run, ok, chunk_sprintf, ntohl_at}
use clicon.Proto.Reading.{Grants}
use clicon.Proto.Wire.{u32, str, wire_message}
use clicon.Proto.Decode.{
  clicon_msg_validate_decode, clicon_msg_1str_decode, clicon_msg_lock_decode, clicon_msg_rm_decode,
  clicon_msg_kill_decode, clicon_msg_err_decode,
}
use clicon.Backend.Types.{lock_failed, Client, Env, World}
use clicon.Backend.Reply.{send_msg_err, reason_text}
use clicon.Backend.Sessions.{from_client_lock, from_client_kill}
use clicon.Backend.Handlers.{from_client_rm}
use clicon.Backend.Dispatch.{decode_failed, Input, received, eof, msg_case, from_client}
use clicon.Backend.Lock.{LockChange, from_client-LockChange}
use clicon.Backend.Guard.{Frame, from_client-unharmed}
use clicon.Backend.Holder.{Bystander, serve, serve-keeps_lock, serve-orphaned_lock}
use clicon.Backend.Refusal.{Sendable, send_msg_err-decode}
use clicon.Backend.Request.{Request, encode, perform}
use clicon.Backend.Request.Served.{from_client-encode}
use clicon.Client.Socket.{Host16, message_rcvd, clicon_msg_rcv}
use clicon.Client.Receive.{packed}
use clicon.Backend.Clients.{find_client, delete_client, unregister}
use clicon.Backend.Sockets.{HasSockets, owner}
use clicon.Backend.Alive.{from_client-HasSockets}
use clicon.Backend.Accept.{Peer}
use clicon.Backend.Answers.{Answered, from_client-Answered}

abbrev Files : Type 0
Files = CString → ℕ

abbrev write : CString → ℕ → Files → Files
write db n files = λ name. if str_eq name db then n else files name

abbrev candidate : CString
candidate = b'c' ∷ []

abbrev running : CString
running = b'r' ∷ []

abbrev test_env : Env Files
test_env = record {
  granted = λ n. leb n 65536;
  malloced = λ n. true;
  writable = λ s. true;
  text = λ why. b'x' ∷ [];
  alive = λ pid. true;
  os_errno = λ files. 2;
  candidate_db = some candidate;
  running_db = some running;
  archive_dir = none;
  startup_config = none;
  lvec2cvec = λ lvec len. true;
  db_lv_op_exec = λ db key op lvec files. (write db op files, none);
  config_snapshot = λ db dir files. (files, none);
  save_db_to_xml = λ file db files. (write file (files db) files, none);
  load_xml_to_db = λ file db files. (write db (files file) files, none);
  db_init = λ db files. (write db 0 files, none);
  unlink = λ db files. (write db 0 files, true);
  file_cp = λ from to files. (write to (files from) files, true);
  chmod = λ name files. files;
  candidate_commit = λ from to files. (write to (files from) files, none);
  candidate_validate = λ from to files. (files, none);
  plugin_downcall =
      λ body files. (files, none, some (record { errno = 5; suberrno = 2; reason = b'z' ∷ [] }));
}

abbrev alice : Client
alice = record { ce_s = 4; ce_nr = 0; ce_pid = 100; ce_uid = 1; ce_subscription = [] }

abbrev bob : Client
bob = record { ce_s = 5; ce_nr = 1; ce_pid = 200; ce_uid = 2; ce_subscription = [] }

-- Nobody, or the process `holder`, holds the lock.
abbrev world : ℕ → World Files
world holder = record {
  db_locked = holder;
  ce_list = bob ∷ alice ∷ [];
  ce_nr = 2;
  registered = 5 ∷ 4 ∷ [];
  files = λ name. 7;
  err = record { errno = 1; suberrno = 2; reason = b'y' ∷ [] };
  sent = [];
  debug_level = 0;
  signalled = [];
  log_callback = true;
}

abbrev lock_msg : Msg
lock_msg = wire_message MsgType.lock (str candidate ∷ [])

abbrev kill_alice : Msg
kill_alice = wire_message MsgType.kill (u32 100 ∷ [])

abbrev remove_running : Msg
remove_running = wire_message MsgType.rm (str running ∷ [])

abbrev result : Run (World Files) → World Files
result (ok w) = w
result _ = world 0

-- What a run of the daemon unfolds.
program : ℕ
unfolding from_client serve clicon_msg_validate_decode decode_failed clicon_msg_1str_decode
    clicon_msg_lock_decode clicon_msg_rm_decode clicon_msg_kill_decode chunk_sprintf ntohl_at str_eq
    find_client delete_client unregister from_client_lock from_client_kill from_client_rm
program = 0

from_client-LockChange_example : LockChange alice (received lock_msg refl) 0 100
unfolding program
from_client-LockChange_example =
    from_client-LockChange test_env alice (received lock_msg refl) (world 0)
      (result (from_client test_env alice (received lock_msg refl) (world 0))) refl

abbrev attempts : List (Client × Input)
attempts = (bob, received lock_msg refl) ∷ (bob, received remove_running refl) ∷ []

abbrev message_of : Input → Msg
message_of (received msg sized) = msg
message_of _ = lock_msg

no_kill :
    (m msg : Msg) (here : Sized m) (sized : Sized msg) (t : MsgType)
    → msg_case m.op_type ≡ some t
    → t ≢ MsgType.kill
    → received m here ≡ received msg sized
    → msg_case msg.op_type ≢ some MsgType.kill
no_kill m msg here sized t is other e c =
    let same : m ≡ msg = ap message_of e in let kill : t ≡ MsgType.kill = cc in other kill

attempts-Bystander : All (Bystander 100) attempts
unfolding program
attempts-Bystander = (
  (
    omega arith,
    λ msg sized e c. elim (no_kill lock_msg msg refl sized MsgType.lock refl (λ d. cc) e c) [ ],
  ),
  (
    (
      omega arith,
      λ msg sized e c.
          elim (no_kill remove_running msg refl sized MsgType.rm refl (λ d. cc) e c) [ ],
    ),
    tt,
  ),
)

serve-keeps_lock_example : (result (serve test_env attempts (world 100))).db_locked ≡ 100
unfolding program
serve-keeps_lock_example =
    serve-keeps_lock test_env 100 attempts (world 100)
      (result (serve test_env attempts (world 100))) refl (omega arith) attempts-Bystander refl

serve-orphaned_lock_example :
    (result (serve test_env ((alice, eof) ∷ attempts) (world 100))).db_locked ≡ 100
unfolding program
serve-orphaned_lock_example =
    serve-orphaned_lock test_env alice attempts (world 100)
      (result (serve test_env ((alice, eof) ∷ attempts) (world 100))) refl (omega arith)
      attempts-Bystander refl

abbrev contents : Files → CString → ℕ
contents files = files

write_frame :
    (db name : CString) (n : ℕ) (files : Files) → name ≢ db → write db n files name ≡ files name
write_frame db name n files apart = elim (Bool-cases (str_eq name db)) [
  | inl same ↦ elim (apart (eq_of_str_eq name db same)) [ ]
  | inr differ ↦ rw differ refl
]

test_env-Frame : Frame test_env contents
test_env-Frame = record {
  exec_frame = λ db key op lvec files name. write_frame db name op files;
  load_frame = λ file db files name. write_frame db name (files file) files;
  init_frame = λ db files name. write_frame db name 0 files;
  unlink_frame = λ db files name. write_frame db name 0 files;
  copy_frame = λ from to files name. write_frame to name (files from) files;
}

abbrev removed : World Files
removed = result (from_client test_env bob (received remove_running refl) (world 100))

from_client-unharmed_example : removed.files candidate ≡ 7
unfolding program
from_client-unharmed_example =
    from_client-unharmed test_env contents candidate bob remove_running (world 100) test_env-Frame
      refl (omega arith) (omega arith) refl removed refl refl

from_client-Answered_example : Answered 5 1 (world 100) removed
unfolding program
from_client-Answered_example =
    from_client-Answered test_env bob remove_running refl (world 100) removed refl

all_granted : (n : ℕ) → n ≤ 65536 → Grants test_env.granted n
all_granted n h m lower upper = le→leb m 65536 (omega arith)

abbrev little_endian : Host16
little_endian = record { pack = λ n. (n % 256, n / 256); unpack = λ b. b.0 + 256 * b.1 }

from_client-encode_example :
    (msg : Msg) × (encode test_env.granted (Request.lock candidate) ≡ ok msg)
    × (clicon_msg_rcv test_env.granted little_endian (packed little_endian msg ∷ [])
        ≡ message_rcvd msg)
    × ((sized : Sized msg) × (from_client test_env alice (received msg sized) (world 0)
          ≡ ok (perform test_env alice (Request.lock candidate) (world 0))))
from_client-encode_example =
    from_client-encode test_env little_endian alice (Request.lock candidate) (world 0) []
      (omega arith, tt) (omega arith) (all_granted _ (omega arith)) (λ n h. omega arith)

x-Sendable : Sendable test_env 5 (b'x' ∷ []) (world 100)
x-Sendable = record {
  socket_writable = refl;
  errno_fits = omega arith;
  suberrno_fits = omega arith;
  text_string = (omega arith, tt);
  reply_grants = all_granted _ (omega arith);
}

send_msg_err-decode_example :
    (m : Msg) × (send_msg_err test_env 5 9 9 (lock_failed 100) (world 100)
      ≡ (record (world 100) { sent = (5, m) ∷ [] }, true))
    × (clicon_msg_err_decode test_env.granted m ≡ ok (1, 2, b'x' ∷ []))
unfolding reason_text
send_msg_err-decode_example =
    send_msg_err-decode test_env 5 9 9 (lock_failed 100) (world 100) x-Sendable

sockets-Owned : HasSockets (world 100)
unfolding owner
sockets-Owned = record {
  owned = ((λ e. cc), ((λ e. cc), tt));
  nonzero = ((λ e. omega (arith, e)), ((λ e. omega (arith, e)), tt));
  differ = (((λ e. omega (arith, e)), tt), (tt, tt));
}

from_client-HasSockets_example :
    HasSockets (result (from_client test_env bob (received kill_alice refl) (world 100)))
unfolding program
from_client-HasSockets_example =
    from_client-HasSockets test_env bob (received kill_alice refl) (world 100)
      (result (from_client test_env bob (received kill_alice refl) (world 100))) refl sockets-Owned
      refl

abbrev peer : Peer
peer = record {
  entry_memory = true;
  event_memory = true;
  sock_group = some (b'g' ∷ []);
  credentials = some (300, 3);
}

-- An allocator that has 20 bytes, which is enough for a reply and not for the name of a database.
abbrev small_env : Env Files
small_env = record test_env { granted = λ n. leb n 20 }

abbrev long_validate : Msg
long_validate = wire_message MsgType.validate (str (replicate 20 b'd') ∷ [])

small-Sendable : Sendable small_env 5 (b'x' ∷ []) (decode_failed small_env (world 0))
unfolding decode_failed
small-Sendable = record {
  socket_writable = refl;
  errno_fits = omega arith;
  suberrno_fits = omega arith;
  text_string = (omega arith, tt);
  reply_grants = λ m lower upper. le→leb m 20 (omega arith);
}
