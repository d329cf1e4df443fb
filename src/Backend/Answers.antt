-- ===== src/Backend/Answers.antt =====
-- What a session's input sends: replies to that session, and at most one of them but where a
-- validate message cannot be decoded.
use clicon.Base.{
  ℕ, ◌+◌, ◌≤◌, ◌≡◌, Bool, List, [], ◌∷◌, length, Option, some, arith, ◌==◌, if◌then◌else◌,
}
use mathlib.Core.Path.{subst}
use clicon.Proto.Types.{Sized, CString, Msg, MsgType}
use clicon.Proto.Buffer.{Run, ok}
use clicon.Backend.Types.{Reason, Client, Env, World, unexpected_message}
use clicon.Backend.Reply.{refuse}
use clicon.Backend.Handlers.{
  oe_proto, from_client_change, from_client_save, from_client_load, from_client_initdb,
  from_client_rm, from_client_copy,
}
use clicon.Backend.Commit.{
  from_client_commit, from_client_validate, commit_undecoded, validate_undecoded,
}
use clicon.Backend.Sessions.{
  from_client_lock, from_client_unlock, from_client_kill, from_client_debug, from_client_call,
  from_client_subscription,
}
use clicon.Backend.Cases.{run_decoded_cases, ok_injective}
use clicon.Backend.Dispatch.{
  received, run_decoded, undecoded, decode_failed, msg_case, dispatch, from_client,
}

-- The messages that went to other sockets.
abbrev pub to_others : ℕ → List (ℕ × Msg) → List (ℕ × Msg)
to_others s [] = []
to_others s ((t, msg) ∷ sent) = if t == s then to_others s sent else (t, msg) ∷ to_others s sent

-- How many replies an input of this message type may have.
abbrev pub max_replies : Option MsgType → ℕ
max_replies (some MsgType.validate) = 2
max_replies _ = 1

module _ {F : Type 0} where
  pub record Answered (s n : ℕ) (w w' : World F) : Type 0 where
    pub few : length w'.sent ≤ length w.sent + n
    pub addressed : to_others s w'.sent ≡ to_others s w.sent

module _ {F : Type 0} (env : Env F) where
  refuse-Answered :
      (s e u : ℕ) (why : Reason) (w : World F) → Answered s 1 w (refuse env s e u why w).0
  unfolding refuse
  refuse-Answered s e u why w = ground arith

  undecoded-Answered : (s : ℕ) (w : World F) → Answered s 1 w (undecoded env s w).0
  unfolding undecoded
  undecoded-Answered s w = ground arith

  change-Answered :
      (s pid : ℕ) (a : CString × ℕ × CString × Option (List ℕ) × ℕ) (w : World F)
      → Answered s 1 w (from_client_change env s pid a w).0
  unfolding from_client_change
  change-Answered s pid (dbname, op, basekey, lvec, lvec_len) w = ground arith

  save-Answered :
      (s : ℕ) (a : CString × ℕ × Option CString) (w : World F)
      → Answered s 1 w (from_client_save env s a w).0
  unfolding from_client_save
  save-Answered s (db, snapshot, filename) w = ground arith

  load-Answered :
      (s pid : ℕ) (a : ℕ × CString × CString) (w : World F)
      → Answered s 1 w (from_client_load env s pid a w).0
  unfolding from_client_load
  load-Answered s pid (replace, db, filename) w = ground arith

  initdb-Answered :
      (s pid : ℕ) (a : CString) (w : World F) → Answered s 1 w (from_client_initdb env s pid a w).0
  unfolding from_client_initdb
  initdb-Answered s pid a w = ground arith

  rm-Answered :
      (s pid : ℕ) (a : CString) (w : World F) → Answered s 1 w (from_client_rm env s pid a w).0
  unfolding from_client_rm
  rm-Answered s pid a w = ground arith

  copy-Answered :
      (s pid : ℕ) (a : CString × CString) (w : World F)
      → Answered s 1 w (from_client_copy env s pid a w).0
  unfolding from_client_copy
  copy-Answered s pid (from, to) w = ground arith

  commit-Answered :
      (s : ℕ) (a : CString × CString × ℕ × ℕ) (w : World F)
      → Answered s 1 w (from_client_commit env s a w).0
  unfolding from_client_commit
  commit-Answered s (candidate, running, snapshot, startup) w = ground arith

  validate-Answered :
      (s : ℕ) (a : CString) (w : World F) → Answered s 1 w (from_client_validate env s a w).0
  unfolding from_client_validate
  validate-Answered s a w = ground arith

  commit_failed-Answered :
      (s : ℕ) (w : World F) → Answered s 1 w (commit_undecoded env s (decode_failed env w)).0
  unfolding commit_undecoded decode_failed
  commit_failed-Answered s w = ground arith

  validate_failed-Answered :
      (s : ℕ) (w : World F) → Answered s 2 w (validate_undecoded env s (decode_failed env w)).0
  unfolding validate_undecoded decode_failed
  validate_failed-Answered s w = ground arith

  lock-Answered :
      (s pid : ℕ) (a : CString) (w : World F) → Answered s 1 w (from_client_lock env s pid a w).0
  unfolding from_client_lock
  lock-Answered s pid a w = ground arith

  unlock-Answered :
      (s pid : ℕ) (a : CString) (w : World F) → Answered s 1 w (from_client_unlock env s pid a w).0
  unfolding from_client_unlock
  unlock-Answered s pid a w = ground arith

  kill-Answered : (s pid : ℕ) (w : World F) → Answered s 1 w (from_client_kill env s pid w).0
  unfolding from_client_kill
  kill-Answered s pid w = ground arith

  debug-Answered : (s level : ℕ) (w : World F) → Answered s 1 w (from_client_debug env s level w).0
  unfolding from_client_debug
  debug-Answered s level w = ground arith

  call-Answered :
      (s : ℕ) (body : List ℕ) (w : World F) → Answered s 1 w (from_client_call env s body w).0
  unfolding from_client_call
  call-Answered s body w = ground arith

  subscription-Answered :
      (ce : Client) (a : ℕ × CString × ℕ × CString) (w : World F)
      → Answered ce.ce_s 1 w (from_client_subscription env ce a w).0
  unfolding from_client_subscription
  subscription-Answered ce (status, stream, format, filter) w = ground arith

  decoded-Answered :
      {A : Type 0} (s n : ℕ) (w : World F) (r : Run A) (u : World F × Bool) (k : A → World F × Bool)
      → Answered s n w u.0
      → ((a : A) → Answered s n w (k a).0)
      → (w' : World F) → run_decoded r u k ≡ ok w'
      → Answered s n w w'
  decoded-Answered s n w r u k hu hk = run_decoded_cases (Answered s n w) r u k hu (λ a _. hk a)

  weaken-Answered : (s : ℕ) (w w' : World F) → Answered s 1 w w' → Answered s 2 w w'
  weaken-Answered s w w' h = record { few = omega (arith, h.few); addressed = h.addressed }

  dispatch-Answered :
      (ce : Client) (msg : Msg) (w : World F) (c : Option MsgType) (w' : World F)
      → dispatch env ce msg c w ≡ ok w'
      → Answered ce.ce_s (max_replies c) w w'
  unfolding dispatch
  dispatch-Answered ce msg w (some MsgType.commit) w' e =
      decoded-Answered _ _ w _ _ _ (commit_failed-Answered ce.ce_s w)
        (λ a. commit-Answered ce.ce_s a w) w' e
  dispatch-Answered ce msg w (some MsgType.validate) w' e =
      decoded-Answered _ _ w _ _ _ (validate_failed-Answered ce.ce_s w)
        (λ a. weaken-Answered _ _ _ (validate-Answered ce.ce_s a w)) w' e
  dispatch-Answered ce msg w (some MsgType.change) w' e =
      decoded-Answered _ _ w _ _ _ (undecoded-Answered ce.ce_s w)
        (λ a. change-Answered ce.ce_s ce.ce_pid a w) w' e
  dispatch-Answered ce msg w (some MsgType.save) w' e =
      decoded-Answered _ _ w _ _ _ (undecoded-Answered ce.ce_s w) (λ a. save-Answered ce.ce_s a w)
        w' e
  dispatch-Answered ce msg w (some MsgType.load) w' e =
      decoded-Answered _ _ w _ _ _ (undecoded-Answered ce.ce_s w)
        (λ a. load-Answered ce.ce_s ce.ce_pid a w) w' e
  dispatch-Answered ce msg w (some MsgType.rm) w' e =
      decoded-Answered _ _ w _ _ _ (undecoded-Answered ce.ce_s w)
        (λ a. rm-Answered ce.ce_s ce.ce_pid a w) w' e
  dispatch-Answered ce msg w (some MsgType.initdb) w' e =
      decoded-Answered _ _ w _ _ _ (undecoded-Answered ce.ce_s w)
        (λ a. initdb-Answered ce.ce_s ce.ce_pid a w) w' e
  dispatch-Answered ce msg w (some MsgType.copy) w' e =
      decoded-Answered _ _ w _ _ _ (undecoded-Answered ce.ce_s w)
        (λ a. copy-Answered ce.ce_s ce.ce_pid a w) w' e
  dispatch-Answered ce msg w (some MsgType.lock) w' e =
      decoded-Answered _ _ w _ _ _ (undecoded-Answered ce.ce_s w)
        (λ a. lock-Answered ce.ce_s ce.ce_pid a w) w' e
  dispatch-Answered ce msg w (some MsgType.unlock) w' e =
      decoded-Answered _ _ w _ _ _ (undecoded-Answered ce.ce_s w)
        (λ a. unlock-Answered ce.ce_s ce.ce_pid a w) w' e
  dispatch-Answered ce msg w (some MsgType.kill) w' e =
      decoded-Answered _ _ w _ _ _ (undecoded-Answered ce.ce_s w) (λ a. kill-Answered ce.ce_s a w)
        w' e
  dispatch-Answered ce msg w (some MsgType.debug) w' e =
      decoded-Answered _ _ w _ _ _ (undecoded-Answered ce.ce_s w) (λ a. debug-Answered ce.ce_s a w)
        w' e
  dispatch-Answered ce msg w (some MsgType.subscription) w' e =
      decoded-Answered _ _ w _ _ _ (undecoded-Answered ce.ce_s w)
        (λ a. subscription-Answered ce a w) w' e
  dispatch-Answered ce msg w (some MsgType.call) w' e =
      subst (Answered ce.ce_s 1 w) (ok_injective _ _ e) (call-Answered ce.ce_s msg.op_body w)
  dispatch-Answered ce msg w _ w' e =
      subst (Answered ce.ce_s 1 w) (ok_injective _ _ e)
        (refuse-Answered ce.ce_s oe_proto 0 (unexpected_message msg.op_type) w)

  -- The daemon answers the session that a message came from and no other, with one reply at most,
  -- or two where the message is a validate.
  pub from_client-Answered :
      (ce : Client) (msg : Msg) (sized : Sized msg) (w w' : World F)
      → from_client env ce (received msg sized) w ≡ ok w'
      → Answered ce.ce_s (max_replies (msg_case msg.op_type)) w w'
  unfolding from_client
  from_client-Answered ce msg sized w w' = dispatch-Answered ce msg w (msg_case msg.op_type) w'
