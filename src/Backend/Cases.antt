-- ===== src/Backend/Cases.antt =====
-- What a handler that answers has done: its command, or the reply that nothing was decoded.
use clicon.Base.{ℕ, ◌≡◌, refl, Bool, Option, some}
use clicon.Proto.Types.{Msg, MsgType, CString}
use clicon.Proto.Decode.{clicon_msg_kill_decode}
use mathlib.Core.Path.{subst}
use clicon.Proto.Buffer.{Run, ok, failed, overrun}
use clicon.Backend.Types.{Client, Env, World, unexpected_message}
use clicon.Backend.Handlers.{oe_proto}
use clicon.Backend.Dispatch.{run_decoded, dispatch}
use clicon.Backend.Sessions.{
  from_client_lock, from_client_unlock, from_client_kill, from_client_subscription,
}
use clicon.Backend.Quiet.{
  Quiet, refuse-Quiet, undecoded-Quiet, commit_failed-Quiet, validate_failed-Quiet, change-Quiet,
  save-Quiet, load-Quiet, initdb-Quiet, rm-Quiet, copy-Quiet, commit-Quiet, validate-Quiet,
  debug-Quiet, call-Quiet,
}

pub ok_injective {ℓ} : {A : Type ℓ} (a b : A) → ok a ≡ ok b → a ≡ b
ok_injective a b e = cc

module _ {F : Type 0} where
  pub run_decoded_cases :
      {A : Type 0} (P : World F → Type 0) (r : Run A) (u : World F × Bool) (k : A → World F × Bool)
      → P u.0
      → ((a : A) → r ≡ ok a → P (k a).0)
      → (w' : World F) → run_decoded r u k ≡ ok w'
      → P w'
  unfolding run_decoded
  run_decoded_cases P (ok a) u k hu hk w' e = subst P (ok_injective _ _ e) (hk a refl)
  run_decoded_cases P failed u k hu hk w' e = subst P (ok_injective _ _ e) hu
  run_decoded_cases P overrun u k hu hk w' e = cc

-- A property of the state after a message holds if it survives the commands that leave the sessions
-- alone, and the four that do not.
module _ {F : Type 0} (env : Env F) (P : World F → Type 0) (ce : Client) (msg : Msg) (w : World F)
    (quiet : (v : World F) → Quiet w v → P v) where
  quiet_command :
      {A : Type 0} (r : Run A) (u : World F × Bool) (k : A → World F × Bool)
      → Quiet w u.0
      → ((a : A) → Quiet w (k a).0)
      → (w' : World F) → run_decoded r u k ≡ ok w'
      → P w'
  quiet_command r u k qu qk = run_decoded_cases P r u k (quiet _ qu) (λ a _. quiet _ (qk a))

  pub dispatch_cases :
      (c : Option MsgType)
      → (c ≡ some MsgType.lock → (db : CString) → P (from_client_lock env ce.ce_s ce.ce_pid db w).0)
      → (c ≡ some MsgType.unlock
          → (db : CString) → P (from_client_unlock env ce.ce_s ce.ce_pid db w).0)
      → (c ≡ some MsgType.kill
          → (pid : ℕ) → clicon_msg_kill_decode msg ≡ ok pid
          → P (from_client_kill env ce.ce_s pid w).0)
      → ((a : ℕ × CString × ℕ × CString) → P (from_client_subscription env ce a w).0)
      → (w' : World F) → dispatch env ce msg c w ≡ ok w'
      → P w'
  unfolding dispatch
  dispatch_cases (some MsgType.commit) hl hu hk hs w' e =
      quiet_command _ _ _ (commit_failed-Quiet env ce.ce_s w) (λ a. commit-Quiet env ce.ce_s a w) w'
        e
  dispatch_cases (some MsgType.validate) hl hu hk hs w' e =
      quiet_command _ _ _ (validate_failed-Quiet env ce.ce_s w)
        (λ a. validate-Quiet env ce.ce_s a w) w' e
  dispatch_cases (some MsgType.change) hl hu hk hs w' e =
      quiet_command _ _ _ (undecoded-Quiet env ce.ce_s w)
        (λ a. change-Quiet env ce.ce_s ce.ce_pid a w) w' e
  dispatch_cases (some MsgType.save) hl hu hk hs w' e =
      quiet_command _ _ _ (undecoded-Quiet env ce.ce_s w) (λ a. save-Quiet env ce.ce_s a w) w' e
  dispatch_cases (some MsgType.load) hl hu hk hs w' e =
      quiet_command _ _ _ (undecoded-Quiet env ce.ce_s w)
        (λ a. load-Quiet env ce.ce_s ce.ce_pid a w) w' e
  dispatch_cases (some MsgType.rm) hl hu hk hs w' e =
      quiet_command _ _ _ (undecoded-Quiet env ce.ce_s w) (λ a. rm-Quiet env ce.ce_s ce.ce_pid a w)
        w' e
  dispatch_cases (some MsgType.initdb) hl hu hk hs w' e =
      quiet_command _ _ _ (undecoded-Quiet env ce.ce_s w)
        (λ a. initdb-Quiet env ce.ce_s ce.ce_pid a w) w' e
  dispatch_cases (some MsgType.copy) hl hu hk hs w' e =
      quiet_command _ _ _ (undecoded-Quiet env ce.ce_s w)
        (λ a. copy-Quiet env ce.ce_s ce.ce_pid a w) w' e
  dispatch_cases (some MsgType.debug) hl hu hk hs w' e =
      quiet_command _ _ _ (undecoded-Quiet env ce.ce_s w) (λ a. debug-Quiet env ce.ce_s a w) w' e
  dispatch_cases (some MsgType.lock) hl hu hk hs w' e =
      run_decoded_cases P _ _ _ (quiet _ (undecoded-Quiet env ce.ce_s w)) (λ db _. hl refl db) w' e
  dispatch_cases (some MsgType.unlock) hl hu hk hs w' e =
      run_decoded_cases P _ _ _ (quiet _ (undecoded-Quiet env ce.ce_s w)) (λ db _. hu refl db) w' e
  dispatch_cases (some MsgType.kill) hl hu hk hs w' e =
      run_decoded_cases P _ _ _ (quiet _ (undecoded-Quiet env ce.ce_s w)) (λ pid d. hk refl pid d)
        w' e
  dispatch_cases (some MsgType.subscription) hl hu hk hs w' e =
      run_decoded_cases P _ _ _ (quiet _ (undecoded-Quiet env ce.ce_s w)) (λ a _. hs a) w' e
  dispatch_cases (some MsgType.call) hl hu hk hs w' e =
      subst P (ok_injective _ _ e) (quiet _ (call-Quiet env ce.ce_s msg.op_body w))
  dispatch_cases _ hl hu hk hs w' e =
      subst P (ok_injective _ _ e)
        (quiet _ (refuse-Quiet env ce.ce_s oe_proto 0 (unexpected_message msg.op_type) w))
