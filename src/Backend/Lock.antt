-- ===== src/Backend/Lock.antt =====
-- How one message changes the lock of apps/config/config_lock.c.
use clicon.Base.{ℕ, ◌≡◌, refl, sym, ap, ◌⊎◌, inl, inr, some, arith}
use clicon.Proto.Types.{Sized, CString, Msg, MsgType}
use clicon.Proto.Buffer.{ok}
use clicon.Proto.Decode.{clicon_msg_kill_decode}
use clicon.Backend.Types.{Client, Env, World}
use clicon.Backend.Sessions.{
  from_client_lock, from_client_unlock, from_client_kill, from_client_subscription,
}
use clicon.Backend.Cases.{dispatch_cases, ok_injective}
use clicon.Backend.Dispatch.{Input, received, eof, broken, msg_case, from_client}

module _ {F : Type 0} (env : Env F) where
  lock-db_locked :
      (s pid : ℕ) (db : CString) (w : World F)
      → ((from_client_lock env s pid db w).0.db_locked ≡ w.db_locked)
        ⊎ ((w.db_locked ≡ 0) × ((from_client_lock env s pid db w).0.db_locked ≡ pid))
  unfolding from_client_lock
  lock-db_locked s pid db w = ground arith

  unlock-db_locked :
      (s pid : ℕ) (db : CString) (w : World F)
      → ((from_client_unlock env s pid db w).0.db_locked ≡ w.db_locked)
        ⊎ ((w.db_locked ≡ pid) × ((from_client_unlock env s pid db w).0.db_locked ≡ 0))
  unfolding from_client_unlock
  unlock-db_locked s pid db w = ground arith

  kill-db_locked :
      (s pid : ℕ) (w : World F)
      → ((from_client_kill env s pid w).0.db_locked ≡ w.db_locked)
        ⊎ ((w.db_locked ≡ pid) × ((from_client_kill env s pid w).0.db_locked ≡ 0))
  unfolding from_client_kill
  kill-db_locked s pid w = ground arith

  subscription-db_locked :
      (ce : Client) (a : ℕ × CString × ℕ × CString) (w : World F)
      → (from_client_subscription env ce a w).0.db_locked ≡ w.db_locked
  unfolding from_client_subscription
  subscription-db_locked ce (status, stream, format, filter) w = ground arith

-- What one input from the session `ce` may do to the holder of the lock, from `a` to `b`.
pub data LockChange (ce : Client) (input : Input) (a b : ℕ) : Type 0 where
  kept : b ≡ a → LockChange ce input a b
  acquired :
      (msg : Msg) (sized : Sized msg)
      → input ≡ received msg sized
      → msg_case msg.op_type ≡ some MsgType.lock
      → a ≡ 0
      → b ≡ ce.ce_pid
      → LockChange ce input a b
  released :
      (msg : Msg) (sized : Sized msg)
      → input ≡ received msg sized
      → msg_case msg.op_type ≡ some MsgType.unlock
      → a ≡ ce.ce_pid
      → b ≡ 0
      → LockChange ce input a b
  broken_by_kill :
      (msg : Msg) (sized : Sized msg)
      → input ≡ received msg sized
      → msg_case msg.op_type ≡ some MsgType.kill
      → clicon_msg_kill_decode msg ≡ ok a
      → b ≡ 0
      → LockChange ce input a b

abbrev pub db_locked_of : {F : Type 0} → World F → ℕ
db_locked_of w = w.db_locked

module _ {F : Type 0} (env : Env F) where
  -- The lock changes hands in three ways only: a free lock is taken by the session that asks for it,
  -- the holder gives it up, or a kill names the holder.
  pub from_client-LockChange :
      (ce : Client) (input : Input) (w w' : World F)
      → from_client env ce input w ≡ ok w'
      → LockChange ce input w.db_locked w'.db_locked
  unfolding from_client
  from_client-LockChange ce (broken suberr reason) w w' e =
      kept (ap db_locked_of (sym (ok_injective _ _ e)))
  from_client-LockChange ce eof w w' e = kept (ap db_locked_of (sym (ok_injective _ _ e)))
  from_client-LockChange ce (received msg sized) w w' e =
      let P : World F → Type 0 = λ v. LockChange ce (received msg sized) w.db_locked v.db_locked in
      dispatch_cases env P ce msg w (λ v q. kept q.same_lock) (msg_case msg.op_type)
        (λ c db. elim (lock-db_locked env ce.ce_s ce.ce_pid db w) [
          | inl same ↦ kept same
          | inr (free, taken) ↦ acquired msg sized refl c free taken
        ])
        (λ c db. elim (unlock-db_locked env ce.ce_s ce.ce_pid db w) [
          | inl same ↦ kept same
          | inr (held, given) ↦ released msg sized refl c held given
        ])
        (λ c pid d. elim (kill-db_locked env ce.ce_s pid w) [
          | inl same ↦ kept same
          | inr (held, cleared) ↦ broken_by_kill msg sized refl c (rw held d) cleared
        ])
        (λ a. kept (subscription-db_locked env ce a w)) w' e
