-- ===== src/Backend/Alive.antt =====
-- What a message does to the client list and the registered sockets, and how a client is accepted.
use clicon.Base.{sym, ap, ℕ, ◌≡◌, ◌≢◌, refl, List, none, some, arith, ◌⊎◌, inl, inr, Option-cases}
use mathlib.Core.Path.{subst}
use clicon.Proto.Types.{CString}
use clicon.Proto.Buffer.{ok}
use clicon.Backend.Types.{Subscription, Client, Env, World}
use clicon.Backend.Clients.{
  find_client, put_client, client_subscription_add, drop_stream, ce_find_bypid,
}
use clicon.Backend.Sessions.{
  from_client_lock, from_client_unlock, from_client_kill, from_client_subscription, remove_pid,
}
use clicon.Backend.Dispatch.{Input, broken, eof, received, from_client, msg_case}
use clicon.Backend.Cases.{dispatch_cases, ok_injective}
use clicon.Backend.Sockets.{
  Owned, HasSockets, owner, owner-put_client, All-map, backend_client_rm-HasSockets,
}

module _ {F : Type 0} where
  -- The client list and the sockets of two states are the same.
  abbrev SameSessions : World F → World F → Type 0
  SameSessions w v = (v.ce_list ≡ w.ce_list) × (v.registered ≡ w.registered)

  same-HasSockets : (w v : World F) → SameSessions w v → HasSockets w → HasSockets v
  same-HasSockets w v (clients, sockets) o = rw (clients, sockets) o

module _ {F : Type 0} (env : Env F) where
  lock-SameSessions :
      (s pid : ℕ) (db : CString) (w : World F) → SameSessions w (from_client_lock env s pid db w).0
  unfolding from_client_lock
  lock-SameSessions s pid db w = (ground arith, ground arith)

  unlock-SameSessions :
      (s pid : ℕ) (db : CString) (w : World F)
      → SameSessions w (from_client_unlock env s pid db w).0
  unfolding from_client_unlock
  unlock-SameSessions s pid db w = (ground arith, ground arith)

  kill-SameSessions :
      (s pid : ℕ) (w : World F)
      → SameSessions (remove_pid env pid w) (from_client_kill env s pid w).0
  unfolding from_client_kill
  kill-SameSessions s pid w = (ground arith, ground arith)

  remove_pid-HasSockets : (pid : ℕ) (w : World F) → HasSockets w → HasSockets (remove_pid env pid w)
  unfolding remove_pid
  remove_pid-HasSockets pid w o = elim (Option-cases (ce_find_bypid pid w.ce_list)) [
    | inl missing ↦ rw (remove_pid, missing) o
    | inr (c, found) ↦ rw (remove_pid, found) (backend_client_rm-HasSockets c w o)
  ]

  put-HasSockets :
      (ce : Client) (subscriptions : List Subscription) (w : World F)
      → find_client ce.ce_nr w.ce_list ≡ some ce
      → HasSockets w
      → Owned (put_client (record ce { ce_subscription = subscriptions }) w.ce_list) w.registered
  put-HasSockets ce subscriptions w live o =
      let changed : Client = record ce { ce_subscription = subscriptions } in
      record {
        owned =
            All-map (λ s. owner s w.ce_list ≢ none) (λ s. s ≢ 0)
              (λ s. owner s (put_client changed w.ce_list) ≢ none) w.registered
              (λ s here nonzero. owner-put_client changed ce s w.ce_list live refl here) o.owned
              o.nonzero;
        nonzero = o.nonzero;
        differ = o.differ;
      }

  subscription-registered :
      (ce : Client) (a : ℕ × CString × ℕ × CString) (w : World F)
      → (from_client_subscription env ce a w).0.registered ≡ w.registered
  unfolding from_client_subscription
  subscription-registered ce (status, stream, format, filter) w = ground arith

  subscription-ce_list :
      (ce : Client) (a : ℕ × CString × ℕ × CString) (w : World F)
      → ((from_client_subscription env ce a w).0.ce_list ≡ w.ce_list)
        ⊎ ((from_client_subscription env ce a w).0.ce_list
            ≡ put_client
                (record ce { ce_subscription = drop_stream a.1 ce.ce_subscription })
                w.ce_list)
        ⊎ ((from_client_subscription env ce a w).0.ce_list
            ≡ put_client (client_subscription_add ce a.1 a.2 a.3) w.ce_list)
  unfolding from_client_subscription
  subscription-ce_list ce (status, stream, format, filter) w = ground arith

  subscription-HasSockets :
      (ce : Client) (a : ℕ × CString × ℕ × CString) (w : World F)
      → find_client ce.ce_nr w.ce_list ≡ some ce
      → HasSockets w
      → HasSockets (from_client_subscription env ce a w).0
  unfolding client_subscription_add
  subscription-HasSockets ce a w live o = elim (subscription-ce_list ce a w) [
    | inl same ↦ rw (same, subscription-registered ce a w) o
    | inr (inl dropped) ↦
        rw (dropped, subscription-registered ce a w)
          (put-HasSockets ce (drop_stream a.1 ce.ce_subscription) w live o)
    | inr (inr added) ↦ rw (added, subscription-registered ce a w) (put-HasSockets ce _ w live o)
  ]

  -- Whatever arrives from a listed session, every socket that is registered afterwards is again the
  -- socket of a listed client, the sockets differ, and none is 0: no callback is left with a
  -- client that is gone.
  pub from_client-HasSockets :
      (ce : Client) (input : Input) (w w' : World F)
      → find_client ce.ce_nr w.ce_list ≡ some ce
      → HasSockets w
      → from_client env ce input w ≡ ok w'
      → HasSockets w'
  unfolding from_client
  from_client-HasSockets ce (broken suberr reason) w w' live o e =
      let same = sym (ok_injective _ _ e) in
      same-HasSockets w w' (ap (λ v. v.ce_list) same, ap (λ v. v.registered) same) o
  from_client-HasSockets ce eof w w' live o e =
      subst HasSockets (ok_injective _ _ e) (backend_client_rm-HasSockets ce w o)
  from_client-HasSockets ce (received msg sized) w w' live o e =
      dispatch_cases env HasSockets ce msg w
        (λ v q. same-HasSockets w v (q.same_clients, q.same_registered) o) (msg_case msg.op_type)
        (λ c db.
          same-HasSockets w (from_client_lock env ce.ce_s ce.ce_pid db w).0
            (lock-SameSessions ce.ce_s ce.ce_pid db w) o)
        (λ c db.
          same-HasSockets w (from_client_unlock env ce.ce_s ce.ce_pid db w).0
            (unlock-SameSessions ce.ce_s ce.ce_pid db w) o)
        (λ c pid d.
          same-HasSockets (remove_pid env pid w) (from_client_kill env ce.ce_s pid w).0
            (kill-SameSessions ce.ce_s pid w) (remove_pid-HasSockets pid w o))
        (λ a. subscription-HasSockets ce a w live o) w' e
