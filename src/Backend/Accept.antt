-- ===== src/Backend/Accept.antt =====
-- `config_accept_client` of apps/config/config_socket.c: a new session, on every path.
use clicon.Base.{
  ℕ, ◌≡◌, ◌≢◌, refl, Bool, true, false, List, [], ◌∷◌, Option, none, some, All, inl, inr,
  if◌then◌else◌, ◌==◌, ==_refl, Bool-cases, Option-cases, ◌+◌,
}
use clicon.Proto.Types.{CString}
use clicon.Backend.Types.{
  Reason, malloc_failed, accept_failed, getsockopt_failed, no_sock_group, Client, Env, World,
}
use clicon.Backend.Handlers.{report, oe_unix, oe_plugin, oe_fatal}
use clicon.Backend.Clients.{backend_client_add, put_client}
use clicon.Backend.Sockets.{Owned, HasSockets, owner, All-map}

abbrev oe_events : ℕ
oe_events = 3

-- What the system gives: whether `malloc` has an entry and a registration, CLICON_SOCK_GROUP, and
-- the process and the user at the other end of the socket.
pub record Peer : Type 0 where
  pub entry_memory : Bool
  pub event_memory : Bool
  pub sock_group : Option CString
  pub credentials : Option (ℕ × ℕ)

module _ {F : Type 0} (env : Env F) where
  failing : ℕ → ℕ → Reason → World F → World F × Bool
  failing errno suberrno why w =
      (report (record { errno = errno; suberrno = suberrno; reason = env.text why }) w, false)

  -- `ce->ce_s = s` and the registration of the socket.
  register : ℕ → Peer → Client → World F → World F × Bool
  unfolding failing put_client
  register s peer ce w =
      let w = record w { ce_list = put_client (record ce { ce_s = s }) w.ce_list } in
      if peer.event_memory
      then (record w { registered = s ∷ w.registered }, true)
      else failing oe_events (env.os_errno w.files) malloc_failed w

  -- The entry is in the list before the group is looked at, and stays there if there is none.
  grouped : ℕ → Peer → Client → Option CString → World F → World F × Bool
  unfolding failing register
  grouped s peer ce none w = failing oe_fatal 0 no_sock_group w
  grouped s peer ce (some group) w = register s peer ce w

  enter : ℕ → Peer → ℕ → ℕ → Client → World F → World F × Bool
  unfolding grouped put_client
  enter s peer pid uid ce w =
      let ce = record ce { ce_pid = pid; ce_uid = uid } in
      grouped s peer ce peer.sock_group (record w { ce_list = put_client ce w.ce_list })

  admit : ℕ → Peer → ℕ → ℕ → World F → World F × Bool
  unfolding failing enter backend_client_add
  admit s peer pid uid w =
      if peer.entry_memory
      then enter s peer pid uid (backend_client_add w).1 (backend_client_add w).0
      else failing oe_plugin (env.os_errno w.files) malloc_failed w

  -- The socket that `accept` returns, or its failure. A socket without credentials is left open.
  unfoldable pub config_accept_client : Option ℕ → Peer → World F → World F × Bool
  unfolding failing admit
  config_accept_client none peer w = failing oe_unix (env.os_errno w.files) accept_failed w
  config_accept_client (some s) peer w = elim peer.credentials [
    | none ↦ failing oe_unix (env.os_errno w.files) getsockopt_failed w
    | some (pid, uid) ↦ admit s peer pid uid w
  ]

owner-cons :
    (c : Client) (t : ℕ) (clients : List Client)
    → owner t clients ≢ none
    → owner t (c ∷ clients) ≢ none
unfolding owner
owner-cons c t clients here = elim (Bool-cases (c.ce_s == t)) [
  | inl hit ↦ rw hit (λ e. cc)
  | inr miss ↦ rw miss here
]

cons-Owned :
    (c : Client) (clients : List Client) (sockets : List ℕ)
    → Owned clients sockets
    → Owned (c ∷ clients) sockets
cons-Owned c clients sockets o = record {
  owned =
      All-map (λ t. owner t clients ≢ none) (λ t. t ≢ 0) (λ t. owner t (c ∷ clients) ≢ none) sockets
        (λ t here nonzero. owner-cons c t clients here) o.owned o.nonzero;
  nonzero = o.nonzero;
  differ = o.differ;
}

registered-Owned :
    (c : Client) (clients : List Client) (sockets : List ℕ)
    → c.ce_s ≢ 0
    → All (λ t. t ≢ c.ce_s) sockets
    → Owned clients sockets
    → Owned (c ∷ clients) (c.ce_s ∷ sockets)
unfolding owner
registered-Owned c clients sockets nonzero fresh o =
    let rest = cons-Owned c clients sockets o in
    record {
      owned = (rw (==_refl c.ce_s) (λ e. cc), rest.owned);
      nonzero = (nonzero, rest.nonzero);
      differ = (fresh, rest.differ);
    }

module _ {F : Type 0} (env : Env F) where
  either :
      (b : Bool) (x y : World F × Bool)
      → HasSockets x.0
      → HasSockets y.0
      → HasSockets (if b then x else y).0
  either true x y hx hy = hx
  either false x y hx hy = hy

  register-HasSockets :
      (s : ℕ) (peer : Peer) (ce : Client) (clients : List Client) (w : World F)
      → w.ce_list ≡ ce ∷ clients
      → s ≢ 0
      → All (λ t. t ≢ s) w.registered
      → Owned clients w.registered
      → HasSockets (register env s peer ce w).0
  unfolding register put_client
  register-HasSockets s peer ce clients w first nonzero fresh o =
      let placed = cons-Owned (record ce { ce_s = s }) clients w.registered o in
      let added = registered-Owned (record ce { ce_s = s }) clients w.registered nonzero fresh o in
      either peer.event_memory _ _ (rw (first, ==_refl ce.ce_nr) added)
        (rw (first, ==_refl ce.ce_nr) placed)

  grouped-HasSockets :
      (s : ℕ) (peer : Peer) (ce : Client) (group : Option CString) (clients : List Client)
      (w : World F)
      → w.ce_list ≡ ce ∷ clients
      → s ≢ 0
      → All (λ t. t ≢ s) w.registered
      → Owned clients w.registered
      → HasSockets (grouped env s peer ce group w).0
  unfolding grouped failing
  grouped-HasSockets s peer ce none clients w first nonzero fresh o =
      rw first (cons-Owned ce clients w.registered o)
  grouped-HasSockets s peer ce (some group) clients w first nonzero fresh o =
      register-HasSockets s peer ce clients w first nonzero fresh o

  admit-HasSockets :
      (s : ℕ) (peer : Peer) (pid uid : ℕ) (w : World F)
      → s ≢ 0
      → All (λ t. t ≢ s) w.registered
      → HasSockets w
      → HasSockets (admit env s peer pid uid w).0
  unfolding admit put_client backend_client_add
  admit-HasSockets s peer pid uid w nonzero fresh o =
      let ce : Client = record {
        ce_s = 0;
        ce_nr = w.ce_nr;
        ce_pid = pid;
        ce_uid = uid;
        ce_subscription = [];
      } in
      let v = record w {
        ce_nr = w.ce_nr + 1;
        ce_list = put_client ce (record ce { ce_pid = 0; ce_uid = 0 } ∷ w.ce_list);
      } in
      let first : v.ce_list ≡ ce ∷ w.ce_list = rw (==_refl w.ce_nr) refl in
      either peer.entry_memory _ _
        (grouped-HasSockets s peer ce peer.sock_group w.ce_list v first nonzero fresh o) o

  -- Once `accept` has returned a socket, admitting a session, on every path, keeps the registered sockets apart and each with a client in
  -- the list, where the socket that the system returns is none of them and not 0.
  pub config_accept_client-HasSockets :
      (s : ℕ) (peer : Peer) (w : World F)
      → s ≢ 0
      → All (λ t. t ≢ s) w.registered
      → HasSockets w
      → HasSockets (config_accept_client env (some s) peer w).0
  unfolding config_accept_client
  config_accept_client-HasSockets s peer w nonzero fresh o = elim (Option-cases peer.credentials) [
    | inl unknown ↦ rw (config_accept_client, unknown) o
    | inr ((pid, uid), known) ↦
        rw (config_accept_client, known) (admit-HasSockets s peer pid uid w nonzero fresh o)
  ]
