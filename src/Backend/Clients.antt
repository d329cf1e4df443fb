-- ===== src/Backend/Clients.antt =====
-- The client list and its subscriptions: apps/config/config_handle.c and config_client.c.
use clicon.Base.{ℕ, ◌+◌, List, [], ◌∷◌, ◌==◌, if◌then◌else◌, Option, none, some, str_eq}
use clicon.Proto.Types.{CString}
use clicon.Backend.Types.{Subscription, Client, World}

module _ {F : Type 0} where
  unfoldable pub backend_client_add : World F → World F × Client
  backend_client_add w =
      let ce : Client = record {
        ce_s = 0;
        ce_nr = w.ce_nr;
        ce_pid = 0;
        ce_uid = 0;
        ce_subscription = [];
      } in
      (record w { ce_nr = w.ce_nr + 1; ce_list = ce ∷ w.ce_list }, ce)

-- The entry with the number `nr` leaves the list.
unfoldable pub delete_client : ℕ → List Client → List Client
delete_client nr [] = []
delete_client nr (c ∷ cs) = if c.ce_nr == nr then cs else c ∷ delete_client nr cs

-- A write through the pointer to the entry with the number of `ce`.
unfoldable pub put_client : Client → List Client → List Client
put_client ce [] = []
put_client ce (c ∷ cs) = if c.ce_nr == ce.ce_nr then ce ∷ cs else c ∷ put_client ce cs

unfoldable pub find_client : ℕ → List Client → Option Client
find_client nr [] = none
find_client nr (c ∷ cs) = if c.ce_nr == nr then some c else find_client nr cs

unfoldable pub ce_find_bypid : ℕ → List Client → Option Client
ce_find_bypid pid [] = none
ce_find_bypid pid (c ∷ cs) = if c.ce_pid == pid then some c else ce_find_bypid pid cs

-- The first registration of the socket leaves the event loop's list.
unfoldable pub unregister : ℕ → List ℕ → List ℕ
unregister s [] = []
unregister s (t ∷ ts) = if t == s then ts else t ∷ unregister s ts

-- A new subscription stands first.
unfoldable pub client_subscription_add : Client → CString → ℕ → CString → Client
client_subscription_add ce stream format filter = record ce {
  ce_subscription =
      record { su_format = format; su_stream = stream; su_filter = filter } ∷ ce.ce_subscription;
}

-- `client_subscription_find` and the `client_subscription_delete` of what it found.
unfoldable pub drop_stream : CString → List Subscription → List Subscription
drop_stream stream [] = []
drop_stream stream (su ∷ rest) =
    if str_eq su.su_stream stream then rest else su ∷ drop_stream stream rest

-- `backend_client_rm`: the socket of a listed client is unregistered and closed, and the entry is
-- deleted with its subscriptions. The lock is not looked at.
unfoldable pub backend_client_rm : {F : Type 0} → Client → World F → World F
backend_client_rm ce w = record w {
  registered = elim (find_client ce.ce_nr w.ce_list) [
    | none ↦ w.registered
    | some c ↦ if c.ce_s == 0 then w.registered else unregister c.ce_s w.registered
  ];
  ce_list = delete_client ce.ce_nr w.ce_list;
}
