-- ===== src/Backend/Holder.antt =====
-- Sequences of inputs, as the event loop of lib/src/clicon_event.c hands them to `from_client`, and
-- what becomes of a session's lock.
use clicon.Base.{ℕ, ◌≡◌, ◌≢◌, ◌⊎◌, inl, inr, refl, sym, ap, ◌∙◌, List, [], ◌∷◌, some, All}
use clicon.Proto.Types.{Sized, Msg, MsgType}
use clicon.Proto.Buffer.{Run, ok, failed, overrun, ◌>>=◌}
use clicon.Proto.Decode.{clicon_msg_kill_decode}
use clicon.Backend.Types.{Client, Env, World}
use clicon.Backend.Dispatch.{Input, received, eof, msg_case, from_client}
use clicon.Backend.Cases.{ok_injective}
use clicon.Backend.Lock.{
  db_locked_of, LockChange, kept, acquired, released, broken_by_kill, from_client-LockChange,
}

-- The input of a session that is not the holder, and no kill of the holder.
abbrev pub Bystander : ℕ → Client × Input → Type 0
Bystander holder (ce, input) =
    (ce.ce_pid ≢ holder)
    × ((msg : Msg) (sized : Sized msg)
        → input ≡ received msg sized
        → msg_case msg.op_type ≡ some MsgType.kill
        → clicon_msg_kill_decode msg ≢ ok holder)

change_kept :
    (ce : Client) (input : Input) (holder a b : ℕ)
    → LockChange ce input a b
    → a ≡ holder
    → holder ≢ 0
    → Bystander holder (ce, input)
    → b ≡ holder
change_kept ce input holder a b (kept same) mine held (other, alive) = cc
change_kept ce input holder a b (acquired msg sized e c free taken) mine held (other, alive) =
    elim (held (sym mine ∙ free)) [ ]
change_kept ce input holder a b (released msg sized e c own given) mine held (other, alive) =
    elim (other (sym own ∙ mine)) [ ]
change_kept ce input holder a b (broken_by_kill msg sized e c named cleared) mine held
      (other, alive) =
    elim (alive msg sized e c (rw (sym mine) named)) [ ]

change_step :
    (ce : Client) (input : Input) (a b : ℕ) → LockChange ce input a b → a ≢ 0 → (b ≡ a) ⊎ (b ≡ 0)
change_step ce input a b (kept same) held = inl same
change_step ce input a b (acquired msg sized e c free taken) held = elim (held free) [ ]
change_step ce input a b (released msg sized e c mine given) held = inr given
change_step ce input a b (broken_by_kill msg sized e c named cleared) held = inr cleared

module _ {F : Type 0} (env : Env F) where
  -- Each input is served in the state that the ones before it leave.
  unfoldable pub serve : List (Client × Input) → World F → Run (World F)
  unfolding from_client
  serve [] w = ok w
  serve ((ce, input) ∷ rest) w = from_client env ce input w >>= serve rest

  -- A lock that is held passes to no other session: whatever arrives, the holder keeps it or the
  -- lock is free.
  pub from_client-no_handover :
      (ce : Client) (input : Input) (w w' : World F)
      → w.db_locked ≢ 0
      → from_client env ce input w ≡ ok w'
      → (w'.db_locked ≡ w.db_locked) ⊎ (w'.db_locked ≡ 0)
  from_client-no_handover ce input w w' held e =
      change_step ce input _ _ (from_client-LockChange env ce input w w' e) held

  serve_step :
      (r : Run (World F)) (rest : List (Client × Input)) (w' : World F)
      → (r >>= serve rest) ≡ ok w'
      → (v : World F) × (r ≡ ok v) × (serve rest v ≡ ok w')
  serve_step (ok v) rest w' e = (v, refl, e)
  serve_step failed rest w' e = cc
  serve_step overrun rest w' e = cc

  eof-db_locked :
      (ce : Client) (w w' : World F) → from_client env ce eof w ≡ ok w' → w'.db_locked ≡ w.db_locked
  unfolding from_client
  eof-db_locked ce w w' e = ap db_locked_of (sym (ok_injective _ _ e))

  -- A lock that is held stays with its holder through any sequence of inputs of other sessions with
  -- no kill of the holder among them.
  pub serve-keeps_lock :
      (holder : ℕ) (inputs : List (Client × Input)) (w w' : World F)
      → w.db_locked ≡ holder
      → holder ≢ 0
      → All (Bystander holder) inputs
      → serve inputs w ≡ ok w'
      → w'.db_locked ≡ holder
  unfolding serve
  serve-keeps_lock holder [] w w' mine held others e = cc
  serve-keeps_lock holder ((ce, input) ∷ rest) w w' mine held (other, others) e =
      let (v, first, then) = serve_step (from_client env ce input w) rest w' e in
      let change = from_client-LockChange env ce input w v first in
      let still = change_kept ce input holder _ _ change mine held other in
      serve-keeps_lock holder rest v w' still held others then

  -- A lock outlives the connection of the process that took it: after the end of that session's
  -- stream, and any inputs of others that do not kill the process, the process still holds it.
  pub serve-orphaned_lock :
      (ce : Client) (inputs : List (Client × Input)) (w w' : World F)
      → w.db_locked ≡ ce.ce_pid
      → ce.ce_pid ≢ 0
      → All (Bystander ce.ce_pid) inputs
      → serve ((ce, eof) ∷ inputs) w ≡ ok w'
      → w'.db_locked ≡ ce.ce_pid
  unfolding serve
  serve-orphaned_lock ce inputs w w' mine held others e =
      let (v, first, then) = serve_step (from_client env ce eof w) inputs w' e in
      let gone = eof-db_locked ce w v first in
      serve-keeps_lock ce.ce_pid inputs v w' (gone ∙ mine) held others then
