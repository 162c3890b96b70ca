-- ===== src/Server/Steps.antt =====
-- What can happen to a connection, one stretch under a lock after the other: the handlers of the
-- websocket, the thread that cleans up, and the decoder (websocket/bin/websocket-server-2pass.cpp). The
-- strand runs the jobs one at a time, in the order in which they are posted.
use asr_2pass.Prelude.{ℕ, suc, ◌≡◌, true, false, List, ◌∷◌, ◌++◌, Option, none, some}
use asr_2pass.Server.{Job, Request, Host, on_close, on_text, on_binary}
use asr_2pass.Server.Connections.{
  Connection, Outcome, new_connection, handled, remove_hdl, start, do_decoder,
}

-- `on_message` returns from its first stretch if the connection is not in the map or closed; else it
-- has entered, and goes on when it has the lock of the connection.
pub data Step (host : Host) : Connection → Connection → Type 0 where
  enters :
      {c : Connection}
      → c.in_map ≡ true
      → c.message.is_eof ≡ false
      → Step host c (record c { entered = suc (c.entered) })
  text :
      {c : Connection} {n : ℕ} (handle : ℕ) (request : Option Request)
      → c.entered ≡ suc n
      → Step host c (record (handled (on_text host handle request (c.message)) c) { entered = n })
  binary :
      {c : Connection} {n : ℕ} (payload : List ℕ)
      → c.entered ≡ suc n
      → Step host c (record (handled (on_binary host payload (c.message)) c) {
        entered = n;
        received = c.received ++ payload;
      })
  other_opcode :
      {c : Connection} {n : ℕ} → c.entered ≡ suc n → Step host c (record c { entered = n })
  closes :
      {c : Connection} → c.in_map ≡ true → Step host c (record c { message = on_close (c.message) })
  removes : {c : Connection} → c.in_map ≡ true → Step host c (remove_hdl c)
  starts :
      {c : Connection} {job : Job} {jobs : List Job}
      → c.running ≡ none
      → c.posted ≡ job ∷ jobs
      → Step host c (start c job jobs)
  decodes :
      {c : Connection} {job : Job} (outcome : Outcome) (cache : List (List (List ℕ)))
      → c.running ≡ some job
      → Step host c (do_decoder outcome cache c job)

-- What an opened connection can come to.
pub data Reaches (host : Host) : Connection → Type 0 where
  opened : Reaches host new_connection
  goes_on : {c d : Connection} → Reaches host c → Step host c d → Reaches host d

-- What every step keeps holds of all that is reached.
pub Reaches-kept {ℓ} :
    {host : Host} (P : Connection → Type ℓ)
    → P new_connection
    → ((c d : Connection) → Step host c d → P c → P d)
    → {c : Connection} → Reaches host c
    → P c
Reaches-kept P base step opened = base
Reaches-kept P base step (goes_on r s) = step _ _ s (Reaches-kept P base step r)
