-- ===== src/Server/Pieces.antt =====
-- The sizes of the pieces of audio that go to the engine, and of what is kept for the next message
-- (`on_message` and `do_decoder` in websocket/bin/websocket-server-2pass.cpp).
use asr_2pass.Prelude.{
  ℕ, zero, suc, ◌≤◌, ◌<◌, ◌≡◌, subst, Bool, true, false, ◌&&◌, List, [], ◌∷◌, ◌++◌, length, Option,
  some, if_cases, leb, ◌==◌, take, drop, length-take, length-drop, inl, inr, arith,
}
use asr_2pass.Server.{FunasrMessage, Job, Host, on_open, on_close, step_size}
use asr_2pass.Server.Cases.{start_cases, do_decoder_cases}
use asr_2pass.Server.Connections.{
  Connection, Outcome, throws, no_result, result, new_connection, handled, remove_hdl, start,
  do_decoder, decode_piece, decode_last, finish,
}
use asr_2pass.Server.Steps.{
  Step, Reaches, Reaches-kept, enters, text, binary, other_opcode, closes, removes, starts, decodes,
}
use asr_2pass.Server.Sound.{
  ArePieces, Whole, AllWhole, MaybeWhole, fed_last-ArePieces, posted_last-AllWhole, Sound,
  on_binary-Sound, on_text-Sound, InPieces,
}

handled-InPieces :
    (c : Connection) (r : FunasrMessage × Option Job) (n : ℕ) (bytes : List ℕ)
    → Sound r
    → InPieces c
    → InPieces (record (handled r c) { entered = n; received = bytes })
unfolding handled
handled-InPieces c (m, job) n bytes (k, w) p = record {
  fed_pieces = p.fed_pieces;
  kept = k;
  waiting = posted_last-AllWhole (c.posted) job (p.waiting) w;
  runs = p.runs;
}

start-InPieces :
    (c : Connection) (job : Job) (jobs : List Job)
    → c.posted ≡ job ∷ jobs
    → InPieces c
    → InPieces (start c job jobs)
unfolding finish
start-InPieces c job jobs e p =
    let (w, ws) = subst AllWhole e (p.waiting) in
    start_cases InPieces c job jobs
      (record { fed_pieces = p.fed_pieces; kept = p.kept; waiting = ws; runs = tt })
      (λ handle h. record { fed_pieces = p.fed_pieces; kept = p.kept; waiting = ws; runs = w })

rest-Whole :
    (job : Job)
    → step_size ≤ length (job.buffer)
    → Whole job
    → Whole (record job { buffer = drop step_size (job.buffer) })
rest-Whole job h (inl f) = inl f
rest-Whole job h (inr (zero, e)) = absurd (omega arith)
rest-Whole job h (inr (suc k, e)) = inr (k, omega (arith, length-drop step_size (job.buffer)))

piece_fed :
    (c : Connection) (job : Job)
    → step_size ≤ length (job.buffer)
    → InPieces c
    → ArePieces (c.fed ++ (take step_size (job.buffer), false) ∷ [])
piece_fed c job h p =
    fed_last-ArePieces (c.fed) ((take step_size (job.buffer), false) ∷ []) (p.fed_pieces)
      (omega (arith, length-take step_size (job.buffer)), tt)

decode_piece-InPieces :
    (outcome : Outcome) (cache : List (List (List ℕ))) (c : Connection) (job : Job)
    → c.running ≡ some job
    → step_size ≤ length (job.buffer)
    → InPieces c
    → InPieces (decode_piece outcome cache c job)
unfolding decode_piece finish
decode_piece-InPieces throws cache c job r h p = record {
  fed_pieces = piece_fed c job h p;
  kept = p.kept;
  waiting = p.waiting;
  runs = tt;
}
decode_piece-InPieces no_result cache c job r h p = record {
  fed_pieces = piece_fed c job h p;
  kept = p.kept;
  waiting = p.waiting;
  runs = rest-Whole job h (subst MaybeWhole r (p.runs));
}
decode_piece-InPieces (result t) cache c job r h p = record {
  fed_pieces = piece_fed c job h p;
  kept = p.kept;
  waiting = p.waiting;
  runs = rest-Whole job h (subst MaybeWhole r (p.runs));
}

last_fed :
    (c : Connection) (job : Job)
    → length (job.buffer) < step_size
    → InPieces c
    → ArePieces (c.fed ++ (job.buffer, true) ∷ [])
last_fed c job h p = fed_last-ArePieces (c.fed) ((job.buffer, true) ∷ []) (p.fed_pieces) (h, tt)

decode_last-InPieces :
    (outcome : Outcome) (cache : List (List (List ℕ))) (c : Connection) (job : Job)
    → length (job.buffer) < step_size
    → InPieces c
    → InPieces (decode_last outcome cache c job)
unfolding decode_last finish
decode_last-InPieces throws cache c job h p = record {
  fed_pieces = last_fed c job h p;
  kept = p.kept;
  waiting = p.waiting;
  runs = tt;
}
decode_last-InPieces no_result cache c job h p = record {
  fed_pieces = last_fed c job h p;
  kept = p.kept;
  waiting = p.waiting;
  runs = tt;
}
decode_last-InPieces (result t) cache c job h p = record {
  fed_pieces = last_fed c job h p;
  kept = p.kept;
  waiting = p.waiting;
  runs = tt;
}

at_least : (n m : ℕ) (open_ : Bool) → (leb n m && open_) ≡ true → n ≤ m
at_least n m open_ h = ground arith

less : (n m : ℕ) (open_ final : Bool) → (leb n m && open_) ≡ false → (final && open_) ≡ true → m < n
less n m open_ final h k = ground arith

do_decoder-InPieces :
    (outcome : Outcome) (cache : List (List (List ℕ))) (c : Connection) (job : Job)
    → c.running ≡ some job
    → InPieces c
    → InPieces (do_decoder outcome cache c job)
unfolding finish
do_decoder-InPieces outcome cache c job r p =
    do_decoder_cases InPieces outcome cache c job
      (record { fed_pieces = p.fed_pieces; kept = p.kept; waiting = p.waiting; runs = tt })
      (λ h. decode_piece-InPieces outcome cache c job r (at_least _ _ _ h) p)
      (λ h g. decode_last-InPieces outcome cache c job (less _ _ _ _ h g) p)

Step-InPieces :
    {host : Host}
    → host.isonline ≡ true
    → (c d : Connection) → Step host c d
    → InPieces c
    → InPieces d
unfolding handled on_close remove_hdl
Step-InPieces online c d (enters m e) p = record {
  fed_pieces = p.fed_pieces;
  kept = p.kept;
  waiting = p.waiting;
  runs = p.runs;
}
Step-InPieces {host = host} online c d (text {n = n} handle request e) p =
    handled-InPieces c _ n (c.received) (on_text-Sound host handle request (c.message) (p.kept)) p
Step-InPieces {host = host} online c d (binary {n = n} payload e) p =
    handled-InPieces c _ n (c.received ++ payload) (on_binary-Sound host payload (c.message) online)
      p
Step-InPieces online c d (other_opcode e) p = record {
  fed_pieces = p.fed_pieces;
  kept = p.kept;
  waiting = p.waiting;
  runs = p.runs;
}
Step-InPieces online c d (closes m) p = record {
  fed_pieces = p.fed_pieces;
  kept = p.kept;
  waiting = p.waiting;
  runs = p.runs;
}
Step-InPieces online c d (removes m) p =
    if_cases InPieces (c.message.access_num == 0 && c.message.is_eof) {y = c}
      (λ h. record { fed_pieces = p.fed_pieces; kept = p.kept; waiting = p.waiting; runs = p.runs })
      (λ h. p)
Step-InPieces online c d (starts r e) p = start-InPieces c _ _ e p
Step-InPieces online c d (decodes outcome cache r) p = do_decoder-InPieces outcome cache c _ r p

-- With `isonline`, the engine is called with pieces of 1600 bytes, and with a shorter one, which may be
-- empty, at the end of the audio only; a job that is not the last one has whole pieces;
-- and at most 1600 bytes are kept for the next message.
pub Reaches-InPieces :
    (host : Host) (c : Connection) → host.isonline ≡ true → Reaches host c → InPieces c
unfolding new_connection on_open
Reaches-InPieces host c online r =
    Reaches-kept InPieces (record { fed_pieces = tt; kept = omega arith; waiting = tt; runs = tt })
      (λ c d s p. Step-InPieces online c d s p) r
