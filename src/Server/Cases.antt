-- ===== src/Server/Cases.antt =====
-- The cases of the functions of a connection that have several (websocket/bin/websocket-server-2pass.cpp).
use asr_2pass.Prelude.{
  ℕ, ◌≡◌, true, false, ◌&&◌, ◌||◌, not, if◌then◌else◌, List, [], length, Option, none, some, maybe,
  if_cases, maybe_cases, leb,
}
use asr_2pass.Server.{
  FunasrMessage, Job, Request, post_last, last_settings, is_true, is_false, step_size,
}
use asr_2pass.Server.Connections.{
  Connection, Outcome, start, do_decoder, decode_piece, decode_last, finish,
}

-- Behind the chunk size.
abbrev pub behind_chunk_size : Request → FunasrMessage → FunasrMessage × Option Job
behind_chunk_size r n =
    let late = record n { settings = last_settings r (n.settings) } in
    if is_false (r.is_speaking) || is_true (r.is_finished) then post_last late else (late, none)

-- The audio of a job that is posted is moved out of the samples.
abbrev pub moved : FunasrMessage × Option Job → FunasrMessage × Option Job
moved r = maybe (r.0, none) (λ j. (record (r.0) { samples = [] }, some j)) (r.1)

abbrev pub begun : Connection → Job → List Job → Connection
begun c job jobs = record c { posted = jobs; running = some job }

pub start_cases {ℓ} :
    (P : Connection → Type ℓ) (c : Connection) (job : Job) (jobs : List Job)
    → P (finish (begun c job jobs))
    → ((handle : ℕ) → c.message.tpass_online_handle ≡ some handle → P (begun c job jobs))
    → P (start c job jobs)
unfolding start
start_cases P c job jobs h k =
    maybe_cases P (c.message.tpass_online_handle) {b = finish (begun c job jobs)}
      {f = λ handle. begun c job jobs} (λ e. h) k

pub do_decoder_cases {ℓ} :
    (P : Connection → Type ℓ) (outcome : Outcome) (cache : List (List (List ℕ))) (c : Connection)
    (job : Job)
    → P (finish c)
    → ((leb step_size (length (job.buffer)) && not (c.message.is_eof)) ≡ true
        → P (decode_piece outcome cache c job))
    → ((leb step_size (length (job.buffer)) && not (c.message.is_eof)) ≡ false
        → (job.is_final && not (c.message.is_eof)) ≡ true
        → P (decode_last outcome cache c job))
    → P (do_decoder outcome cache c job)
unfolding do_decoder
do_decoder_cases P outcome cache c job done on_piece on_last =
    let handle = c.message.tpass_online_handle in
    let open_ = not (c.message.is_eof) in
    let piece = decode_piece outcome cache c job in
    let last = decode_last outcome cache c job in
    if_cases P (leb step_size (length (job.buffer)) && open_)
      {x = maybe (finish c) (λ handle. piece) handle}
      {y = if job.is_final && open_ then maybe (finish c) (λ handle. last) handle else finish c}
      (λ h.
        maybe_cases P handle {b = finish c} {f = λ handle. piece} (λ k. done) (λ a k. on_piece h))
      (λ h.
        if_cases P (job.is_final && open_) {x = maybe (finish c) (λ handle. last) handle}
          {y = finish c}
          (λ g.
            maybe_cases P handle {b = finish c} {f = λ handle. last} (λ k. done)
              (λ a k. on_last h g))
          (λ g. done))
