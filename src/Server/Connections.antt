-- ===== src/Server/Connections.antt =====
-- The connection as the server keeps it (websocket/bin/websocket-server-2pass.cpp): its entry in the
-- map, the strand of its jobs, and the decoder, which runs one of them at a time.
use asr_2pass.Prelude.{
  ℕ, ◌-◌, Bool, true, false, ◌&&◌, ◌||◌, not, if◌then◌else◌, List, [], ◌∷◌, ◌++◌, map, length, take,
  drop, leb, ◌==◌, Option, none, some, maybe,
}
use asr_2pass.Prelude.Bytes.{same_bytes}
use asr_2pass.Server.{FunasrMessage, Job, on_open, step_size}

-- What a call of the engine comes to: an exception, no result, or the text of a result.
pub data Outcome : Type 0 where
  throws : Outcome
  no_result : Outcome
  result : List ℕ → Outcome

-- What is sent to the client: a text and whether it is final, or that only PCM is served.
pub data Reply : Type 0 where
  reply : List ℕ → Bool → Reply
  only_pcm : Reply

-- A connection. `in_map`: `data_map` holds it. `entered`: the calls of `on_message` that have found it
-- there and wait for its lock. Then the strand, the job that runs, and what was received, fed to the
-- engine and sent so far.
pub record Connection : Type 0 where
  pub message : FunasrMessage
  pub in_map : Bool
  pub entered : ℕ
  pub posted : List Job
  pub running : Option Job
  pub received : List ℕ
  pub fed : List (List ℕ × Bool)
  pub sent : List Reply

unfoldable pub new_connection : Connection
new_connection = record {
  message = on_open;
  in_map = true;
  entered = 0;
  posted = [];
  running = none;
  received = [];
  fed = [];
  sent = [];
}

-- What a handler has done, and the job that it posts.
unfoldable pub handled : FunasrMessage × Option Job → Connection → Connection
handled (m, job) c = record c { message = m; posted = c.posted ++ maybe [] (λ j. j ∷ []) job }

-- `remove_hdl`, of a connection that is in the map.
unfoldable pub remove_hdl : Connection → Connection
remove_hdl c =
    let removed = record c {
      message = record (c.message) { decoder_handle = none; tpass_online_handle = none };
      in_map = false;
    } in
    if c.message.access_num == 0 && c.message.is_eof then removed else c

-- The end of `do_decoder`; the counter is one at least then, as Server/Lifetime shows.
unfoldable pub finish : Connection → Connection
finish c = record c {
  message = record (c.message) { access_num = c.message.access_num - 1 };
  running = none;
}

-- `do_decoder` is called with the job in front of the strand: without a handle it ends there.
unfoldable pub start : Connection → Job → List Job → Connection
unfolding finish
start c job jobs =
    let begun = record c { posted = jobs; running = some job } in
    maybe (finish begun) (λ handle. begun) (c.message.tpass_online_handle)

abbrev pub send : List Reply → Connection → Connection
send replies c = record c { sent = c.sent ++ replies }

abbrev pub no_text : List ℕ → Bool
no_text text = length text == 0

-- The engine is called with a piece of the audio.
abbrev pub feed : List (List (List ℕ)) → List ℕ → Bool → Connection → Connection
feed cache piece final c = record c {
  message = record (c.message) { punc_cache = cache };
  fed = c.fed ++ (piece, final) ∷ [];
}

-- A round of the loop of `do_decoder`. `cache` is the punctuation cache that the engine leaves.
unfoldable pub decode_piece : Outcome → List (List (List ℕ)) → Connection → Job → Connection
unfolding finish
decode_piece throws cache c job = finish (feed cache (take step_size (job.buffer)) false c)
decode_piece no_result cache c job = record (feed cache (take step_size (job.buffer)) false c) {
  running = some (record job { buffer = drop step_size (job.buffer) });
}
decode_piece (result text) cache c job =
    send (if no_text text then [] else reply text false ∷ [])
      (record (feed cache (take step_size (job.buffer)) false c) {
        running = some (record job { buffer = drop step_size (job.buffer) });
      })

abbrev pub is_pcm : List ℕ → Bool
is_pcm format = same_bytes format (112 ∷ 99 ∷ 109 ∷ []) || same_bytes format (80 ∷ 67 ∷ 77 ∷ [])

abbrev pub clear_cache : Connection → Connection
clear_cache c = record c {
  message = record (c.message) { punc_cache = map (λ words. []) (c.message.punc_cache) };
}

-- The last piece of the audio.
unfoldable pub decode_last : Outcome → List (List (List ℕ)) → Connection → Job → Connection
unfolding finish
decode_last throws cache c job = finish (feed cache (job.buffer) true c)
decode_last no_result cache c job = finish (
    send (if is_pcm (job.job_settings.wav_format) then [] else only_pcm ∷ [])
      (clear_cache (feed cache (job.buffer) true c)))
decode_last (result text) cache c job =
    finish (send (reply text true ∷ []) (clear_cache (feed cache (job.buffer) true c)))

-- `do_decoder` from the head of its loop on, up to that head again or to its end.
unfoldable pub do_decoder : Outcome → List (List (List ℕ)) → Connection → Job → Connection
unfolding finish decode_piece decode_last
do_decoder outcome cache c job =
    let piece =
      maybe (finish c) (λ handle. decode_piece outcome cache c job)
        (c.message.tpass_online_handle) in
    let last =
      maybe (finish c) (λ handle. decode_last outcome cache c job)
        (c.message.tpass_online_handle) in
    if leb step_size (length (job.buffer)) && not (c.message.is_eof)
    then piece
    else if job.is_final && not (c.message.is_eof)
    then last
    else finish c
