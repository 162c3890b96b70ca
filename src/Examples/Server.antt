-- ===== src/Examples/Server.antt =====
-- The theorems on the connections of the server (websocket/bin/websocket-server-2pass.cpp) at a concrete
-- run.
use asr_2pass.Prelude.{ℕ, suc, ◌++◌, ◌≡◌, refl, List, [], ◌∷◌, none, some, true, false}
use asr_2pass.Prelude.Int.{pos}
use asr_2pass.Server.{Host, Request, Job, on_open, on_text, on_binary, default_settings}
use asr_2pass.Server.Hotwords.{not_json, merged_hotwords, nn_hotwords, insert_all}
use asr_2pass.Server.Connections.{
  Connection, result, new_connection, handled, start, do_decoder, decode_last, finish,
}
use asr_2pass.Server.Steps.{Reaches, opened, goes_on, enters, text, binary, starts, decodes}
use asr_2pass.Server.Lifetime.{Lifetime, Reaches-Lifetime}
use asr_2pass.Server.Order.{Reaches-InOrder}
use asr_2pass.Server.Passing.{InOrder}
use asr_2pass.Server.Pieces.{Reaches-InPieces}
use asr_2pass.Server.Sound.{InPieces}

abbrev host : Host
host = record { json = λ text. not_json; hws_map = []; isonline = true }

-- The only text message of a client: a chunk size, and that the audio has ended.
abbrev bye : Request
bye = record {
  new_wav_name = none;
  new_mode = none;
  new_wav_format = none;
  hotwords = none;
  new_audio_fs = none;
  chunk_size = some (pos 5 ∷ pos 10 ∷ pos 5 ∷ []);
  new_itn = none;
  new_vad_tail_sil = none;
  new_vad_max_len = none;
  new_svs_lang = none;
  new_svs_itn = none;
  is_speaking = some false;
  is_finished = none;
}

abbrev bytes : List ℕ
bytes = 1 ∷ 2 ∷ 3 ∷ []

-- Some audio, the end, and the job that is then posted.
abbrev entered_once : Connection
entered_once = record new_connection { entered = 1 }

abbrev with_audio : Connection
with_audio = record (handled (on_binary host bytes (entered_once.message)) entered_once) {
  entered = 0;
  received = entered_once.received ++ bytes;
}

abbrev entered_twice : Connection
entered_twice = record with_audio { entered = suc (with_audio.entered) }

abbrev with_job : Connection
with_job = record (handled (on_text host 7 (some bye) (entered_twice.message)) entered_twice) {
  entered = 0;
}

abbrev last_job : Job
last_job = record {
  buffer = bytes;
  is_final = true;
  job_settings = default_settings;
  job_hotwords = [];
}

abbrev with_result : Connection
with_result = do_decoder (result (97 ∷ [])) [] (start with_job last_job []) last_job

with_result_reached : Reaches host with_result
unfolding new_connection on_open on_binary on_text handled start do_decoder decode_last finish
    default_settings merged_hotwords nn_hotwords insert_all
with_result_reached =
    goes_on
      (goes_on
        (goes_on
          (goes_on (goes_on (goes_on opened (enters refl refl)) (binary {n = 0} bytes refl))
            (enters refl refl))
          (text {n = 0} 7 (some bye) refl))
        (starts {job = last_job} {jobs = []} refl refl))
      (decodes {job = last_job} (result (97 ∷ [])) [] refl)

Reaches-Lifetime_example : Lifetime with_result
Reaches-Lifetime_example = Reaches-Lifetime host with_result with_result_reached

Reaches-InOrder_example : InOrder with_result
Reaches-InOrder_example = Reaches-InOrder host with_result with_result_reached

Reaches-InPieces_example : InPieces with_result
Reaches-InPieces_example = Reaches-InPieces host with_result refl with_result_reached

with_result_fed : with_result.fed ≡ (bytes, true) ∷ []
unfolding new_connection on_open on_binary on_text handled start do_decoder decode_last finish
    default_settings merged_hotwords nn_hotwords insert_all
with_result_fed = refl
