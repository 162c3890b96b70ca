-- ===== src/Server.antt =====
-- The messages of a connection of the two-pass websocket server
-- (websocket/bin/websocket-server-2pass.cpp and .h): the handlers of its events, each the stretch under
-- the lock of the connection, and the jobs that they post.
use asr_2pass.Prelude.{
  ℕ, zero, suc, ◌+◌, ◌-◌, ◌*◌, ◌/◌, Bool, true, false, ◌&&◌, ◌||◌, not, if◌then◌else◌, List, [],
  ◌∷◌, ◌++◌, map, length, take, drop, ltb, leb, ◌==◌, Option, none, some, maybe,
}
use asr_2pass.Prelude.Int.{ℤ, pos}
use asr_2pass.Server.Hotwords.{Weights, Json, merged_hotwords, nn_hotwords}
pub mod Hotwords
pub mod Connections
pub mod Cases
pub mod Careful
pub mod Steps
pub mod Lifetime
pub mod Subsequence
pub mod Passing
pub mod Order
pub mod Sound
pub mod Pieces

-- The fields of `msg` that the messages of the client set.
pub record Settings : Type 0 where
  pub wav_format : List ℕ
  pub wav_name : List ℕ
  pub mode : List ℕ
  pub itn : Bool
  pub vad_tail_sil : ℤ
  pub vad_max_len : ℤ
  pub audio_fs : ℤ
  pub svs_lang : List ℕ
  pub svs_itn : Bool

-- `FUNASR_MESSAGE`. A handle of the engine is a number, and `none` the null pointer; of a decoder
-- handle there are the hotwords that are loaded, and of the compiled hotwords what they are compiled of.
pub record FunasrMessage : Type 0 where
  pub settings : Settings
  pub access_num : ℕ
  pub is_eof : Bool
  pub samples : List ℕ
  pub punc_cache : List (List (List ℕ))
  pub hotwords_embedding : Option (List ℕ)
  pub tpass_online_handle : Option ℕ
  pub decoder_handle : Option Weights

-- What `on_message` posts to the strand: the audio, whether it is the last, and the settings as they
-- are then.
pub record Job : Type 0 where
  pub buffer : List ℕ
  pub is_final : Bool
  pub job_settings : Settings
  pub job_hotwords : List ℕ

-- A text message, parsed: the fields that it has, of the types that the code reads them at.
pub record Request : Type 0 where
  pub new_wav_name : Option (List ℕ)
  pub new_mode : Option (List ℕ)
  pub new_wav_format : Option (List ℕ)
  pub hotwords : Option (List ℕ)
  pub new_audio_fs : Option ℤ
  pub chunk_size : Option (List ℤ)
  pub new_itn : Option Bool
  pub new_vad_tail_sil : Option ℤ
  pub new_vad_max_len : Option ℤ
  pub new_svs_lang : Option (List ℕ)
  pub new_svs_itn : Option Bool
  pub is_speaking : Option Bool
  pub is_finished : Option Bool

-- What the server has beside the connection: the parser of the hotwords, its own hotwords, and
-- `isonline`.
pub record Host : Type 0 where
  pub json : List ℕ → Json
  pub hws_map : Weights
  pub isonline : Bool

unfoldable pub default_settings : Settings
default_settings = record {
  wav_format = 112 ∷ 99 ∷ 109 ∷ [];
  wav_name = 119 ∷ 97 ∷ 118 ∷ 45 ∷ 100 ∷ 101 ∷ 102 ∷ 97 ∷ 117 ∷ 108 ∷ 116 ∷ 45 ∷ 105 ∷ 100 ∷ [];
  mode = 50 ∷ 112 ∷ 97 ∷ 115 ∷ 115 ∷ [];
  itn = true;
  vad_tail_sil = pos 350;
  vad_max_len = pos 20000;
  audio_fs = pos 16000;
  svs_lang = 97 ∷ 117 ∷ 116 ∷ 111 ∷ [];
  svs_itn = true;
}

-- `on_open`, of a decoder handle that is made.
unfoldable pub on_open : FunasrMessage
unfolding default_settings
on_open = record {
  settings = default_settings;
  access_num = 0;
  is_eof = false;
  samples = [];
  punc_cache = [] ∷ [] ∷ [];
  hotwords_embedding = none;
  tpass_online_handle = none;
  decoder_handle = some [];
}

-- `on_close`, of a connection that is in the map.
unfoldable pub on_close : FunasrMessage → FunasrMessage
on_close m = record m { is_eof = true }

-- The settings that are read before the hotwords, and `audio_fs`.
abbrev pub first_settings : Request → Settings → Settings
first_settings r s = record s {
  wav_name = maybe (s.wav_name) (λ x. x) (r.new_wav_name);
  mode = maybe (s.mode) (λ x. x) (r.new_mode);
  wav_format = maybe (s.wav_format) (λ x. x) (r.new_wav_format);
  audio_fs = maybe (s.audio_fs) (λ x. x) (r.new_audio_fs);
}

-- The settings that are read after the chunk size.
abbrev pub last_settings : Request → Settings → Settings
last_settings r s = record s {
  itn = maybe (s.itn) (λ x. x) (r.new_itn);
  vad_tail_sil = maybe (s.vad_tail_sil) (λ x. x) (r.new_vad_tail_sil);
  vad_max_len = maybe (s.vad_max_len) (λ x. x) (r.new_vad_max_len);
  svs_lang = maybe (s.svs_lang) (λ x. x) (r.new_svs_lang);
  svs_itn = maybe (s.svs_itn) (λ x. x) (r.new_svs_itn);
}

-- The first text message loads the hotwords.
abbrev pub load_hotwords : Host → Request → FunasrMessage → FunasrMessage
load_hotwords host r m =
    let merged = merged_hotwords (host.json) (r.hotwords) (host.hws_map) in
    let loaded = record m {
      hotwords_embedding = some (nn_hotwords (host.json) (r.hotwords) merged);
      decoder_handle = maybe none (λ weights. some merged) (m.decoder_handle);
    } in
    maybe loaded (λ embedding. m) (m.hotwords_embedding)

-- Three numbers, the second one not 0.
abbrev pub good_chunk_size : List ℤ → Bool
good_chunk_size (a ∷ pos zero ∷ c ∷ []) = false
good_chunk_size (a ∷ b ∷ c ∷ []) = true
good_chunk_size _ = false

-- The handle of the engine that is opened at the first chunk size; `none` is the `break`.
abbrev pub online_handle : ℕ → Request → FunasrMessage → Option FunasrMessage
online_handle handle r m =
    maybe (some m)
      (λ size.
        maybe
          (if good_chunk_size size
            then some (record m { tpass_online_handle = some handle })
            else none)
          (λ h. some m) (m.tpass_online_handle))
      (r.chunk_size)

abbrev pub is_true : Option Bool → Bool
is_true = maybe false (λ b. b)

abbrev pub is_false : Option Bool → Bool
is_false = maybe false (λ b. not b)

-- A job is posted, and counted, if the connection is not closed and the hotwords are there.
abbrev pub post : List ℕ → Bool → FunasrMessage → FunasrMessage × Option Job
post audio final m =
    let posted =
      maybe (m, none)
        (λ embedding. (
          record m { access_num = suc (m.access_num) },
          some (record {
            buffer = audio;
            is_final = final;
            job_settings = m.settings;
            job_hotwords = embedding;
          }),
        ))
        (m.hotwords_embedding) in
    if m.is_eof then (m, none) else posted

-- The end of the audio: what is left is posted as the last piece, and moved out of `samples`.
abbrev pub post_last : FunasrMessage → FunasrMessage × Option Job
post_last m =
    let (posted, job) = post (m.samples) true m in
    maybe (posted, none) (λ j. (record posted { samples = [] }, some j)) job

-- The case `text` of `on_message`; `handle` is what `FunTpassOnlineInit` gives if it is called, and
-- no request is a text that does not parse.
unfoldable pub on_text : Host → ℕ → Option Request → FunasrMessage → FunasrMessage × Option Job
on_text host handle none m = (record m { is_eof = true }, none)
on_text host handle (some r) m =
    let early = load_hotwords host r (record m { settings = first_settings r (m.settings) }) in
    maybe (early, none)
      (λ n.
        let late = record n { settings = last_settings r (n.settings) } in
        if is_false (r.is_speaking) || is_true (r.is_finished)
        then post_last late
        else (late, none))
      (online_handle handle r early)

abbrev pub step_size : ℕ
step_size = 800 * 2

-- The case `binary` of `on_message`.
unfoldable pub on_binary : Host → List ℕ → FunasrMessage → FunasrMessage × Option Job
on_binary host payload m =
    let samples' = m.samples ++ payload in
    let size = length samples' / step_size * step_size in
    let cut = post (take size samples') false (record m { samples = drop size samples' }) in
    if host.isonline && ltb step_size (length samples')
    then cut
    else (record m { samples = samples' }, none)
