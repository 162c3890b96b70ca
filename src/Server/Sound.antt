-- ===== src/Server/Sound.antt =====
-- The sizes of the jobs that the handlers post, and of what they keep (`on_message` in
-- websocket/bin/websocket-server-2pass.cpp).
use asr_2pass.Prelude.{
  ℕ, ◌*◌, ◌/◌, ◌≤◌, ◌<◌, ◌≡◌, refl, sym, subst, Bool, true, false, ◌&&◌, ◌||◌, List, [], ◌∷◌, ◌++◌,
  length, Option, none, some, maybe, if_cases, maybe_cases, ltb, take, drop, length-take,
  length-drop, ◌⊎◌, inl, inr, arith,
}
use asr_2pass.Server.{
  FunasrMessage, Job, Request, Host, on_text, on_binary, post, post_last, load_hotwords,
  online_handle, first_settings, last_settings, is_true, is_false, step_size,
}
use asr_2pass.Server.Cases.{behind_chunk_size, moved}
use asr_2pass.Server.Passing.{SameSamples, load_hotwords-samples, online_handle-SameSamples}
use asr_2pass.Server.Connections.{Connection}

-- The last piece is shorter than a step, any other one is a step.
abbrev pub ArePieces : List (List ℕ × Bool) → Type 0
ArePieces [] = Unit {0}
ArePieces ((piece, true) ∷ pieces) = (length piece < step_size) × ArePieces pieces
ArePieces ((piece, false) ∷ pieces) = (length piece ≡ step_size) × ArePieces pieces

-- A job that is not the last one has whole steps.
abbrev pub Whole : Job → Type 0
Whole job = (job.is_final ≡ true) ⊎ ((k : ℕ) × (length (job.buffer) ≡ k * step_size))

abbrev pub AllWhole : List Job → Type 0
AllWhole [] = Unit {0}
AllWhole (job ∷ jobs) = Whole job × AllWhole jobs

abbrev pub MaybeWhole : Option Job → Type 0
MaybeWhole = maybe (Unit {0}) Whole

pub record InPieces (c : Connection) : Type 0 where
  pub fed_pieces : ArePieces (c.fed)
  pub kept : length (c.message.samples) ≤ step_size
  pub waiting : AllWhole (c.posted)
  pub runs : MaybeWhole (c.running)

pub fed_last-ArePieces :
    (pieces more : List (List ℕ × Bool))
    → ArePieces pieces
    → ArePieces more
    → ArePieces (pieces ++ more)
fed_last-ArePieces [] more h k = k
fed_last-ArePieces ((p, true) ∷ pieces) more (h, hs) k = (h, fed_last-ArePieces pieces more hs k)
fed_last-ArePieces ((p, false) ∷ pieces) more (h, hs) k = (h, fed_last-ArePieces pieces more hs k)

pub posted_last-AllWhole :
    (jobs : List Job) (job : Option Job)
    → AllWhole jobs
    → MaybeWhole job
    → AllWhole (jobs ++ maybe [] (λ j. j ∷ []) job)
posted_last-AllWhole [] none h k = tt
posted_last-AllWhole [] (some j) h k = (k, tt)
posted_last-AllWhole (j ∷ jobs) job (h, hs) k = (h, posted_last-AllWhole jobs job hs k)

-- What a handler keeps is a step at most, and what it posts is whole.
abbrev pub Sound : FunasrMessage × Option Job → Type 0
Sound r = (length (r.0.samples) ≤ step_size) × MaybeWhole (r.1)

post-Sound :
    (audio : List ℕ) (final : Bool) (m : FunasrMessage)
    → length (m.samples) ≤ step_size
    → (final ≡ true) ⊎ ((k : ℕ) × (length audio ≡ k * step_size))
    → Sound (post audio final m)
post-Sound audio final m h w =
    if_cases Sound (m.is_eof) (λ e. (h, tt))
      (λ e. maybe_cases Sound (m.hotwords_embedding) (λ k. (h, tt)) (λ embedding k. (h, w)))

abbrev SoundMoved : FunasrMessage × Option Job → Type 0
SoundMoved r = Sound (moved r)

post_last-Sound : (m : FunasrMessage) → length (m.samples) ≤ step_size → Sound (post_last m)
post_last-Sound m h =
    if_cases SoundMoved (m.is_eof) (λ e. (h, tt))
      (λ e.
        maybe_cases SoundMoved (m.hotwords_embedding) (λ k. (h, tt))
          (λ embedding k. (omega arith, inl refl)))

pub on_binary-Sound :
    (host : Host) (payload : List ℕ) (m : FunasrMessage)
    → host.isonline ≡ true
    → Sound (on_binary host payload m)
unfolding on_binary
on_binary-Sound host payload m online =
    let samples' = m.samples ++ payload in
    let n = length samples' / step_size in
    let size = n * step_size in
    let left = record m { samples = drop size samples' } in
    let whole = record m { samples = samples' } in
    if_cases Sound (host.isonline && ltb step_size (length samples'))
      {x = post (take size samples') false left} {y = (whole, none)}
      (λ h.
        post-Sound (take size samples') false left (omega (arith, length-drop size samples'))
          (inr (n, omega (arith, length-take size samples'))))
      (λ h. (ground arith, tt))

behind_chunk_size-Sound :
    (r : Request) (early : FunasrMessage) (o : Option FunasrMessage)
    → length (early.samples) ≤ step_size
    → SameSamples early o
    → Sound (maybe (early, none) (behind_chunk_size r) o)
behind_chunk_size-Sound r early none h e = (h, tt)
behind_chunk_size-Sound r early (some n) h e =
    let late = record n { settings = last_settings r (n.settings) } in
    let k = subst (λ xs. length xs ≤ step_size) (sym e) h in
    if_cases Sound (is_false (r.is_speaking) || is_true (r.is_finished)) {x = post_last late}
      {y = (late, none)} (λ g. post_last-Sound late k) (λ g. (k, tt))

pub on_text-Sound :
    (host : Host) (handle : ℕ) (request : Option Request) (m : FunasrMessage)
    → length (m.samples) ≤ step_size
    → Sound (on_text host handle request m)
unfolding on_text
on_text-Sound host handle none m h = (h, tt)
on_text-Sound host handle (some r) m h =
    let first = record m { settings = first_settings r (m.settings) } in
    let early = load_hotwords host r first in
    behind_chunk_size-Sound r early (online_handle handle r early)
      (subst (λ xs. length xs ≤ step_size) (sym (load_hotwords-samples host r first)) h)
      (online_handle-SameSamples handle r early)
