-- ===== src/Server/Passing.antt =====
-- The audio of a connection, and what its handlers pass on of it (`on_message` in
-- websocket/bin/websocket-server-2pass.cpp).
use mathlib.Core.List.{append_assoc, append-nil}
use asr_2pass.Prelude.{
  ℕ, ◌*◌, ◌/◌, ◌≡◌, refl, ap, ◌∙◌, sym, subst, Bool, false, ◌&&◌, ◌||◌, List, [], ◌∷◌, ◌++◌, length,
  Option, none, some, maybe, if_cases, maybe_cases, ltb, take, drop, take-append-drop,
}
use asr_2pass.Server.{
  FunasrMessage, Job, Request, Host, on_text, on_binary, post, post_last, load_hotwords,
  online_handle, good_chunk_size, first_settings, last_settings, is_true, is_false, step_size,
}
use asr_2pass.Server.Cases.{behind_chunk_size, moved}
use asr_2pass.Server.Connections.{Connection}
use asr_2pass.Server.Subsequence.{Sub, Sub-refl, Sub-behind, Sub-without}

-- The pieces that the engine was called with, and then the rest.
abbrev pub fed_then : List (List ℕ × Bool) → List ℕ → List ℕ
fed_then [] rest = rest
fed_then ((piece, final) ∷ pieces) rest = piece ++ fed_then pieces rest

-- The audio of the jobs that wait, and then the rest.
abbrev pub posted_then : List Job → List ℕ → List ℕ
posted_then [] rest = rest
posted_then (job ∷ jobs) rest = job.buffer ++ posted_then jobs rest

abbrev pub running_then : Option Job → List ℕ → List ℕ
running_then none rest = rest
running_then (some job) rest = job.buffer ++ rest

-- What was fed, what the running job has left, what waits, and what is kept for the next message.
abbrev pub audio_of : Connection → List ℕ
audio_of c =
    fed_then (c.fed) (running_then (c.running) (posted_then (c.posted) (c.message.samples)))

abbrev pub InOrder : Connection → Type 0
InOrder c = Sub (audio_of c) (c.received)

pub fed_last :
    (pieces : List (List ℕ × Bool)) (piece : List ℕ) (final : Bool) (rest : List ℕ)
    → fed_then (pieces ++ (piece, final) ∷ []) rest ≡ fed_then pieces (piece ++ rest)
fed_last [] piece final rest = refl
fed_last ((p, f) ∷ pieces) piece final rest = ap (λ r. p ++ r) (fed_last pieces piece final rest)

pub posted_last :
    (jobs : List Job) (job : Option Job) (rest : List ℕ)
    → posted_then (jobs ++ maybe [] (λ j. j ∷ []) job) rest
      ≡ posted_then jobs (running_then job rest)
posted_last [] none rest = refl
posted_last [] (some j) rest = refl
posted_last (j ∷ jobs) job rest = ap (λ r. j.buffer ++ r) (posted_last jobs job rest)

pub Sub-fed_then :
    (pieces : List (List ℕ × Bool)) {xs ys : List ℕ}
    → Sub xs ys
    → Sub (fed_then pieces xs) (fed_then pieces ys)
Sub-fed_then [] s = s
Sub-fed_then ((p, f) ∷ pieces) s = Sub-behind p (Sub-fed_then pieces s)

pub Sub-posted_then :
    (jobs : List Job) {xs ys : List ℕ} → Sub xs ys → Sub (posted_then jobs xs) (posted_then jobs ys)
Sub-posted_then [] s = s
Sub-posted_then (j ∷ jobs) s = Sub-behind (j.buffer) (Sub-posted_then jobs s)

pub Sub-running_then :
    (job : Option Job) {xs ys : List ℕ}
    → Sub xs ys
    → Sub (running_then job xs) (running_then job ys)
Sub-running_then none s = s
Sub-running_then (some j) s = Sub-behind (j.buffer) s

pub fed_end :
    (pieces : List (List ℕ × Bool)) (rest more : List ℕ)
    → fed_then pieces (rest ++ more) ≡ fed_then pieces rest ++ more
fed_end [] rest more = refl
fed_end ((p, f) ∷ pieces) rest more =
    ap (λ r. p ++ r) (fed_end pieces rest more) ∙ sym (append_assoc p (fed_then pieces rest) more)

pub posted_end :
    (jobs : List Job) (rest more : List ℕ)
    → posted_then jobs (rest ++ more) ≡ posted_then jobs rest ++ more
posted_end [] rest more = refl
posted_end (j ∷ jobs) rest more =
    ap (λ r. j.buffer ++ r) (posted_end jobs rest more)
    ∙ sym (append_assoc (j.buffer) (posted_then jobs rest) more)

pub running_end :
    (job : Option Job) (rest more : List ℕ)
    → running_then job (rest ++ more) ≡ running_then job rest ++ more
running_end none rest more = refl
running_end (some j) rest more = sym (append_assoc (j.buffer) rest more)

-- What a handler posts and keeps is, in order, of what there was.
abbrev pub Passes : List ℕ → FunasrMessage × Option Job → Type 0
Passes old r = Sub (running_then (r.1) (r.0.samples)) old

post-Passes :
    (audio : List ℕ) (final : Bool) (m : FunasrMessage)
    → Passes (audio ++ m.samples) (post audio final m)
post-Passes audio final m =
    if_cases (Passes (audio ++ m.samples)) (m.is_eof) (λ e. Sub-without audio (m.samples))
      (λ e.
        maybe_cases (Passes (audio ++ m.samples)) (m.hotwords_embedding)
          (λ h. Sub-without audio (m.samples)) (λ embedding h. Sub-refl (audio ++ m.samples)))

abbrev Moved : List ℕ → FunasrMessage × Option Job → Type 0
Moved old r = Passes old (moved r)

post_last-Passes : (m : FunasrMessage) → Passes (m.samples) (post_last m)
post_last-Passes m =
    if_cases (Moved (m.samples)) (m.is_eof) (λ e. Sub-refl (m.samples))
      (λ e.
        maybe_cases (Moved (m.samples)) (m.hotwords_embedding) (λ h. Sub-refl (m.samples))
          (λ embedding h.
            subst (λ xs. Sub xs (m.samples)) (sym (append-nil (m.samples))) (Sub-refl (m.samples))))

pub on_binary-Passes :
    (host : Host) (payload : List ℕ) (m : FunasrMessage)
    → Passes (m.samples ++ payload) (on_binary host payload m)
unfolding on_binary
on_binary-Passes host payload m =
    let samples' = m.samples ++ payload in
    let size = length samples' / step_size * step_size in
    let left = record m { samples = drop size samples' } in
    let whole = record m { samples = samples' } in
    if_cases (Passes samples') (host.isonline && ltb step_size (length samples'))
      {x = post (take size samples') false left} {y = (whole, none)}
      (λ h.
        subst (λ old. Passes old (post (take size samples') false left))
          (take-append-drop size samples') (post-Passes (take size samples') false left))
      (λ h. Sub-refl samples')

-- A text message keeps the samples up to its end.
pub load_hotwords-samples :
    (host : Host) (r : Request) (m : FunasrMessage) → (load_hotwords host r m).samples ≡ m.samples
load_hotwords-samples host r m =
    maybe_cases (λ (n : FunasrMessage). n.samples ≡ m.samples) (m.hotwords_embedding) (λ h. refl)
      (λ a h. refl)

abbrev pub SameSamples : FunasrMessage → Option FunasrMessage → Type 0
SameSamples m = maybe (Unit {0}) (λ n. n.samples ≡ m.samples)

pub online_handle-SameSamples :
    (handle : ℕ) (r : Request) (m : FunasrMessage) → SameSamples m (online_handle handle r m)
online_handle-SameSamples handle r m =
    maybe_cases (SameSamples m) (r.chunk_size) (λ h. refl)
      (λ size h.
        maybe_cases (SameSamples m) (m.tpass_online_handle)
          (λ k. if_cases (SameSamples m) (good_chunk_size size) (λ g. refl) (λ g. tt))
          (λ a k. refl))

behind_chunk_size-Passes :
    (r : Request) (early : FunasrMessage) (o : Option FunasrMessage)
    → SameSamples early o
    → Passes (early.samples) (maybe (early, none) (behind_chunk_size r) o)
behind_chunk_size-Passes r early none h = Sub-refl (early.samples)
behind_chunk_size-Passes r early (some n) h =
    let late = record n { settings = last_settings r (n.settings) } in
    subst (λ old. Passes old (behind_chunk_size r n)) h
      (if_cases (Passes (n.samples)) (is_false (r.is_speaking) || is_true (r.is_finished))
        {x = post_last late} {y = (late, none)} (λ g. post_last-Passes late)
        (λ g. Sub-refl (n.samples)))

pub on_text-Passes :
    (host : Host) (handle : ℕ) (request : Option Request) (m : FunasrMessage)
    → Passes (m.samples) (on_text host handle request m)
unfolding on_text
on_text-Passes host handle none m = Sub-refl (m.samples)
on_text-Passes host handle (some r) m =
    let begun = record m { settings = first_settings r (m.settings) } in
    let early = load_hotwords host r begun in
    subst (λ old. Passes old (on_text host handle (some r) m)) (load_hotwords-samples host r begun)
      (behind_chunk_size-Passes r early (online_handle handle r early)
        (online_handle-SameSamples handle r early))
