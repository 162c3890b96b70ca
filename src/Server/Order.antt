-- ===== src/Server/Order.antt =====
-- The audio of a connection on its way from the messages to the engine
-- (`on_message` and `do_decoder` in websocket/bin/websocket-server-2pass.cpp).
use mathlib.Core.List.{append_assoc, append-nil}
use asr_2pass.Prelude.{
  ℕ, zero, suc, ◌≡◌, refl, ap, ◌∙◌, sym, subst, Bool, true, false, ◌&&◌, List, [], ◌∷◌, ◌++◌,
  Option, none, some, if_cases, ◌==◌, take, drop, take-append-drop,
}
use asr_2pass.Server.{FunasrMessage, Job, Host, on_open, on_close, on_text, on_binary, step_size}
use asr_2pass.Server.Cases.{start_cases, do_decoder_cases}
use asr_2pass.Server.Connections.{
  Connection, Outcome, throws, no_result, result, new_connection, handled, remove_hdl, start,
  do_decoder, decode_piece, decode_last, finish,
}
use asr_2pass.Server.Steps.{
  Step, Reaches, Reaches-kept, enters, text, binary, other_opcode, closes, removes, starts, decodes,
}
use asr_2pass.Server.Subsequence.{Sub, nil, keep, skip, Sub-refl, Sub-trans, Sub-without, Sub-end}
use asr_2pass.Server.Passing.{
  fed_then, posted_then, running_then, audio_of, InOrder, fed_last, posted_last, Sub-fed_then,
  Sub-posted_then, Sub-running_then, fed_end, posted_end, running_end, Passes, on_binary-Passes,
  on_text-Passes,
}

handled-audio_of :
    (c : Connection) (r : FunasrMessage × Option Job) (old : List ℕ) (n : ℕ) (bytes : List ℕ)
    → Passes old r
    → Sub
        (audio_of (record (handled r c) { entered = n; received = bytes }))
        (fed_then (c.fed) (running_then (c.running) (posted_then (c.posted) old)))
unfolding handled
handled-audio_of c (m, job) old n bytes h = Sub-fed_then (c.fed) (
    Sub-running_then (c.running) (
      subst (λ xs. Sub xs (posted_then (c.posted) old))
        (sym (posted_last (c.posted) job (m.samples))) (Sub-posted_then (c.posted) h)))

audio_end :
    (c : Connection) (more : List ℕ)
    → fed_then
        (c.fed)
        (running_then (c.running) (posted_then (c.posted) (c.message.samples ++ more)))
      ≡ audio_of c ++ more
audio_end c more =
    ap (λ xs. fed_then (c.fed) (running_then (c.running) xs))
      (posted_end (c.posted) (c.message.samples) more)
    ∙ ap (fed_then (c.fed)) (running_end (c.running) _ more)
    ∙ fed_end (c.fed) _ more

start-audio_of :
    (c : Connection) (job : Job) (jobs : List Job)
    → c.running ≡ none
    → c.posted ≡ job ∷ jobs
    → Sub (audio_of (start c job jobs)) (audio_of c)
unfolding finish
start-audio_of c job jobs r p =
    let rest = posted_then jobs (c.message.samples) in
    subst (λ xs. Sub (audio_of (start c job jobs)) (fed_then (c.fed) xs))
      (sym (
        ap (λ o. running_then o (posted_then (c.posted) (c.message.samples))) r
        ∙ ap (λ js. posted_then js (c.message.samples)) p))
      (start_cases (λ d. Sub (audio_of d) (fed_then (c.fed) (job.buffer ++ rest))) c job jobs
        (Sub-fed_then (c.fed) (Sub-without (job.buffer) rest))
        (λ handle h. Sub-refl (fed_then (c.fed) (job.buffer ++ rest))))

-- A piece of the job, and what is left of it, behind what was fed.
piece_fed :
    (c : Connection) (piece left old : List ℕ) (final : Bool)
    → Sub (piece ++ left) old
    → Sub
        (fed_then
          (c.fed ++ (piece, final) ∷ [])
          (left ++ posted_then (c.posted) (c.message.samples)))
        (fed_then (c.fed) (old ++ posted_then (c.posted) (c.message.samples)))
piece_fed c piece left old final h =
    let rest = posted_then (c.posted) (c.message.samples) in
    subst (λ xs. Sub xs (fed_then (c.fed) (old ++ rest)))
      (sym (fed_last (c.fed) piece final (left ++ rest)))
      (Sub-fed_then (c.fed)
        (subst (λ xs. Sub xs (old ++ rest)) (append_assoc piece left rest) (Sub-end rest h)))

job_audio :
    (c : Connection) (job : Job)
    → c.running ≡ some job
    → audio_of c ≡ fed_then (c.fed) (job.buffer ++ posted_then (c.posted) (c.message.samples))
job_audio c job r =
    ap (λ o. fed_then (c.fed) (running_then o (posted_then (c.posted) (c.message.samples)))) r

Sub-take : (n : ℕ) (xs : List ℕ) → Sub (take n xs ++ []) xs
Sub-take zero [] = nil
Sub-take zero (x ∷ xs) = skip (Sub-take zero xs)
Sub-take (suc n) [] = nil
Sub-take (suc n) (x ∷ xs) = keep (Sub-take n xs)

whole_job :
    (job : Job) → Sub (take step_size (job.buffer) ++ drop step_size (job.buffer)) (job.buffer)
whole_job job =
    subst (λ xs. Sub xs (job.buffer)) (sym (take-append-drop step_size (job.buffer)))
      (Sub-refl (job.buffer))

all_of : (xs : List ℕ) → Sub (xs ++ []) xs
all_of xs = subst (λ ys. Sub ys xs) (sym (append-nil xs)) (Sub-refl xs)

decode_piece-audio_of :
    (outcome : Outcome) (cache : List (List (List ℕ))) (c : Connection) (job : Job)
    → Sub
        (audio_of (decode_piece outcome cache c job))
        (fed_then (c.fed) (job.buffer ++ posted_then (c.posted) (c.message.samples)))
unfolding decode_piece finish
decode_piece-audio_of throws cache c job =
    piece_fed c (take step_size (job.buffer)) [] (job.buffer) false
      (Sub-take step_size (job.buffer))
decode_piece-audio_of no_result cache c job =
    piece_fed c (take step_size (job.buffer)) (drop step_size (job.buffer)) (job.buffer) false
      (whole_job job)
decode_piece-audio_of (result t) cache c job =
    piece_fed c (take step_size (job.buffer)) (drop step_size (job.buffer)) (job.buffer) false
      (whole_job job)

decode_last-audio_of :
    (outcome : Outcome) (cache : List (List (List ℕ))) (c : Connection) (job : Job)
    → Sub
        (audio_of (decode_last outcome cache c job))
        (fed_then (c.fed) (job.buffer ++ posted_then (c.posted) (c.message.samples)))
unfolding decode_last finish
decode_last-audio_of throws cache c job =
    piece_fed c (job.buffer) [] (job.buffer) true (all_of (job.buffer))
decode_last-audio_of no_result cache c job =
    piece_fed c (job.buffer) [] (job.buffer) true (all_of (job.buffer))
decode_last-audio_of (result t) cache c job =
    piece_fed c (job.buffer) [] (job.buffer) true (all_of (job.buffer))

do_decoder-audio_of :
    (outcome : Outcome) (cache : List (List (List ℕ))) (c : Connection) (job : Job)
    → c.running ≡ some job
    → Sub (audio_of (do_decoder outcome cache c job)) (audio_of c)
unfolding finish
do_decoder-audio_of outcome cache c job r =
    let rest = posted_then (c.posted) (c.message.samples) in
    let old = fed_then (c.fed) (job.buffer ++ rest) in
    subst (Sub (audio_of (do_decoder outcome cache c job))) (sym (job_audio c job r)) (
      do_decoder_cases (λ d. Sub (audio_of d) old) outcome cache c job
        (Sub-fed_then (c.fed) (Sub-without (job.buffer) rest))
        (λ h. decode_piece-audio_of outcome cache c job)
        (λ h g. decode_last-audio_of outcome cache c job))

start-received :
    (c : Connection) (job : Job) (jobs : List Job) → (start c job jobs).received ≡ c.received
unfolding finish
start-received c job jobs =
    start_cases (λ (d : Connection). d.received ≡ c.received) c job jobs refl (λ handle h. refl)

do_decoder-received :
    (outcome : Outcome) (cache : List (List (List ℕ))) (c : Connection) (job : Job)
    → (do_decoder outcome cache c job).received ≡ c.received
unfolding decode_piece decode_last finish
do_decoder-received throws cache c job =
    do_decoder_cases (λ (d : Connection). d.received ≡ c.received) throws cache c job refl
      (λ h. refl) (λ h g. refl)
do_decoder-received no_result cache c job =
    do_decoder_cases (λ (d : Connection). d.received ≡ c.received) no_result cache c job refl
      (λ h. refl) (λ h g. refl)
do_decoder-received (result t) cache c job =
    do_decoder_cases (λ (d : Connection). d.received ≡ c.received) (result t) cache c job refl
      (λ h. refl) (λ h g. refl)

nothing_received :
    (c d : Connection)
    → d.received ≡ c.received
    → Sub (audio_of d) (audio_of c)
    → InOrder c
    → InOrder d
nothing_received c d e t s = subst (Sub (audio_of d)) (sym e) (Sub-trans t s)

Step-InOrder : {host : Host} (c d : Connection) → Step host c d → InOrder c → InOrder d
unfolding handled on_close remove_hdl
Step-InOrder c d (enters m e) s = s
Step-InOrder {host = host} c d (text {n = n} handle request e) s =
    Sub-trans
      (handled-audio_of c (on_text host handle request (c.message)) (c.message.samples) n
        (c.received) (on_text-Passes host handle request (c.message)))
      s
Step-InOrder {host = host} c d (binary {n = n} payload e) s =
    Sub-trans
      (handled-audio_of c (on_binary host payload (c.message)) (c.message.samples ++ payload) n
        (c.received ++ payload) (on_binary-Passes host payload (c.message)))
      (subst (λ xs. Sub xs (c.received ++ payload)) (sym (audio_end c payload)) (Sub-end payload s))
Step-InOrder c d (other_opcode e) s = s
Step-InOrder c d (closes m) s = s
Step-InOrder c d (removes m) s =
    if_cases InOrder (c.message.access_num == 0 && c.message.is_eof) {y = c} (λ h. s) (λ h. s)
Step-InOrder c d (starts {job = job} {jobs = jobs} r p) s =
    nothing_received c d (start-received c job jobs) (start-audio_of c job jobs r p) s
Step-InOrder c d (decodes {job = job} outcome cache r) s =
    nothing_received c d (do_decoder-received outcome cache c job)
      (do_decoder-audio_of outcome cache c job r) s

-- The audio that the engine was called with, then what the running job has left, then the jobs that
-- wait, then the samples that are kept, are of the bytes that the messages brought, in their order and
-- none of them twice.
pub Reaches-InOrder : (host : Host) (c : Connection) → Reaches host c → InOrder c
unfolding new_connection on_open
Reaches-InOrder host c r = Reaches-kept InOrder nil (λ c d s l. Step-InOrder c d s l) r
