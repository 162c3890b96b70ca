-- ===== src/Server/Lifetime.antt =====
-- The life of a connection: the counter `access_num` of the jobs, and when the entry of the connection
-- may be removed and its handles freed (`remove_hdl` and `do_decoder` in
-- websocket/bin/websocket-server-2pass.cpp).
use asr_2pass.Prelude.{
  ℕ, suc, ◌+◌, ◌≡◌, refl, ap, ◌∙◌, sym, Bool, true, false, ◌&&◌, if◌then◌else◌, List, [], ◌∷◌, ◌++◌,
  length, length-append, Option, none, some, maybe, arith, ◌==◌, take,
}
use asr_2pass.Server.{FunasrMessage, Job, Host, on_open, on_close, step_size}
use asr_2pass.Server.Connections.{
  Connection, Outcome, throws, no_result, result, new_connection, handled, remove_hdl, start,
  do_decoder, decode_piece, decode_last, feed, send, is_pcm, clear_cache, finish, only_pcm, reply,
}
use asr_2pass.Server.Steps.{
  Step, Reaches, Reaches-kept, enters, text, binary, other_opcode, closes, removes, starts, decodes,
}
use asr_2pass.Server.Cases.{begun, start_cases, do_decoder_cases}
use asr_2pass.Server.Careful.{is_there, count, Careful, on_text-Careful, on_binary-Careful}

-- The counter is the number of the jobs that wait and run; a removed connection is closed and has
-- none; and a job that runs has its handle.
pub record Lifetime (c : Connection) : Type 0 where
  pub counts_jobs : c.message.access_num ≡ length (c.posted) + count (c.running)
  pub gone : c.in_map ≡ false → (c.message.is_eof ≡ true) × (c.message.access_num ≡ 0)
  pub has_handle : is_there (c.running) ≡ true → is_there (c.message.tpass_online_handle) ≡ true

count_posted :
    (a : ℕ) (jobs : List Job) (job : Option Job) (running : ℕ)
    → a ≡ length jobs + running
    → a + count job ≡ length (jobs ++ maybe [] (λ j. j ∷ []) job) + running
count_posted a jobs none running h = omega (arith, length-append jobs [])
count_posted a jobs (some j) running h = omega (arith, length-append jobs (j ∷ []))

handled-Lifetime :
    (c : Connection) (r : FunasrMessage × Option Job) (n : ℕ) (bytes : List ℕ)
    → Careful (c.message) r
    → Lifetime c
    → Lifetime (record (handled r c) { entered = n; received = bytes })
unfolding handled
handled-Lifetime c (m, job) n bytes h l = record {
  counts_jobs =
      h.counted
      ∙ count_posted (c.message.access_num) (c.posted) job (count (c.running)) (l.counts_jobs);
  gone = λ x.
      let (e, a) = l.gone x in
      let (e', none_posted) = h.closed e in (e', h.counted ∙ omega (arith, a, none_posted));
  has_handle = λ x. h.attached (l.has_handle x);
}

none_running {ℓ} : {A : Type ℓ} (n : ℕ) (o : Option A) → n + count o ≡ 0 → ¬ (is_there o ≡ true)
none_running n none h x = absurd (cc)
none_running n (some a) h x = absurd (omega arith)

removed :
    (c : Connection) (b : Bool)
    → (b ≡ true → (c.message.access_num ≡ 0) × (c.message.is_eof ≡ true))
    → Lifetime c
    → Lifetime (
        if b
        then record c {
          message = record (c.message) { decoder_handle = none; tpass_online_handle = none };
          in_map = false;
        }
        else c)
removed c false h l = l
removed c true h l =
    let (a, e) = h refl in
    record {
      counts_jobs = l.counts_jobs;
      gone = λ x. (e, a);
      has_handle =
          λ x. absurd (none_running (length (c.posted)) (c.running) (sym (l.counts_jobs) ∙ a) x);
    }

finish-Lifetime :
    (c : Connection)
    → c.message.access_num ≡ suc (length (c.posted))
    → (c.in_map ≡ false → (c.message.is_eof ≡ true) × (c.message.access_num ≡ 0))
    → Lifetime (finish c)
unfolding finish
finish-Lifetime c a g = record {
  counts_jobs = omega (arith, a);
  gone = λ x. let (e, z) = g x in (e, omega (arith, z));
  has_handle = λ x. absurd (cc);
}

start-Lifetime :
    (c : Connection) (job : Job) (jobs : List Job)
    → c.running ≡ none
    → c.posted ≡ job ∷ jobs
    → Lifetime c
    → Lifetime (start c job jobs)
start-Lifetime c job jobs r p l =
    let a =
      l.counts_jobs
      ∙ ap (λ k. length k + count (c.running)) p
      ∙ ap (λ k. suc (length jobs) + count k) r in
    start_cases Lifetime c job jobs (finish-Lifetime (begun c job jobs) (omega (arith, a)) (l.gone))
      (λ handle h. record {
        counts_jobs = omega (arith, a);
        gone = l.gone;
        has_handle = λ x. ap is_there h;
      })

running_one :
    (c : Connection) (job : Job)
    → c.running ≡ some job
    → Lifetime c
    → c.message.access_num ≡ suc (length (c.posted))
running_one c job r l = omega (arith, l.counts_jobs ∙ ap (λ k. length (c.posted) + count k) r)

decode_piece-Lifetime :
    (outcome : Outcome) (cache : List (List (List ℕ))) (c : Connection) (job : Job)
    → c.running ≡ some job
    → Lifetime c
    → Lifetime (decode_piece outcome cache c job)
unfolding decode_piece
decode_piece-Lifetime throws cache c job r l =
    finish-Lifetime (feed cache (take step_size (job.buffer)) false c) (running_one c job r l)
      (l.gone)
decode_piece-Lifetime no_result cache c job r l = record {
  counts_jobs = l.counts_jobs ∙ ap (λ k. length (c.posted) + count k) r;
  gone = l.gone;
  has_handle = λ x. l.has_handle (ap is_there r);
}
decode_piece-Lifetime (result t) cache c job r l = record {
  counts_jobs = l.counts_jobs ∙ ap (λ k. length (c.posted) + count k) r;
  gone = l.gone;
  has_handle = λ x. l.has_handle (ap is_there r);
}

decode_last-Lifetime :
    (outcome : Outcome) (cache : List (List (List ℕ))) (c : Connection) (job : Job)
    → c.running ≡ some job
    → Lifetime c
    → Lifetime (decode_last outcome cache c job)
unfolding decode_last
decode_last-Lifetime throws cache c job r l =
    finish-Lifetime (feed cache (job.buffer) true c) (running_one c job r l) (l.gone)
decode_last-Lifetime no_result cache c job r l =
    finish-Lifetime
      (send (if is_pcm (job.job_settings.wav_format) then [] else only_pcm ∷ [])
        (clear_cache (feed cache (job.buffer) true c)))
      (running_one c job r l) (l.gone)
decode_last-Lifetime (result t) cache c job r l =
    finish-Lifetime (send (reply t true ∷ []) (clear_cache (feed cache (job.buffer) true c)))
      (running_one c job r l) (l.gone)

do_decoder-Lifetime :
    (outcome : Outcome) (cache : List (List (List ℕ))) (c : Connection) (job : Job)
    → c.running ≡ some job
    → Lifetime c
    → Lifetime (do_decoder outcome cache c job)
do_decoder-Lifetime outcome cache c job r l =
    do_decoder_cases Lifetime outcome cache c job
      (finish-Lifetime c (running_one c job r l) (l.gone))
      (λ h. decode_piece-Lifetime outcome cache c job r l)
      (λ h g. decode_last-Lifetime outcome cache c job r l)

idle_and_closed : (n : ℕ) (b : Bool) → (n == 0 && b) ≡ true → (n ≡ 0) × (b ≡ true)
idle_and_closed n b h = (ground arith, ground arith)

Step-Lifetime : {host : Host} (c d : Connection) → Step host c d → Lifetime c → Lifetime d
unfolding handled on_close remove_hdl
Step-Lifetime c d (enters m e) l = record {
  counts_jobs = l.counts_jobs;
  gone = l.gone;
  has_handle = l.has_handle;
}
Step-Lifetime {host = host} c d (text {n = n} handle request e) l =
    handled-Lifetime c _ n (c.received) (on_text-Careful host handle request (c.message)) l
Step-Lifetime {host = host} c d (binary {n = n} payload e) l =
    handled-Lifetime c _ n (c.received ++ payload) (on_binary-Careful host payload (c.message)) l
Step-Lifetime c d (other_opcode e) l = record {
  counts_jobs = l.counts_jobs;
  gone = l.gone;
  has_handle = l.has_handle;
}
Step-Lifetime c d (closes m) l = record {
  counts_jobs = l.counts_jobs;
  gone = λ x. absurd (cc);
  has_handle = l.has_handle;
}
Step-Lifetime c d (removes m) l =
    removed c (c.message.access_num == 0 && c.message.is_eof) (idle_and_closed _ _) l
Step-Lifetime c d (starts r p) l = start-Lifetime c _ _ r p l
Step-Lifetime c d (decodes outcome cache r) l = do_decoder-Lifetime outcome cache c _ r l

-- In whatever order the handlers, the thread that cleans up and the decoder take the lock, the counter
-- of a connection is the number of its jobs that wait and run, a connection that is removed is closed
-- and has no such job, and a job that runs has a handle: nothing is freed that a job still uses.
pub Reaches-Lifetime : (host : Host) (c : Connection) → Reaches host c → Lifetime c
unfolding new_connection on_open
Reaches-Lifetime host c r =
    Reaches-kept Lifetime
      (record { counts_jobs = refl; gone = λ x. absurd (cc); has_handle = λ x. absurd (cc) })
      (λ c d s l. Step-Lifetime c d s l) r
