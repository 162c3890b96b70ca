-- ===== src/Server/Careful.antt =====
-- What the handlers of a message leave as it is (`on_message` in
-- websocket/bin/websocket-server-2pass.cpp).
use asr_2pass.Prelude.{
  ℕ, suc, ◌+◌, ◌*◌, ◌/◌, ◌≡◌, refl, ap, ◌∙◌, sym, Bool, true, false, ◌&&◌, ◌||◌, List, ◌++◌, length,
  Option, none, some, maybe, arith, if_cases, maybe_cases, ltb, take, drop,
}
use asr_2pass.Server.{
  FunasrMessage, Job, Request, Host, on_text, on_binary, post, post_last, load_hotwords,
  online_handle, good_chunk_size, first_settings, last_settings, is_true, is_false, step_size,
}
use asr_2pass.Server.Cases.{behind_chunk_size, moved}

abbrev pub is_there {ℓ} : {A : Type ℓ} → Option A → Bool
is_there = maybe false (λ a. true)

abbrev pub count {ℓ} : {A : Type ℓ} → Option A → ℕ
count = maybe 0 (λ a. 1)

-- What a handler may do: it leaves a closed connection closed and posts nothing there, counts the job
-- that it posts, and does not drop the handle of the engine.
pub record Careful (m : FunasrMessage) (r : FunasrMessage × Option Job) : Type 0 where
  pub closed : m.is_eof ≡ true → (r.0.is_eof ≡ true) × (count (r.1) ≡ 0)
  pub counted : r.0.access_num ≡ m.access_num + count (r.1)
  pub attached : is_there (m.tpass_online_handle) ≡ true → is_there (r.0.tpass_online_handle) ≡ true

-- A message that is as careful as another one, with its job.
abbrev Like : FunasrMessage → FunasrMessage → Type 0
Like m n =
    (m.is_eof ≡ n.is_eof)
    × (m.access_num ≡ n.access_num)
    × (is_there (m.tpass_online_handle) ≡ true → is_there (n.tpass_online_handle) ≡ true)

Careful-Like :
    (m n : FunasrMessage) (r : FunasrMessage × Option Job) → Like m n → Careful n r → Careful m r
Careful-Like m n r (e, a, t) h = record {
  closed = λ x. h.closed (sym e ∙ x);
  counted = h.counted ∙ ap (λ k. k + count (r.1)) (sym a);
  attached = λ x. h.attached (t x);
}

nothing_posted : (m n : FunasrMessage) → Like m n → Careful m (n, none)
nothing_posted m n (e, a, t) = record {
  closed = λ x. (sym e ∙ x, refl);
  counted = sym a ∙ omega arith;
  attached = t;
}

posted_one :
    (m n : FunasrMessage) (job : Job)
    → m.is_eof ≡ false
    → n.access_num ≡ suc (m.access_num)
    → (is_there (m.tpass_online_handle) ≡ true → is_there (n.tpass_online_handle) ≡ true)
    → Careful m (n, some job)
posted_one m n job e a t = record {
  closed = λ x. absurd (cc);
  counted = a ∙ omega arith;
  attached = t;
}

post-Careful : (audio : List ℕ) (final : Bool) (m : FunasrMessage) → Careful m (post audio final m)
post-Careful audio final m =
    if_cases (Careful m) (m.is_eof) (λ e. nothing_posted m m (refl, refl, λ x. x))
      (λ e.
        maybe_cases (Careful m) (m.hotwords_embedding)
          (λ h. nothing_posted m m (refl, refl, λ x. x))
          (λ embedding h. posted_one m _ _ e refl (λ x. x)))

moved_out : (m : FunasrMessage) (r : FunasrMessage × Option Job) → Careful m r → Careful m (moved r)
moved_out m (n, none) h = h
moved_out m (n, some j) h = record { closed = h.closed; counted = h.counted; attached = h.attached }

post_last-Careful : (m : FunasrMessage) → Careful m (post_last m)
post_last-Careful m = moved_out m (post (m.samples) true m) (post-Careful (m.samples) true m)

load_hotwords-Like :
    (host : Host) (r : Request) (m : FunasrMessage) → Like m (load_hotwords host r m)
load_hotwords-Like host r m =
    maybe_cases (Like m) (m.hotwords_embedding) (λ h. (refl, refl, λ x. x))
      (λ a h. (refl, refl, λ x. x))

abbrev LikeSome : FunasrMessage → Option FunasrMessage → Type 0
LikeSome m = maybe (Unit {0}) (Like m)

online_handle-Like :
    (handle : ℕ) (r : Request) (m : FunasrMessage) → LikeSome m (online_handle handle r m)
online_handle-Like handle r m =
    maybe_cases (LikeSome m) (r.chunk_size) (λ h. (refl, refl, λ x. x))
      (λ size h.
        maybe_cases (LikeSome m) (m.tpass_online_handle)
          (λ k.
            if_cases (LikeSome m) (good_chunk_size size) (λ g. (refl, refl, λ x. refl)) (λ g. tt))
          (λ a k. (refl, refl, λ x. x)))

pub on_binary-Careful :
    (host : Host) (payload : List ℕ) (m : FunasrMessage) → Careful m (on_binary host payload m)
unfolding on_binary
on_binary-Careful host payload m =
    let samples' = m.samples ++ payload in
    let size = length samples' / step_size * step_size in
    let left = record m { samples = drop size samples' } in
    let whole = record m { samples = samples' } in
    if_cases (Careful m) (host.isonline && ltb step_size (length samples'))
      {x = post (take size samples') false left} {y = (whole, none)}
      (λ h.
        Careful-Like m left _ (refl, refl, λ x. x) (post-Careful (take size samples') false left))
      (λ h. nothing_posted m whole (refl, refl, λ x. x))

behind_chunk_size-Careful :
    (r : Request) (m n : FunasrMessage) → Like m n → Careful m (behind_chunk_size r n)
behind_chunk_size-Careful r m n like =
    let late = record n { settings = last_settings r (n.settings) } in
    Careful-Like m n _ like (
      if_cases (Careful n) (is_false (r.is_speaking) || is_true (r.is_finished))
        {x = post_last late} {y = (late, none)}
        (λ h. Careful-Like n late _ (refl, refl, λ x. x) (post_last-Careful late))
        (λ h. nothing_posted n late (refl, refl, λ x. x)))

on_chunk_size :
    (r : Request) (m early : FunasrMessage) (o : Option FunasrMessage)
    → Like m early
    → LikeSome early o
    → Careful m (maybe (early, none) (behind_chunk_size r) o)
on_chunk_size r m early none like some_like = nothing_posted m early like
on_chunk_size r m early (some n) (e, a, t) (e', a', t') =
    behind_chunk_size-Careful r m n (e ∙ e', a ∙ a', λ x. t' (t x))

pub on_text-Careful :
    (host : Host) (handle : ℕ) (request : Option Request) (m : FunasrMessage)
    → Careful m (on_text host handle request m)
unfolding on_text
on_text-Careful host handle none m = record {
  closed = λ x. (refl, refl);
  counted = omega arith;
  attached = λ x. x;
}
on_text-Careful host handle (some r) m =
    let begun = record m { settings = first_settings r (m.settings) } in
    let early = load_hotwords host r begun in
    on_chunk_size r m early (online_handle handle r early) (load_hotwords-Like host r begun)
      (online_handle-Like handle r early)
