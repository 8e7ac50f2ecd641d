-- ===== src/Transport/Send.antt =====
-- What a send function puts on the stream, however the calls take the bytes.
use mathlib.Core.List.{append-nil, append_assoc}
use pcsc_proxy_android.Prelude.{
  ℕ, zero, suc, ◌+◌, ◌-◌, ◌≤◌, ◌≡◌, refl, ap, sym, ◌∙◌, List, [], ◌∷◌, ◌++◌, arith, min, ne→==,
}
use pcsc_proxy_android.Memory.{Bytes, load32, load_bytes}
use pcsc_proxy_android.Memory.Laws.{load_bytes-add}
use pcsc_proxy_android.Message.Layout.{header_len}
use pcsc_proxy_android.Transport.{
  SendEvent, accepts, again, refused, Writer, Sent, sent, send_loop, nullenc_tls_send,
}

-- The loop has sent `j` of the `left` bytes at `p`, in order, and all of them if it says so.
pub record SentPrefix (left p : ℕ) (m : Bytes) (out : List ℕ) (s : Sent) : Type 0 where
  pub count : ℕ
  pub within : count ≤ left
  pub stream : s.writer.outbound ≡ out ++ load_bytes m p count
  pub complete : s.status ≡ sent → count ≡ left

SentPrefix-none :
    (left p : ℕ) (m : Bytes) (out : List ℕ) (s : Sent)
    → s.writer.outbound ≡ out
    → (s.status ≡ sent → 0 ≡ left)
    → SentPrefix left p m out s
SentPrefix-none left p m out s e c = record {
  count = 0;
  within = omega arith;
  stream = e ∙ sym (append-nil out);
  complete = c;
}

SentPrefix-cons :
    (left c p : ℕ) (m : Bytes) (out : List ℕ) (s : Sent)
    → c ≤ left
    → SentPrefix (left - c) (p + c) m (out ++ load_bytes m p c) s
    → SentPrefix left p m out s
SentPrefix-cons left c p m out s h t = record {
  count = c + t.count;
  within = omega (arith, t.within);
  stream =
      t.stream
      ∙ append_assoc out (load_bytes m p c) (load_bytes m (p + c) t.count)
      ∙ ap (◌++◌ out) (sym (load_bytes-add m p c t.count));
  complete = λ e. omega (arith, t.complete e);
}

send_loop-SentPrefix :
    (es : List SendEvent) (left p : ℕ) (m : Bytes) (out : List ℕ)
    → SentPrefix left p m out (send_loop es left p m out)
unfolding send_loop
send_loop-SentPrefix [] zero p m out = SentPrefix-none 0 p m out _ refl (λ e. refl)
send_loop-SentPrefix (accepts k ∷ es) zero p m out = SentPrefix-none 0 p m out _ refl (λ e. refl)
send_loop-SentPrefix (again ∷ es) zero p m out = SentPrefix-none 0 p m out _ refl (λ e. refl)
send_loop-SentPrefix (refused ∷ es) zero p m out = SentPrefix-none 0 p m out _ refl (λ e. refl)
send_loop-SentPrefix [] (suc left) p m out =
    rw (ne→== (suc left) 0 (omega arith)) (SentPrefix-none (suc left) p m out _ refl (λ e. cc))
send_loop-SentPrefix (accepts k ∷ es) (suc left) p m out =
    rw (ne→== (suc left) 0 (omega arith), send_loop)
      (SentPrefix-cons (suc left) (min (suc left) k) p m out _ (omega arith) (
        send_loop-SentPrefix es (suc left - min (suc left) k) (p + min (suc left) k) m
          (out ++ load_bytes m p (min (suc left) k))))
send_loop-SentPrefix (again ∷ es) (suc left) p m out =
    rw (ne→== (suc left) 0 (omega arith), send_loop) (send_loop-SentPrefix es (suc left) p m out)
send_loop-SentPrefix (refused ∷ es) (suc left) p m out =
    rw (ne→== (suc left) 0 (omega arith), send_loop)
      (SentPrefix-none (suc left) p m out _ refl (λ e. cc))

-- Whatever the calls answer, the stream is extended by the first bytes of the message in order, and
-- by all the bytes that the header counts if the function reports success.
pub send-SentPrefix :
    (w : Writer) (m : Bytes)
    → SentPrefix (load32 m header_len) 0 m w.outbound (nullenc_tls_send w m)
unfolding nullenc_tls_send
send-SentPrefix w m = send_loop-SentPrefix w.events (load32 m header_len) 0 m w.outbound

-- how many calls take at least one byte before one fails
abbrev pub takers : List SendEvent → ℕ
takers [] = 0
takers (accepts zero ∷ es) = takers es
takers (accepts (suc k) ∷ es) = suc (takers es)
takers (again ∷ es) = takers es
takers (refused ∷ es) = 0

send_loop-sent :
    (es : List SendEvent) (left p : ℕ) (m : Bytes) (out : List ℕ)
    → left ≤ takers es
    → (send_loop es left p m out).status ≡ sent
unfolding send_loop
send_loop-sent [] zero p m out h = refl
send_loop-sent (accepts k ∷ es) zero p m out h = refl
send_loop-sent (again ∷ es) zero p m out h = refl
send_loop-sent (refused ∷ es) zero p m out h = refl
send_loop-sent [] (suc left) p m out h = absurd (omega arith)
send_loop-sent (accepts zero ∷ es) (suc left) p m out h =
    rw (ne→== (suc left) 0 (omega arith), send_loop)
      (send_loop-sent es (suc left - min (suc left) 0) (p + min (suc left) 0) m _ (omega arith))
send_loop-sent (accepts (suc k) ∷ es) (suc left) p m out h =
    rw (ne→== (suc left) 0 (omega arith), send_loop)
      (send_loop-sent es (suc left - min (suc left) (suc k)) (p + min (suc left) (suc k)) m _
        (omega arith))
send_loop-sent (again ∷ es) (suc left) p m out h =
    rw (ne→== (suc left) 0 (omega arith), send_loop) (send_loop-sent es (suc left) p m out h)
send_loop-sent (refused ∷ es) (suc left) p m out h = absurd (omega arith)

-- With as many calls that take something as there are bytes, the whole message is sent: partial
-- writes, writes of nothing and interruptions do no harm.
pub send_whole :
    (w : Writer) (m : Bytes)
    → load32 m header_len ≤ takers w.events
    → ((nullenc_tls_send w m).status ≡ sent)
      × ((nullenc_tls_send w m).writer.outbound
          ≡ w.outbound ++ load_bytes m 0 (load32 m header_len))
unfolding nullenc_tls_send
send_whole w m h =
    let done = send_loop-sent w.events (load32 m header_len) 0 m w.outbound h in
    let s = send_loop-SentPrefix w.events (load32 m header_len) 0 m w.outbound in
    (done, s.stream ∙ ap (λ k. w.outbound ++ load_bytes m 0 k) (s.complete done))

-- A send uses up at most as many calls as it has bytes.
send_loop-takers :
    (es : List SendEvent) (left p : ℕ) (m : Bytes) (out : List ℕ)
    → takers es ≤ takers (send_loop es left p m out).writer.events + left
unfolding send_loop
send_loop-takers [] zero p m out = omega arith
send_loop-takers (accepts k ∷ es) zero p m out = omega arith
send_loop-takers (again ∷ es) zero p m out = omega arith
send_loop-takers (refused ∷ es) zero p m out = omega arith
send_loop-takers [] (suc left) p m out = omega arith
send_loop-takers (accepts zero ∷ es) (suc left) p m out =
    rw (ne→== (suc left) 0 (omega arith), send_loop)
      (omega (
        arith,
        send_loop-takers es (suc left - min (suc left) 0) (p + min (suc left) 0) m
            (out ++ load_bytes m p (min (suc left) 0)),
      ))
send_loop-takers (accepts (suc k) ∷ es) (suc left) p m out =
    rw (ne→== (suc left) 0 (omega arith), send_loop)
      (omega (
        arith,
        send_loop-takers es (suc left - min (suc left) (suc k)) (p + min (suc left) (suc k)) m
            (out ++ load_bytes m p (min (suc left) (suc k))),
      ))
send_loop-takers (again ∷ es) (suc left) p m out =
    rw (ne→== (suc left) 0 (omega arith), send_loop)
      (omega (arith, send_loop-takers es (suc left) p m out))
send_loop-takers (refused ∷ es) (suc left) p m out = omega arith

pub takers-send :
    (w : Writer) (m : Bytes)
    → takers w.events ≤ takers (nullenc_tls_send w m).writer.events + load32 m header_len
unfolding nullenc_tls_send
takers-send w m = send_loop-takers w.events (load32 m header_len) 0 m w.outbound
