-- ===== src/Transport/Recv.antt =====
-- What a receive function does with the bytes of the stream, however the calls deliver them.
use pcsc_proxy_android.Prelude.{
  ℕ, suc, ◌+◌, ◌-◌, ◌≤◌, ◌<◌, ◌≡◌, refl, ap, sym, ◌∙◌, Bool, true, false, List, [], ◌∷◌, ◌++◌,
  arith, length, take, drop, min, length-append, length-take, length-drop, take-append, drop-append,
  take-append-drop, take-length, drop-length, le→leb, lt→leb,
}
use mathlib.Core.Path.{subst}
use mathlib.Core.List.{append_assoc}
use native.Mathlib.Nat.{add-zero}
use pcsc_proxy_android.Memory.{Bytes, load32, store_bytes, load_bytes}
use pcsc_proxy_android.Memory.Laws.{
  load32_eq, store_bytes-load_bytes, load_bytes-add, length-load_bytes, store_bytes-nil,
  store_bytes-append,
}
use pcsc_proxy_android.Message.Layout.{max_message_len, header_len}
use pcsc_proxy_android.Transport.{
  RecvEvent, arrives, interrupted, broken, Fill, filled, fill, stop, give, received, disconnected,
  nullenc_tls_recv, Received, after_header, after_payload,
}

-- No call fails or is interrupted.
abbrev pub Steady : List RecvEvent → Type 0
Steady [] = Unit {0}
Steady (arrives k ∷ es) = Steady es
Steady (interrupted ∷ es) = ⊥
Steady (broken ∷ es) = ⊥

-- The loop has taken exactly `xs` from the stream and put it at `n`.
pub record Took (es : List RecvEvent) (n : ℕ) (m : Bytes) (xs rest : List ℕ) (f : Fill)
    : Type 0 where
  pub done : f.progress ≡ filled
  pub left : f.reader.inbound ≡ rest
  pub counted : f.count ≡ n + length xs
  pub copied : f.memory ≡ store_bytes m n xs
  pub steady : Steady f.reader.events
  pub calls : length es ≤ length f.reader.events + length xs

-- Past its target the loop stops at once.
pub fill_stops :
    (retry : Bool) (target n : ℕ) (es : List RecvEvent) (inb : List ℕ) (m : Bytes)
    → target ≤ n
    → fill retry target es inb n m ≡ stop filled es inb n m
unfolding fill
fill_stops retry target n [] inb m h = rw (le→leb target n h)
fill_stops retry target n (arrives k ∷ es) inb m h = rw (le→leb target n h, fill)
fill_stops retry target n (interrupted ∷ es) inb m h = rw (le→leb target n h, fill)
fill_stops retry target n (broken ∷ es) inb m h = rw (le→leb target n h, fill)

-- One round in which bytes arrive.
fill_takes :
    (retry : Bool) (target n k : ℕ) (es : List RecvEvent) (b : ℕ) (bs : List ℕ) (m : Bytes)
    → n < target
    → let chunk = take (min (target - n) (suc k)) (b ∷ bs) in
      fill retry target (arrives k ∷ es) (b ∷ bs) n m
      ≡ fill retry target es
          (drop (length chunk) (b ∷ bs))
          (n + length chunk)
          (store_bytes m n chunk)
unfolding fill
fill_takes retry target n k es b bs m h = rw (lt→leb target n h, fill)

fill-nothing :
    (retry : Bool) (n : ℕ) (es : List RecvEvent) (rest : List ℕ) (m : Bytes)
    → Steady es
    → Took es n m [] rest (fill retry n es rest n m)
fill-nothing retry n es rest m s = rw (fill_stops retry n n es rest m (omega arith)) record {
  done = refl;
  left = refl;
  counted = omega arith;
  copied = sym (store_bytes-nil m n);
  steady = s;
  calls = omega arith;
}

-- A round takes `ys`, and the later rounds take `zs`.
Took-cons :
    (k : ℕ) (es : List RecvEvent) (n : ℕ) (m : Bytes) (ys zs rest : List ℕ) (f : Fill)
    → 1 ≤ length ys
    → Took es (n + length ys) (store_bytes m n ys) zs rest f
    → Took (arrives k ∷ es) n m (ys ++ zs) rest f
Took-cons k es n m ys zs rest f h t = record {
  done = t.done;
  left = t.left;
  counted = omega (arith, t.counted, length-append ys zs);
  copied = t.copied ∙ sym (store_bytes-append m n ys zs);
  steady = t.steady;
  calls = omega (arith, t.calls, length-append ys zs);
}

-- The chunk of a round is `ys` when the stream begins with it and the call may move that many.
fill_round :
    (retry : Bool) (k : ℕ) (es : List RecvEvent) (ys zs rest : List ℕ) (n target : ℕ) (m : Bytes)
    → 1 ≤ length ys
    → length ys ≡ min (target - n) (suc k)
    → target ≡ n + length ys + length zs
    → fill retry target (arrives k ∷ es) (ys ++ (zs ++ rest)) n m
      ≡ fill retry (n + length ys + length zs) es (zs ++ rest) (n + length ys) (store_bytes m n ys)
fill_round retry k es [] zs rest n target m h c e = absurd (omega arith)
fill_round retry k es (y ∷ ys) zs rest n target m h c e =
    fill_takes retry target n k es y (ys ++ (zs ++ rest)) m (omega arith)
    ∙ (λ i. fill retry (e i) es (after i) (n + length (chunk i)) (store_bytes m n (chunk i)))
  where
    chunk : take (min (target - n) (suc k)) ((y ∷ ys) ++ (zs ++ rest)) ≡ y ∷ ys
    chunk =
        ap (λ j. take j ((y ∷ ys) ++ (zs ++ rest))) (sym c)
        ∙ take-append (length (y ∷ ys)) (y ∷ ys) (zs ++ rest) (omega arith)
        ∙ take-length (y ∷ ys)

    after :
        drop
          (length (take (min (target - n) (suc k)) ((y ∷ ys) ++ (zs ++ rest))))
          ((y ∷ ys) ++ (zs ++ rest))
        ≡ zs ++ rest
    after =
        ap (λ l. drop (length l) ((y ∷ ys) ++ (zs ++ rest))) chunk
        ∙ drop-append (length (y ∷ ys)) (y ∷ ys) (zs ++ rest) (omega arith)
        ∙ ap (λ l. l ++ (zs ++ rest)) (drop-length (y ∷ ys))

-- However the calls split the bytes, as many calls as there are bytes are enough, and the loop takes
-- just the bytes that it asked for.
pub fill-Took :
    (retry : Bool) (es : List RecvEvent) (xs rest : List ℕ) (n : ℕ) (m : Bytes)
    → Steady es
    → length xs ≤ length es
    → Took es n m xs rest (fill retry (n + length xs) es (xs ++ rest) n m)
fill-Took retry es [] rest n m s h = rw add-zero (fill-nothing retry n es rest m s)
fill-Took retry [] (x ∷ xs) rest n m s h = absurd (omega arith)
fill-Took retry (interrupted ∷ es) (x ∷ xs) rest n m s h = absurd s
fill-Took retry (broken ∷ es) (x ∷ xs) rest n m s h = absurd s
fill-Took retry (arrives k ∷ es) (x ∷ xs) rest n m s h =
    subst
      (λ l.
        Took (arrives k ∷ es) n m l rest
          (fill retry (n + length l) (arrives k ∷ es) (l ++ rest) n m))
      (take-append-drop c (x ∷ xs))
      (rw
        (
          append_assoc ys zs rest,
          fill_round retry k es ys zs rest n (n + length (ys ++ zs)) m (omega (arith, size))
              (omega (arith, size, length-append ys zs, length-drop c (x ∷ xs)))
              (omega (arith, length-append ys zs)),
        )
        (Took-cons k es n m ys zs rest _ (omega (arith, size)) (
          fill-Took retry es zs rest (n + length ys) (store_bytes m n ys) s
            (omega (arith, size, length-drop c (x ∷ xs))))))
  where
    c : ℕ
    c = min (suc (length xs)) (suc k)

    ys : List ℕ
    ys = take c (x ∷ xs)

    zs : List ℕ
    zs = drop c (x ∷ xs)

    size : length ys ≡ c
    size = omega (arith, length-take c (x ∷ xs))

-- The message at `src`, as long as its header says, arrived in full: the call returned its length,
-- put its bytes at `m`, changed nothing behind them, and left the rest of the stream.
pub record Arrived (src m : Bytes) (rest : List ℕ) (es : List RecvEvent) (r : Received)
    : Type 0 where
  pub returned : r.status ≡ received (load32 src header_len)
  pub stream : r.reader.inbound ≡ rest
  pub stored : r.memory ≡ store_bytes m 0 (load_bytes src 0 (load32 src header_len))
  pub steady : Steady r.reader.events
  pub calls : length es ≤ length r.reader.events + load32 src header_len

-- The header is complete and the length is accepted.
payload_loop :
    (f : Fill) (len : ℕ)
    → f.progress ≡ filled
    → load32 f.memory header_len ≡ len
    → len < max_message_len
    → after_header f
      ≡ after_payload (fill false len f.reader.events f.reader.inbound f.count f.memory)
unfolding after_header
payload_loop f len p e h = rw (p, after_header, e, lt→leb max_message_len len h)

payload_done : (g : Fill) → g.progress ≡ filled → after_payload g ≡ give (received g.count) g
unfolding after_payload
payload_done g p = rw (p, after_payload)

-- The header read first tells the same length as the whole message.
header_copied :
    (src m : Bytes)
    → load32 (store_bytes m 0 (load_bytes src 0 5)) header_len ≡ load32 src header_len
header_copied src m =
    load32_eq _ src header_len
      λ q a b. store_bytes-load_bytes src m 0 5 q (omega arith) (omega arith)

-- A message of an accepted length arrives whole, however the calls split the bytes, if none fails
-- or is interrupted and there are as many as there are bytes: `recv` returns its length, stores
-- its bytes and nothing behind them, and takes nothing of what follows in the stream.
pub recv-Arrived :
    (src m : Bytes) (rest : List ℕ) (es : List RecvEvent)
    → 5 ≤ load32 src header_len
    → load32 src header_len < max_message_len
    → Steady es
    → load32 src header_len ≤ length es
    → Arrived src m rest es (
        nullenc_tls_recv
          (record { inbound = load_bytes src 0 (load32 src header_len) ++ rest; events = es })
          m)
unfolding nullenc_tls_recv
recv-Arrived src m rest es lo hi s h =
    rw (split, append_assoc hdr body rest)
      (finish (fill-Took true es hdr (body ++ rest) 0 m s (omega arith)))
  where
    len : ℕ
    len = load32 src header_len

    hdr : List ℕ
    hdr = load_bytes src 0 5

    body : List ℕ
    body = load_bytes src 5 (len - 5)

    split : load_bytes src 0 len ≡ hdr ++ body
    split =
        ap (load_bytes src 0) (let e : len ≡ 5 + (len - 5) = omega arith in e)
        ∙ load_bytes-add src 0 5 (len - 5)

    both :
        {f g : Fill}
        → Took es 0 m hdr (body ++ rest) f
        → Took f.reader.events 5 f.memory body rest g
        → Arrived src m rest es (after_payload g)
    both {f} {g} t u = rw (payload_done g u.done) record {
      returned = ap received (omega (arith, u.counted, length-load_bytes src 5 (len - 5)));
      stream = u.left;
      stored =
          u.copied
          ∙ ap (λ k. store_bytes k 5 body) t.copied
          ∙ sym (store_bytes-append m 0 hdr body)
          ∙ ap (store_bytes m 0) (sym split);
      steady = u.steady;
      calls = omega (arith, u.calls, t.calls, length-load_bytes src 5 (len - 5));
    }

    finish : {f : Fill} → Took es 0 m hdr (body ++ rest) f → Arrived src m rest es (after_header f)
    finish {f} t =
        rw (payload_loop f len t.done (rw t.copied (header_copied src m)) hi, t.left, t.counted)
          (both t (
            subst
              (λ k.
                Took f.reader.events 5 f.memory body rest
                  (fill false k f.reader.events (body ++ rest) 5 f.memory))
              (let e : 5 + length body ≡ len = omega (arith, length-load_bytes src 5 (len - 5)) in
                e)
              (fill-Took false f.reader.events body rest 5 f.memory t.steady enough)))
      where
        enough : length body ≤ length f.reader.events
        enough = omega (arith, length-load_bytes src 5 (len - 5), t.calls)

-- At the end of the stream, between two messages, `recv` returns 0.
pub recv-disconnected :
    (k : ℕ) (es : List RecvEvent) (m : Bytes)
    → (nullenc_tls_recv (record { inbound = []; events = arrives k ∷ es }) m).status ≡ disconnected
unfolding nullenc_tls_recv
recv-disconnected k es m = refl
