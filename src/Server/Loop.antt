-- ===== src/Server/Loop.antt =====
-- The loop over the messages of one connection.
use pcsc_proxy_android.Prelude.{
  ℕ, zero, suc, ◌+◌, ◌≤◌, ◌<◌, ◌≡◌, refl, sym, ◌∙◌, ap, ◌≢◌, some, List, [], ◌∷◌, ◌++◌, arith,
  length,
}
use mathlib.Core.List.{append_assoc, append-nil}
use pcsc_proxy_android.Memory.{Bytes, load32, store_bytes, load_bytes}
use pcsc_proxy_android.Message.Layout.{max_message_len, header_len}
use pcsc_proxy_android.Transport.{
  Reader, Writer, Received, received, disconnected, sent, RecvEvent, arrives, interrupted, broken,
  nullenc_tls_recv, nullenc_tls_send,
}
use pcsc_proxy_android.Transport.Recv.{Steady, Arrived, recv-Arrived, recv-disconnected}
use pcsc_proxy_android.Transport.Send.{takers, send_whole, takers-send}
use pcsc_proxy_android.Server.Pcsc.{Pcsc}
use pcsc_proxy_android.Server.Dispatch.{
  Session, served, closed, broken, Step, answer, reply, respond, pp_next_msg, pp_handle_connection,
}

module _ {P W : Type 0} (lib : Pcsc P) (s : Session W) where
  -- However long it runs, `pp_handleConnection` is never left with the result 0 of `pp_nextMsg`,
  -- on which `main` would end the child process by `exit(0)`.
  pub pp_handle_connection-ne-served :
      (n : ℕ) (w : W) (p : P) (stack : ℕ → Bytes) (e : Step W P)
      → pp_handle_connection lib s n w p stack ≡ some e
      → e.next ≢ served
  unfolding pp_handle_connection
  pp_handle_connection-ne-served zero w p stack e h = cc
  pp_handle_connection-ne-served (suc n) w p stack e h = ground (
    arith,
    pp_handle_connection-ne-served n (pp_next_msg lib s w p (stack n)).session
        (pp_next_msg lib s w p (stack n)).library stack e,
  )

  pub next_answered :
      (w : W) (p p' : P) (m x y : Bytes) (n : ℕ)
      → (s.recv w m).2 ≡ received n
      → (s.recv w m).1 ≡ x
      → answer lib p x ≡ some (p', y)
      → (s.send (s.recv w m).0 y).1 ≡ sent
      → pp_next_msg lib s w p m
        ≡ record { session = (s.send (s.recv w m).0 y).0; library = p'; next = served }
  unfolding pp_next_msg respond reply
  next_answered w p p' m x y n r e a d =
      rw (r, pp_next_msg) (rw e (rw (a, respond) (rw (d, reply))))

  next_closed :
      (w : W) (p : P) (m : Bytes)
      → (s.recv w m).2 ≡ disconnected
      → pp_next_msg lib s w p m ≡ record { session = (s.recv w m).0; library = p; next = closed }
  unfolding pp_next_msg
  next_closed w p m r = rw (r, pp_next_msg)

  loop_served :
      (n : ℕ) (w w' : W) (p p' : P) (stack : ℕ → Bytes)
      → pp_next_msg lib s w p (stack n) ≡ record { session = w'; library = p'; next = served }
      → pp_handle_connection lib s (suc n) w p stack ≡ pp_handle_connection lib s n w' p' stack
  unfolding pp_handle_connection
  loop_served n w w' p p' stack e =
      let nx : (pp_next_msg lib s w p (stack n)).next ≡ served = ap (λ z. z.next) e in
      rw (nx, pp_handle_connection)
        (ap (λ z. pp_handle_connection lib s n (z.session) (z.library) stack) e)

  loop_closed :
      (n : ℕ) (w w' : W) (p p' : P) (stack : ℕ → Bytes)
      → pp_next_msg lib s w p (stack n) ≡ record { session = w'; library = p'; next = closed }
      → pp_handle_connection lib s (suc n) w p stack
        ≡ some (record { session = w'; library = p'; next = closed })
  unfolding pp_handle_connection
  loop_closed n w w' p p' stack e =
      let nx : (pp_next_msg lib s w p (stack n)).next ≡ closed = ap (λ z. z.next) e in
      rw (nx, pp_handle_connection) (ap some e)

-- A session over a socket, as src/common/nullenc.c makes it.
abbrev pub nullenc_session : Session (Reader × Writer)
nullenc_session = record {
  recv = λ w m. let r = nullenc_tls_recv w.0 m in ((r.reader, w.1), r.memory, r.status);
  send = λ w m. let t = nullenc_tls_send w.1 m in ((w.0, t.writer), t.status);
}

abbrev pub msg_len : Bytes → ℕ
msg_len m = load32 m header_len

-- the stream of some messages
abbrev pub wire : List Bytes → List ℕ
wire [] = []
wire (x ∷ xs) = load_bytes x 0 (msg_len x) ++ wire xs

abbrev pub total : List Bytes → ℕ
total [] = 0
total (x ∷ xs) = msg_len x + total xs

abbrev pub Acceptable : List Bytes → Type 0
Acceptable [] = Unit {0}
Acceptable (x ∷ xs) = (5 ≤ msg_len x) × (msg_len x < max_message_len) × Acceptable xs

-- the message buffer, once the message `x` has arrived in it
abbrev pub arrived : Bytes → Bytes → Bytes
arrived stack x = store_bytes stack 0 (load_bytes x 0 (msg_len x))

-- The specification of a connection: the requests are answered one after the other, each by the
-- handler of its type, on the state of the library that the ones before left.
pub data Serves {P : Type 0} (lib : Pcsc P) (stack : ℕ → Bytes)
    : P → List Bytes → List Bytes → P → Type 0 where
  finished : (p : P) → Serves lib stack p [] [] p
  request :
      {p p' p'' : P} {x y : Bytes} {xs ys : List Bytes}
      → answer lib p (arrived (stack (suc (length xs))) x) ≡ some (p', y)
      → Serves lib stack p' xs ys p''
      → Serves lib stack p (x ∷ xs) (y ∷ ys) p''

module _ {P : Type 0} (lib : Pcsc P) (stack : ℕ → Bytes) where
  -- A whole connection over sockets: a client sends the messages `xs`, each of an acceptable length,
  -- and closes; `Serves` gives the answers `ys` that the handlers make of them one after the other.
  -- With one read for each byte and one for the end of the stream, however many bytes each brings, and
  -- as many writes that take something as there are bytes to answer with, `pp_handleConnection` stops
  -- after `length xs + 1` rounds with the connection closed, has sent exactly the answers in order,
  -- and leaves the library in the state that `Serves` gives.
  pub Serves-all :
      (p p' : P) (xs ys : List Bytes) (es : List RecvEvent) (w : Writer)
      → Serves lib stack p xs ys p'
      → Acceptable xs
      → Steady es
      → total xs < length es
      → total ys ≤ takers w.events
      → (e : Step (Reader × Writer) P) × (pp_handle_connection lib nullenc_session
            (suc (length xs))
            (record { inbound = wire xs; events = es }, w)
            p
            stack
          ≡ some e)
        × (e.next ≡ closed)
        × (e.library ≡ p')
        × (e.session.1.outbound ≡ w.outbound ++ wire ys)
  Serves-all p p' [] ys [] w sv ok s a b = absurd (omega arith)
  Serves-all p p' [] ys (interrupted ∷ es) w sv ok s a b = absurd s
  Serves-all p p' [] ys (broken ∷ es) w sv ok s a b = absurd s
  Serves-all p p' [] ys (arrives k ∷ es) w (finished _) ok s a b = (
    record {
      session =
          (nullenc_session.recv (record { inbound = []; events = arrives k ∷ es }, w) (stack 0)).0;
      library = p;
      next = closed;
    },
    loop_closed lib nullenc_session 0 _ _ p p stack
        (next_closed lib nullenc_session _ p (stack 0) (recv-disconnected k es (stack 0))),
    refl,
    refl,
    sym (append-nil w.outbound),
  )
  Serves-all p p' (x ∷ xs) [] es w sv ok s a b = elim sv [ ]
  Serves-all p p' (x ∷ xs) (y ∷ ys) es w (request {p' = p1} e sv) ok s a b =
      let more =
        Serves-all p1 p' xs ys r.reader.events (nullenc_tls_send w y).writer sv ok.2 arr.steady
          (omega (arith, arr.calls)) (omega (arith, takers-send w y)) in
      (
        more.0,
        loop_served lib nullenc_session (suc (length xs)) _ _ p p1 stack (
              next_answered lib nullenc_session _ p p1 (stack (suc (length xs)))
                (arrived (stack (suc (length xs))) x) y (msg_len x) arr.returned arr.stored e
                whole.0)
            ∙ ap
                (λ l.
                  pp_handle_connection lib nullenc_session (suc (length xs))
                    (
                      record { inbound = l; events = r.reader.events },
                      (nullenc_tls_send w y).writer,
                    )
                    p1 stack)
                arr.stream
            ∙ more.1,
        more.2,
        more.3,
        more.4
            ∙ ap (λ l. l ++ wire ys) whole.1
            ∙ append_assoc w.outbound (load_bytes y 0 (msg_len y)) (wire ys),
      )
    where
      r : Received
      r =
          nullenc_tls_recv (record { inbound = wire (x ∷ xs); events = es })
            (stack (suc (length xs)))

      arr : Arrived x (stack (suc (length xs))) (wire xs) es r
      arr = recv-Arrived x (stack (suc (length xs))) (wire xs) es ok.0 ok.1 s (omega arith)

      whole :
          ((nullenc_tls_send w y).status ≡ sent)
          × ((nullenc_tls_send w y).writer.outbound ≡ w.outbound ++ load_bytes y 0 (msg_len y))
      whole = send_whole w y (omega arith)
