-- ===== src/Server/Child/Served.antt =====
-- A service process (`main` of src/server/server.c, after `fork`) whose client uses the connection and
-- then closes it.
use pcsc_proxy_android.Prelude.{ℕ, suc, ◌≤◌, ◌<◌, ◌≡◌, true, some, List, length, arith}
use pcsc_proxy_android.Memory.{Bytes}
use pcsc_proxy_android.Transport.{Reader, Writer, RecvEvent}
use pcsc_proxy_android.Transport.Recv.{Steady}
use pcsc_proxy_android.Transport.Send.{takers}
use pcsc_proxy_android.Sockets.Calls.{Sys}
use pcsc_proxy_android.Server.Pcsc.{Pcsc}
use pcsc_proxy_android.Server.Loop.{nullenc_session, wire, total, Acceptable, Serves, Serves-all}
use pcsc_proxy_android.Server.Child.{Process, ServerTls, exited, set_signal_handler, child}

module _ {P : Type 0} (proc : Process (Reader × Writer)) (sys : Sys (Reader × Writer))
    (tls : ServerTls (Reader × Writer)) (lib : Pcsc P) (stack : ℕ → Bytes) where
  -- A service process that has set up its signal handlers and a session without encryption serves a
  -- client that sends the messages `xs`, each of an acceptable length and each with an answer by
  -- `Serves`, and closes. It ends with status 3, in `length xs + 1` rounds of `pp_handleConnection`:
  -- there is one read for each byte and one for the end, and as many writes that take something as
  -- there are bytes to answer with.
  pub child-exits :
      (k k1 : Reader × Writer) (sk s context q : ℕ) (p p' : P) (xs ys : List Bytes)
      (es : List RecvEvent) (w : Writer)
      → set_signal_handler proc (sys.close k sk) ≡ (k1, true)
      → tls.init_server_session k1 context s
        ≡ ((record { inbound = wire xs; events = es }, w), some q)
      → tls.session q ≡ nullenc_session
      → Serves lib stack p xs ys p'
      → Acceptable xs
      → Steady es
      → total xs < length es
      → total ys ≤ takers w.events
      → child proc sys tls lib (suc (length xs)) sk s context k p stack ≡ exited 3
  unfolding child
  child-exits k k1 sk s context q p p' xs ys es w handlers session plain sv ok steady a b =
      let r = Serves-all lib stack p p' xs ys es w sv ok steady a b in
      ground (arith, handlers, session, plain, r.1, r.2)
