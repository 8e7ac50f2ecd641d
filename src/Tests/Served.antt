-- ===== src/Tests/Served.antt =====
-- A service process whose client asks for a context and closes (src/server/server.c).
use pcsc_proxy_android.Prelude.{◌≡◌, refl, true, some, none, [], ◌∷◌, arith}
use pcsc_proxy_android.Memory.{load32}
use pcsc_proxy_android.Transport.{Reader, Writer}
use pcsc_proxy_android.Sockets.Calls.{Sys}
use pcsc_proxy_android.Server.Loop.{nullenc_session, wire, request, finished}
use pcsc_proxy_android.Server.Child.{Process, ServerTls, exited, set_signal_handler, child}
use pcsc_proxy_android.Server.Child.Served.{child-exits}
use pcsc_proxy_android.Tests.Server.{
  counting, asking, asked, answered, answered-len, empty_stack, writer, reads,
}

abbrev connection : Reader × Writer
connection = (record { inbound = wire (asking ∷ []); events = reads }, writer)

abbrev quiet_process : Process (Reader × Writer)
quiet_process = record {
  pipe = λ k. (k, some (8, 9));
  sigaction = λ k g. (k, true);
  unlink = λ k path. k;
  getpid = λ k. 60;
  fopen = λ k path. (k, none);
  print_number = λ k file n. k;
  fclose = λ k file. k;
}

abbrev no_more_sockets : Sys (Reader × Writer)
no_more_sockets = record {
  socket = λ k f. (k, none);
  setsockopt = λ k s o. (k, true);
  bind = λ k s a. (k, true);
  listen = λ k s n. (k, true);
  accept = λ k s. (k, none);
  connect = λ k s a. (k, true);
  getsockname = λ k s. none;
  close = λ k s. k;
}

abbrev plain : ServerTls (Reader × Writer)
plain = record {
  init_server = λ k. (k, some 0);
  init_server_session = λ k context s. (k, some s);
  session = λ q. nullenc_session;
}

child-exits_example :
    child quiet_process no_more_sockets plain counting 2 3 4 0 connection 0 empty_stack ≡ exited 3
unfolding set_signal_handler load32
child-exits_example =
    child-exits quiet_process no_more_sockets plain counting empty_stack connection connection 3 4 0
      4 0 1 (asking ∷ []) (answered ∷ []) reads writer refl refl refl (request asked (finished 1))
      (omega arith, omega arith, tt) tt (omega arith) (omega (arith, answered-len))
