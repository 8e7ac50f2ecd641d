-- ===== src/Server/Main/Listens.antt =====
-- What a run of `main` (src/server/server.c) has done where it waits for clients.
use pcsc_proxy_android.Prelude.{ℕ, false, some, List, []}
use pcsc_proxy_android.Memory.{Bytes}
use pcsc_proxy_android.Client.State.{Tls}
use pcsc_proxy_android.Sockets.Calls.{Sys, Resolver}
use pcsc_proxy_android.Sockets.Bluetooth.{Bluez}
use pcsc_proxy_android.Server.Pcsc.{Pcsc}
use pcsc_proxy_android.Server.Options.{Build, Settings}
use pcsc_proxy_android.Server.Daemon.{Daemon, Event}
use pcsc_proxy_android.Server.Child.{Process, ServerTls}
use pcsc_proxy_android.Server.Main.{unlink_if, write_if}

module _ {K P : Type 0} (sys : Sys K) (dns : Resolver) (bz : Bluez K) (proc : Process K)
    (tls : Tls → ServerTls K) (lib : Pcsc P) (b : Build) (es : List Event) (n : ℕ) (p : P)
    (stack : ℕ → Bytes) where
  module _ (s : Settings) (w : ℕ × ℕ) (k : K) (d : Daemon K) where
    abbrev k1 : K
    k1 = unlink_if sys dns bz proc tls lib b k s.pid_file

    abbrev start : K → Daemon K
    start k2 = record {
      kernel = write_if sys dns bz proc tls lib b k2 s.pid_file;
      abort = false;
      wake_read = some w.0;
      wake_write = some w.1;
      ended = [];
    }
