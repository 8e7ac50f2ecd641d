-- ===== src/Server/Main/Waiting.antt =====
-- A server that waits for clients (`main` of src/server/server.c), and how it has come there.
use pcsc_proxy_android.Prelude.{ℕ, ◌≡◌, true, false, Option, none, some, List, []}
use pcsc_proxy_android.Client.State.{Tls}
use pcsc_proxy_android.Sockets.Calls.{Sys, Resolver, NetOpts}
use pcsc_proxy_android.Sockets.Bluetooth.{Bluez}
use pcsc_proxy_android.Sockets.Choice.{OperationsOf}
use pcsc_proxy_android.Server.Options.{Opt, Build, Settings, initial}
use pcsc_proxy_android.Server.Options.Laws.{up_to_bad, all_accepted, chosen}
use pcsc_proxy_android.Server.Daemon.{Daemon, Event, waiting, serve}
use pcsc_proxy_android.Server.Child.{Process, ServerTls, set_signal_handler, write_pid_file}
use pcsc_proxy_android.Server.Main.Defaults.{AddressOf, PortOf, EncryptionOf}

module _ {K : Type 0} (proc : Process K) where
  -- no pid file of a run before
  abbrev pub removed : K → Option (List ℕ) → K
  removed k none = k
  removed k (some path) = proc.unlink k path

  -- the pid file of this run
  abbrev pub noted : K → Option (List ℕ) → K
  noted k none = k
  noted k (some path) = (write_pid_file proc k path).0

module _ {K : Type 0} (sys : Sys K) (dns : Resolver) (bz : Bluez K) where
  -- A server with the settings `s`, which was set up from the kernel's state `k` on with the pipe
  -- `wake`, and waits in the state `d`: the encryption and the operations, the address and the port;
  -- the socket that listens there, made after the old pid file is gone and the TLS context is ready;
  -- and the loop on that socket, from the state of the kernel in which the new pid file is written.
  pub record Listening (proc : Process K) (tls : Tls → ServerTls K) (es : List Event) (s : Settings)
      (wake : ℕ × ℕ) (k : K) (d : Daemon K) : Type 0 where
    pub encryption : Tls
    pub encrypted : EncryptionOf s.unenc encryption
    pub opts : NetOpts K
    pub fitting : OperationsOf sys dns bz s.family opts
    pub addr : List ℕ
    pub named : AddressOf s.addr s.family addr
    pub port : ℕ
    pub numbered : PortOf s.port s.family port
    pub context : ℕ
    pub sk : ℕ
    pub before : K
    pub after : K
    pub ready :
        ServerTls.init_server (tls encryption) (removed proc k s.pid_file) ≡ (before, some context)
    pub listens : opts.listen before s.family addr port ≡ (after, some sk)
    pub serves :
        serve sys opts sk es (record {
          kernel = noted proc after s.pid_file;
          abort = false;
          wake_read = some wake.0;
          wake_write = some wake.1;
          ended = [];
        })
        ≡ waiting d

  -- The same from the start of `main` on, with the settings that the options `os` give: they are all
  -- accepted, and the last one that gives a setting counts.
  pub record Listens (proc : Process K) (tls : Tls → ServerTls K) (b : Build) (es : List Event)
      (os : List Opt) (k : K) (d : Daemon K) : Type 0 where
    pub accepted : all_accepted b (up_to_bad os) ≡ true
    pub wake : ℕ × ℕ
    pub start : K
    pub handled : K
    pub piped : proc.pipe k ≡ (start, some wake)
    pub handlers : set_signal_handler proc start ≡ (handled, true)
    pub listening : Listening proc tls es (chosen b (up_to_bad os) initial) wake handled d
