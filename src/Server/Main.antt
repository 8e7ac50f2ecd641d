-- ===== src/Server/Main.antt =====
-- `main` of src/server/server.c (the port that `getport` shows is only logged, and left out), with `pp_tlsopts_init_any` of src/common/tlsopts.c.
pub mod Defaults
pub mod Waiting
pub mod Listens
use pcsc_proxy_android.Prelude.{
  ℕ, ◌≡◌, Bool, true, false, if◌then◌else◌, Option, none, some, List, [], ◌∷◌,
}
use pcsc_proxy_android.Memory.{Bytes}
use pcsc_proxy_android.Client.State.{Tls, nullenc, openssl}
use pcsc_proxy_android.Sockets.Calls.{
  Family, inet, inet6, local, bluetooth, unknown, Sys, Resolver, NetOpts,
}
use pcsc_proxy_android.Sockets.Network.{pp_network_opts}
use pcsc_proxy_android.Sockets.Unix.{pp_unix_opts}
use pcsc_proxy_android.Sockets.Bluetooth.{Bluez, pp_bluetooth_opts, pp_bluetooth_fini}
use pcsc_proxy_android.Server.Pcsc.{Pcsc}
use pcsc_proxy_android.Server.Options.{
  Build, Settings, initial, getopt, set_options, listen_addr, listen_port,
}
use pcsc_proxy_android.Server.Daemon.{Daemon, Event, Outcome, waiting, left, forked, serve}
use pcsc_proxy_android.Server.Child.{
  Process, ServerTls, Exit, exited, running, set_signal_handler, write_pid_file, child,
}

-- A run of `main`: the process that accepts still waits, or it has ended with a status; or `main` has
-- come to its end, or not yet, in a service process.
pub data Run (K : Type 0) : Type 0 where
  waits : Daemon K → Run K
  ends : ℕ → K → Run K
  service : Exit → Run K

-- `none` is a negative result
unfoldable pub server_tls : Build → (unenc : Bool) → Option Tls
server_tls b true = if b.enable_nullenc then some nullenc else none
server_tls b false = if b.use_openssl then some openssl else none

module _ {K P : Type 0} (sys : Sys K) (dns : Resolver) (bz : Bluez K) (proc : Process K)
    (tls : Tls → ServerTls K) (lib : Pcsc P) (b : Build) where
  -- the choice by family; `none` is `exit(-1)`
  unfoldable pub main_opts : Family → Option (NetOpts K)
  main_opts Family.inet = some (pp_network_opts sys dns)
  main_opts Family.inet6 = some (pp_network_opts sys dns)
  main_opts Family.local = some (pp_unix_opts sys dns)
  main_opts Family.bluetooth = if b.use_bluetooth then some (pp_bluetooth_opts sys dns bz) else none
  main_opts (unknown n) = none

  abbrev close_if : K → Option ℕ → K
  close_if k none = k
  close_if k (some s) = sys.close k s

  -- what follows the loop
  unfoldable pub finish : Family → ℕ → Daemon K → K
  unfolding pp_bluetooth_fini
  finish f sk d =
      let k = close_if (sys.close d.kernel sk) d.wake_read in
      elim f [
        | Family.bluetooth ↦ if b.use_bluetooth then pp_bluetooth_fini sys dns bz k else k
        | _ ↦ k
      ]

  -- `if (pid_file) unlink(pid_file);`, and the pid file once the server listens
  abbrev pub unlink_if : K → Option (List ℕ) → K
  unlink_if k none = k
  unlink_if k (some path) = proc.unlink k path

  abbrev pub write_if : K → Option (List ℕ) → K
  write_if k none = k
  write_if k (some path) = (write_pid_file proc k path).0

  -- The rest of `main` runs on the events `es` and, in a service process, for at most `n` rounds of
  -- `pp_handleConnection` on the library's state `p` and the stack.
  module _ (es : List Event) (n : ℕ) (p : P) (stack : ℕ → Bytes) where
    unfoldable pub after_loop : Family → Tls → (sk context : ℕ) → Outcome K → Run K
    unfolding finish child
    after_loop f g sk context (waiting d) = waits d
    after_loop f g sk context (left d) = ends 0 (finish f sk d)
    after_loop f g sk context (forked d s) =
        service (child proc sys (tls g) lib n sk s context d.kernel p stack)

    -- from `init_server` on
    unfoldable pub run_server : Settings → Tls → NetOpts K → List ℕ → ℕ × ℕ → K → Run K
    unfolding after_loop
    run_server s g opts addr (wake_read, wake_write) k =
        let (k1, c) = ServerTls.init_server (tls g) k in
        elim c [
          | none ↦ ends 2 k1
          | some context ↦
              let (k2, r) = opts.listen k1 s.family addr (listen_port b s) in
              elim r [
                | none ↦ ends 2 k2
                | some sk ↦ after_loop s.family g sk context (
                    serve sys opts sk es (record {
                      kernel = write_if k2 s.pid_file;
                      abort = false;
                      wake_read = some wake_read;
                      wake_write = some wake_write;
                      ended = [];
                    }))
              ]
        ]

    -- from the test of the pid file on; 255 is the status of `exit(-1)`
    unfoldable pub set_up : Settings → ℕ × ℕ → K → Run K
    unfolding run_server main_opts
    set_up s wake k =
        let k1 = unlink_if k s.pid_file in
        elim (server_tls b s.unenc) [
          | none ↦ ends 255 k1
          | some g ↦ elim (listen_addr b s) [
            | none ↦ ends 255 k1
            | some addr ↦ elim (main_opts s.family) [
              | none ↦ ends 255 k1
              | some opts ↦ run_server s g opts addr wake k1
            ]
          ]
        ]

    unfoldable pub with_options : List (List ℕ) → ℕ × ℕ → K → Run K
    unfolding set_up
    with_options argv wake k = elim (set_options b (getopt argv) initial) [
      | none ↦ ends 255 k
      | some s ↦ set_up s wake k
    ]

    -- `argv` without the program's name
    unfoldable pub main : List (List ℕ) → K → Run K
    unfolding with_options
    main argv k =
        let (k1, w) = proc.pipe k in
        elim w [
          | none ↦ ends 2 k1
          | some wake ↦
              let (k2, ok) = set_signal_handler proc k1 in
              elim ok [ true ↦ with_options argv wake k2 | false ↦ ends 2 k2 ]
        ]
