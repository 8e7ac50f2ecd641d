-- ===== src/Server/Child.antt =====
-- What `main` of src/server/server.c takes from the operating system and the TLS library, and the
-- service process that it forks for a client.
pub mod Served
use pcsc_proxy_android.Prelude.{
  ℕ, ◌≢◌, inl, inr, Bool, true, false, Option, none, some, List, arith, Bool-cases, Option-cases,
}
use pcsc_proxy_android.Memory.{Bytes}
use pcsc_proxy_android.Sockets.Calls.{Sys}
use pcsc_proxy_android.Server.Pcsc.{Pcsc}
use pcsc_proxy_android.Server.Dispatch.{
  Session, Next, served, closed, broken, aborted, stalled, pp_handle_connection,
}
use pcsc_proxy_android.Server.Loop.{pp_handle_connection-ne-served}
use pcsc_proxy_android.Server.Daemon.{Signal, sigint, sigterm, sighup, sigchld}

-- `pipe`, `sigaction`, `unlink`, `getpid`, and the calls on the pid file
pub record Process (K : Type 0) : Type 0 where
  pub pipe : K → K × Option (ℕ × ℕ)
  pub sigaction : K → Signal → K × Bool
  pub unlink : K → (path : List ℕ) → K
  pub getpid : K → ℕ
  pub fopen : K → (path : List ℕ) → K × Option ℕ
  pub print_number : K → (file number : ℕ) → K
  pub fclose : K → (file : ℕ) → K

-- `tlsopts_t` of src/common/tlsopts.h, the server's part. A call that fails returns `none`.
pub record ServerTls (K : Type 0) : Type 0 where
  pub init_server : K → K × Option ℕ
  pub init_server_session : K → (context socket : ℕ) → K × Option ℕ
  pub session : ℕ → Session K

-- A process ends with a status, or still runs.
pub data Exit : Type 0 where
  exited : ℕ → Exit
  running : Exit

-- what a child does with the way in which `pp_handleConnection` ends
abbrev pub exit_of : Next → Exit
exit_of served = exited 0
exit_of closed = exited 3
exit_of broken = exited 3
exit_of aborted = exited 4
exit_of stalled = running

module _ {K : Type 0} (proc : Process K) where
  abbrev pub and_then : K × Bool → (K → K × Bool) → K × Bool
  and_then (k, true) next = next k
  and_then (k, false) next = (k, false)

  -- `setSignalHandler`; the second component is whether it returns 0.
  unfoldable pub set_signal_handler : K → K × Bool
  set_signal_handler k = and_then (proc.sigaction k sigint) λ k1.
      and_then (proc.sigaction k1 sigchld)
        λ k2. and_then (proc.sigaction k2 sigterm) λ k3. proc.sigaction k3 sighup

  unfoldable pub write_pid_file : K → List ℕ → K × Bool
  write_pid_file k path =
      let (k', r) = proc.fopen k path in
      elim r [
        | none ↦ (k', false)
        | some file ↦ (proc.fclose (proc.print_number k' file (proc.getpid k')) file, true)
      ]

  module _ {P : Type 0} (sys : Sys K) (tls : ServerTls K) (lib : Pcsc P) where
    -- the session that has been set up, if it has
    abbrev pub serve_session : ℕ → P → (ℕ → Bytes) → K × Option ℕ → Exit
    serve_session n p stack (k, none) = exited 2
    serve_session n p stack (k, some q) =
        elim (pp_handle_connection lib (tls.session q) n k p stack) [
          | none ↦ running
          | some e ↦ exit_of e.next
        ]

    -- The service process for the client on the socket `s`. `n` bounds the rounds of
    -- `pp_handleConnection`: after them it still runs.
    unfoldable pub child : ℕ → (sk s context : ℕ) → K → P → (ℕ → Bytes) → Exit
    unfolding set_signal_handler
    child n sk s context k p stack =
        let (k1, ok) = set_signal_handler (sys.close k sk) in
        elim ok [
          | false ↦ exited 2
          | true ↦ serve_session n p stack (tls.init_server_session k1 context s)
        ]

    serve_session-ne-zero :
        (n : ℕ) (p : P) (stack : ℕ → Bytes) (r : K × Option ℕ)
        → serve_session n p stack r ≢ exited 0
    serve_session-ne-zero n p stack (k, none) h = ground arith
    serve_session-ne-zero n p stack (k, some q) h =
        elim (Option-cases (pp_handle_connection lib (tls.session q) n k p stack)) [
          | inl e ↦ ground (arith, e)
          | inr (a, e) ↦
              ground (arith, e, pp_handle_connection-ne-served lib (tls.session q) n k p stack a e)
        ]

    -- A service process never ends with status 0, by which `main` means that all went well: not even
    -- where the client has closed the connection in order.
    pub child-ne-zero :
        (n sk s context : ℕ) (k : K) (p : P) (stack : ℕ → Bytes)
        → child n sk s context k p stack ≢ exited 0
    unfolding child
    child-ne-zero n sk s context k p stack h =
        let done = set_signal_handler (sys.close k sk) in
        elim (Bool-cases done.1) [
          | inl e ↦
              ground (
                arith,
                e,
                serve_session-ne-zero n p stack (tls.init_server_session done.0 context s),
              )
          | inr e ↦ ground (arith, e)
        ]
