-- ===== src/Server/Daemon.antt =====
-- The signals, the accept loop and the service processes of src/server/server.c. What happens while
-- the loop runs is a list of events.
use pcsc_proxy_android.Prelude.{ℕ, Bool, true, false, Option, none, some, List, [], ◌∷◌}
use pcsc_proxy_android.Sockets.Calls.{Sys, NetOpts}

-- `SIGINT`, `SIGTERM`, `SIGHUP`, `SIGCHLD`, and any other that has a handler. The program sets up none
-- for the others; without one, a signal is ignored or ends the process, and is no event here.
pub data Signal : Type 0 where
  sigint sigterm sighup sigchld : Signal
  sigother : ℕ → Signal

-- The state of the server process: `pp_daemon_abort`, `pp_wake_pipe` (`none` is -1), and the
-- children that have ended and not been waited for.
pub record Daemon (K : Type 0) : Type 0 where
  pub kernel : K
  pub abort : Bool
  pub wake_read : Option ℕ
  pub wake_write : Option ℕ
  pub ended : List ℕ

-- what `fork` returns: -1, 0, or the child's number
pub data Fork : Type 0 where
  fork_failed in_child : Fork
  in_parent : ℕ → Fork

-- What happens next. `at_test` and `before_select` are signals that arrive before the test of the
-- loop and between that test and `select`; the others happen while `select` waits. A signal there
-- makes `select` return -1, and so does the end of a child, since SIGCHLD has a handler. Where
-- `pp_stop` has no pipe to write to, `select` waits on.
pub data Event : Type 0 where
  at_test before_select in_select : Signal → Event
  child_ends : ℕ → Event
  stop select_fails idle : Event
  client : Fork → Event

-- The loop still waits, it has been left, or `fork` has returned in the child, which has the socket.
pub data Outcome (K : Type 0) : Type 0 where
  waiting left : Daemon K → Outcome K
  forked : Daemon K → ℕ → Outcome K

-- `waitpid` with `WNOHANG`, until no ended child is there
unfoldable pub reap : List ℕ → List ℕ
reap [] = []
reap (pid ∷ rest) = reap rest

module _ {K : Type 0} where
  unfoldable pub signal_handler : Signal → Daemon K → Daemon K
  unfolding reap
  signal_handler sigint d = record d { abort = true }
  signal_handler sigterm d = record d { abort = true }
  signal_handler sighup d = record d { abort = true }
  signal_handler sigchld d = record d { ended = reap d.ended }
  signal_handler (sigother n) d = d

  module _ (sys : Sys K) where
    -- `pp_stop`, with whether it returns 0; what `write` writes wakes up `select`.
    unfoldable pub pp_stop : Daemon K → Daemon K × Bool
    pp_stop d = elim d.wake_write [
      | none ↦ (record d { abort = true }, false)
      | some w ↦ (record d { kernel = sys.close d.kernel w; abort = true; wake_write = none }, true)
    ]

    module _ (opts : NetOpts K) (sk : ℕ) where
      -- `opts->accept(sk)`
      abbrev pub accepted : Daemon K → Daemon K × Option ℕ
      accepted d = let (k, r) = opts.accept d.kernel sk in (record d { kernel = k }, r)

      -- the parent closes its copy of the client's socket
      abbrev pub spawn : Daemon K → ℕ → Daemon K
      spawn d s = record d { kernel = sys.close d.kernel s }

      -- The loop from `select` on. The test of `while` is made after each round that goes on.
      unfoldable pub wait : List Event → Daemon K → Outcome K
      unfolding signal_handler pp_stop
      wait [] d = waiting d
      wait (before_select g ∷ es) d = wait es (signal_handler g d)
      wait (in_select g ∷ es) d = left (signal_handler g d)
      wait (child_ends pid ∷ es) d =
          left (signal_handler sigchld (record d { ended = pid ∷ d.ended }))
      wait (select_fails ∷ es) d = left d
      wait (at_test g ∷ es) d =
          let d' = signal_handler g d in elim d'.abort [ true ↦ left d' | false ↦ wait es d' ]
      wait (stop ∷ es) d =
          let (d', ok) = pp_stop d in
          elim ok [
            | true ↦ elim d'.abort [ true ↦ left d' | false ↦ wait es d' ]
            | false ↦ wait es d'
          ]
      wait (idle ∷ es) d = elim d.abort [ true ↦ left d | false ↦ wait es d ]
      wait (client f ∷ es) d =
          let (d', r) = accepted d in
          elim r [
            | none ↦ elim d'.abort [ true ↦ left d' | false ↦ wait es d' ]
            | some s ↦ elim f [
              | in_child ↦ forked d' s
              | fork_failed ↦ elim d'.abort [ true ↦ left d' | false ↦ wait es d' ]
              | in_parent pid ↦ elim d'.abort [
                | true ↦ left (spawn d' s)
                | false ↦ wait es (spawn d' s)
              ]
            ]
          ]

      -- the whole loop
      unfoldable pub serve : List Event → Daemon K → Outcome K
      unfolding wait
      serve es d = elim d.abort [ true ↦ left d | false ↦ wait es d ]
