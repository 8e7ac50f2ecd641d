-- ===== src/Tests/Daemon.antt =====
-- Runs of the server's start, its accept loop and a service process (src/server/server.c), on the
-- kernel of Tests/Sockets.
use pcsc_proxy_android.Prelude.{ℕ, ◌≡◌, refl, true, false, none, some, List, [], ◌∷◌, ◌++◌}
use pcsc_proxy_android.Memory.{Bytes, zeroed}
use pcsc_proxy_android.Transport.{disconnected, sent}
use pcsc_proxy_android.Sockets.Calls.{inet, inet6}
use pcsc_proxy_android.Sockets.Network.{pp_accept, pp_network_opts}
use pcsc_proxy_android.Sockets.Choice.{pp_netopts_init}
use pcsc_proxy_android.Server.Options.{
  Opt, bind_address, family_name, port_text, unencrypted, Build, initial, set_options, family_of,
}
use pcsc_proxy_android.Server.Options.Laws.{set_options-chosen}
use pcsc_proxy_android.Server.Daemon.{
  Daemon, fork_failed, in_parent, sigchld, at_test, Event, client, child_ends, waiting, left, reap,
  signal_handler, wait, serve,
}
use pcsc_proxy_android.Server.Parent.{
  reaped_at_test, lost, served, AllHarmless, by_child, after, serve-left,
}
use pcsc_proxy_android.Server.Descriptors.{Grown, serve-Grown}
use pcsc_proxy_android.Server.Child.{Process, ServerTls}
use pcsc_proxy_android.Server.Main.Waiting.{Listens}
use pcsc_proxy_android.Tests.Sockets.{Kernel, small, small-Tracks, resolver, no_sdp}

abbrev opened_later : Kernel
opened_later = record { open_fds = 3 ∷ 2 ∷ 1 ∷ 0 ∷ []; bound = none }

abbrev listening : Daemon Kernel
listening = record {
  kernel = opened_later;
  abort = false;
  wake_read = some 8;
  wake_write = some 9;
  ended = [];
}

-- a client that is served, one that is lost, and a child reaped
abbrev visitors : List Event
visitors = client (in_parent 70) ∷ client fork_failed ∷ at_test sigchld ∷ []

visitors-AllHarmless : AllHarmless visitors
visitors-AllHarmless = (served 70, (lost, (reaped_at_test, tt)))

visited :
    serve (small true) (pp_network_opts (small true) resolver) 3 visitors listening
    ≡ waiting
        (record listening { kernel = record opened_later { open_fds = 7 ∷ 3 ∷ 2 ∷ 1 ∷ 0 ∷ [] } })
unfolding serve wait reap signal_handler pp_accept pp_network_opts
visited = refl

-- The second client is never accepted: the first one's service process ends before.
serve-left_example :
    serve
      (small true)
      (pp_network_opts (small true) resolver)
      3
      (visitors ++ (child_ends 70 ∷ client (in_parent 71) ∷ []))
      listening
    ≡ left
        (record (after (small true) (pp_network_opts (small true) resolver) 3 visitors listening) {
          ended = [];
        })
serve-left_example =
    serve-left (small true) (pp_network_opts (small true) resolver) 3 visitors
      (client (in_parent 71) ∷ []) (child_ends 70) listening
      (record (after (small true) (pp_network_opts (small true) resolver) 3 visitors listening) {
        ended = [];
      })
      visitors-AllHarmless refl
      (by_child 70
        (after (small true) (pp_network_opts (small true) resolver) 3 visitors listening))

serve-Grown_example :
    (d' : Daemon Kernel) × (serve
        (small true)
        (pp_network_opts (small true) resolver)
        3
        visitors
        listening
      ≡ waiting d')
    × Grown 1 (3 ∷ 2 ∷ 1 ∷ 0 ∷ []) d'.kernel.open_fds
unfolding pp_netopts_init
serve-Grown_example =
    serve-Grown (small true) (λ k. k.open_fds) (small-Tracks true) resolver no_sdp false inet
      (pp_network_opts (small true) resolver) 3 visitors listening refl visitors-AllHarmless refl

abbrev build : Build
build = record { use_bluetooth = true; enable_nullenc = true; use_openssl = false }

-- -b -h -p 70 -u -f 6
abbrev choices : List Opt
choices =
    bind_address (b'-' ∷ b'h' ∷ [])
    ∷ port_text (b'7' ∷ b'0' ∷ [])
    ∷ unencrypted
    ∷ family_name (b'6' ∷ [])
    ∷ []

set_options-chosen_example :
    set_options build choices initial
    ≡ some (record {
      addr = some (b'-' ∷ b'h' ∷ []);
      family = inet6;
      port = 70;
      unenc = true;
      pid_file = none;
    })
unfolding family_of
set_options-chosen_example = set_options-chosen build choices initial

abbrev quiet : Process Kernel
quiet = record {
  pipe = λ k. (k, some (8, 9));
  sigaction = λ k g. (k, true);
  unlink = λ k path. k;
  getpid = λ k. 60;
  fopen = λ k path. (k, none);
  print_number = λ k file n. k;
  fclose = λ k file. k;
}

-- clients that close at once
abbrev silent : ServerTls Kernel
silent = record {
  init_server = λ k. (k, some 0);
  init_server_session = λ k context s. (k, some s);
  session = λ q. record { recv = λ k m. (k, m, disconnected); send = λ k m. (k, sent) };
}

abbrev no_stack : ℕ → Bytes
no_stack n = zeroed
