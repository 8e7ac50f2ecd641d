-- ===== src/Tests/Streams.antt =====
-- An exchange between client and service over two byte streams (src/common/nullenc.c).
use pcsc_proxy_android.Prelude.{ℕ, ◌≡◌, refl, some, none, [], replicate, arith, false}
use pcsc_proxy_android.Memory.{zeroed, load32}
use pcsc_proxy_android.Transport.{accepts, arrives}
use pcsc_proxy_android.Client.State.{Client, nullenc, done}
use pcsc_proxy_android.Client.Exchange.{Network, transfer}
use pcsc_proxy_android.Server.Loop.{arrived}
use pcsc_proxy_android.Link.Sockets.{Schedule, Wire, over_sockets, Carries, transfer-over_sockets}
use pcsc_proxy_android.Tests.Server.{counting, asking, answered, asked, answered-len}

-- one byte goes out at a time, and single bytes come in
abbrev bytewise : Schedule
bytewise = record {
  client_writes = replicate 17 (accepts 1);
  service_reads = replicate 17 (arrives 1);
  service_writes = replicate 17 (accepts 1);
  client_reads = replicate 17 (arrives 1);
}

abbrev caller : Client (Wire ℕ)
caller = record {
  contexts = none;
  cards = none;
  context_locked = false;
  card_locked = false;
  tlsopts = some nullenc;
  world = record { library = 0; stack = zeroed; downstream = [] };
}

abbrev unused : Network (Wire ℕ)
unused = record { connect = λ w. done none w; close = λ w s. w }

bytewise-Carries : Carries bytewise (load32 asking 1) (load32 answered 1)
unfolding load32
bytewise-Carries = record {
  written = omega arith;
  steady = tt;
  read = omega arith;
  written_back = omega (arith, answered-len);
  steady_back = tt;
  read_back = omega (arith, answered-len);
}

transfer-over_sockets_example :
    transfer unused (λ t. over_sockets counting bytewise) 0 asking caller
    ≡ done
        (some (arrived asking answered))
        (record caller { world = record { library = 1; stack = zeroed; downstream = [] } })
unfolding load32
transfer-over_sockets_example =
    transfer-over_sockets counting bytewise unused nullenc caller 0 asking answered 1 refl refl
      (omega arith, omega arith) (omega (arith, answered-len), omega (arith, answered-len))
      bytewise-Carries asked
