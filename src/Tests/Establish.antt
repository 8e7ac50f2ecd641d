-- ===== src/Tests/Establish.antt =====
-- Contexts that are established, over a new connection and over a dead one (src/client/client.c).
use pcsc_proxy_android.Prelude.{ℕ, ◌≡◌, refl, true, false, none, some, ◌∷◌, replicate}
use pcsc_proxy_android.Memory.{zeroed}
use pcsc_proxy_android.Transport.{failed, unsent}
use pcsc_proxy_android.Client.State.{ClientContext, free_context, Client, TlsOpts, openssl, done}
use pcsc_proxy_android.Client.Slots.{free_slot, replicate-IsTable, Numbered-replicate}
use pcsc_proxy_android.Prelude.{inl}
use pcsc_proxy_android.Client.State.{pp_context_magic}
use pcsc_proxy_android.Client.Tables.{context_id, pp_tlsopts_init_any}
use pcsc_proxy_android.Client.Exchange.{Network}
use pcsc_proxy_android.Client.Calls.Context.{scard_establish_context}
use pcsc_proxy_android.Client.Calls.Context.Stale.{Stuck, establish-Stuck}
use pcsc_proxy_android.Link.{Service, direct}
use pcsc_proxy_android.Link.Release.{OnContext}
use pcsc_proxy_android.Link.Establish.{connected_context, established}
use pcsc_proxy_android.Link.Established.{Reachable, establish-OnContext}
use pcsc_proxy_android.Tests.Server.{counting}
use pcsc_proxy_android.Tests.Client.{environment}

abbrev pub service : Service ℕ
service = record { library = 4; stack = zeroed; reply = none }

abbrev pub first_call : Client (Service ℕ)
first_call = record {
  contexts = none;
  cards = none;
  context_locked = false;
  card_locked = false;
  tlsopts = none;
  world = service;
}

abbrev pub reaching : Network (Service ℕ)
reaching = record { connect = λ w. done (some 5) w; close = λ w s. w }

pub first_call-Reachable : Reachable counting environment reaching first_call 0 0 5 openssl service
unfolding direct free_slot pp_tlsopts_init_any
first_call-Reachable = record {
  world = service;
  provided = record {
    ready = refl;
    memory = refl;
    unlocked = refl;
    chosen = refl;
    between = service;
    init = refl;
    named = (refl, refl);
    auth = refl;
  };
  free = refl;
  table = replicate-IsTable context_id pp_context_magic free_context refl;
  no_session = refl;
  connects = refl;
}

establish-OnContext_example :
    (scard_establish_context environment reaching (λ k. direct counting) 2 first_call
      ≡ done
          (0, some 2285130377)
          (established counting environment reaching first_call 0 0 openssl service (5, 0, 7)))
    × OnContext environment 2285130377
        (connected_context counting environment reaching (replicate 64 free_context) 0 0 7)
        (established counting environment reaching first_call 0 0 openssl service (5, 0, 7))
establish-OnContext_example =
    establish-OnContext counting environment reaching first_call 0 0 5 openssl service 2
      first_call-Reachable refl

-- nothing is sent any more
abbrev dead : TlsOpts ℕ
dead = record {
  init_client = λ w. (w, some 0);
  fini_client = λ w t. w;
  client_set_srp_auth = λ w t name password. (w, true);
  init_client_session = λ w t sock. (w, some 0);
  fini_client_session = λ w t s. w;
  recv = λ w s m. (w, m, failed);
  send = λ w s m. (w, unsent);
  get_socket = λ w s. 0;
}

abbrev old_slot : ClientContext
old_slot = record free_context { tls_session = some 9 }

abbrev left_over : Client ℕ
left_over = record {
  contexts = some (old_slot ∷ replicate 63 free_context);
  cards = none;
  context_locked = false;
  card_locked = false;
  tlsopts = some openssl;
  world = 0;
}

establish-Stuck_example :
    Stuck environment
      (record { connect = λ w. done (some 5) w; close = λ w s. w })
      (λ g. dead)
      2
      0
      9
      left_over
unfolding free_slot
establish-Stuck_example =
    establish-Stuck environment (record { connect = λ w. done (some 5) w; close = λ w s. w })
      (λ g. dead) left_over 0 0 9 2 openssl 0 0
      (record {
        ready = refl;
        memory = refl;
        unlocked = refl;
        chosen = refl;
        between = 0;
        init = refl;
        named = (refl, refl);
        auth = refl;
      })
      refl (refl, (inl refl, Numbered-replicate context_id pp_context_magic 1 63 free_context refl))
      refl refl
