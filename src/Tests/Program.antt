-- ===== src/Tests/Program.antt =====
-- Runs of src/client/pcsctest.c.
use pcsc_proxy_android.Prelude.{ℕ, ◌≡◌, refl, inl, some, List, [], ◌∷◌, arith, replicate, set}
use pcsc_proxy_android.Client.State.{ClientContext, Client, bind-done, openssl, free_context, done}
use pcsc_proxy_android.Client.Tables.{pp_tlsopts_init_any}
use pcsc_proxy_android.Client.Tables.Laws.{IsValid}
use pcsc_proxy_android.Client.Calls.Context.{scard_establish_context}
use pcsc_proxy_android.Client.Api.{ApiCall, run_api}
use pcsc_proxy_android.Client.Keeps.Reached.{Reached, start, called, reached-IsValid}
use pcsc_proxy_android.Link.{Service, direct}
use pcsc_proxy_android.Link.Established.{establish-OnContext}
use pcsc_proxy_android.Link.Calls.{exchanged}
use pcsc_proxy_android.Link.Release.{released}
use pcsc_proxy_android.Link.Establish.{connected_context, established}
use pcsc_proxy_android.Pcsctest.{main, test1}
use pcsc_proxy_android.Pcsctest.Reports.{Reports}
use pcsc_proxy_android.Pcsctest.Names.{main-names}
use pcsc_proxy_android.Pcsctest.Groups.{test1-names}
use pcsc_proxy_android.Tests.Server.{counting, counting-IsBounded}
use pcsc_proxy_android.Tests.Client.{environment}
use pcsc_proxy_android.Tests.Establish.{service, first_call, reaching, first_call-Reachable}

-- one name, "r"
abbrev names : List (List ℕ)
names = (b'r' ∷ []) ∷ []

abbrev first_context : ClientContext
first_context = connected_context counting environment reaching (replicate 64 free_context) 0 0 7

listed_names : Reports counting.list_readers 5 first_context 0 names
listed_names = record {
  sized = inl refl;
  room_small = omega arith;
  given = refl;
  laid_out = refl;
  measured = refl;
  fitting = omega arith;
  texts = ((λ e. cc), ((λ e. omega arith), tt), tt);
}

listed_groups : Reports counting.list_reader_groups 5 first_context 3 names
listed_groups = record {
  sized = inl refl;
  room_small = omega arith;
  given = refl;
  laid_out = refl;
  measured = refl;
  fitting = omega arith;
  texts = ((λ e. cc), ((λ e. omega arith), tt), tt);
}

main-names_example :
    main environment reaching (λ k. direct counting) first_call
    ≡ done
        (record { status = 0; lines = some names })
        (released counting environment refl reaching
          (exchanged
            (established counting environment reaching first_call 0 0 openssl service (5, 0, 7))
            7)
          (set (replicate 64 free_context) 0 first_context)
          0
          first_context
          8)
main-names_example =
    main-names counting counting-IsBounded environment refl reaching first_call 0 0 5 openssl
      service names first_call-Reachable refl listed_names

test1-names_example :
    test1 environment reaching (λ k. direct counting) 3 (λ n. replicate n 0xff) first_call
    ≡ done
        (record { status = 0; lines = some names })
        (exchanged
          (established counting environment reaching first_call 0 0 openssl service (5, 0, 7))
          7)
test1-names_example =
    test1-names counting counting-IsBounded environment refl reaching first_call 0 0 5 openssl
      service 3 (λ n. replicate n 0xff) names first_call-Reachable (omega arith) refl refl
      listed_groups

-- the client with its first context
abbrev opened : Client (Service ℕ)
opened = established counting environment reaching first_call 0 0 openssl service (5, 0, 7)

opened-Reached : Reached environment reaching (λ k. direct counting) opened
unfolding run_api
opened-Reached = called (ApiCall.establish_context 2) (start service) (
    bind-done (scard_establish_context environment reaching (λ k. direct counting) 2) _
      (0, some 2285130377) first_call opened
      (establish-OnContext counting environment reaching first_call 0 0 5 openssl service 2
        first_call-Reachable refl).0)

reached-IsValid_example : IsValid opened
unfolding pp_tlsopts_init_any
reached-IsValid_example =
    reached-IsValid environment reaching (λ k. direct counting) (λ s e. ground arith) opened-Reached
