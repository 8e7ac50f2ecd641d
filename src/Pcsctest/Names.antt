-- ===== src/Pcsctest/Names.antt =====
-- The whole of src/client/pcsctest.c against a service: four calls of src/client/client.c in a row, each
-- answered by src/server/server.c.
use pcsc_proxy_android.Prelude.{
  ℕ, ◌+◌, ◌<◌, set, ◌≡◌, refl, ◌∙◌, sym, ap, inl, inr, ◌⊎◌, true, false, some, List, ◌++◌, length,
  drop, replicate, ◌==◌, ◌||◌, if◌then◌else◌, arith,
}
use pcsc_proxy_android.Server.Pcsc.{Pcsc, Answer, IsBounded, scard_s_success}
use pcsc_proxy_android.Client.State.{
  ClientContext, Client, Tls, Environment, done, undefined, pure, bind-done, pp_context_magic,
}
use pcsc_proxy_android.Client.Tables.Create.{contexts_of}
use pcsc_proxy_android.Client.Exchange.{Network}
use pcsc_proxy_android.Client.Calls.Context.{scard_establish_context, scard_release_context}
use pcsc_proxy_android.Client.Calls.Lists.{scard_list_readers}
use pcsc_proxy_android.Link.{Service, direct}
use pcsc_proxy_android.Link.Calls.{word, exchanged}
use pcsc_proxy_android.Link.Release.{OnContext, released, scard_release_context-released}
use pcsc_proxy_android.Link.Establish.{connected_context, established}
use pcsc_proxy_android.Link.Established.{Reachable, establish-OnContext, established_context}
use pcsc_proxy_android.Link.Readers.{list_room, listing, listed}
use pcsc_proxy_android.Link.Listed.{scard_list_readers-listed}
use pcsc_proxy_android.Pcsctest.Texts.{multi_string, Texts, shown_texts-multi_string}
use pcsc_proxy_android.Pcsctest.{
  scard_scope_system, scard_e_insufficient_buffer, overwritten, end_session, show_readers,
  fill_readers, read_readers, stopped, size_readers, test2, main,
}
use pcsc_proxy_android.Pcsctest.Reports.{list_asked, Reports, exchanged-OnContext}

passes :
    (rv : ℕ)
    → (rv ≡ 0) ⊎ (rv ≡ scard_e_insufficient_buffer)
    → (rv == scard_s_success || rv == scard_e_insufficient_buffer) ≡ true
passes rv (inl e) = rw e refl
passes rv (inr e) = rw e refl

module _ {P : Type 0} (lib : Pcsc P) (bounded : IsBounded lib) (env : Environment)
    (ready : env.mutex_rv ≡ 0) (net : Network (Service P)) where
  module _ (id : ℕ) (x : ClientContext) (names : List (List ℕ)) (t : Texts names) where
    -- what is printed, and the release
    show_readers-done :
        (c : Client (Service P)) (h : OnContext env id x c) (rest : List ℕ)
        → let w = lib.release_context c.world.library (word x.pcsc_context) in
          show_readers env net (λ k. direct lib) id (multi_string names ++ rest) c
          ≡ done
              (record { status = 0; lines = some names })
              (released lib env ready net c h.table h.slot x w.0)
    unfolding show_readers end_session
    show_readers-done c h rest =
        rw (shown_texts-multi_string names rest t, show_readers)
          (bind-done (scard_release_context env net (λ k. direct lib) id) _ 0 c _
            (scard_release_context-released lib env ready net id x c h))

    read_readers-done :
        (c : Client (Service P)) (h : OnContext env id x c) (n : ℕ)
        → env.malloc_ok ≡ true
        → n < 2147483648
        → let r = listing lib c.world.library x true n in
          word r.1 ≡ 0
          → r.2.bytes ≡ multi_string names
          → r.2.size ≡ length (multi_string names)
          → length (multi_string names) < list_room
          → let w = lib.release_context r.0 (word x.pcsc_context) in
            read_readers env net (λ k. direct lib) id n c
            ≡ done
                (record { status = 0; lines = some names })
                (released lib env ready net (exchanged c r.0) h.table h.slot x w.0)
    unfolding read_readers fill_readers exchanged-OnContext
    read_readers-done c h n memory u ok laid sized fitting =
        ap (λ b. (if b then fill_readers env net (λ k. direct lib) id n else (λ d. undefined)) c)
          memory
        ∙ bind-done (scard_list_readers env net (λ k. direct lib) id true (some n)) _
            (listed r true) c (exchanged c r.0)
            (scard_list_readers-listed lib bounded env net id n x true c h u
              (λ g. (sized ∙ ap length (sym laid), omega arith)))
        ∙ ap
            (λ (q : ℕ × List ℕ).
              (if q.0 == scard_s_success
                  then show_readers env net (λ k. direct lib) id
                      (overwritten (replicate n 0) (some q.1))
                  else pure stopped)
                (exchanged c r.0))
            (λ i. (ok i, laid i))
        ∙ show_readers-done (exchanged c r.0) (exchanged-OnContext env ready id x c r.0 h)
            (drop (length (multi_string names)) (replicate n 0))
      where
        r : P × ℕ × Answer
        r = listing lib c.world.library x true n

    size_readers-done :
        (c : Client (Service P)) (h : OnContext env id x c)
        → env.malloc_ok ≡ true
        → Reports lib.list_readers c.world.library x 0 names
        → let a = list_asked lib.list_readers c.world.library x 0 in
          size_readers env net (λ k. direct lib) id c
          ≡ done
              (record { status = 0; lines = some names })
              (released lib env ready net
                (exchanged c a.0)
                h.table
                h.slot
                x
                (lib.release_context a.0 (word x.pcsc_context)).0)
    unfolding size_readers exchanged-OnContext
    size_readers-done c h memory l =
        bind-done (scard_list_readers env net (λ k. direct lib) id false (some 0)) _
          (listed q false) c (exchanged c q.0)
          (scard_list_readers-listed lib bounded env net id 0 x false c h (omega arith) (λ g. cc))
        ∙ ap
            (λ b.
              (if b
                  then read_readers env net (λ k. direct lib) id (word q.2.size)
                  else pure stopped)
                (exchanged c q.0))
            (passes (word q.1) l.sized)
        ∙ read_readers-done (exchanged c q.0) (exchanged-OnContext env ready id x c q.0 h)
            (word q.2.size) memory l.room_small l.given l.laid_out l.measured l.fitting
      where
        q : P × ℕ × Answer
        q = listing lib c.world.library x false 0

  -- The whole program on a client with a free slot, where the TLS library, the credentials and the
  -- connection give what `SCardEstablishContext` needs, against a library that gives a context and
  -- lists `names`: it prints exactly those names, each once and in their order, and ends with 0, also
  -- where the library does not release the context. The library has been asked for the context, for
  -- the length of the list, for the list in the room that it has said, and for the end_session, in this
  -- order and nothing else, and at the end the slot of the context is free and its session closed.
  pub main-names :
      (c : Client (Service P)) (i t sock : ℕ) (g : Tls) (v : Service P) (names : List (List ℕ))
      (h : Reachable lib env net c i t sock g v)
      → let r = lib.establish_context v.library (word scard_scope_system) in
        let x = connected_context lib env net (contexts_of c.contexts) i t (word r.2) in
        let a = list_asked lib.list_readers r.0 x 0 in
        word r.1 ≡ 0
        → Reports lib.list_readers r.0 x 0 names
        → main env net (λ k. direct lib) c
          ≡ done
              (record { status = 0; lines = some names })
              (released lib env ready net
                (exchanged (established lib env net c i t g v r) a.0)
                (set (contexts_of c.contexts) i x)
                i
                x
                (lib.release_context a.0 (word x.pcsc_context)).0)
  unfolding main test2 established_context
  main-names c i t sock g v names h ok l =
      bind-done (scard_establish_context env net (λ k. direct lib) scard_scope_system) _
        (0, some (i + pp_context_magic)) c (established lib env net c i t g v r)
        (establish-OnContext lib env net c i t sock g v scard_scope_system h ok).0
      ∙ size_readers-done (i + pp_context_magic) x names l.texts
          (established lib env net c i t g v r)
          (established_context lib env net c i t sock g v scard_scope_system h) h.provided.memory l
    where
      r : P × ℕ × ℕ
      r = lib.establish_context v.library (word scard_scope_system)

      x : ClientContext
      x = connected_context lib env net (contexts_of c.contexts) i t (word r.2)
