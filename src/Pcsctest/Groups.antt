-- ===== src/Pcsctest/Groups.antt =====
-- `test1` of src/client/pcsctest.c against a service.
use pcsc_proxy_android.Prelude.{
  ℕ, ◌+◌, ◌<◌, ◌≡◌, ◌∙◌, sym, ap, true, false, none, some, List, length, drop, ◌==◌, if◌then◌else◌,
  arith,
}
use pcsc_proxy_android.Server.Pcsc.{Pcsc, Answer, IsBounded, scard_s_success}
use pcsc_proxy_android.Client.State.{
  ClientContext, Client, Tls, Environment, done, undefined, M, pure, ◌>>=◌, bind-done,
  pp_context_magic,
}
use pcsc_proxy_android.Client.Tables.Create.{contexts_of}
use pcsc_proxy_android.Client.Exchange.{Network}
use pcsc_proxy_android.Client.Calls.Context.{scard_establish_context}
use pcsc_proxy_android.Client.Calls.Lists.{Filled, scard_list_reader_groups}
use pcsc_proxy_android.Link.{Service, direct}
use pcsc_proxy_android.Link.Calls.{word, exchanged}
use pcsc_proxy_android.Link.Release.{OnContext}
use pcsc_proxy_android.Link.Establish.{connected_context, established}
use pcsc_proxy_android.Link.Established.{Reachable, establish-OnContext, established_context}
use pcsc_proxy_android.Link.Readers.{list_room, listed, group_listing}
use pcsc_proxy_android.Link.Listed.{scard_list_reader_groups-listed}
use pcsc_proxy_android.Pcsctest.Texts.{multi_string, Texts, shown_texts, shown_texts-multi_string}
use pcsc_proxy_android.Pcsctest.{
  scard_scope_system, Printed, overwritten, stopped, show_groups, list_groups, test1,
}
use pcsc_proxy_android.Pcsctest.Reports.{size_asked, list_asked, Reports, exchanged-OnContext}

module _ {P : Type 0} (lib : Pcsc P) (bounded : IsBounded lib) (env : Environment)
    (ready : env.mutex_rv ≡ 0) (net : Network (Service P)) where
  list_groups-done :
      (id : ℕ) (x : ClientContext) (names : List (List ℕ)) (c : Client (Service P)) (n : ℕ)
      (garbage : List ℕ) (h : OnContext env id x c)
      → env.malloc_ok ≡ true
      → n < 2147483648
      → let r = group_listing lib c.world.library x true n in
        word r.1 ≡ 0
        → r.2.bytes ≡ multi_string names
        → r.2.size ≡ length (multi_string names)
        → length (multi_string names) < list_room
        → Texts names
        → list_groups env net (λ k. direct lib) id n garbage c
          ≡ done (record { status = 0; lines = some names }) (exchanged c r.0)
  unfolding list_groups show_groups
  list_groups-done id x names c n garbage h memory u ok laid sized fitting t =
      ap (λ b. (scard_list_reader_groups env net (λ k. direct lib) id b (some n) >>= judge) c)
        memory
      ∙ bind-done (scard_list_reader_groups env net (λ k. direct lib) id true (some n)) _
          (listed r true) c (exchanged c r.0)
          (scard_list_reader_groups-listed lib bounded env net id n x true c h u
            (λ g. (sized ∙ ap length (sym laid), omega arith)))
      ∙ ap (λ (v : ℕ). judge (record (listed r true) { rv = v }) (exchanged c r.0)) ok
      ∙ ap
          (λ b.
            (if b then shown (overwritten garbage (some r.2.bytes)) else (λ d. undefined))
              (exchanged c r.0))
          memory
      ∙ ap (λ bs. shown (overwritten garbage (some bs)) (exchanged c r.0)) laid
      ∙ ap
          (λ o.
            (elim o as (λ o. M (Service P) Printed) [
              | none ↦ (λ d. undefined)
              | some ts ↦ pure (record { status = 0; lines = some ts })
            ])
              (exchanged c r.0))
          (shown_texts-multi_string names (drop (length (multi_string names)) garbage) t)
    where
      r : P × ℕ × Answer
      r = group_listing lib c.world.library x true n

      shown : List ℕ → M (Service P) Printed
      shown bs = elim (shown_texts bs) [
        | none ↦ (λ d. undefined)
        | some ts ↦ pure (record { status = 0; lines = some ts })
      ]

      judge : Filled → M (Service P) Printed
      judge f =
          if f.rv == scard_s_success
          then show_groups env net (λ k. direct lib) garbage f
          else pure stopped

  -- The same of `test1` and the groups of readers, where the uninitialized `dwGroups` happens to hold
  -- less than 2 ^ 31 and the question for the length succeeds: it prints exactly the groups and ends
  -- with 0, with the context still established.
  pub test1-names :
      (c : Client (Service P)) (i t sock : ℕ) (g : Tls) (v : Service P) (left : ℕ)
      (garbage : ℕ → List ℕ) (names : List (List ℕ)) (h : Reachable lib env net c i t sock g v)
      → left < 2147483648
      → let r = lib.establish_context v.library (word scard_scope_system) in
        let x = connected_context lib env net (contexts_of c.contexts) i t (word r.2) in
        word r.1 ≡ 0
        → word (size_asked lib.list_reader_groups r.0 x left).1 ≡ 0
        → Reports lib.list_reader_groups r.0 x left names
        → test1 env net (λ k. direct lib) left garbage c
          ≡ done
              (record { status = 0; lines = some names })
              (exchanged
                (established lib env net c i t g v r)
                (list_asked lib.list_reader_groups r.0 x left).0)
  unfolding test1 established_context exchanged-OnContext
  test1-names c i t sock g v left garbage names h u ok first l =
      bind-done (scard_establish_context env net (λ k. direct lib) scard_scope_system) _
        (0, some (i + pp_context_magic)) c d
        (establish-OnContext lib env net c i t sock g v scard_scope_system h ok).0
      ∙ bind-done (scard_list_reader_groups env net (λ k. direct lib) id false (some left)) _
          (listed q false) d (exchanged d q.0)
          (scard_list_reader_groups-listed lib bounded env net id left x false d on u (λ g. cc))
      ∙ ap
          (λ (k : ℕ).
            (if k == scard_s_success
                then list_groups env net (λ k. direct lib) id (word q.2.size)
                    (garbage (word q.2.size))
                else pure stopped)
              (exchanged d q.0))
          first
      ∙ list_groups-done id x names (exchanged d q.0) (word q.2.size) (garbage (word q.2.size))
          (exchanged-OnContext env ready id x d q.0 on) h.provided.memory l.room_small l.given
          l.laid_out l.measured l.fitting l.texts
    where
      r : P × ℕ × ℕ
      r = lib.establish_context v.library (word scard_scope_system)

      x : ClientContext
      x = connected_context lib env net (contexts_of c.contexts) i t (word r.2)

      d : Client (Service P)
      d = established lib env net c i t g v r

      id : ℕ
      id = i + pp_context_magic

      q : P × ℕ × Answer
      q = size_asked lib.list_reader_groups r.0 x left

      on : OnContext env id x d
      on = established_context lib env net c i t sock g v scard_scope_system h
