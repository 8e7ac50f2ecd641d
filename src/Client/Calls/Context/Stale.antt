-- ===== src/Client/Calls/Context/Stale.antt =====
-- A session that outlives its context: `pp_releaseContext` of src/client/client.c clears only the id of
-- a slot, and `pp_createContext` takes the slot over as it stands.
use pcsc_proxy_android.Prelude.{
  ℕ, zero, suc, ◌<◌, ◌≡◌, refl, ◌∙◌, ap, Option, none, some, List, [], ◌∷◌, arith, length, set,
  get_or, get_elem?-set_self, set-set, get_or-set_self, length-set, Bool-cases, Option-cases, inl,
  inr, ◌==◌,
}
use pcsc_proxy_android.Memory.{Bytes}
use pcsc_proxy_android.Transport.{unsent}
use pcsc_proxy_android.Server.Pcsc.{scard_f_internal_error}
use pcsc_proxy_android.Client.State.{
  pp_context_magic, ClientContext, free_context, Client, Tls, TlsOpts, Environment, done, bind-done,
}
use pcsc_proxy_android.Client.Slots.{slot_number, IsTable, free_slot, free_slot-lt}
use pcsc_proxy_android.Client.Tables.{context_id, pp_create_context, pp_release_context}
use pcsc_proxy_android.Client.Tables.Laws.{slot_number_context}
use pcsc_proxy_android.Client.Tables.Create.{contexts_of, new_context, Provided, create_context_eq}
use pcsc_proxy_android.Client.Tables.Release.{without_context, release_context_eq}
use pcsc_proxy_android.Client.Exchange.{
  Network, context_at, transfer, pp_exchange_msg, exchange_session,
}
use pcsc_proxy_android.Client.Calls.Context.{establish_request, give_up, scard_establish_context}

-- A free slot that is written with another free element stays the first that is free.
free_slot-set_free :
    {A : Type 0} (id : A → ℕ) (xs : List A) (i : ℕ) (v : A)
    → free_slot id xs ≡ some i
    → id v ≡ 0
    → free_slot id (set xs i v) ≡ some i
unfolding free_slot
free_slot-set_free id [] i v h z = h
free_slot-set_free id (x ∷ xs) zero v h z = ground arith
free_slot-set_free id (x ∷ xs) (suc i) v h z = elim (Bool-cases (id x == 0)) [
  | inl e ↦ absurd (ground arith)
  | inr e ↦ elim (Option-cases (free_slot id xs)) [
    | inl n ↦ absurd (ground arith)
    | inr (j, f) ↦ ground (arith, free_slot-set_free id xs i v (ground arith) z)
  ]
]

module _ {W : Type 0} (env : Environment) (net : Network W) (tls : Tls → TlsOpts W) where
  -- A call has failed, and slot `i` is free again and has the old session `s` still.
  pub record Stuck (scope i s : ℕ) (c : Client W) : Type 0 where
    pub after : Client W
    pub returns :
        scard_establish_context env net tls scope c ≡ done (scard_f_internal_error, none) after
    pub free_again : free_slot context_id (contexts_of after.contexts) ≡ some i
    pub still : (get_or (contexts_of after.contexts) i free_context).tls_session ≡ some s

  not_sent :
      (c : Client W) (g : Tls) (s : ℕ) (m : Bytes) (w : W)
      → c.tlsopts ≡ some g
      → TlsOpts.send (tls g) c.world s m ≡ (w, unsent)
      → transfer net tls s m c ≡ done none (record c { world = w })
  unfolding transfer
  not_sent c g s m w a e = ground arith

  module _ (c : Client W) (i t s scope : ℕ) (g : Tls) (w w' : W) (h : Provided env tls c g t w)
      (f : free_slot context_id (contexts_of c.contexts) ≡ some i)
      (table : IsTable context_id pp_context_magic (some (contexts_of c.contexts)))
      (old : (get_or (contexts_of c.contexts) i free_context).tls_session ≡ some s)
      (dead : TlsOpts.send (tls g) w s (establish_request scope) ≡ (w', unsent)) where
    abbrev xs : List ClientContext
    xs = contexts_of c.contexts

    abbrev p0 : ClientContext
    p0 = new_context xs i t

    abbrev created : Client W
    created = record c { contexts = some (set xs i p0); tlsopts = some g; world = w }

    abbrev unserved : Client W
    unserved = record created { world = w' }

    -- the slot once it is given up
    abbrev cleared : ClientContext
    cleared = record (get_or (set xs i p0) i free_context) { id = 0 }

    in_table : i < length xs
    in_table = free_slot-lt context_id xs i f

    here : context_at i created ≡ done p0 created
    unfolding context_at
    here = rw (get_elem?-set_self xs i p0 in_table, context_at) refl

    here_after : context_at i unserved ≡ done p0 unserved
    unfolding context_at
    here_after = rw (get_elem?-set_self xs i p0 in_table, context_at) refl

    given_up :
        give_up env net tls {A = ℕ × Option ℕ} i (scard_f_internal_error, none) unserved
        ≡ done (scard_f_internal_error, none) (without_context unserved (set xs i p0) i)
    unfolding give_up
    given_up =
        bind-done (context_at i) _ p0 unserved unserved here_after
        ∙ bind-done (pp_release_context env p0.id) _ tt unserved
            (without_context unserved (set xs i p0) i)
            (release_context_eq env h.ready unserved (set xs i p0) p0.id i h.unlocked refl
              (ap (slot_number pp_context_magic) (omega (arith, in_table, table.0))
                ∙ slot_number_context i (omega (arith, in_table, table.0)))
              (omega (arith, in_table, table.0)))

    -- Where the slot that a new context takes holds the session of an older one, the TLS
    -- library and the credentials give what is needed, and the message cannot be sent over
    -- that session any more: the call fails, no new connection is tried, and the next call
    -- finds the same slot with the same session.
    pub establish-Stuck : Stuck scope i s c
    unfolding scard_establish_context
    establish-Stuck = record {
      after = without_context unserved (set xs i p0) i;
      returns =
          bind-done (pp_create_context env tls) _ (some i) c created
            (create_context_eq env tls c i g t w h f)
          ∙ bind-done (pp_exchange_msg net tls i (establish_request scope)) _ none created unserved
              (exchange_session net tls created i s p0 (establish_request scope) here old
                ∙ not_sent created g s (establish_request scope) w' refl dead)
          ∙ given_up;
      free_again =
          ap (free_slot context_id) (set-set xs i p0 cleared)
          ∙ free_slot-set_free context_id xs i cleared f refl;
      still =
          ap (λ x. ClientContext.tls_session x)
            (get_or-set_self (set xs i p0) i cleared free_context
              (omega (arith, in_table, length-set xs i p0)))
          ∙ ap (λ x. ClientContext.tls_session x) (get_or-set_self xs i p0 free_context in_table)
          ∙ old;
    }
