-- ===== src/Client/Calls/Context.antt =====
-- The calls on a context: `SCardEstablishContext`, `SCardReleaseContext`, `SCardIsValidContext` and
-- `SCardSetTimeout` of src/client/client.c. A result is the `LONG`, which is the reply's unsigned word,
-- and for an output parameter what is stored through it (`none`: it stays as it was).
pub mod Stale
use pcsc_proxy_android.Prelude.{ℕ, Option, none, some, ◌==◌, if◌then◌else◌}
use pcsc_proxy_android.Memory.{Bytes, load32, store32}
use pcsc_proxy_android.Message.Layout.{msg_size, establish, release, isvalid, settimeout}
use pcsc_proxy_android.Message.Command.{Command}
use pcsc_proxy_android.Message.Fields.{
  establish_scope, establish_context, establish_rv, release_context, release_rv, isvalid_context,
  isvalid_rv, settimeout_context, settimeout_timeout, settimeout_rv,
}
use pcsc_proxy_android.Server.Pcsc.{scard_s_success, scard_f_internal_error}
use pcsc_proxy_android.Client.State.{
  ClientContext, Tls, TlsOpts, Environment, done, undefined, M, pure, ◌>>=◌, ◌>>◌,
}
use pcsc_proxy_android.Client.Tables.{pp_create_context, pp_release_context}
use pcsc_proxy_android.Client.Exchange.{Network, context_at, store_context, pp_exchange_msg}
use pcsc_proxy_android.Client.Calls.{request, with_context, exchange_rv}

-- the messages
abbrev pub establish_request : ℕ → Bytes
establish_request scope =
    store32 (request Command.establish_context (msg_size establish)) establish_scope scope

abbrev pub release_request : ClientContext → Bytes
release_request x =
    store32 (request Command.release_context (msg_size release)) release_context x.pcsc_context

abbrev pub isvalid_request : ClientContext → Bytes
isvalid_request x =
    store32 (request Command.isvalidcontext (msg_size isvalid)) isvalid_context x.pcsc_context

abbrev pub settimeout_request : ClientContext → ℕ → Bytes
settimeout_request x timeout =
    store32
      (store32 (request Command.settimeout (msg_size settimeout)) settimeout_context x.pcsc_context)
      settimeout_timeout timeout

module _ {W : Type 0} (env : Environment) (net : Network W) (tls : Tls → TlsOpts W) where
  -- `pp_releaseContext(ctx->id)` and the result
  unfoldable pub give_up : {A : Type 0} → ℕ → A → M W A
  give_up i a = context_at i >>= λ x. pp_release_context env x.id >> pure a

  -- the context notes the service's number
  unfoldable pub keep_context : ℕ → Bytes → M W (ℕ × Option ℕ)
  keep_context i m = context_at i >>= λ x.
      store_context i (record x { pcsc_context = load32 m establish_context })
      >> pure (load32 m establish_rv, some x.id)

  -- what follows a reply
  unfoldable pub establish_reply : ℕ → Bytes → M W (ℕ × Option ℕ)
  unfolding give_up keep_context
  establish_reply i m =
      if load32 m establish_rv == scard_s_success
      then keep_context i m
      else give_up i (load32 m establish_rv, none)

  unfoldable pub scard_establish_context : (scope : ℕ) → M W (ℕ × Option ℕ)
  unfolding establish_reply
  scard_establish_context scope = pp_create_context env tls >>= λ r. elim r [
    | none ↦ pure (scard_f_internal_error, none)
    | some i ↦ pp_exchange_msg net tls i (establish_request scope) >>= λ r'. elim r' [
      | none ↦ give_up i (scard_f_internal_error, none)
      | some m ↦ establish_reply i m
    ]
  ]

  -- The session ends and its socket is closed; a null pointer is undefined.
  unfoldable pub close_session : ℕ → M W (Unit {0})
  close_session i = context_at i >>= λ x c. elim c.tlsopts [
    | none ↦ undefined
    | some g ↦ elim x.tls_session [
      | none ↦ undefined
      | some s ↦ elim x.tls_context [
        | none ↦ undefined
        | some t ↦
            let sock = TlsOpts.get_socket (tls g) c.world s in
            let w = net.close (TlsOpts.fini_client_session (tls g) c.world t s) sock in
            store_context i (record x { tls_session = none; tls_context = none })
              (record c { world = TlsOpts.fini_client (tls g) w t })
      ]
    ]
  ]

  -- The slot is cleared whether the service answers or not.
  unfoldable pub scard_release_context : (context : ℕ) → M W ℕ
  unfolding close_session give_up
  scard_release_context id = with_context env id scard_f_internal_error λ i x.
      pp_exchange_msg net tls i (release_request x) >>= λ r.
      close_session i
      >> give_up i (elim r [ none ↦ scard_f_internal_error | some m ↦ load32 m release_rv ])

  unfoldable pub scard_is_valid_context : (context : ℕ) → M W ℕ
  scard_is_valid_context id =
      with_context env id scard_f_internal_error
        λ i x. exchange_rv net tls i (isvalid_request x) isvalid_rv

  unfoldable pub scard_set_timeout : (context timeout : ℕ) → M W ℕ
  scard_set_timeout id timeout =
      with_context env id scard_f_internal_error
        λ i x. exchange_rv net tls i (settimeout_request x timeout) settimeout_rv

  -- `free` is the system's; the context is not looked at.
  unfoldable pub scard_free_memory : (free : W → Option ℕ → W) → (context : ℕ) → Option ℕ → M W ℕ
  scard_free_memory free id memory c = done 0 (record c { world = free c.world memory })
