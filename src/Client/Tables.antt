-- ===== src/Client/Tables.antt =====
-- The tables of contexts and cards of src/client/client.c (`pp_findContext` to `pp_releaseCard`), and
-- the choice of the TLS operations (src/common/tlsopts.c). A mutex that is locked and that nobody is
-- going to unlock makes the next `pthread_mutex_lock` wait for ever.
pub mod Laws
pub mod Deadlock
pub mod Release
pub mod Create
use pcsc_proxy_android.Prelude.{
  ℕ, ◌+◌, ◌%◌, ◌^◌, Bool, true, false, ◌&&◌, ◌||◌, not, Option, none, some, List, [], ◌∷◌, ltb, leb,
  ◌==◌, if◌then◌else◌, set, get_or, replicate,
}
use pcsc_proxy_android.Client.State.{
  pp_max_context, pp_context_magic, pp_card_magic, ClientContext, CardContext, free_context,
  free_card, Tls, nullenc, openssl, Client, TlsOpts, Environment, Result, done, undefined, hangs, M,
}
use pcsc_proxy_android.Client.Slots.{
  slot_number, Found, missing, past_end, at, find_slot, free_slot,
}

-- `strcasecmp(s, t) == 0` for a lower-case `t`
abbrev pub lower : ℕ → ℕ
lower x = if leb b'A' x && leb x b'Z' then x + 32 else x

abbrev pub same_text : List ℕ → List ℕ → Bool
same_text [] [] = true
same_text [] (y ∷ ys) = false
same_text (x ∷ xs) [] = false
same_text (x ∷ xs) (y ∷ ys) = lower x == y && same_text xs ys

-- "true" and "1"
abbrev pub wants_nullenc : List ℕ → Bool
wants_nullenc s = same_text s (b't' ∷ b'r' ∷ b'u' ∷ b'e' ∷ []) || same_text s (b'1' ∷ [])

-- `pp_tlsopts_init_any`; `none` is -1.
unfoldable pub pp_tlsopts_init_any : Environment → Bool → Option Tls
pp_tlsopts_init_any env true = if env.enable_nullenc then some nullenc else none
pp_tlsopts_init_any env false = if env.use_openssl then some openssl else none

-- `s==NULL || *s==0`
abbrev pub is_blank : Option (List ℕ) → Bool
is_blank none = true
is_blank (some []) = true
is_blank (some (x ∷ xs)) = false

abbrev pub text_of : Option (List ℕ) → List ℕ
text_of none = []
text_of (some s) = s

abbrev pub context_id : ClientContext → ℕ
context_id x = x.id

abbrev pub card_id : CardContext → ℕ
card_id x = x.id

-- what a find function returns; a read past the end of the array is undefined
abbrev pub located : {W : Type 0} → Found → M W (Option ℕ)
located missing c = done none c
located past_end c = undefined
located (at i) c = done (some i) c

module _ {W : Type 0} (env : Environment) where
  -- A function that takes the context mutex and gives it back on every path.
  unfoldable pub under_context_lock : {A : Type 0} → A → M W A → M W A
  under_context_lock failed body c =
      if c.context_locked then hangs else if env.mutex_rv == 0 then body c else done failed c

  unfoldable pub under_card_lock : {A : Type 0} → A → M W A → M W A
  under_card_lock failed body c =
      if c.card_locked then hangs else if env.mutex_rv == 0 then body c else done failed c

  -- `pp_findContext`
  unfoldable pub pp_find_context : ℕ → M W (Option ℕ)
  unfolding under_context_lock
  pp_find_context id = under_context_lock none λ c. elim c.contexts [
    | none ↦ done none c
    | some xs ↦ located (find_slot context_id xs (slot_number pp_context_magic id)) c
  ]

  -- `pp_releaseContext`. The slot is cleared whether it was in use or not.
  unfoldable pub pp_release_context : ℕ → M W (Unit {0})
  unfolding under_context_lock
  pp_release_context id = under_context_lock tt λ c. elim c.contexts [
    | none ↦ done tt c
    | some xs ↦
        let rid = slot_number pp_context_magic id in
        if ltb pp_max_context rid
        then done tt c
        else if rid == pp_max_context
        then undefined
        else done tt (record c {
          contexts = some (set xs rid (record (get_or xs rid free_context) { id = 0 }));
        })
  ]

  -- `pp_findCard`
  unfoldable pub pp_find_card : ℕ → M W (Option ℕ)
  unfolding under_card_lock
  pp_find_card id = under_card_lock none λ c. elim c.cards [
    | none ↦ done none c
    | some xs ↦ located (find_slot card_id xs (slot_number pp_card_magic id)) c
  ]

  -- `pp_createCard`, once there is an array
  unfoldable pub take_card : ℕ → List CardContext → M W (Option ℕ)
  take_card ctx xs c = elim (free_slot card_id xs) [
    | none ↦ done none (record c { cards = some xs })
    | some i ↦ done (some i) (record c {
      cards = some (
          set xs i (record (get_or xs i free_card) {
            id = (i + pp_card_magic) % 2 ^ 32;
            client_context = ctx;
          }));
    })
  ]

  -- `pp_createCard`; the result is the index of the new card.
  unfoldable pub pp_create_card : ℕ → M W (Option ℕ)
  unfolding under_card_lock take_card
  pp_create_card ctx = under_card_lock none λ c. elim c.cards [
    | none ↦
        if env.malloc_ok then take_card ctx (replicate pp_max_context free_card) c else done none c
    | some xs ↦ take_card ctx xs c
  ]

  -- `pp_releaseCard`
  unfoldable pub pp_release_card : ℕ → M W (Unit {0})
  unfolding under_card_lock
  pp_release_card id = under_card_lock tt λ c. elim c.cards [
    | none ↦ done tt c
    | some xs ↦
        let rid = slot_number pp_card_magic id in
        if ltb pp_max_context rid
        then done tt c
        else if rid == pp_max_context
        then undefined
        else done tt
            (record c { cards = some (set xs rid (record (get_or xs rid free_card) { id = 0 })) })
  ]

  module _ (tls : Tls → TlsOpts W) where
    -- `pp_createContext` from the credentials on; `p` is the slot as it stands.
    unfoldable pub check_credentials :
        ℕ → ClientContext → List ClientContext → ℕ → Tls → M W (Option ℕ)
    check_credentials i p xs t g c =
        if is_blank env.user || is_blank env.passwd
        then done none (record c { contexts = some (set xs i (record p { id = 0 })) })
        else (let (w, accepted) =
              TlsOpts.client_set_srp_auth (tls g) c.world t (text_of env.user)
                (text_of env.passwd) in
            if accepted
            then done (some i) (record c { contexts = some (set xs i p); world = w })
            else done none
                (record c { contexts = some (set xs i (record p { id = 0 })); world = w }))

    -- from `init_client` on, for the free slot `i`
    unfoldable pub fill_context : ℕ → List ClientContext → Tls → M W (Option ℕ)
    unfolding check_credentials
    fill_context i xs g c =
        let p = record (get_or xs i free_context) { id = (i + pp_context_magic) % 2 ^ 32 } in
        let (w, t) = TlsOpts.init_client (tls g) c.world in
        elim t [
          | none ↦
              done none (record c { contexts = some (set xs i (record p { id = 0 })); world = w })
          | some h ↦
              check_credentials i (record p { tls_context = some h }) xs h g
                (record c { world = w })
        ]

    -- the search for a free slot
    unfoldable pub take_context : List ClientContext → Tls → M W (Option ℕ)
    unfolding fill_context
    take_context xs g c = elim (free_slot context_id xs) [
      | none ↦ done none (record c { contexts = some xs })
      | some i ↦ fill_context i xs g c
    ]

    -- The TLS operations are chosen at the first call. `strcasecmp` of a variable that is not set
    -- reads through a null pointer. Where there are no such operations the function returns with
    -- the mutex locked.
    unfoldable pub with_tlsopts : List ClientContext → M W (Option ℕ)
    unfolding take_context
    with_tlsopts xs c = elim c.tlsopts [
      | some g ↦ take_context xs g c
      | none ↦ elim env.nullenc_env [
        | none ↦ undefined
        | some s ↦ elim (pp_tlsopts_init_any env (wants_nullenc s)) [
          | none ↦ done none (record c { contexts = some xs; context_locked = true })
          | some g ↦ take_context xs g (record c { tlsopts = some g })
        ]
      ]
    ]

    -- `pp_createContext`; the result is the index of the new context.
    unfoldable pub pp_create_context : M W (Option ℕ)
    unfolding under_context_lock with_tlsopts
    pp_create_context = under_context_lock none λ c. elim c.contexts [
      | none ↦
          if env.malloc_ok
          then with_tlsopts (replicate pp_max_context free_context) c
          else done none c
      | some xs ↦ with_tlsopts xs c
    ]
