-- ===== src/Tests/Client.antt =====
-- A table of cards that is filled (src/client/client.c).
use pcsc_proxy_android.Prelude.{arith, ℕ, ◌≡◌, refl, [], ◌∷◌, replicate, true, false, none, some}
use pcsc_proxy_android.Client.State.{pp_card_magic, free_card, Client, Environment, done}
use pcsc_proxy_android.Client.Slots.{slot_number, free_slot, Found, FindsSlot}
use pcsc_proxy_android.Client.Tables.{card_id, located, pp_find_card, pp_create_card}
use pcsc_proxy_android.Client.State.{Tls, TlsOpts, hangs}
use pcsc_proxy_android.Client.Tables.{
  pp_create_context, pp_find_context, pp_release_context, pp_tlsopts_init_any,
}
use pcsc_proxy_android.Client.Tables.Deadlock.{create_context-hangs}
use pcsc_proxy_android.Client.Tables.Release.{Released, release_card-Released, without_card}
use pcsc_proxy_android.Transport.{failed, unsent}
use pcsc_proxy_android.Client.Tables.Laws.{
  IsValid, CardCreated, create_card-CardCreated, find_card-FindsSlot,
}

abbrev fresh : Client ℕ
fresh = record {
  contexts = none;
  cards = none;
  context_locked = false;
  card_locked = false;
  tlsopts = none;
  world = 0;
}

abbrev pub environment : Environment
environment = record {
  enable_nullenc = true;
  use_openssl = true;
  malloc_ok = true;
  mutex_rv = 0;
  nullenc_env = some (b'0' ∷ []);
  user = some (b'u' ∷ []);
  passwd = some (b'p' ∷ []);
}

fresh-IsValid : IsValid fresh
fresh-IsValid = record {
  contexts_open = refl;
  cards_open = refl;
  contexts_table = tt;
  cards_table = tt;
}

abbrev after_card : Client ℕ
after_card = record {
  contexts = none;
  cards =
      some
        (record { id = 942953097; pcsc_handle = 0; client_context = 3 } ∷ replicate 63 free_card);
  context_locked = false;
  card_locked = false;
  tlsopts = none;
  world = 0;
}

card_made : pp_create_card environment 3 fresh ≡ done (some 0) after_card
unfolding pp_create_card free_slot
card_made = refl

create_card-CardCreated_example : CardCreated environment refl 3 fresh after_card 0
create_card-CardCreated_example =
    create_card-CardCreated environment refl 3 fresh after_card 0 fresh-IsValid card_made

find_card-FindsSlot_example :
    (f : Found) × FindsSlot card_id
      (record { id = 942953097; pcsc_handle = 0; client_context = 3 } ∷ replicate 63 free_card)
      (slot_number pp_card_magic 942953097)
      f
    × (pp_find_card environment 942953097 after_card ≡ located f after_card)
find_card-FindsSlot_example =
    find_card-FindsSlot environment refl after_card
      (record { id = 942953097; pcsc_handle = 0; client_context = 3 } ∷ replicate 63 free_card)
      942953097
      (CardCreated.valid
        (create_card-CardCreated environment refl 3 fresh after_card 0 fresh-IsValid card_made))
      refl

after_card-IsValid : IsValid after_card
after_card-IsValid =
    CardCreated.valid
      (create_card-CardCreated environment refl 3 fresh after_card 0 fresh-IsValid card_made)

release_card-Released_example :
    Released environment refl after_card
      (without_card after_card
        (record { id = 942953097; pcsc_handle = 0; client_context = 3 } ∷ replicate 63 free_card)
        (slot_number pp_card_magic 942953097))
      (record { id = 942953097; pcsc_handle = 0; client_context = 3 } ∷ replicate 63 free_card)
      942953097
release_card-Released_example =
    release_card-Released environment refl after_card
      (record { id = 942953097; pcsc_handle = 0; client_context = 3 } ∷ replicate 63 free_card)
      942953097 after_card-IsValid refl (omega arith)

-- a build without the unencrypted transport, where the environment asks for it
abbrev wrong_build : Environment
wrong_build = record environment { enable_nullenc = false; nullenc_env = some (b'1' ∷ []) }

-- TLS operations of which none succeeds
abbrev no_opts : Tls → TlsOpts ℕ
no_opts g = record {
  init_client = λ w. (w, none);
  fini_client = λ w t. w;
  client_set_srp_auth = λ w t name password. (w, false);
  init_client_session = λ w t sock. (w, none);
  fini_client_session = λ w t s. w;
  recv = λ w s m. (w, m, failed);
  send = λ w s m. (w, unsent);
  get_socket = λ w s. 0;
}

create_context-hangs_example :
    (c' : Client ℕ) × (pp_create_context wrong_build no_opts fresh ≡ done none c')
    × (pp_find_context wrong_build 5 c' ≡ hangs)
    × (pp_release_context wrong_build 5 c' ≡ hangs)
    × (pp_create_context wrong_build no_opts c' ≡ hangs)
unfolding pp_tlsopts_init_any
create_context-hangs_example =
    create_context-hangs wrong_build no_opts fresh (b'1' ∷ []) 5 refl refl refl refl refl refl
