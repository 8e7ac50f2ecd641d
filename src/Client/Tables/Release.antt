-- ===== src/Client/Tables/Release.antt =====
-- What `pp_releaseCard` and `pp_releaseContext` of src/client/client.c do to the tables.
use pcsc_proxy_android.Prelude.{
  ℕ, ◌<◌, ◌≡◌, ◌≢◌, refl, ◌∙◌, ap, false, none, some, List, arith, set, get_or,
}
use mathlib.Core.Path.{subst}
use pcsc_proxy_android.Client.State.{
  pp_card_magic, pp_context_magic, CardContext, ClientContext, free_card, free_context, Client,
  Environment, done,
}
use pcsc_proxy_android.Client.Slots.{slot_number, find_slot, Frees, set-Frees, IsTable}
use pcsc_proxy_android.Client.Tables.{
  card_id, located, pp_find_card, pp_release_card, pp_release_context,
}
use pcsc_proxy_android.Client.Tables.Laws.{IsValid, find_card_eq}

-- the tables without the card or the context in slot `i`
abbrev pub without_card : {W : Type 0} → Client W → List CardContext → ℕ → Client W
without_card c xs i = record c {
  cards = some (set xs i (record (get_or xs i free_card) { id = 0 }));
}

abbrev pub without_context : {W : Type 0} → Client W → List ClientContext → ℕ → Client W
without_context c xs i = record c {
  contexts = some (set xs i (record (get_or xs i free_context) { id = 0 }));
}

module _ {W : Type 0} (env : Environment) (ready : env.mutex_rv ≡ 0) where
  release_card_eq :
      (c : Client W) (xs : List CardContext) (id i : ℕ)
      → c.card_locked ≡ false
      → c.cards ≡ some xs
      → slot_number pp_card_magic id ≡ i
      → i < 64
      → pp_release_card env id c ≡ done tt (without_card c xs i)
  unfolding pp_release_card
  release_card_eq c xs id i l e n h = ground arith

  pub release_context_eq :
      (c : Client W) (xs : List ClientContext) (id i : ℕ)
      → c.context_locked ≡ false
      → c.contexts ≡ some xs
      → slot_number pp_context_magic id ≡ i
      → i < 64
      → pp_release_context env id c ≡ done tt (without_context c xs i)
  unfolding pp_release_context
  release_context_eq c xs id i l e n h = ground arith

  -- What the release of an id does: it returns, the id leads nowhere any more, every id of another
  -- number leads where it led before, and the tables are valid.
  pub record Released (c c' : Client W) (xs : List CardContext) (id : ℕ) : Type 0 where
    pub returns : pp_release_card env id c ≡ done tt c'
    pub gone : pp_find_card env id c' ≡ done none c'
    pub others :
        (j : ℕ)
        → slot_number pp_card_magic j ≢ slot_number pp_card_magic id
        → pp_find_card env j c' ≡ located (find_slot card_id xs (slot_number pp_card_magic j)) c'
    pub contexts_kept : c'.contexts ≡ c.contexts
    pub valid : IsValid c'

  -- On a valid client with a table of cards, `pp_releaseCard` of an id whose number is below 64,
  -- in use or not: it returns, the id leads nowhere any more, every id of another number leads
  -- where it led before, and the client is valid again.
  pub release_card-Released :
      (c : Client W) (xs : List CardContext) (id : ℕ)
      → IsValid c
      → c.cards ≡ some xs
      → slot_number pp_card_magic id < 64
      → Released c (without_card c xs (slot_number pp_card_magic id)) xs id
  release_card-Released c xs id v e h = record {
    returns = release_card_eq c xs id i v.cards_open e refl h;
    gone = find_card_eq env ready c' _ id v.cards_open refl ∙ ap (λ f. located f c') f.gone;
    others = λ j n.
        find_card_eq env ready c' _ j v.cards_open refl
        ∙ ap (λ f. located f c') (f.others (slot_number pp_card_magic j) n);
    contexts_kept = refl;
    valid = record {
      contexts_open = v.contexts_open;
      cards_open = v.cards_open;
      contexts_table = v.contexts_table;
      cards_table = f.table;
    };
  }
    where
      i : ℕ
      i = slot_number pp_card_magic id

      c' : Client W
      c' = without_card c xs i

      f : Frees card_id pp_card_magic xs i (record (get_or xs i free_card) { id = 0 })
      f =
          set-Frees card_id pp_card_magic xs i _
            (subst (λ o. IsTable card_id pp_card_magic o) e v.cards_table) h refl
