-- ===== src/Client/Tables/Laws.antt =====
-- The table of cards and the table of contexts: ids, slots, and what the find, create and release
-- functions do to them.
use pcsc_proxy_android.Prelude.{
  true, ℕ, ◌+◌, ◌%◌, ◌^◌, ◌<◌, ◌≡◌, refl, ap, sym, ◌∙◌, ◌≢◌, false, Option, none, some, List, arith,
  length, set, get_or, get_elem?, replicate,
}
use mathlib.Core.Path.{subst}
use pcsc_proxy_android.Client.State.{
  pp_max_context, pp_context_magic, pp_card_magic, ClientContext, CardContext, free_card, Client,
  Environment, done,
}
use pcsc_proxy_android.Client.Slots.{
  slot_number, Found, missing, find_slot, free_slot, IsTable, Takes, set-Takes, free_slot-lt,
  replicate-IsTable, FindsSlot, find_slot-FindsSlot,
}
use pcsc_proxy_android.Client.Tables.{
  context_id, card_id, located, pp_find_context, pp_find_card, pp_create_card, take_card,
}

-- Between two calls: both mutexes are free, and both arrays are tables.
pub record IsValid {W : Type 0} (c : Client W) : Type 0 where
  pub contexts_open : c.context_locked ≡ false
  pub cards_open : c.card_locked ≡ false
  pub contexts_table : IsTable context_id pp_context_magic c.contexts
  pub cards_table : IsTable card_id pp_card_magic c.cards

-- The id of slot `i`.
pub slot_number_card : (i : ℕ) → i < 64 → slot_number pp_card_magic (i + pp_card_magic) ≡ i
slot_number_card i h = omega arith

pub slot_number_context : (i : ℕ) → i < 64 → slot_number pp_context_magic (i + pp_context_magic) ≡ i
slot_number_context i h = omega arith

table_length :
    {W : Type 0} (c : Client W) (xs : List CardContext)
    → IsValid c
    → c.cards ≡ some xs
    → length xs ≡ pp_max_context
table_length c xs v e = ground (arith, v.cards_table)

-- the cards in the table; where it is not there yet, those that it begins with
abbrev pub cards_of : Option (List CardContext) → List CardContext
cards_of none = replicate pp_max_context free_card
cards_of (some xs) = xs

pub cards_of-IsTable :
    (o : Option (List CardContext))
    → IsTable card_id pp_card_magic o
    → IsTable card_id pp_card_magic (some (cards_of o))
cards_of-IsTable none t = replicate-IsTable card_id pp_card_magic free_card refl
cards_of-IsTable (some xs) t = t

-- what `pp_createCard` writes into slot `i`
abbrev pub new_card : List CardContext → ℕ → ℕ → CardContext
new_card xs i ctx = record (get_or xs i free_card) {
  id = (i + pp_card_magic) % 2 ^ 32;
  client_context = ctx;
}

module _ {W : Type 0} (env : Environment) (ready : env.mutex_rv ≡ 0) where
  pub find_card_eq :
      (c : Client W) (xs : List CardContext) (id : ℕ)
      → c.card_locked ≡ false
      → c.cards ≡ some xs
      → pp_find_card env id c ≡ located (find_slot card_id xs (slot_number pp_card_magic id)) c
  unfolding pp_find_card
  find_card_eq c xs id l e = ground arith

  pub find_context_eq :
      (c : Client W) (xs : List ClientContext) (id : ℕ)
      → c.context_locked ≡ false
      → c.contexts ≡ some xs
      → pp_find_context env id c
        ≡ located (find_slot context_id xs (slot_number pp_context_magic id)) c
  unfolding pp_find_context
  find_context_eq c xs id l e = ground arith

  -- On a valid client with a table of cards, for any id: a search finds the slot of its number if
  -- that is below 64 and in use, finds nothing if the slot is free or the number is above 64, and
  -- reads past the array if the number is 64.
  pub find_card-FindsSlot :
      (c : Client W) (xs : List CardContext) (id : ℕ)
      → IsValid c
      → c.cards ≡ some xs
      → (f : Found) × FindsSlot card_id xs (slot_number pp_card_magic id) f
        × (pp_find_card env id c ≡ located f c)
  find_card-FindsSlot c xs id v e = (
    find_slot card_id xs (slot_number pp_card_magic id),
    find_slot-FindsSlot card_id xs (slot_number pp_card_magic id) (table_length c xs v e),
    find_card_eq c xs id v.cards_open e,
  )

  take_card-some :
      (ctx : ℕ) (c c' : Client W) (xs : List CardContext) (i : ℕ)
      → take_card env ctx xs c ≡ done (some i) c'
      → (free_slot card_id xs ≡ some i)
        × (c' ≡ record c { cards = some (set xs i (new_card xs i ctx)) })
  unfolding take_card
  take_card-some ctx c c' xs i h = ground arith

  pub create_card-some :
      (ctx : ℕ) (c c' : Client W) (i : ℕ)
      → pp_create_card env ctx c ≡ done (some i) c'
      → (free_slot card_id (cards_of c.cards) ≡ some i)
        × (c' ≡ record c {
          cards = some (set (cards_of c.cards) i (new_card (cards_of c.cards) i ctx));
        })
  unfolding pp_create_card
  create_card-some ctx c c' i h = ground (arith, take_card-some ctx c c' (cards_of c.cards) i)

  -- What `pp_createCard` does when it succeeds: the card takes the first free slot, under the id of
  -- its number; a search for that id finds it, with the context it was made for; every other id leads
  -- where it led before; and the tables stay valid.
  pub record CardCreated (ctx : ℕ) (c c' : Client W) (i : ℕ) : Type 0 where
    pub in_table : i < 64
    pub fresh : find_slot card_id (cards_of c.cards) i ≡ missing
    pub found : pp_find_card env (i + pp_card_magic) c' ≡ done (some i) c'
    pub card : get_elem? (cards_of c'.cards) i ≡ some (new_card (cards_of c.cards) i ctx)
    pub others :
        (id : ℕ)
        → slot_number pp_card_magic id ≢ i
        → pp_find_card env id c'
          ≡ located (find_slot card_id (cards_of c.cards) (slot_number pp_card_magic id)) c'
    pub contexts_kept : c'.contexts ≡ c.contexts
    pub valid : IsValid c'

  -- On a valid client, whatever it was given: a `pp_createCard` that returns slot `i` has taken a free
  -- slot of the 64, a search for its id finds it with the context it was made for, every other id
  -- leads where it led before, the contexts are untouched, and the client is valid again.
  pub create_card-CardCreated :
      (ctx : ℕ) (c c' : Client W) (i : ℕ)
      → IsValid c
      → pp_create_card env ctx c ≡ done (some i) c'
      → CardCreated ctx c c' i
  create_card-CardCreated ctx c c' i v h =
      subst (λ k. CardCreated ctx c k i) (sym s.1)
        record {
          in_table = t.in_table;
          fresh = t.fresh;
          found =
              find_card_eq after (set xs i card) (i + pp_card_magic) v.cards_open refl
              ∙ ap (λ k. located (find_slot card_id (set xs i card) k) after)
                  (slot_number_card i t.in_table)
              ∙ ap (λ f. located f after) t.found;
          card = t.stored;
          others = λ id n.
              find_card_eq after (set xs i card) id v.cards_open refl
              ∙ ap (λ f. located f after) (t.others (slot_number pp_card_magic id) n);
          contexts_kept = refl;
          valid = record {
            contexts_open = v.contexts_open;
            cards_open = v.cards_open;
            contexts_table = v.contexts_table;
            cards_table = t.table;
          };
        }
    where
      xs : List CardContext
      xs = cards_of c.cards

      card : CardContext
      card = new_card xs i ctx

      after : Client W
      after = record c { cards = some (set xs i card) }

      s : (free_slot card_id xs ≡ some i) × (c' ≡ after)
      s = create_card-some ctx c c' i h

      t : Takes card_id pp_card_magic xs i card
      t =
          set-Takes card_id pp_card_magic xs i card (omega arith) table s.0
            (omega (arith, free_slot-lt card_id xs i s.0, table.0))
        where
          table : IsTable card_id pp_card_magic (some xs)
          table = cards_of-IsTable c.cards v.cards_table

  create_card_enters :
      (ctx : ℕ) (c : Client W)
      → env.malloc_ok ≡ true
      → c.card_locked ≡ false
      → pp_create_card env ctx c ≡ take_card env ctx (cards_of c.cards) c
  unfolding pp_create_card
  create_card_enters ctx c a l = ground arith

  take_card_eq :
      (ctx : ℕ) (c : Client W) (xs : List CardContext) (i : ℕ)
      → free_slot card_id xs ≡ some i
      → take_card env ctx xs c
        ≡ done (some i) (record c { cards = some (set xs i (new_card xs i ctx)) })
  unfolding take_card
  take_card_eq ctx c xs i f = rw (f, take_card) refl

  pub create_card_eq :
      (ctx : ℕ) (c : Client W) (i : ℕ)
      → env.malloc_ok ≡ true
      → c.card_locked ≡ false
      → free_slot card_id (cards_of c.cards) ≡ some i
      → pp_create_card env ctx c
        ≡ done (some i) (record c {
          cards = some (set (cards_of c.cards) i (new_card (cards_of c.cards) i ctx));
        })
  create_card_eq ctx c i a l f =
      create_card_enters ctx c a l ∙ take_card_eq ctx c (cards_of c.cards) i f
