-- ===== src/Client/Keeps.antt =====
-- Code that keeps the tables of src/client/client.c in order, whichever way it ends: the rules, and the
-- functions that every call goes through.
pub mod Exchange
pub mod Calls
pub mod CardCalls
pub mod Reached
use mathlib.Core.Path.{subst}
use pcsc_proxy_android.Prelude.{
  ℕ, ◌+◌, ◌≡◌, ◌≢◌, ◌⊎◌, inl, inr, refl, sym, ◌∙◌, ap, Bool, true, false, Option, none, some, List,
  arith, length, length-set, get_elem?, set, if◌then◌else◌,
}
use pcsc_proxy_android.Memory.{Bytes}
use pcsc_proxy_android.Client.State.{
  pp_context_magic, pp_card_magic, ClientContext, CardContext, Tls, TlsOpts, Environment, Client,
  Result, done, undefined, hangs, M, pure, ◌>>=◌, free_context, free_card,
}
use pcsc_proxy_android.Client.Slots.{
  slot_number, Numbered-set, Numbered-get, IsTable, Found, missing, past_end, at,
}
use pcsc_proxy_android.Client.Tables.{
  context_id, card_id, under_context_lock, under_card_lock, located, pp_find_context, pp_find_card,
  pp_release_context, pp_release_card,
}
use pcsc_proxy_android.Client.Tables.Laws.{IsValid}
use pcsc_proxy_android.Client.Exchange.{
  Network, context_at, card_at, store_context, store_card, transfer, start_session, connect_session,
  pp_exchange_msg,
}

-- A call that returns leaves a valid client, and a result with `Q`.
pub data Ends {W A : Type 0} (Q : A → Type 0) : Result (Client W) A → Type 0 where
  returned : {a : A} {c : Client W} → IsValid c → Q a → Ends Q (done a c)
  lost : Ends Q undefined
  waits : Ends Q hangs

pub record Keeps {W A : Type 0} (Q : A → Type 0) (m : M W A) : Type 0 where
  pub ends : (c : Client W) → IsValid c → Ends Q (m c)

-- no more is said of the result
abbrev pub Any : {A : Type 0} → A → Type 0
Any a = Unit {0}

-- a slot as the table `id` may hold it at `i`
abbrev pub Fits : {A : Type 0} → (A → ℕ) → (magic i : ℕ) → A → Type 0
Fits id magic i a = (id a ≡ 0) ⊎ (id a ≡ i + magic)

-- A slot is written with what fits it.
pub context_written-IsTable :
    (xs : List ClientContext) (i : ℕ) (x : ClientContext)
    → IsTable context_id pp_context_magic (some xs)
    → Fits context_id pp_context_magic i x
    → IsTable context_id pp_context_magic (some (set xs i x))
context_written-IsTable xs i x t f =
    (length-set xs i x ∙ t.0, Numbered-set context_id pp_context_magic 0 xs i x t.1 (omega arith))

pub card_written-IsTable :
    (xs : List CardContext) (i : ℕ) (x : CardContext)
    → IsTable card_id pp_card_magic (some xs)
    → Fits card_id pp_card_magic i x
    → IsTable card_id pp_card_magic (some (set xs i x))
card_written-IsTable xs i x t f =
    (length-set xs i x ∙ t.0, Numbered-set card_id pp_card_magic 0 xs i x t.1 (omega arith))

module _ {W A B : Type 0} where
  then-Ends :
      (Q : A → Type 0) (R : B → Type 0) (f : A → M W B) (r : Result (Client W) A)
      → Ends Q r
      → ((a : A) → Q a → Keeps R (f a))
      → Ends R (elim r [ done a c ↦ f a c | undefined ↦ undefined | hangs ↦ hangs ])
  then-Ends Q R f (done a c) (returned v q) k = (k a q).ends c v
  then-Ends Q R f undefined lost k = lost
  then-Ends Q R f hangs waits k = waits

  pub Keeps->>= :
      {Q : A → Type 0} {R : B → Type 0} (m : M W A) (f : A → M W B)
      → Keeps Q m
      → ((a : A) → Q a → Keeps R (f a))
      → Keeps R (m >>= f)
  Keeps->>= {Q} {R} m f h k = record { ends = λ c v. then-Ends Q R f (m c) (h.ends c v) k }

module _ {W A : Type 0} where
  pub Keeps-pure : {Q : A → Type 0} (a : A) → Q a → Keeps Q (pure {W = W} a)
  Keeps-pure a q = record { ends = λ c v. returned v q }

  pub Keeps-if :
      {Q : A → Type 0} (b : Bool) {m n : M W A}
      → Keeps Q m
      → Keeps Q n
      → Keeps Q (if b then m else n)
  Keeps-if true h k = h
  Keeps-if false h k = k

module _ {W A : Type 0} (Q : A → Type 0) where
  -- A split on a value that may be missing keeps the equation.
  pub option-Ends :
      {X : Type 0} (o : Option X) (n : Result (Client W) A) (s : X → Result (Client W) A)
      → Ends Q n
      → ((x : X) → o ≡ some x → Ends Q (s x))
      → Ends Q (elim o [ none ↦ n | some x ↦ s x ])
  option-Ends none n s h k = h
  option-Ends (some x) n s h k = k x refl

  pub option-Ends_both :
      {X : Type 0} (o : Option X) (n : Result (Client W) A) (s : X → Result (Client W) A)
      → (o ≡ none → Ends Q n)
      → ((x : X) → o ≡ some x → Ends Q (s x))
      → Ends Q (elim o [ none ↦ n | some x ↦ s x ])
  option-Ends_both none n s h k = h refl
  option-Ends_both (some x) n s h k = k x refl

  pub if-Ends :
      (b : Bool) (m n : Result (Client W) A) → Ends Q m → Ends Q n → Ends Q (if b then m else n)
  if-Ends true m n h k = h
  if-Ends false m n h k = k

module _ {W : Type 0} where
  pub contexts-IsTable :
      (c : Client W) (xs : List ClientContext)
      → IsValid c
      → c.contexts ≡ some xs
      → IsTable context_id pp_context_magic (some xs)
  contexts-IsTable c xs v e = subst (λ o. IsTable context_id pp_context_magic o) e v.contexts_table

  pub cards-IsTable :
      (c : Client W) (xs : List CardContext)
      → IsValid c
      → c.cards ≡ some xs
      → IsTable card_id pp_card_magic (some xs)
  cards-IsTable c xs v e = subst (λ o. IsTable card_id pp_card_magic o) e v.cards_table

  -- The client with another table, and whatever else is not the cards.
  abbrev pub new_contexts-IsValid :
      {c : Client W} {xs : List ClientContext} {o : Option Tls} {w : W}
      → IsValid c
      → IsTable context_id pp_context_magic (some xs)
      → IsValid (record c { contexts = some xs; tlsopts = o; world = w })
  new_contexts-IsValid v t = record {
    contexts_open = v.contexts_open;
    cards_open = v.cards_open;
    contexts_table = t;
    cards_table = v.cards_table;
  }

  abbrev pub new_cards-IsValid :
      {c : Client W} {xs : List CardContext} {o : Option Tls} {w : W}
      → IsValid c
      → IsTable card_id pp_card_magic (some xs)
      → IsValid (record c { cards = some xs; tlsopts = o; world = w })
  new_cards-IsValid v t = record {
    contexts_open = v.contexts_open;
    cards_open = v.cards_open;
    contexts_table = v.contexts_table;
    cards_table = t;
  }

  pub found-Ends : (c : Client W) → IsValid c → (f : Found) → Ends {A = Option ℕ} Any (located f c)
  found-Ends c v missing = returned v tt
  found-Ends c v past_end = lost
  found-Ends c v (at i) = returned v tt

  pub context_at-Keeps : (i : ℕ) → Keeps (Fits context_id pp_context_magic i) (context_at {W = W} i)
  unfolding context_at
  context_at-Keeps i = record {
    ends = λ c v. option-Ends _ c.contexts _ _ lost (λ xs e.
        option-Ends _ (get_elem? xs i) _ _ lost (λ x g. returned v (
          omega (
            arith,
            Numbered-get context_id pp_context_magic 0 xs i x (contexts-IsTable c xs v e).1 g,
          ))));
  }

  pub card_at-Keeps : (i : ℕ) → Keeps (Fits card_id pp_card_magic i) (card_at {W = W} i)
  unfolding card_at
  card_at-Keeps i = record {
    ends = λ c v. option-Ends _ c.cards _ _ lost (λ xs e.
        option-Ends _ (get_elem? xs i) _ _ lost (λ x g. returned v (
          omega
            (arith, Numbered-get card_id pp_card_magic 0 xs i x (cards-IsTable c xs v e).1 g))));
  }

  pub store_context-Keeps :
      (i : ℕ) (x : ClientContext)
      → Fits context_id pp_context_magic i x
      → Keeps Any (store_context {W = W} i x)
  unfolding store_context
  store_context-Keeps i x f = record {
    ends = λ c v. option-Ends _ c.contexts _ _ lost (λ xs e.
        returned
          (new_contexts-IsValid v (context_written-IsTable xs i x (contexts-IsTable c xs v e) f))
          tt);
  }

  pub store_card-Keeps :
      (i : ℕ) (x : CardContext)
      → Fits card_id pp_card_magic i x
      → Keeps Any (store_card {W = W} i x)
  unfolding store_card
  store_card-Keeps i x f = record {
    ends = λ c v. option-Ends _ c.cards _ _ lost (λ xs e.
        returned (new_cards-IsValid v (card_written-IsTable xs i x (cards-IsTable c xs v e) f)) tt);
  }

  pub under_context_lock-Keeps :
      {A : Type 0} {Q : A → Type 0} (env : Environment) (failed : A) (body : M W A)
      → Q failed
      → Keeps Q body
      → Keeps Q (under_context_lock env failed body)
  unfolding under_context_lock
  under_context_lock-Keeps {Q} env failed body q k = record {
    ends = λ c v.
        if-Ends Q c.context_locked hangs _ waits
          (if-Ends Q _ (body c) (done failed c) (k.ends c v) (returned v q));
  }

  pub under_card_lock-Keeps :
      {A : Type 0} {Q : A → Type 0} (env : Environment) (failed : A) (body : M W A)
      → Q failed
      → Keeps Q body
      → Keeps Q (under_card_lock env failed body)
  unfolding under_card_lock
  under_card_lock-Keeps {Q} env failed body q k = record {
    ends = λ c v.
        if-Ends Q c.card_locked hangs _ waits
          (if-Ends Q _ (body c) (done failed c) (k.ends c v) (returned v q));
  }

  pub find_context-Keeps : (env : Environment) (id : ℕ) → Keeps Any (pp_find_context {W = W} env id)
  unfolding pp_find_context
  find_context-Keeps env id = under_context_lock-Keeps env none _ tt (record {
    ends = λ c v.
        option-Ends Any c.contexts (done none c) _ (returned v tt) (λ xs e. found-Ends c v _);
  })

  pub find_card-Keeps : (env : Environment) (id : ℕ) → Keeps Any (pp_find_card {W = W} env id)
  unfolding pp_find_card
  find_card-Keeps env id = under_card_lock-Keeps env none _ tt (record {
    ends =
        λ c v. option-Ends Any c.cards (done none c) _ (returned v tt) (λ xs e. found-Ends c v _);
  })

  pub release_context-Keeps :
      (env : Environment) (id : ℕ) → Keeps Any (pp_release_context {W = W} env id)
  unfolding pp_release_context
  release_context-Keeps env id = under_context_lock-Keeps env tt _ tt (record {
    ends = λ c v. option-Ends Any c.contexts (done tt c) _ (returned v tt) (λ xs e.
        if-Ends Any _ (done tt c) _ (returned v tt) (
          if-Ends Any _ undefined _ lost (
            returned
              (new_contexts-IsValid v
                (context_written-IsTable xs _ _ (contexts-IsTable c xs v e) (inl refl)))
              tt)));
  })

  pub release_card-Keeps : (env : Environment) (id : ℕ) → Keeps Any (pp_release_card {W = W} env id)
  unfolding pp_release_card
  release_card-Keeps env id = under_card_lock-Keeps env tt _ tt (record {
    ends = λ c v. option-Ends Any c.cards (done tt c) _ (returned v tt) (λ xs e.
        if-Ends Any _ (done tt c) _ (returned v tt) (
          if-Ends Any _ undefined _ lost (
            returned
              (new_cards-IsValid v
                (card_written-IsTable xs _ _ (cards-IsTable c xs v e) (inl refl)))
              tt)));
  })
