-- ===== src/Link/Change/Put.antt =====
-- The reader states on their way to the library: the first loops of `SCardGetStatusChange`
-- (src/client/client.c) and `handleGetStatusChange` (src/server/server.c).
use pcsc_proxy_android.Prelude.{
  ℕ, ◌+◌, ◌*◌, ◌≤◌, ◌<◌, ◌≡◌, ◌≢◌, refl, sym, ◌∙◌, ap, inl, inr, ◌⊎◌, Option, none, some, List, [],
  ◌∷◌, arith, length, take, get_or, ◌-◌, length-take, ltb, ◌==◌, ne→==, if◌then◌else◌, lt→ltb,
}
use pcsc_proxy_android.Memory.{Bytes, load32, store32, store_bytes, load_bytes}
use pcsc_proxy_android.Memory.Laws.{
  load_bytes_eq, load_bytes-store_bytes, load32-store32, load32_eq, store32_outside,
  store_bytes_outside, store_bytes_inside, length-load_bytes,
}
use pcsc_proxy_android.Message.Layout.{max_atr_size, header_len}
use pcsc_proxy_android.Server.Pcsc.{ReaderState}
use pcsc_proxy_android.Server.Lengths.{clamp}
use pcsc_proxy_android.Server.Handlers.{pointer}
use pcsc_proxy_android.Server.StatusChange.{read_state, read_states}
use pcsc_proxy_android.Client.Calls.StatusChange.{State, store_name, put_state, put_states}
use pcsc_proxy_android.Link.Calls.{word}
use pcsc_proxy_android.Link.Transmit.{past}
use pcsc_proxy_android.Link.Fixed.{beside}
use pcsc_proxy_android.Link.ConnectAnswer.{load_bytes-pointer}

-- The name of a reader as the library sees it: NULL for no name, else memory that begins with the
-- first 127 characters and a zero byte.
pub data Named : Option (List ℕ) → Option Bytes → Type 0 where
  unnamed : Named none none
  blank_name : Named (some []) none
  named :
      (x : ℕ) (xs : List ℕ) (b : Bytes)
      → x ≢ 0
      → load_bytes b 0 (length (take 127 (x ∷ xs))) ≡ take 127 (x ∷ xs)
      → b (length (take 127 (x ∷ xs))) ≡ 0
      → Named (some (x ∷ xs)) (some b)

-- the bytes of an ATR that are copied
abbrev pub atr_count : State → ℕ
atr_count s = clamp max_atr_size (word s.cb_atr)

-- What the library sees of a reader state of the application.
pub record Shows (s : State) (r : ReaderState) : Type 0 where
  pub name : Named s.reader r.reader
  pub current : r.current_state ≡ word s.current_state
  pub event : r.event_state ≡ word s.event_state
  pub count : r.cb_atr ≡ atr_count s
  pub atr : load_bytes r.rgb_atr 0 (atr_count s) ≡ load_bytes s.rgb_atr 0 (atr_count s)

pub data AllShow : List State → List ReaderState → Type 0 where
  no_more : AllShow [] []
  and_more :
      {s : State} {r : ReaderState} {ss : List State} {rs : List ReaderState}
      → Shows s r
      → AllShow ss rs
      → AllShow (s ∷ ss) (r ∷ rs)

-- The application's name is text in front of a zero byte.
abbrev pub IsText : State → Type 0
IsText s = (x : ℕ) (xs : List ℕ) → s.reader ≡ some (x ∷ xs) → x ≢ 0

count_small :
    (s : State)
    → (atr_count s ≤ 33)
      × (word (atr_count s) ≡ atr_count s)
      × (clamp max_atr_size (atr_count s) ≡ atr_count s)
count_small s = (ground arith, ground arith, ground arith)

module _ (m : Bytes) (o : ℕ) (s : State) (low : 21 ≤ o) where
  -- the message with the words in it, and with the ATR
  abbrev worded : Bytes
  worded =
      store32
        (store32 (store32 (store_name m o s.reader) (o + 128) s.current_state) (o + 132)
          s.event_state)
        (o + 169) (atr_count s)

  abbrev with_atr : Bytes
  with_atr = store_bytes worded (o + 136) (load_bytes s.rgb_atr 0 (atr_count s))

  short : length (load_bytes s.rgb_atr 0 (atr_count s)) ≤ 33
  short = omega (arith, length-load_bytes s.rgb_atr 0 (atr_count s), (count_small s).0)

  named_outside : (q : ℕ) → (q < o) ⊎ (o + 127 ≤ q) → store_name m o s.reader q ≡ m q
  named_outside q h = by_name s.reader
    where
      by_name : (r : Option (List ℕ)) → store_name m o r q ≡ m q
      by_name none = refl
      by_name (some xs) =
          store_bytes_outside m o (take 127 xs) q (omega (arith, length-take 127 xs))

  -- Nothing is written outside the state but the length of the message.
  pub put_state_outside :
      (q : ℕ) → (q < o) ⊎ (o + 173 ≤ q) → (q < 1) ⊎ (5 ≤ q) → put_state m o s q ≡ m q
  unfolding put_state
  put_state_outside q h k =
      store32_outside with_atr header_len _ q (omega arith)
      ∙ store_bytes_outside worded (o + 136) _ q (omega (arith, short))
      ∙ store32_outside _ (o + 169) _ q (omega arith)
      ∙ store32_outside _ (o + 132) _ q (omega arith)
      ∙ store32_outside _ (o + 128) _ q (omega arith)
      ∙ named_outside q (omega arith)

  -- the message is longer by one state
  pub put_state_len : load32 (put_state m o s) header_len ≡ word (load32 m header_len + 173)
  unfolding put_state
  put_state_len =
      load32-store32 _ _ _
      ∙ ap (λ n. word (n + 173))
          (beside worded (o + 136) _ 1 (inr (omega arith)) (
            past _ _ _ 1 (omega arith) (
              past _ _ _ 1 (omega arith) (
                past _ _ _ 1 (omega arith) (
                  load32_eq (store_name m o s.reader) m 1
                    (λ q a b. named_outside q (omega arith)))))))

  module _ (z : Bytes) (same : (q : ℕ) → o ≤ q → q < o + 173 → z q ≡ put_state m o s q)
      (empty : (q : ℕ) → o ≤ q → m q ≡ 0) (text : IsText s) where
    -- the state before the length is changed
    from : (q : ℕ) → o ≤ q → q < o + 173 → z q ≡ with_atr q
    unfolding put_state
    from q a b = same q a b ∙ store32_outside with_atr header_len _ q (omega arith)

    from_word : (q : ℕ) → o ≤ q → q + 4 ≤ o + 173 → load32 z q ≡ load32 with_atr q
    from_word q a b = load32_eq z with_atr q (λ i c d. from i (omega arith) (omega arith))

    came_count : load32 z (o + 169) ≡ atr_count s
    came_count =
        from_word (o + 169) (omega arith) (omega arith)
        ∙ beside worded (o + 136) _ (o + 169) (omega (arith, short)) (load32-store32 _ _ _)
        ∙ (count_small s).1

    came_name : (q : ℕ) → o ≤ q → q < o + 128 → z q ≡ store_name m o s.reader q
    came_name q a b =
        from q a (omega arith)
        ∙ store_bytes_outside worded (o + 136) _ q (omega (arith, short))
        ∙ store32_outside _ (o + 169) _ q (omega arith)
        ∙ store32_outside _ (o + 132) _ q (omega arith)
        ∙ store32_outside _ (o + 128) _ q (omega arith)

    name_shown :
        (r : Option (List ℕ))
        → ((x : ℕ) (xs : List ℕ) → r ≡ some (x ∷ xs) → x ≢ 0)
        → ((q : ℕ) → o ≤ q → q < o + 128 → z q ≡ store_name m o r q)
        → Named r (if z o == 0 then none else some (pointer z o))
    name_shown none t c = rw (c o (omega arith) (omega arith) ∙ empty o (omega arith)) unnamed
    name_shown (some []) t c =
        rw
          (c o (omega arith) (omega arith)
            ∙ store_bytes_outside m o [] o (inr (omega arith))
            ∙ empty o (omega arith))
          blank_name
    name_shown (some (x ∷ xs)) t c = rw (ne→== (z o) 0 (λ e. t x xs refl (sym first ∙ e))) (
        named x xs (pointer z o) (t x xs refl)
          (load_bytes-pointer z o (length (take 127 (x ∷ xs))) 0 ∙ whole)
          (c (o + length (take 127 (x ∷ xs))) (omega arith) (omega (arith, bound))
            ∙ store_bytes_outside m o (take 127 (x ∷ xs)) _ (inr (omega arith))
            ∙ empty _ (omega arith)))
      where
        bound : length (take 127 (x ∷ xs)) ≤ 127
        bound = omega (arith, length-take 127 (x ∷ xs))

        whole : load_bytes z (o + 0) (length (take 127 (x ∷ xs))) ≡ take 127 (x ∷ xs)
        whole =
            ap (λ k. load_bytes z k (length (take 127 (x ∷ xs))))
              (let e : o + 0 ≡ o = omega arith in e)
            ∙ load_bytes_eq z (store_bytes m o (take 127 (x ∷ xs))) o (length (take 127 (x ∷ xs)))
                (λ q a b. c q a (omega (arith, bound)))
            ∙ load_bytes-store_bytes m o (take 127 (x ∷ xs))

        first : z o ≡ x
        first =
            c o (omega arith) (omega arith)
            ∙ store_bytes_inside m o (take 127 (x ∷ xs)) o (omega arith)
            ∙ ap (λ k. get_or (take 127 (x ∷ xs)) k (m o)) (let e : o - o ≡ 0 = omega arith in e)

    within :
        (n q : ℕ)
        → q < clamp max_atr_size n
        → (if ltb q (clamp max_atr_size n) then z (o + 136 + q) else 0) ≡ z (o + 136 + q)
    within n q h = rw (lt→ltb q (clamp max_atr_size n) h) refl

    -- One state shows itself as it was put.
    read_state-Shows : Shows s (read_state z o)
    unfolding read_state
    read_state-Shows = record {
      name = name_shown s.reader text came_name;
      current =
          from_word (o + 128) (omega arith) (omega arith)
          ∙ beside worded (o + 136) _ (o + 128) (inr (omega arith)) (
              past _ _ _ _ (inr (omega arith))
                (past _ _ _ _ (inr (omega arith)) (load32-store32 _ _ _)));
      event =
          from_word (o + 132) (omega arith) (omega arith)
          ∙ beside worded (o + 136) _ (o + 132) (inr (omega arith))
              (past _ _ _ _ (inr (omega arith)) (load32-store32 _ _ _));
      count = ap (clamp max_atr_size) came_count ∙ (count_small s).2;
      atr =
          load_bytes_eq (read_state z o).rgb_atr (pointer z (o + 136)) 0 (atr_count s) (λ q a b.
            within (load32 z (o + 169)) q
              (omega (arith, ap (clamp max_atr_size) came_count, (count_small s).2)))
          ∙ load_bytes-pointer z (o + 136) (atr_count s) 0
          ∙ ap (λ k. load_bytes z k (atr_count s))
              (let e : o + 136 + 0 ≡ o + 136 = omega arith in e)
          ∙ load_bytes_eq z with_atr (o + 136) (atr_count s)
              (λ q a b. from q (omega arith) (omega (arith, (count_small s).0)))
          ∙ ap (load_bytes with_atr (o + 136)) (sym (length-load_bytes s.rgb_atr 0 (atr_count s)))
          ∙ load_bytes-store_bytes worded (o + 136) (load_bytes s.rgb_atr 0 (atr_count s));
    }

abbrev pub Texts : List State → Type 0
Texts [] = Unit
Texts (s ∷ ss) = IsText s × Texts ss

pub put_states_outside :
    (ss : List State) (m : Bytes) (o q : ℕ)
    → 21 ≤ o
    → q < o
    → (q < 1) ⊎ (5 ≤ q)
    → put_states ss m o q ≡ m q
unfolding put_states
put_states_outside [] m o q h l k = refl
put_states_outside (s ∷ ss) m o q h l k =
    put_states_outside ss (put_state m o s) (o + 173) q (omega arith) (omega arith) k
    ∙ put_state_outside m o s h q (inl l) k

pub put_states_len :
    (ss : List State) (m : Bytes) (o n : ℕ)
    → 21 ≤ o
    → load32 m header_len ≡ n
    → n + 173 * length ss < 4294967296
    → load32 (put_states ss m o) header_len ≡ n + 173 * length ss
unfolding put_states
put_states_len [] m o n h e l = e ∙ omega arith
put_states_len (s ∷ ss) m o n h e l =
    put_states_len ss (put_state m o s) (o + 173) (n + 173) (omega arith)
      (put_state_len m o s h ∙ omega (arith, e)) (omega arith)
    ∙ omega arith

-- The library sees every state as the application has put it.
pub put_states-AllShow :
    (ss : List State) (m z : Bytes) (o : ℕ)
    → 21 ≤ o
    → Texts ss
    → ((q : ℕ) → o ≤ q → m q ≡ 0)
    → ((q : ℕ) → o ≤ q → q < o + 173 * length ss → z q ≡ put_states ss m o q)
    → AllShow ss (read_states (length ss) z o)
unfolding put_states read_states
put_states-AllShow [] m z o h t e k = no_more
put_states-AllShow (s ∷ ss) m z o h t e k =
    and_more
      (read_state-Shows m o s h z
        (λ q a b.
          k q a (omega arith)
          ∙ put_states_outside ss (put_state m o s) (o + 173) q (omega arith) (omega arith)
              (inr (omega arith)))
        e t.0)
      (put_states-AllShow ss (put_state m o s) z (o + 173) (omega arith) t.1
        (λ q a. put_state_outside m o s h q (inr a) (inr (omega arith)) ∙ e q (omega arith))
        (λ q a b. k q (omega arith) (omega arith)))
