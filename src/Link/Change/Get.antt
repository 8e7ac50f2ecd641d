-- ===== src/Link/Change/Get.antt =====
-- The reader states on their way back: the second loops of `handleGetStatusChange`
-- (src/server/server.c) and `SCardGetStatusChange` (src/client/client.c).
use pcsc_proxy_android.Prelude.{
  ℕ, zero, suc, ◌+◌, ◌*◌, ◌≤◌, ◌<◌, ◌≡◌, refl, sym, ◌∙◌, ap, inl, inr, ◌⊎◌, List, [], ◌∷◌, arith,
  length,
}
use pcsc_proxy_android.Memory.{Bytes, load32, store_bytes, load_bytes}
use pcsc_proxy_android.Memory.Laws.{
  load_bytes_eq, load_bytes-store_bytes, load32-store32, load32_eq, store32_outside,
  store_bytes_outside, length-load_bytes,
}
use pcsc_proxy_android.Message.Layout.{max_atr_size}
use pcsc_proxy_android.Server.Pcsc.{ReaderState}
use pcsc_proxy_android.Server.Lengths.{clamp}
use pcsc_proxy_android.Server.StatusChange.{write_state, write_states}
use pcsc_proxy_android.Client.Calls.StatusChange.{State, get_state, get_states}
use pcsc_proxy_android.Link.Calls.{word}
use pcsc_proxy_android.Link.Transmit.{past}
use pcsc_proxy_android.Link.Fixed.{beside}

-- A state of the application after the library has answered with `r`: the name stays, the words are
-- the library's, and the ATR buffer begins with the library's ATR, in the length that its low 32 bits
-- give and 33 bytes at most.
abbrev pub updated : State → ReaderState → State
updated s r = record s {
  current_state = word r.current_state;
  event_state = word r.event_state;
  cb_atr = clamp max_atr_size (word r.cb_atr);
  rgb_atr = store_bytes s.rgb_atr 0 (load_bytes r.rgb_atr 0 (clamp max_atr_size (word r.cb_atr)));
}

-- one answer for each state
abbrev pub all_updated : List State → List ReaderState → List State
all_updated [] rs = []
all_updated (s ∷ ss) [] = s ∷ ss
all_updated (s ∷ ss) (r ∷ rs) = updated s r ∷ all_updated ss rs

count_small :
    (n : ℕ)
    → (clamp max_atr_size n ≤ 33)
      × (word (clamp max_atr_size n) ≡ clamp max_atr_size n)
      × (clamp max_atr_size (clamp max_atr_size n) ≡ clamp max_atr_size n)
count_small n = (ground arith, ground arith, ground arith)

module _ (m : Bytes) (o : ℕ) (r : ReaderState) where
  abbrev count : ℕ
  count = clamp max_atr_size (word r.cb_atr)

  short : length (load_bytes r.rgb_atr 0 count) ≤ 33
  short = omega (arith, length-load_bytes r.rgb_atr 0 count, (count_small (word r.cb_atr)).0)

  pub write_state_outside : (q : ℕ) → (q < o) ⊎ (o + 173 ≤ q) → write_state m o r q ≡ m q
  unfolding write_state
  write_state_outside q h =
      store_bytes_outside _ (o + 136) _ q (omega (arith, short))
      ∙ store32_outside _ (o + 169) _ q (omega arith)
      ∙ store32_outside _ (o + 132) _ q (omega arith)
      ∙ store32_outside _ (o + 128) _ q (omega arith)

  -- One state is read as it was written.
  get_state-write_state :
      (z : Bytes) (s : State)
      → ((q : ℕ) → o ≤ q → q < o + 173 → z q ≡ write_state m o r q)
      → get_state z o s ≡ updated s r
  unfolding write_state get_state
  get_state-write_state z s same = λ i. record s {
    current_state =
        (at (o + 128) (omega arith) (omega arith)
            ∙ beside _ (o + 136) _ (o + 128) (inr (omega arith)) (
                past _ _ _ _ (inr (omega arith))
                  (past _ _ _ _ (inr (omega arith)) (load32-store32 _ _ _))))
          i;
    event_state =
        (at (o + 132) (omega arith) (omega arith)
            ∙ beside _ (o + 136) _ (o + 132) (inr (omega arith))
                (past _ _ _ _ (inr (omega arith)) (load32-store32 _ _ _)))
          i;
    cb_atr = counted i;
    rgb_atr =
        (ap (λ n. store_bytes s.rgb_atr 0 (load_bytes z (o + 136) n)) counted
            ∙ ap (store_bytes s.rgb_atr 0) carried)
          i;
  }
    where
      at : (q : ℕ) → o ≤ q → q + 4 ≤ o + 173 → load32 z q ≡ load32 (write_state m o r) q
      at q a b = load32_eq z (write_state m o r) q (λ j c d. same j (omega arith) (omega arith))

      counted : clamp max_atr_size (load32 z (o + 169)) ≡ count
      counted =
          ap (clamp max_atr_size) (
            at (o + 169) (omega arith) (omega arith)
            ∙ beside _ (o + 136) _ (o + 169) (omega (arith, short)) (load32-store32 _ _ _)
            ∙ (count_small (word r.cb_atr)).1)
          ∙ (count_small (word r.cb_atr)).2

      carried : load_bytes z (o + 136) count ≡ load_bytes r.rgb_atr 0 count
      carried =
          load_bytes_eq z (write_state m o r) (o + 136) count
            (λ q a b. same q (omega arith) (omega (arith, (count_small (word r.cb_atr)).0)))
          ∙ ap (load_bytes (write_state m o r) (o + 136))
              (sym (length-load_bytes r.rgb_atr 0 count))
          ∙ load_bytes-store_bytes _ (o + 136) (load_bytes r.rgb_atr 0 count)

pub write_states_outside :
    (n : ℕ) (rs : List ReaderState) (m : Bytes) (o q : ℕ)
    → (q < o) ⊎ (o + 173 * n ≤ q)
    → write_states n rs m o q ≡ m q
unfolding write_states
write_states_outside zero rs m o q h = refl
write_states_outside (suc n) [] m o q h = refl
write_states_outside (suc n) (r ∷ rs) m o q h =
    write_states_outside n rs (write_state m o r) (o + 173) q (omega arith)
    ∙ write_state_outside m o r q (omega arith)

-- The application reads every state as the library has left it.
pub get_states-write_states :
    (ss : List State) (rs : List ReaderState) (m z : Bytes) (o : ℕ)
    → length rs ≡ length ss
    → ((q : ℕ) → o ≤ q → q < o + 173 * length ss → z q ≡ write_states (length ss) rs m o q)
    → get_states z o ss ≡ all_updated ss rs
unfolding write_states get_states
get_states-write_states [] rs m z o e k = refl
get_states-write_states (s ∷ ss) [] m z o e k = absurd (omega arith)
get_states-write_states (s ∷ ss) (r ∷ rs) m z o e k = λ i.
    get_state-write_state m o r z s
      (λ q a b.
        k q a (omega arith)
        ∙ write_states_outside (length ss) rs (write_state m o r) (o + 173) q (inl b))
      i
    ∷ get_states-write_states ss rs (write_state m o r) z (o + 173) (omega arith)
        (λ q a b. k q (omega arith) (omega arith)) i
