-- ===== src/Memory/Laws.antt =====
-- Laws of loads and stores.
use pcsc_proxy_android.Prelude.{
  ℕ, zero, suc, ◌+◌, ◌-◌, ◌*◌, ◌/◌, ◌%◌, ◌^◌, ◌≤◌, ◌<◌, ◌≡◌, refl, ap, ◌∙◌, ◌⊎◌, inl, inr, List, [],
  ◌∷◌, ◌++◌, sym, arith, length, get_or, get_or_past, get_or-append_left,
}
use native.Mathlib.Decide.{dec_lt}
use mathlib.Core.Path.{fun_ext, ap₂}
use pcsc_proxy_android.Memory.{Bytes, load32, store32, store_bytes, load_bytes}

-- Two memories agree on the bytes before `n`.
abbrev pub AgreeBelow : ℕ → Bytes → Bytes → Type 0
AgreeBelow n m m' = (q : ℕ) → q < n → m q ≡ m' q

-- Two memories agree on the bytes from `n` on.
abbrev pub AgreeFrom : ℕ → Bytes → Bytes → Type 0
AgreeFrom n m m' = (q : ℕ) → n ≤ q → m q ≡ m' q

word_bytes :
    (v : ℕ)
    → v % 256 + 256 * (v / 256 % 256) + 65536 * (v / 65536 % 256) + 16777216 * (v / 16777216 % 256)
      ≡ v % 2 ^ 32
word_bytes v = omega arith

-- What is read back from a `uint32_t` is the value stored, reduced to 32 bits.
pub load32-store32 : (m : Bytes) (o v : ℕ) → load32 (store32 m o v) o ≡ v % 2 ^ 32
unfolding load32 store32
load32-store32 m o v = ground (arith, word_bytes v)

pub load32-store32_apart :
    (m : Bytes) (o o' v : ℕ) → (o + 4 ≤ o') ⊎ (o' + 4 ≤ o) → load32 (store32 m o v) o' ≡ load32 m o'
unfolding load32 store32
load32-store32_apart m o o' v h = ground arith

pub store32_outside : (m : Bytes) (o v q : ℕ) → (q < o) ⊎ (o + 4 ≤ q) → store32 m o v q ≡ m q
unfolding store32
store32_outside m o v q h = ground arith

pub store_bytes_outside :
    (m : Bytes) (o : ℕ) (xs : List ℕ) (q : ℕ)
    → (q < o) ⊎ (o + length xs ≤ q)
    → store_bytes m o xs q ≡ m q
unfolding store_bytes
store_bytes_outside m o xs q (inl h) = ground arith
store_bytes_outside m o xs q (inr h) = ground (arith, get_or_past xs (q - o) (m q) (omega arith))

pub store_bytes_inside :
    (m : Bytes) (o : ℕ) (xs : List ℕ) (q : ℕ)
    → o ≤ q
    → store_bytes m o xs q ≡ get_or xs (q - o) (m q)
unfolding store_bytes
store_bytes_inside m o xs q h = ground arith

pub store_bytes-nil : (m : Bytes) (o : ℕ) → store_bytes m o [] ≡ m
unfolding store_bytes
store_bytes-nil m o = fun_ext λ q. ground arith

get_or-append {ℓ} :
    {A : Type ℓ} (xs ys : List A) (i : ℕ) (d : A)
    → length xs ≤ i
    → get_or (xs ++ ys) i d ≡ get_or ys (i - length xs) d
get_or-append [] ys i d h = ap (λ k. get_or ys k d) (omega arith)
get_or-append (x ∷ xs) ys zero d h = absurd (omega arith)
get_or-append (x ∷ xs) ys (suc i) d h =
    get_or-append xs ys i d (omega arith) ∙ ap (λ k. get_or ys k d) (omega arith)

-- Two consecutive copies are one copy.
pub store_bytes-append :
    (m : Bytes) (o : ℕ) (xs ys : List ℕ)
    → store_bytes m o (xs ++ ys) ≡ store_bytes (store_bytes m o xs) (o + length xs) ys
store_bytes-append m o xs ys =
    fun_ext
      λ q. elim (dec_lt q (o + length xs)) [ yes h ↦ before q h | no h ↦ after q (omega arith) ]
  where
    both : Bytes
    both = store_bytes (store_bytes m o xs) (o + length xs) ys

    before : (q : ℕ) → q < o + length xs → store_bytes m o (xs ++ ys) q ≡ both q
    before q h = elim (dec_lt q o) [
      | yes l ↦
          store_bytes_outside m o (xs ++ ys) q (inl l)
          ∙ sym (
              store_bytes_outside (store_bytes m o xs) (o + length xs) ys q (inl h)
              ∙ store_bytes_outside m o xs q (inl l))
      | no l ↦
          store_bytes_inside m o (xs ++ ys) q (omega arith)
          ∙ get_or-append_left xs ys (q - o) (m q) (omega arith)
          ∙ sym (
              store_bytes_outside (store_bytes m o xs) (o + length xs) ys q (inl h)
              ∙ store_bytes_inside m o xs q (omega arith))
    ]

    after : (q : ℕ) → o + length xs ≤ q → store_bytes m o (xs ++ ys) q ≡ both q
    after q h =
        store_bytes_inside m o (xs ++ ys) q (omega arith)
        ∙ get_or-append xs ys (q - o) (m q) (omega arith)
        ∙ ap₂ (λ i d. get_or ys i d) (omega arith) (sym (store_bytes_outside m o xs q (inr h)))
        ∙ sym (store_bytes_inside (store_bytes m o xs) (o + length xs) ys q h)

-- Reading back what was copied in.
load_bytes_of :
    (xs : List ℕ) (m : Bytes) (o : ℕ)
    → ((i : ℕ) → i < length xs → m (o + i) ≡ get_or xs i 0)
    → load_bytes m o (length xs) ≡ xs
load_bytes_of [] m o h = refl
load_bytes_of (x ∷ xs) m o h =
    ap₂ ◌∷◌ (ap m (omega arith) ∙ h 0 (omega arith))
      (load_bytes_of xs m (o + 1) λ i l. ap m (omega arith) ∙ h (suc i) (omega arith))

get_or_inside {ℓ} :
    {A : Type ℓ} (xs : List A) (i : ℕ) (d d' : A) → i < length xs → get_or xs i d ≡ get_or xs i d'
get_or_inside [] i d d' h = absurd (omega arith)
get_or_inside (x ∷ xs) zero d d' h = refl
get_or_inside (x ∷ xs) (suc i) d d' h = get_or_inside xs i d d' (omega arith)

pub load_bytes-store_bytes :
    (m : Bytes) (o : ℕ) (xs : List ℕ) → load_bytes (store_bytes m o xs) o (length xs) ≡ xs
load_bytes-store_bytes m o xs = load_bytes_of xs (store_bytes m o xs) o λ i l.
    store_bytes_inside m o xs (o + i) (omega arith)
    ∙ ap (λ k. get_or xs k (m (o + i))) (omega arith)
    ∙ get_or_inside xs i (m (o + i)) 0 l

pub length-load_bytes : (m : Bytes) (o n : ℕ) → length (load_bytes m o n) ≡ n
length-load_bytes m o zero = refl
length-load_bytes m o (suc n) = ap suc (length-load_bytes m (o + 1) n)

pub load_bytes_eq :
    (m m' : Bytes) (o n : ℕ)
    → ((q : ℕ) → o ≤ q → q < o + n → m q ≡ m' q)
    → load_bytes m o n ≡ load_bytes m' o n
load_bytes_eq m m' o zero h = refl
load_bytes_eq m m' o (suc n) h =
    ap₂ ◌∷◌ (h o (omega arith) (omega arith))
      (load_bytes_eq m m' (o + 1) n λ q a b. h q (omega arith) (omega arith))

pub load_bytes-add :
    (m : Bytes) (o a b : ℕ) → load_bytes m o (a + b) ≡ load_bytes m o a ++ load_bytes m (o + a) b
load_bytes-add m o zero b = ap₂ (λ k n. load_bytes m k n) (omega arith) (omega arith)
load_bytes-add m o (suc a) b =
    ap (λ n. load_bytes m o n) (let e : suc a + b ≡ suc (a + b) = omega arith in e)
    ∙ ap (◌∷◌ (m o)) (
        load_bytes-add m (o + 1) a b
        ∙ ap (λ k. load_bytes m (o + 1) a ++ load_bytes m k b) (omega arith))

-- The `n` bytes that were read from `m` at `o`, copied to the same place of `m'`.
pub store_bytes-load_bytes :
    (m m' : Bytes) (o n q : ℕ) → o ≤ q → q < o + n → store_bytes m' o (load_bytes m o n) q ≡ m q
store_bytes-load_bytes m m' o n q a b =
    store_bytes_inside m' o (load_bytes m o n) q a
    ∙ get_or-load_bytes n o (q - o) (omega arith)
    ∙ ap m (omega arith)
  where
    get_or-load_bytes : (n o i : ℕ) → i < n → get_or (load_bytes m o n) i (m' q) ≡ m (o + i)
    get_or-load_bytes zero o i h = absurd (omega arith)
    get_or-load_bytes (suc n) o zero h = ap m (omega arith)
    get_or-load_bytes (suc n) o (suc i) h =
        get_or-load_bytes n (o + 1) i (omega arith) ∙ ap m (omega arith)

pub load32_eq :
    (m m' : Bytes) (o : ℕ) → ((q : ℕ) → o ≤ q → q < o + 4 → m q ≡ m' q) → load32 m o ≡ load32 m' o
unfolding load32
load32_eq m m' o h = omega (
  arith,
  h o (omega arith) (omega arith),
  h (o + 1) (omega arith) (omega arith),
  h (o + 2) (omega arith) (omega arith),
  h (o + 3) (omega arith) (omega arith),
)

pub load32-store_bytes_apart :
    (m : Bytes) (o o' : ℕ) (xs : List ℕ)
    → (o + length xs ≤ o') ⊎ (o' + 4 ≤ o)
    → load32 (store_bytes m o xs) o' ≡ load32 m o'
load32-store_bytes_apart m o o' xs h =
    load32_eq (store_bytes m o xs) m o' λ q a b. store_bytes_outside m o xs q (side q a b h)
  where
    side :
        (q : ℕ)
        → o' ≤ q
        → q < o' + 4
        → (o + length xs ≤ o') ⊎ (o' + 4 ≤ o)
        → (q < o) ⊎ (o + length xs ≤ q)
    side q a b h = omega arith
