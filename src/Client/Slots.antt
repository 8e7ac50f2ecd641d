-- ===== src/Client/Slots.antt =====
-- An array of 64 slots of which each is free or in use, as both tables of src/client/client.c are
-- (`for (i=0; i<PP_MAX_CONTEXT; i++) if (array[i].id==0) break;`).
use pcsc_proxy_android.Prelude.{
  ℕ, zero, suc, ◌+◌, ◌-◌, ◌%◌, ◌^◌, ◌≤◌, ◌<◌, ◌≡◌, sym, ◌∙◌, ◌≢◌, ◌⊎◌, inl, inr, Option, none, some,
  false, List, [], ◌∷◌, arith, length, get_elem?, set, ltb, ◌==◌, if◌then◌else◌, Option-cases,
  Bool-cases, le→ltb, ne→==, eq→==, get_elem?-set_self, get_elem?-set_ne, get_elem?-none,
  length-set, length-replicate, get_elem?-some, replicate,
}
use mathlib.Core.Option
use pcsc_proxy_android.Client.State.{pp_max_context}

-- `rid = id - magic`, as an unsigned difference
abbrev pub slot_number : ℕ → ℕ → ℕ
slot_number magic id = (id % 2 ^ 32 + 2 ^ 32 - magic) % 2 ^ 32

-- where an id leads: to nothing, past the end of the array, or to a slot in use
pub data Found : Type 0 where
  missing past_end : Found
  at : ℕ → Found

module _ {A : Type 0} (id : A → ℕ) where
  -- The test is `rid > PP_MAX_CONTEXT`, so that number 64 gets through.
  unfoldable pub find_slot : List A → ℕ → Found
  find_slot xs rid = if ltb pp_max_context rid then missing else (elim (get_elem? xs rid) [
    | none ↦ past_end
    | some a ↦ if id a == 0 then missing else at rid
  ])

  -- the first free slot
  unfoldable pub free_slot : List A → Option ℕ
  free_slot [] = none
  free_slot (a ∷ xs) = if id a == 0 then some 0 else Option.map suc (free_slot xs)

  -- Slot `i` of an array that begins at number `k` is free or holds the id `magic + k + i`.
  abbrev pub Numbered : ℕ → ℕ → List A → Type 0
  Numbered magic k [] = Unit {0}
  Numbered magic k (a ∷ xs) = ((id a ≡ 0) ⊎ (id a ≡ k + magic)) × Numbered magic (k + 1) xs

  pub free_slot-some :
      (xs : List A) (i : ℕ)
      → free_slot xs ≡ some i
      → (i < length xs) × ((a : A) × (get_elem? xs i ≡ some a) × (id a ≡ 0))
  unfolding free_slot
  free_slot-some [] i h = cc
  free_slot-some (a ∷ xs) i h = elim (Bool-cases (id a == 0)) [
    | inl e ↦ let z : i ≡ 0 = ground arith in (ground arith, (a, rw z, ground arith))
    | inr e ↦ elim (Option-cases (free_slot xs)) [
      | inl n ↦ absurd (ground arith)
      | inr (j, f) ↦
          let r = free_slot-some xs j f in
          let z : i ≡ suc j = ground arith in (omega arith, (r.1.0, rw z r.1.1, r.1.2))
    ]
  ]

  pub free_slot-lt : (xs : List A) (i : ℕ) → free_slot xs ≡ some i → i < length xs
  free_slot-lt xs i h = (free_slot-some xs i h).0

  -- With no slot free, a search for one finds every slot in use.
  pub free_slot-none :
      (xs : List A) (i : ℕ) (a : A) → free_slot xs ≡ none → get_elem? xs i ≡ some a → id a ≢ 0
  unfolding free_slot
  free_slot-none [] i a h g = cc
  free_slot-none (b ∷ xs) zero a h g = ground arith
  free_slot-none (b ∷ xs) (suc i) a h g = free_slot-none xs i a (ground arith) g

  pub find_slot-set_self :
      (xs : List A) (i : ℕ) (v : A)
      → i ≤ pp_max_context
      → i < length xs
      → id v ≢ 0
      → find_slot (set xs i v) i ≡ at i
  unfolding find_slot
  find_slot-set_self xs i v b l n =
      rw (le→ltb pp_max_context i b, get_elem?-set_self xs i v l, ne→== (id v) 0 n)

  pub find_slot-set_free :
      (xs : List A) (i : ℕ) (v : A)
      → i ≤ pp_max_context
      → i < length xs
      → id v ≡ 0
      → find_slot (set xs i v) i ≡ missing
  unfolding find_slot
  find_slot-set_free xs i v b l n =
      rw (le→ltb pp_max_context i b, get_elem?-set_self xs i v l, eq→== (id v) 0 n)

  pub find_slot-set_ne :
      (xs : List A) (i j : ℕ) (v : A) → i ≢ j → find_slot (set xs i v) j ≡ find_slot xs j
  unfolding find_slot
  find_slot-set_ne xs i j v n = rw (get_elem?-set_ne xs i j v n)

  -- What a search in an array of 64 slots finds, for every number.
  pub data FindsSlot (xs : List A) (rid : ℕ) : Found → Type 0 where
    finds :
        (a : A)
        → rid < pp_max_context
        → get_elem? xs rid ≡ some a
        → id a ≢ 0
        → FindsSlot xs rid (at rid)
    unused :
        (a : A)
        → rid < pp_max_context
        → get_elem? xs rid ≡ some a
        → id a ≡ 0
        → FindsSlot xs rid missing
    too_large : pp_max_context < rid → FindsSlot xs rid missing
    overrun : rid ≡ pp_max_context → FindsSlot xs rid past_end

  pub find_slot-FindsSlot :
      (xs : List A) (rid : ℕ) → length xs ≡ pp_max_context → FindsSlot xs rid (find_slot xs rid)
  unfolding find_slot
  find_slot-FindsSlot xs rid l = elim (Bool-cases (ltb pp_max_context rid)) [
    | inl e ↦ rw e (too_large (ground arith))
    | inr e ↦ rw e (elim (Option-cases (get_elem? xs rid)) [
      | inl n ↦
          rw (n, find_slot) (overrun (omega (arith, get_elem?-none xs rid n, le_of_test rid e)))
      | inr (a, g) ↦ elim (Bool-cases (id a == 0)) [
        | inl z ↦ rw (g, find_slot) (rw z (unused a (below a g) g (ground arith)))
        | inr z ↦ rw (g, find_slot) (rw z (finds a (below a g) g (ground arith)))
      ]
    ])
  ]
    where
      le_of_test : (n : ℕ) → ltb pp_max_context n ≡ false → n ≤ pp_max_context
      le_of_test n h = ground arith

      below : (a : A) → get_elem? xs rid ≡ some a → rid < pp_max_context
      below a g = omega (arith, get_elem?-some xs rid a g)

  pub Numbered-set :
      (magic k : ℕ) (xs : List A) (i : ℕ) (v : A)
      → Numbered magic k xs
      → (id v ≡ 0) ⊎ (id v ≡ k + i + magic)
      → Numbered magic k (set xs i v)
  Numbered-set magic k [] i v n h = n
  Numbered-set magic k (a ∷ xs) zero v n h = (omega arith, n.1)
  Numbered-set magic k (a ∷ xs) (suc i) v n h =
      (n.0, Numbered-set magic (k + 1) xs i v n.1 (omega arith))

  pub Numbered-get :
      (magic k : ℕ) (xs : List A) (i : ℕ) (a : A)
      → Numbered magic k xs
      → get_elem? xs i ≡ some a
      → (id a ≡ 0) ⊎ (id a ≡ k + i + magic)
  Numbered-get magic k [] i a n h = cc
  Numbered-get magic k (b ∷ xs) zero a n h = ground arith
  Numbered-get magic k (b ∷ xs) (suc i) a n h =
      omega (arith, Numbered-get magic (k + 1) xs i a n.1 h)

  pub Numbered-replicate : (magic k n : ℕ) (a : A) → id a ≡ 0 → Numbered magic k (replicate n a)
  Numbered-replicate magic k zero a h = tt
  Numbered-replicate magic k (suc n) a h = (inl h, Numbered-replicate magic (k + 1) n a h)

  -- An array of 64 slots, each free or under the id that belongs to its number.
  abbrev pub IsTable : ℕ → Option (List A) → Type 0
  IsTable magic none = Unit {0}
  IsTable magic (some xs) = (length xs ≡ pp_max_context) × Numbered magic 0 xs

  -- The free slot `i` is taken by `v`: a search finds it there, and finds all else as before.
  pub record Takes (magic : ℕ) (xs : List A) (i : ℕ) (v : A) : Type 0 where
    pub in_table : i < pp_max_context
    pub fresh : find_slot xs i ≡ missing
    pub stored : get_elem? (set xs i v) i ≡ some v
    pub found : find_slot (set xs i v) i ≡ at i
    pub others : (j : ℕ) → j ≢ i → find_slot (set xs i v) j ≡ find_slot xs j
    pub table : IsTable magic (some (set xs i v))

  find_slot_free :
      (xs : List A) (i : ℕ) (a : A)
      → i ≤ pp_max_context
      → get_elem? xs i ≡ some a
      → id a ≡ 0
      → find_slot xs i ≡ missing
  unfolding find_slot
  find_slot_free xs i a b g z =
      rw (le→ltb pp_max_context i b) (rw (g, find_slot) (rw (eq→== (id a) 0 z)))

  pub set-Takes :
      (magic : ℕ) (xs : List A) (i : ℕ) (v : A)
      → 0 < magic
      → IsTable magic (some xs)
      → free_slot xs ≡ some i
      → id v ≡ i + magic
      → Takes magic xs i v
  set-Takes magic xs i v m t f e =
      let free = free_slot-some xs i f in
      record {
        in_table = omega arith;
        fresh = find_slot_free xs i free.1.0 (omega arith) free.1.1 free.1.2;
        stored = get_elem?-set_self xs i v free.0;
        found = find_slot-set_self xs i v (omega arith) free.0 (omega arith);
        others = λ j n. find_slot-set_ne xs i j v (λ k. n (sym k));
        table = (length-set xs i v ∙ t.0, Numbered-set magic 0 xs i v t.1 (inr (omega arith)));
      }

  -- Slot `i` is given up: a search finds nothing there, and all else as before.
  pub record Frees (magic : ℕ) (xs : List A) (i : ℕ) (v : A) : Type 0 where
    pub gone : find_slot (set xs i v) i ≡ missing
    pub others : (j : ℕ) → j ≢ i → find_slot (set xs i v) j ≡ find_slot xs j
    pub table : IsTable magic (some (set xs i v))

  pub set-Frees :
      (magic : ℕ) (xs : List A) (i : ℕ) (v : A)
      → IsTable magic (some xs)
      → i < pp_max_context
      → id v ≡ 0
      → Frees magic xs i v
  set-Frees magic xs i v t l e = record {
    gone = find_slot-set_free xs i v (omega arith) (omega arith) e;
    others = λ j n. find_slot-set_ne xs i j v (λ k. n (sym k));
    table = (length-set xs i v ∙ t.0, Numbered-set magic 0 xs i v t.1 (inl e));
  }

  pub replicate-IsTable :
      (magic : ℕ) (a : A) → id a ≡ 0 → IsTable magic (some (replicate pp_max_context a))
  replicate-IsTable magic a e =
      (length-replicate pp_max_context a, Numbered-replicate magic 0 pp_max_context a e)
