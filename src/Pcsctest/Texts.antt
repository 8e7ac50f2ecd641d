-- ===== src/Pcsctest/Texts.antt =====
-- The walk of src/client/pcsctest.c over a list of texts, each ended by a zero byte, with an empty text
-- behind the last.
use mathlib.Core.Option
use mathlib.Core.List.{append_assoc}
use pcsc_proxy_android.Prelude.{
  ℕ, ◌≡◌, ◌≢◌, refl, Bool, true, false, Option, none, some, List, [], ◌∷◌, ◌++◌, ◌==◌, arith,
}

-- a byte in front of the first text
abbrev pub longer : ℕ → List (List ℕ) → List (List ℕ)
longer b [] = []
longer b (t ∷ ts) = (b ∷ t) ∷ ts

-- `while(*p) { fprintf(stdout, " %s\n", p); while(*(p++)); }`, byte by byte: the texts printed from `p`
-- on; `inside` says that `p` is in a text. `none`: a read behind the buffer.
unfoldable pub walk : Bool → List ℕ → Option (List (List ℕ))
walk inside [] = none
walk inside (b ∷ bs) = elim (b == 0) [
  | true ↦ elim inside [ true ↦ Option.map (λ ts. [] ∷ ts) (walk false bs) | false ↦ some [] ]
  | false ↦ Option.map (longer b) (walk true bs)
]

unfoldable pub shown_texts : List ℕ → Option (List (List ℕ))
unfolding walk
shown_texts buffer = walk false buffer

-- A list of texts as PC/SC lays it out.
abbrev pub multi_string : List (List ℕ) → List ℕ
multi_string [] = 0 ∷ []
multi_string (t ∷ ts) = t ++ (0 ∷ multi_string ts)

-- A text in such a list: not empty, and with no zero byte.
abbrev pub NoZero : List ℕ → Type 0
NoZero [] = Unit
NoZero (b ∷ bs) = (b ≢ 0) × NoZero bs

abbrev pub Texts : List (List ℕ) → Type 0
Texts [] = Unit
Texts (t ∷ ts) = (t ≢ []) × NoZero t × Texts ts

walk_text :
    (t rest : List ℕ) (ts : List (List ℕ))
    → NoZero t
    → walk false rest ≡ some ts
    → walk true (t ++ (0 ∷ rest)) ≡ some (t ∷ ts)
unfolding walk
walk_text [] rest ts h e = rw e refl
walk_text (b ∷ bs) rest ts h e = ground (arith, walk_text bs rest ts h.1 e)

-- What the program prints of a list of texts that PC/SC has laid out, whatever stands behind the
-- list in the buffer, is the texts: each once, in their order, and nothing else.
pub shown_texts-multi_string :
    (ts : List (List ℕ)) (rest : List ℕ)
    → Texts ts
    → shown_texts (multi_string ts ++ rest) ≡ some ts
unfolding shown_texts walk
shown_texts-multi_string [] rest h = refl
shown_texts-multi_string (([]) ∷ ts) rest h = absurd (h.0 refl)
shown_texts-multi_string ((b ∷ t) ∷ ts) rest h = ground (
  arith,
  walk_text t (multi_string ts ++ rest) ts h.1.1 (shown_texts-multi_string ts rest h.2),
  append_assoc t (0 ∷ multi_string ts) rest,
)
