-- ===== src/Message/Command/Laws.antt =====
-- The enumerators and the message types name each other.
use pcsc_proxy_android.Prelude.{ℕ, zero, suc, ◌+◌, ◌≡◌, refl, List, [], ◌∷◌, some, arith, get_elem?}
use pcsc_proxy_android.Message.Command.{Command, code, commands, command_of}

pub command_of-code : (c : Command) → command_of (code c) ≡ some c
unfolding command_of
command_of-code Command.establish_context = refl
command_of-code _ = refl

-- The commands of the list have the codes from `k` on.
abbrev Numbered : ℕ → List Command → Type 0
Numbered k [] = Unit {0}
Numbered k (c ∷ cs) = (code c ≡ k) × Numbered (k + 1) cs

code-get_elem? :
    (k : ℕ) (cs : List Command) (t : ℕ) (c : Command)
    → Numbered k cs
    → get_elem? cs t ≡ some c
    → code c ≡ k + t
code-get_elem? k [] t c n h = cc
code-get_elem? k (d ∷ cs) zero c n h = ground arith
code-get_elem? k (d ∷ cs) (suc t) c n h = omega (arith, code-get_elem? (k + 1) cs t c n.1 h)

-- The label of the `switch` that a number selects is the enumerator with that value.
pub code-command_of : (t : ℕ) (c : Command) → command_of t ≡ some c → code c ≡ t
unfolding command_of
code-command_of t c h = omega (arith, code-get_elem? 0 commands t c (omega arith) h)
