-- ===== src/Server/Frame.antt =====
-- Stores that leave a byte alone: the tool for "the handler writes only where it may".
use pcsc_proxy_android.Prelude.{ℕ, ◌+◌, ◌≤◌, ◌<◌, ◌≡◌, ◌∙◌, ◌⊎◌, List, arith, length}
use pcsc_proxy_android.Memory.{Bytes, store32, store_bytes}
use pcsc_proxy_android.Memory.Laws.{store32_outside, store_bytes_outside}
use pcsc_proxy_android.Message.Layout.{max_message_len}

-- Byte `q` lies before `lo` or behind the message buffer.
abbrev pub Outside : ℕ → ℕ → Type 0
Outside lo q = (q < lo) ⊎ (max_message_len ≤ q)

module _ {lo q k : ℕ} (h : Outside lo q) where
  pub keep32 :
      (m : Bytes) (o v : ℕ) → lo ≤ o → o + 4 ≤ max_message_len → m q ≡ k → store32 m o v q ≡ k
  keep32 m o v a b e = store32_outside m o v q (omega arith) ∙ e

  pub keep_bytes :
      (m : Bytes) (o : ℕ) (xs : List ℕ)
      → lo ≤ o
      → o + length xs ≤ max_message_len
      → m q ≡ k
      → store_bytes m o xs q ≡ k
  keep_bytes m o xs a b e = store_bytes_outside m o xs q (omega arith) ∙ e
