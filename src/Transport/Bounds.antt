-- ===== src/Transport/Bounds.antt =====
-- What holds of a receive call whatever the peer sends and however the system calls answer.
use native.Mathlib.Decide.{dec_le}
use pcsc_proxy_android.Prelude.{
  ℕ, zero, suc, ◌+◌, ◌-◌, ◌≤◌, ◌<◌, ◌≡◌, ap, ◌∙◌, ◌⊎◌, inl, inr, Bool, true, false, List, [], ◌∷◌,
  arith, length, take, drop, min, length-take, le→leb, lt→leb,
}
use pcsc_proxy_android.Memory.{Bytes, load32, store_bytes}
use pcsc_proxy_android.Memory.Laws.{AgreeFrom, store_bytes_outside, load32_eq}
use pcsc_proxy_android.Message.Layout.{max_message_len, header_len}
use pcsc_proxy_android.Transport.Recv.{fill_stops}
use pcsc_proxy_android.Transport.{
  RecvEvent, arrives, interrupted, broken, Reader, Fill, filled, fill, received, Received,
  after_payload, payload, after_header, nullenc_tls_recv,
}

-- The loop writes only below its target.
pub fill_frame :
    (retry : Bool) (target : ℕ) (es : List RecvEvent) (inb : List ℕ) (n : ℕ) (m : Bytes) (q : ℕ)
    → target ≤ q
    → (fill retry target es inb n m).memory q ≡ m q
unfolding fill
fill_frame retry target [] inb n m q h = ground arith
fill_frame retry target (arrives k ∷ es) [] n m q h = ground arith
fill_frame retry target (arrives k ∷ es) (b ∷ bs) n m q h = elim (dec_le target n) [
  | yes l ↦ rw (le→leb target n l, fill)
  | no l ↦
      rw (lt→leb target n (omega arith), fill)
        (fill_frame retry target es (drop (length (chunk n)) (b ∷ bs)) (n + length (chunk n))
            (store_bytes m n (chunk n)) q h
          ∙ store_bytes_outside m n (chunk n) q
              (inr (omega (arith, length-take (min (target - n) (suc k)) (b ∷ bs)))))
]
  where
    chunk : ℕ → List ℕ
    chunk n = take (min (target - n) (suc k)) (b ∷ bs)
fill_frame retry target (interrupted ∷ es) inb zero m q h = ground arith
fill_frame true target (interrupted ∷ es) inb (suc k) m q h =
    ground (arith, fill_frame true target es inb k m q h)
fill_frame false target (interrupted ∷ es) inb (suc k) m q h = ground arith
fill_frame retry target (broken ∷ es) inb n m q h = ground arith

-- A loop that is left by its test has reached its target, and has not gone past it.
pub fill_count :
    (retry : Bool) (target : ℕ) (es : List RecvEvent) (inb : List ℕ) (n : ℕ) (m : Bytes)
    → n ≤ target
    → (fill retry target es inb n m).progress ≡ filled
    → (fill retry target es inb n m).count ≡ target
unfolding fill
fill_count retry target [] inb n m h p = ground arith
fill_count retry target (arrives k ∷ es) [] n m h p = ground arith
fill_count retry target (arrives k ∷ es) (b ∷ bs) n m h p = ground (
  arith,
  length-take (min (target - n) (suc k)) (b ∷ bs),
  fill_count retry target es (drop (length (take (min (target - n) (suc k)) (b ∷ bs))) (b ∷ bs))
      (n + length (take (min (target - n) (suc k)) (b ∷ bs)))
      (store_bytes m n (take (min (target - n) (suc k)) (b ∷ bs))),
)
fill_count retry target (interrupted ∷ es) inb zero m h p = ground arith
fill_count true target (interrupted ∷ es) inb (suc k) m h p =
    ground (arith, fill_count true target es inb k m)
fill_count false target (interrupted ∷ es) inb (suc k) m h p = ground arith
fill_count retry target (broken ∷ es) inb n m h p = ground arith

memory-after_payload : (f : Fill) → (after_payload f).memory ≡ f.memory
unfolding after_payload
memory-after_payload f = ground arith

payload_frame : (f : Fill) (q : ℕ) → max_message_len ≤ q → (payload f).memory q ≡ f.memory q
unfolding payload
payload_frame f q h = elim (dec_le max_message_len len) [
  | yes l ↦ rw (le→leb max_message_len len l)
  | no l ↦
      rw (lt→leb max_message_len len (omega arith), memory-after_payload)
        (fill_frame false len f.reader.events f.reader.inbound f.count f.memory q (omega arith))
]
  where
    len : ℕ
    len = load32 f.memory header_len

after_header_frame :
    (f : Fill) (q : ℕ) → max_message_len ≤ q → (after_header f).memory q ≡ f.memory q
unfolding after_header
after_header_frame f q h = ground (arith, payload_frame f q h)

-- Whatever the peer sends and however the calls answer, `recv` writes nothing behind the 65 KiB
-- message buffer.
pub recv-AgreeFrom :
    (r : Reader) (m : Bytes) → AgreeFrom max_message_len (nullenc_tls_recv r m).memory m
unfolding nullenc_tls_recv
recv-AgreeFrom r m q h =
    after_header_frame (fill true 5 r.events r.inbound 0 m) q h
    ∙ fill_frame true 5 r.events r.inbound 0 m q (omega arith)

-- Without retries the loop writes only from where it starts.
fill_keeps :
    (target : ℕ) (es : List RecvEvent) (inb : List ℕ) (n : ℕ) (m : Bytes) (q : ℕ)
    → q < n
    → (fill false target es inb n m).memory q ≡ m q
unfolding fill
fill_keeps target [] inb n m q h = ground arith
fill_keeps target (arrives k ∷ es) [] n m q h = ground arith
fill_keeps target (arrives k ∷ es) (b ∷ bs) n m q h = ground (
  arith,
  fill_keeps target es (drop (length (take (min (target - n) (suc k)) (b ∷ bs))) (b ∷ bs))
      (n + length (take (min (target - n) (suc k)) (b ∷ bs)))
      (store_bytes m n (take (min (target - n) (suc k)) (b ∷ bs))) q,
  store_bytes_outside m n (take (min (target - n) (suc k)) (b ∷ bs)) q (inl h),
)
fill_keeps target (interrupted ∷ es) inb n m q h = ground arith
fill_keeps target (broken ∷ es) inb n m q h = ground arith

-- What a successful call tells: the length is within the buffer, and it is the number that the
-- header counts, or 5 where the header counts fewer.
pub record Counts (r : Received) (n : ℕ) : Type 0 where
  pub whole_header : 5 ≤ n
  pub in_buffer : n < max_message_len
  pub header : (n ≡ load32 r.memory header_len) ⊎ ((n ≡ 5) × (load32 r.memory header_len < 5))

received-injective : (a b : ℕ) → received a ≡ received b → a ≡ b
received-injective a b h = ground arith

after_payload-received :
    (f : Fill) (n : ℕ)
    → (after_payload f).status ≡ received n
    → (f.progress ≡ filled) × (f.count ≡ n)
unfolding after_payload
after_payload-received f n h = ground arith

payload_read :
    (es : List RecvEvent) (inb : List ℕ) (m : Bytes) (n : ℕ)
    → load32 m header_len < max_message_len
    → (after_payload (fill false (load32 m header_len) es inb 5 m)).status ≡ received n
    → Counts (after_payload (fill false (load32 m header_len) es inb 5 m)) n
payload_read es inb m n h r = elim (dec_le 5 (load32 m header_len)) [
  | yes l ↦
      let k = fill_count false (load32 m header_len) es inb 5 m l done.0 in
      record {
        whole_header = omega (arith, k, done.1);
        in_buffer = omega (arith, k, done.1);
        header = inl (omega (arith, k, done.1, same));
      }
  | no l ↦
      let k : (fill false (load32 m header_len) es inb 5 m).count ≡ 5 =
        ap (λ f. f.count) (fill_stops false (load32 m header_len) 5 es inb m (omega arith)) in
      record {
        whole_header = omega (arith, k, done.1);
        in_buffer = omega (arith, k, done.1);
        header = inr (omega (arith, k, done.1), omega (arith, same));
      }
]
  where
    done :
        ((fill false (load32 m header_len) es inb 5 m).progress ≡ filled)
        × ((fill false (load32 m header_len) es inb 5 m).count ≡ n)
    done = after_payload-received (fill false (load32 m header_len) es inb 5 m) n r

    same :
        load32 (after_payload (fill false (load32 m header_len) es inb 5 m)).memory header_len
        ≡ load32 m header_len
    same =
        ap (λ k. load32 k header_len)
          (memory-after_payload (fill false (load32 m header_len) es inb 5 m))
        ∙ load32_eq _ m header_len
            (λ q a b. fill_keeps (load32 m header_len) es inb 5 m q (omega arith))

payload-Counts :
    (f : Fill) (n : ℕ) → f.count ≡ 5 → (payload f).status ≡ received n → Counts (payload f) n
unfolding payload
payload-Counts f n c r = go (dec_le max_message_len (load32 f.memory header_len)) r
  where
    go :
        Dec (max_message_len ≤ load32 f.memory header_len)
        → (payload f).status ≡ received n
        → Counts (payload f) n
    go (yes l) r = absurd (ground (arith, le→leb max_message_len (load32 f.memory header_len) l))
    go (no l) r =
        rw (lt→leb max_message_len (load32 f.memory header_len) (omega arith), c)
          (payload_read f.reader.events f.reader.inbound f.memory n (omega arith)
            (rw (lt→leb max_message_len (load32 f.memory header_len) (omega arith), c) at r))

after_header-Counts :
    (f : Fill) (n : ℕ)
    → (f.progress ≡ filled → f.count ≡ 5)
    → (after_header f).status ≡ received n
    → Counts (after_header f) n
unfolding after_header
after_header-Counts f n c r = ground (arith, payload-Counts f n)

-- However the calls answer: what `recv` reports as received is a whole message within the buffer,
-- of the length that its header counts (or the bare header, where that counts less than itself).
pub recv-Counts :
    (r : Reader) (m : Bytes) (n : ℕ)
    → (nullenc_tls_recv r m).status ≡ received n
    → Counts (nullenc_tls_recv r m) n
unfolding nullenc_tls_recv
recv-Counts r m n h =
    after_header-Counts (fill true 5 r.events r.inbound 0 m) n
      (fill_count true 5 r.events r.inbound 0 m (omega arith)) h
