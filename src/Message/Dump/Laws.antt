-- ===== src/Message/Dump/Laws.antt =====
-- The text of `pp_dumpString` (src/common/message.c) read back.
use mathlib.Core.Option
use mathlib.Core.List.{append_assoc}
use pcsc_proxy_android.Prelude.{
  ℕ, zero, suc, ◌+◌, ◌-◌, ◌*◌, ◌%◌, ◌≤◌, ◌<◌, ◌≡◌, refl, sym, ap, ◌∙◌, inl, inr, Bool, true, ltb,
  none, some, List, [], ◌∷◌, ◌++◌, map, replicate, drop, min, arith, lt→ltb, le→ltb, Bool-cases,
}
use pcsc_proxy_android.Memory.{Bytes, load_bytes}
use pcsc_proxy_android.Memory.Laws.{load_bytes-add}
use pcsc_proxy_android.Message.Dump.{
  hex4, shown, hex_column, blanks, after_row, row_end, missing, row, dump_rows, size_line,
  pp_dump_string,
}
use pcsc_proxy_android.Message.Dump.Reader.{
  after, read_hex, read_row, read_rows, rows_of_none, read_text, digit-colon, digit-newline,
  read_hex-column, read_hex-blanks, Lacks, after-Lacks, after-skip, append-Lacks, replicate-Lacks,
  blanks-Lacks, hex_column-Lacks, hex4-Lacks, shown-Lacks, less_than, size_line-Lacks, same_start,
}

module _ (signed : Bool) (s : Bytes) (l insert : ℕ) where
  abbrev bytes_at : ℕ → List ℕ
  bytes_at pos = load_bytes s pos (row_end pos l - pos)

  row_text :
      (pos : ℕ) (t : List ℕ)
      → row signed s l insert pos ++ t
        ≡ replicate insert 32
          ++ (hex4 pos
              ++ (58
                  ∷ 32
                  ∷ (hex_column (bytes_at pos)
                      ++ (blanks (missing pos (row_end pos l))
                          ++ (map (shown signed) (bytes_at pos) ++ t)))))
  row_text pos t =
      let bs = bytes_at pos in
      let n = missing pos (row_end pos l) in
      append_assoc (replicate insert 32) _ t
      ∙ ap (λ u. replicate insert 32 ++ u)
          (append_assoc (hex4 pos) _ t
            ∙ ap (λ u. hex4 pos ++ (58 ∷ 32 ∷ u))
                (append_assoc (hex_column bs) _ t
                  ∙ ap (λ u. hex_column bs ++ u)
                      (append_assoc (blanks n) (map (shown signed) bs) t)))

  row-Lacks : (pos : ℕ) → Lacks 10 (row signed s l insert pos)
  row-Lacks pos =
      append-Lacks 10 (replicate insert 32) _ (replicate-Lacks 10 insert (λ e. omega arith)) (
        append-Lacks 10 (hex4 pos) _ (hex4-Lacks 10 digit-newline pos) (
          (λ e. omega arith),
          (
            (λ e. omega arith),
            append-Lacks 10 (hex_column (bytes_at pos)) _ (hex_column-Lacks (bytes_at pos)) (
                append-Lacks 10 (blanks (missing pos (row_end pos l))) _
                  (blanks-Lacks (missing pos (row_end pos l))) (shown-Lacks signed (bytes_at pos))),
          ),
        ))

  dump_rows-row :
      (rounds pos : ℕ) (t : List ℕ)
      → ltb pos l ≡ true
      → dump_rows rounds signed s l insert (after_row pos) ≡ some t
      → dump_rows (suc rounds) signed s l insert pos ≡ some (row signed s l insert pos ++ (10 ∷ t))
  unfolding dump_rows
  dump_rows-row rounds pos t e f =
      rw e (ap (Option.map (λ text. row signed s l insert pos ++ (10 ∷ text))) f)

  module _ (byte : (i : ℕ) → s i < 256) (small : l ≤ 0xfffffff0) where
    after_row_eq : (pos : ℕ) → pos < l → after_row pos ≡ pos + 16
    after_row_eq pos h = omega arith

    row_end_eq : (pos : ℕ) → pos < l → row_end pos l - pos ≡ min 16 (l - pos)
    row_end_eq pos h = ground (arith, after_row_eq pos h)

    row_full : (pos : ℕ) → pos < l → (row_end pos l - pos) + missing pos (row_end pos l) ≡ 16
    row_full pos h = ground (arith, after_row_eq pos h)

    read_row-row :
        (pos : ℕ) (t : List ℕ)
        → pos < l
        → read_row (row signed s l insert pos ++ (10 ∷ t)) ≡ load_bytes s pos (min 16 (l - pos))
    read_row-row pos t h =
        let k = row_end pos l - pos in
        let n = missing pos (row_end pos l) in
        let u = map (shown signed) (bytes_at pos) ++ (10 ∷ t) in
        ap read_row (row_text pos (10 ∷ t))
        ∙ ap (λ x. read_hex 16 (drop 1 x))
            (after-skip 58 (replicate insert 32) _ (replicate-Lacks 58 insert (λ e. omega arith))
              ∙ after-skip 58 (hex4 pos) _ (hex4-Lacks 58 digit-colon pos))
        ∙ ap (λ j. read_hex j (hex_column (bytes_at pos) ++ (blanks n ++ u))) (sym (row_full pos h))
        ∙ read_hex-column s n pos k (blanks n ++ u) byte (read_hex-blanks n u)
        ∙ ap (load_bytes s pos) (row_end_eq pos h)

    load_split :
        (pos : ℕ)
        → pos < l
        → load_bytes s pos (min 16 (l - pos)) ++ load_bytes s (pos + 16) (l - (pos + 16))
          ≡ load_bytes s pos (l - pos)
    load_split pos h =
        let n = l - (pos + 16) in
        ap (λ u. load_bytes s pos (min 16 (l - pos)) ++ u)
          (same_start s (pos + 16) (pos + min 16 (l - pos)) n (λ e. omega arith))
        ∙ sym (load_bytes-add s pos (min 16 (l - pos)) n)
        ∙ ap (load_bytes s pos) (omega arith)

    rows-read :
        (rounds pos : ℕ)
        → l ≤ pos + 16 * rounds
        → (t : List ℕ) × (dump_rows rounds signed s l insert pos ≡ some t)
          × (read_rows rounds t ≡ load_bytes s pos (l - pos))
    unfolding dump_rows
    rows-read zero pos h =
        let none_left : l - pos ≡ 0 = omega arith in
        ([], rw (le→ltb pos l (omega arith)) refl, rw none_left refl)
    rows-read (suc rounds) pos h = elim (Bool-cases (ltb pos l)) [
      | inl e ↦
          let lt = less_than pos l e in
          let next = after_row_eq pos lt in
          let r = rows-read rounds (pos + 16) (omega arith) in
          let line = row signed s l insert pos in
          (
            line ++ (10 ∷ r.0),
            dump_rows-row rounds pos r.0 e (ap (dump_rows rounds signed s l insert) next ∙ r.1),
            ap (λ u. u ++ read_rows rounds (after 10 (line ++ (10 ∷ r.0))))
                  (read_row-row pos r.0 lt)
                ∙ ap (λ u. load_bytes s pos (min 16 (l - pos)) ++ read_rows rounds u)
                    (after-Lacks 10 line r.0 (row-Lacks pos))
                ∙ ap (λ u. load_bytes s pos (min 16 (l - pos)) ++ u) r.2
                ∙ load_split pos lt,
          )
      | inr e ↦
          let none_left : l - pos ≡ 0 = ground (arith, lt→ltb pos l) in
          ([], rw e refl, rw none_left (rows_of_none (suc rounds)))
    ]

-- The text that the function writes of `l` bytes, at any indentation, is finite, and the bytes can be
-- read off its hexadecimal columns, all of them and in their order: `l` is at most 0xfffffff0, and the
-- rows that the loop may take are at least the sixteenth part of `l`, rounded up.
pub read_text-dump :
    (signed : Bool) (s : Bytes) (l insert rounds : ℕ)
    → ((i : ℕ) → s i < 256)
    → l ≤ 0xfffffff0
    → l ≤ 16 * rounds
    → (t : List ℕ) × (pp_dump_string rounds signed s l insert ≡ some t)
      × (read_text rounds t ≡ load_bytes s 0 l)
unfolding pp_dump_string
read_text-dump signed s l insert rounds byte small enough =
    let r = rows-read signed s l insert byte small rounds 0 (omega arith) in
    let whole : l - 0 ≡ l = omega arith in
    (
      size_line l insert ++ (10 ∷ r.0),
      rw r.1 refl,
      ap (read_rows rounds) (after-Lacks 10 (size_line l insert) r.0 (size_line-Lacks l insert))
          ∙ r.2
          ∙ ap (load_bytes s 0) whole,
    )

-- From 0xfffffff1 bytes on the loop does not end: `pos` starts again at 0 after the row at 0xfffffff0.
dump_rows-endless :
    (rounds pos : ℕ) (signed : Bool) (s : Bytes) (l insert : ℕ)
    → 0xfffffff0 < l
    → l < 0x100000000
    → pos % 16 ≡ 0
    → pos < 0x100000000
    → dump_rows rounds signed s l insert pos ≡ none
unfolding dump_rows
dump_rows-endless zero pos signed s l insert a b c d = rw (lt→ltb pos l (omega arith)) refl
dump_rows-endless (suc n) pos signed s l insert a b c d =
    rw
      (
        lt→ltb pos l (omega arith),
        dump_rows-endless n (after_row pos) signed s l insert a b (omega arith) (omega arith),
      )
      refl
