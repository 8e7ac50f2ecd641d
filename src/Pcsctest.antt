-- ===== src/Pcsctest.antt =====
-- The test program src/client/pcsctest.c: an application of the calls of src/client/client.c.
pub mod Texts
pub mod Reports
pub mod Names
pub mod Groups
use pcsc_proxy_android.Prelude.{
  ℕ, ◌+◌, ◌-◌, ◌^◌, Bool, true, false, Option, none, some, List, [], ◌∷◌, ◌++◌, length, drop,
  replicate, ◌==◌, ◌||◌, if◌then◌else◌,
}
use pcsc_proxy_android.Server.Pcsc.{scard_s_success}
use pcsc_proxy_android.Client.State.{Tls, TlsOpts, Environment, undefined, M, pure, ◌>>=◌}
use pcsc_proxy_android.Client.Exchange.{Network}
use pcsc_proxy_android.Client.Calls.Context.{scard_establish_context, scard_release_context}
use pcsc_proxy_android.Client.Calls.Lists.{Filled, scard_list_readers, scard_list_reader_groups}
use pcsc_proxy_android.Pcsctest.Texts.{shown_texts}

abbrev pub scard_scope_system : ℕ
scard_scope_system = 2

abbrev pub scard_e_insufficient_buffer : ℕ
scard_e_insufficient_buffer = 0x80100008

-- What the program returns, and the lines that it prints beneath its heading (`none` where it has
-- not come to print the heading).
pub record Printed : Type 0 where
  pub status : ℕ
  pub lines : Option (List (List ℕ))

abbrev pub stopped : Printed
stopped = record { status = 2; lines = none }

-- Bytes copied to the start of a buffer, in which they fit.
abbrev pub overwritten : List ℕ → Option (List ℕ) → List ℕ
overwritten buffer none = buffer
overwritten buffer (some xs) = xs ++ drop (length xs) buffer

-- the value of a length variable after a call
abbrev pub length_after : ℕ → Option ℕ → ℕ
length_after was none = was
length_after was (some n) = n

module _ {W : Type 0} (env : Environment) (net : Network W) (tls : Tls → TlsOpts W) where
  -- `SCardEstablishContext` and what follows where it succeeds; a context that it has not stored is
  -- not initialized.
  abbrev pub in_context : (ℕ → M W Printed) → M W Printed
  in_context body = scard_establish_context env net tls scard_scope_system >>= λ r.
      if r.0 == scard_s_success
      then elim r.1 [ none ↦ (λ c. undefined) | some id ↦ body id ]
      else pure stopped

  -- the end of `test2`
  unfoldable pub end_session : ℕ → List (List ℕ) → M W Printed
  end_session id ts = scard_release_context env net tls id >>= λ rv.
      pure (record { status = if rv == scard_s_success then 0 else 2; lines = some ts })

  -- the printing, which reads behind the buffer where no empty text ends the list
  unfoldable pub show_readers : ℕ → List ℕ → M W Printed
  unfolding end_session
  show_readers id buffer = elim (shown_texts buffer) [
    | none ↦ (λ c. undefined)
    | some ts ↦ end_session id ts
  ]

  -- the second `SCardListReaders`
  unfoldable pub fill_readers : ℕ → ℕ → M W Printed
  unfolding show_readers
  fill_readers id n = scard_list_readers env net tls id true (some n) >>= λ f.
      if f.rv == scard_s_success
      then show_readers id (overwritten (replicate n 0) f.bytes)
      else pure stopped

  -- `malloc` and `memset`, which is undefined on a null pointer
  unfoldable pub read_readers : ℕ → ℕ → M W Printed
  unfolding fill_readers
  read_readers id n = if env.malloc_ok then fill_readers id n else (λ c. undefined)

  -- the first `SCardListReaders`; `dwReaders = NULL` makes the length 0
  unfoldable pub size_readers : ℕ → M W Printed
  unfolding read_readers
  size_readers id = scard_list_readers env net tls id false (some 0) >>= λ f.
      if f.rv == scard_s_success || f.rv == scard_e_insufficient_buffer
      then read_readers id (length_after 0 f.length)
      else pure stopped

  unfoldable pub test2 : M W Printed
  unfolding size_readers
  test2 = in_context size_readers

  -- The printing of `test1`, which keeps its context. `garbage` is what `malloc` has left in the
  -- buffer, and a null pointer is undefined.
  unfoldable pub show_groups : (garbage : List ℕ) → Filled → M W Printed
  show_groups garbage f =
      if env.malloc_ok
      then elim (shown_texts (overwritten garbage f.bytes)) [
        | none ↦ (λ c. undefined)
        | some ts ↦ pure (record { status = 0; lines = some ts })
      ]
      else (λ c. undefined)

  -- The second `SCardListReaderGroups`; where there is no memory, it gets a null pointer.
  unfoldable pub list_groups : ℕ → ℕ → (garbage : List ℕ) → M W Printed
  unfolding show_groups
  list_groups id n garbage = scard_list_reader_groups env net tls id env.malloc_ok (some n) >>= λ f.
      if f.rv == scard_s_success then show_groups garbage f else pure stopped

  -- `dwGroups` is not initialized: `left` is what it holds.
  unfoldable pub test1 : (left : ℕ) → (garbage : ℕ → List ℕ) → M W Printed
  unfolding list_groups
  test1 left garbage = in_context λ id.
      scard_list_reader_groups env net tls id false (some left) >>= λ f.
      let n = length_after left f.length in
      if f.rv == scard_s_success then list_groups id n (garbage n) else pure stopped

  unfoldable pub main : M W Printed
  unfolding test2
  main = test2
