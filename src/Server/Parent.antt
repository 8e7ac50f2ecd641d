-- ===== src/Server/Parent.antt =====
-- The accept loop of `main` in src/server/server.c, in the process that accepts.
use mathlib.Core.List.{append-nil}
use pcsc_proxy_android.Prelude.{
  sym, ℕ, ◌≡◌, refl, ◌∙◌, ap, Bool, true, false, Option, none, some, List, [], ◌∷◌, ◌++◌, arith,
}
use pcsc_proxy_android.Sockets.Calls.{Sys, NetOpts}
use pcsc_proxy_android.Server.Daemon.{
  Signal, sigchld, sigother, Daemon, Fork, fork_failed, in_parent, Event, at_test, before_select,
  in_select, child_ends, stop, select_fails, idle, client, Outcome, waiting, left, reap,
  signal_handler, pp_stop, wait, serve, spawn,
}

-- The events that the loop goes on after: a client that is refused, served by a new process or lost
-- by a failure of `fork`, a round with nothing to do, and signals outside of `select` that are no
-- request to end.
pub data Harmless : Event → Type 0 where
  reaped_at_test : Harmless (at_test sigchld)
  reaped_before : Harmless (before_select sigchld)
  ignored_at_test : (n : ℕ) → Harmless (at_test (sigother n))
  ignored_before : (n : ℕ) → Harmless (before_select (sigother n))
  nothing : Harmless idle
  lost : Harmless (client fork_failed)
  served : (pid : ℕ) → Harmless (client (in_parent pid))

abbrev pub AllHarmless : List Event → Type 0
AllHarmless [] = Unit {0}
AllHarmless (e ∷ es) = Harmless e × AllHarmless es

-- An event that ends the loop, with the states before and after it. `pp_stop` does where it has a
-- pipe to write to.
pub data Ends {K : Type 0} (sys : Sys K) : Event → Daemon K → Daemon K → Type 0 where
  by_signal : (g : Signal) (d : Daemon K) → Ends sys (in_select g) d (signal_handler g d)
  by_child : (pid : ℕ) (d : Daemon K) → Ends sys (child_ends pid) d (record d { ended = [] })
  by_error : (d : Daemon K) → Ends sys select_fails d d
  by_stop :
      (w : ℕ) (d : Daemon K)
      → d.wake_write ≡ some w
      → Ends sys stop d
          (record d { kernel = sys.close d.kernel w; abort = true; wake_write = none })

module _ {K : Type 0} (sys : Sys K) (opts : NetOpts K) (sk : ℕ) where
  -- what a client makes of the state of the parent, by the answer of `accept`
  abbrev pub joined : Daemon K → Fork → K × Option ℕ → Daemon K
  joined d f (k, none) = record d { kernel = k }
  joined d (in_parent pid) (k, some s) = spawn sys opts sk (record d { kernel = k }) s
  joined d f (k, some s) = record d { kernel = k }

  -- The state after one harmless event, and after some.
  abbrev pub after_event : Event → Daemon K → Daemon K
  after_event (at_test sigchld) d = record d { ended = [] }
  after_event (before_select sigchld) d = record d { ended = [] }
  after_event (client f) d = joined d f (opts.accept d.kernel sk)
  after_event _ d = d

  abbrev pub after : List Event → Daemon K → Daemon K
  after [] d = d
  after (e ∷ es) d = after es (after_event e d)

  reaped : (l : List ℕ) → reap l ≡ []
  unfolding reap
  reaped [] = refl
  reaped (x ∷ l) = reaped l

  going_on :
      (b : Bool) (x y : Outcome K)
      → b ≡ false
      → ◌≡◌ {A = Outcome K} (elim b as (λ z. Outcome K) [ true ↦ x | false ↦ y ]) y
  going_on true x y h = cc
  going_on false x y h = refl

  one_event :
      (e : Event) (es : List Event) (d : Daemon K)
      → Harmless e
      → d.abort ≡ false
      → (wait sys opts sk (e ∷ es) d ≡ wait sys opts sk es (after_event e d))
        × ((after_event e d).abort ≡ false)
  unfolding wait signal_handler
  one_event e es d reaped_at_test a = (
    going_on d.abort _ _ a
        ∙ ap (λ l. wait sys opts sk es (record d { ended = l })) (reaped d.ended),
    a,
  )
  one_event e es d reaped_before a =
      (ap (λ l. wait sys opts sk es (record d { ended = l })) (reaped d.ended), a)
  one_event e es d (ignored_at_test n) a = (going_on d.abort _ _ a, a)
  one_event e es d (ignored_before n) a = (refl, a)
  one_event e es d nothing a = (going_on d.abort _ _ a, a)
  one_event e es d lost a = ground arith
  one_event e es d (served pid) a = ground arith

  some_events :
      (es more : List Event) (d : Daemon K)
      → AllHarmless es
      → d.abort ≡ false
      → (wait sys opts sk (es ++ more) d ≡ wait sys opts sk more (after es d))
        × ((after es d).abort ≡ false)
  some_events [] more d h a = (refl, a)
  some_events (e ∷ es) more d h a =
      let (p, b) = one_event e (es ++ more) d h.0 a in
      let (q, c) = some_events es more (after_event e d) h.1 b in (p ∙ q, c)

  serve-wait :
      (es : List Event) (d : Daemon K)
      → d.abort ≡ false
      → serve sys opts sk es d ≡ wait sys opts sk es d
  unfolding serve
  serve-wait es d a = going_on d.abort _ _ a

  pub serve-waiting :
      (es : List Event) (d : Daemon K)
      → AllHarmless es
      → d.abort ≡ false
      → serve sys opts sk es d ≡ waiting (after es d)
  unfolding wait
  serve-waiting es d h a =
      serve-wait es d a
      ∙ ap (λ l. wait sys opts sk l d) (sym (append-nil es))
      ∙ (some_events es [] d h a).0

  last_event :
      (e : Event) (more : List Event) (d d' : Daemon K)
      → Ends sys e d d'
      → wait sys opts sk (e ∷ more) d ≡ left d'
  unfolding wait signal_handler pp_stop
  last_event e more d d' (by_signal g _) = refl
  last_event e more d d' (by_child pid _) = ap (λ l. left (record d { ended = l })) (reaped d.ended)
  last_event e more d d' (by_error _) = refl
  last_event e more d d' (by_stop w _ h) = ground arith

  -- After harmless events with the flag not set, the loop is left, with nothing more accepted,
  -- at the first event that ends it: a signal that arrives while `select` waits, be it the one
  -- that reports the end of a service process, a failure of `select`, or a call of `pp_stop`
  -- that has a pipe to write to.
  pub serve-left :
      (es more : List Event) (e : Event) (d d' : Daemon K)
      → AllHarmless es
      → d.abort ≡ false
      → Ends sys e (after es d) d'
      → serve sys opts sk (es ++ (e ∷ more)) d ≡ left d'
  serve-left es more e d d' h a f =
      serve-wait (es ++ (e ∷ more)) d a
      ∙ (some_events es (e ∷ more) d h a).0
      ∙ last_event e more (after es d) d' f
