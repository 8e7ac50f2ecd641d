-- ===== src/Server/Descriptors.antt =====
-- The descriptors of the process that accepts (`main` of src/server/server.c).
use pcsc_proxy_android.Prelude.{
  ℕ, ◌+◌, ◌≤◌, ◌≡◌, refl, sym, ◌∙◌, ap, Bool, true, false, Option, none, some, List, [], ◌∷◌, ◌++◌,
  arith, length, length-append,
}
use mathlib.Core.List.{append_assoc}
use mathlib.Core.Path.{subst}
use pcsc_proxy_android.Sockets.Calls.{Family, unknown, Sys, Resolver, NetOpts, Tracks}
use pcsc_proxy_android.Sockets.Network.{pp_accept, pp_network_opts}
use pcsc_proxy_android.Sockets.Unix.{pp_unix_opts}
use pcsc_proxy_android.Sockets.Bluetooth.{Bluez, pp_bluetooth_opts}
use pcsc_proxy_android.Sockets.Choice.{pp_netopts_init}
use pcsc_proxy_android.Sockets.Balance.{Balanced}
use pcsc_proxy_android.Server.Daemon.{
  Daemon, Fork, fork_failed, in_parent, Event, client, serve, waiting,
}
use pcsc_proxy_android.Server.Parent.{
  Harmless, reaped_at_test, reaped_before, ignored_at_test, ignored_before, nothing, lost, served,
  AllHarmless, joined, after_event, after, serve-waiting,
}

-- the events by which a descriptor may stay open
abbrev pub cost : Event → ℕ
cost (client fork_failed) = 1
cost _ = 0

abbrev pub forks_failed : List Event → ℕ
forks_failed [] = 0
forks_failed (e ∷ es) = cost e + forks_failed es

-- `ys` is `xs` with at most `n` more descriptors, which `lost` lists.
pub record Grown (n : ℕ) (xs ys : List ℕ) : Type 0 where
  pub leaked : List ℕ
  pub few : length leaked ≤ n
  pub all : ys ≡ leaked ++ xs

same : (n : ℕ) (xs ys : List ℕ) → ys ≡ xs → Grown n xs ys
same n xs ys e = record { leaked = []; few = omega arith; all = e }

more : (n m : ℕ) (xs ys zs : List ℕ) → Grown n xs ys → Grown m ys zs → Grown (n + m) xs zs
more n m xs ys zs g h = record {
  leaked = h.leaked ++ g.leaked;
  few = omega (arith, length-append h.leaked g.leaked, g.few, h.few);
  all = h.all ∙ ap (λ l. h.leaked ++ l) g.all ∙ sym (append_assoc h.leaked g.leaked xs);
}

module _ {K : Type 0} (sys : Sys K) (fds : K → List ℕ) (t : Tracks sys fds) (opts : NetOpts K)
    (sk : ℕ) (balanced : (k : K) → Balanced fds k (opts.accept k sk)) where
  a_client :
      (d : Daemon K) (f : Fork) (r : K × Option ℕ)
      → Balanced fds d.kernel r
      → Harmless (client f)
      → Grown (cost (client f)) (fds d.kernel) (fds (joined sys opts sk d f r).kernel)
  a_client d f (k, none) b h = same _ _ _ b
  a_client d f (k, some s) b lost = record { leaked = s ∷ []; few = omega arith; all = b }
  a_client d f (k, some s) b (served pid) = same _ _ _ (t.close_takes k s (fds d.kernel) b)

  an_event :
      (e : Event) (d : Daemon K)
      → Harmless e
      → Grown (cost e) (fds d.kernel) (fds (after_event sys opts sk e d).kernel)
  an_event e d reaped_at_test = same _ _ _ refl
  an_event e d reaped_before = same _ _ _ refl
  an_event e d (ignored_at_test n) = same _ _ _ refl
  an_event e d (ignored_before n) = same _ _ _ refl
  an_event e d nothing = same _ _ _ refl
  an_event e d lost = a_client d fork_failed _ (balanced d.kernel) lost
  an_event e d (served pid) = a_client d (in_parent pid) _ (balanced d.kernel) (served pid)

  pub events-Grown :
      (es : List Event) (d : Daemon K)
      → AllHarmless es
      → Grown (forks_failed es) (fds d.kernel) (fds (after sys opts sk es d).kernel)
  events-Grown [] d h = same _ _ _ refl
  events-Grown (e ∷ es) d h =
      more (cost e) (forks_failed es) _ _ _ (an_event e d h.0)
        (events-Grown es (after_event sys opts sk e d) h.1)

module _ {K : Type 0} (sys : Sys K) (fds : K → List ℕ) (t : Tracks sys fds) (dns : Resolver)
    (bz : Bluez K) where
  accept-Balanced : (k : K) (sk : ℕ) → Balanced fds k (pp_accept sys dns k sk)
  unfolding pp_accept
  accept-Balanced k sk = by_answer (sys.accept k sk) refl
    where
      by_answer :
          (r : K × Option ℕ)
          → sys.accept k sk ≡ r
          → Balanced fds k (elim r.1 [ none ↦ (r.0, none) | some n ↦ (r.0, some n) ])
      by_answer (k1, none) e = t.accept_fails k k1 sk e
      by_answer (k1, some n) e = t.accept_opens k k1 sk n e

  chosen :
      (p o : NetOpts K) (k : K) (sk : ℕ)
      → some p ≡ some o
      → Balanced fds k (p.accept k sk)
      → Balanced fds k (o.accept k sk)
  chosen p o k sk e =
      subst (λ z. Balanced fds k (NetOpts.accept z k sk))
        (ap (λ z. elim z as (λ y. NetOpts K) [ none ↦ p | some q ↦ q ]) e)

  netopts_accept-Balanced :
      (b : Bool) (f : Family) (o : NetOpts K) (k : K) (sk : ℕ)
      → pp_netopts_init sys dns bz b f ≡ some o
      → Balanced fds k (o.accept k sk)
  unfolding pp_netopts_init pp_network_opts pp_unix_opts pp_bluetooth_opts
  netopts_accept-Balanced b Family.inet o k sk h =
      chosen (pp_network_opts sys dns) o k sk h (accept-Balanced k sk)
  netopts_accept-Balanced b Family.inet6 o k sk h =
      chosen (pp_network_opts sys dns) o k sk h (accept-Balanced k sk)
  netopts_accept-Balanced true Family.bluetooth o k sk h =
      chosen (pp_bluetooth_opts sys dns bz) o k sk h (accept-Balanced k sk)
  netopts_accept-Balanced false Family.bluetooth o k sk h = cc
  netopts_accept-Balanced b Family.local o k sk h =
      chosen (pp_unix_opts sys dns) o k sk h (accept-Balanced k sk)
  netopts_accept-Balanced b (unknown n) o k sk h = cc

  -- After harmless events with the flag not set, whatever the family and however many clients
  -- have come, the process that accepts still waits, and it has the descriptors it had, but for
  -- those of clients for which `fork` has failed: at most one descriptor stays open for each of
  -- them. The system calls open and close descriptors as documented.
  pub serve-Grown :
      (b : Bool) (f : Family) (o : NetOpts K) (sk : ℕ) (es : List Event) (d : Daemon K)
      → pp_netopts_init sys dns bz b f ≡ some o
      → AllHarmless es
      → d.abort ≡ false
      → (d' : Daemon K) × (serve sys o sk es d ≡ waiting d')
        × Grown (forks_failed es) (fds d.kernel) (fds d'.kernel)
  serve-Grown b f o sk es d h a q = (
    after sys o sk es d,
    serve-waiting sys o sk es d a q,
    events-Grown sys fds t o sk (λ k. netopts_accept-Balanced b f o k sk h) es d a,
  )
