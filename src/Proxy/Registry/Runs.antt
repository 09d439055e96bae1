-- ===== src/Proxy/Registry/Runs.antt =====
-- The attached workers in every run of a proxy's tunnels (internal/proxy/proxy.go).
use reverse_http.Prelude.{
  ℕ, ◌≡◌, refl, ap, subst, ◌∙◌, Bool, not, ◌&&◌, Option, none, some, List, [], ◌∷◌, arith, Each,
}
use reverse_http.Proxy.Registry.{
  Registry, new_registry, keep, available_workers, Step, step, then_run, run,
}
use reverse_http.Proxy.Registry.Order.{listed_in}
use reverse_http.Proxy.Registry.Attached.{Attached, step-Attached}

after-Attached :
    (es : List Step) (o : Option Registry)
    → ((r : Registry) → Attached r → Each Attached (run es r))
    → Each Attached o
    → Each Attached (then_run (run es) o)
after-Attached es none k h = tt
after-Attached es (some r) k h = k r h

run-Each : (es : List Step) (r : Registry) → Attached r → Each Attached (run es r)
unfolding run
run-Each [] r att = att
run-Each (e ∷ es) r att = after-Attached es (step r e) (run-Each es) (step-Attached r e att)

new-Attached : Attached new_registry
unfolding keep
new-Attached = record {
  ordered = refl;
  entered = λ w. refl;
  noted = λ w. refl;
  counted = refl;
  calm = refl;
}

keep-keep : (p q : ℕ → Bool) (xs : List ℕ) → keep q (keep p xs) ≡ keep (λ x. p x && q x) xs
unfolding keep
keep-keep p q [] = refl
keep-keep p q (x ∷ xs) = ground (arith, keep-keep p q xs)

-- In every run of a proxy's tunnels, however `attach`, `detach` and Shutdown interleave: the attached
-- workers are exactly those whose tunnel is past its append and not yet detached, each once, in the
-- order of their appends; OnWorkerAttach has been called once for each worker that reached its
-- serving, and OnWorkerDetach once, after it, for each that was detached, and neither for a tunnel that
-- was refused; the accept wait group counts exactly the running tunnels and never goes below zero;
-- and a selector is offered exactly the attached workers that do not drain, in that order.
pub run-Attached :
    (es : List Step) (r : Registry) (draining : ℕ → Bool)
    → run es new_registry ≡ some r
    → Attached r
      × (available_workers draining r
          ≡ keep (λ w. listed_in r.tunnels w && not (draining w)) r.order)
unfolding available_workers
run-Attached es r draining h =
    let att = subst (Each Attached) h (run-Each es new_registry new-Attached) in
    (
      att,
      ap (keep (λ w. not (draining w))) att.ordered
          ∙ keep-keep (listed_in r.tunnels) (λ w. not (draining w)) r.order,
    )
