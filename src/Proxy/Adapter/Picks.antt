-- ===== src/Proxy/Adapter/Picks.antt =====
-- The selector that NewProxy installs (proxy.go).
use reverse_http.Prelude.{
  ◌≡◌, refl, ap, sym, ◌∙◌, Bool, true, false, Option, none, some, List, [], ◌∷◌, map, Eq, ◌==◌,
  Bool-cases, inl, inr, Each, if◌then◌else◌,
}
use reverse_http.Proxy.Adapter.{
  ProxyWorker, Selector, ProxySelector, adapter, custom, ProxyOptions, Options, Fresh, wrapped,
  inner_of, unwrap_selector, or_default, unwrapped, inner_options, new, new_proxy, wrapper_of,
  found, pick,
}

module _ (S Req W E : Type 0) ⦃same : Eq W⦄ where
  abbrev pub is_among : W → List W → Bool
  is_among w [] = false
  is_among w (v ∷ vs) = if v == w then true else is_among w vs

  -- A selector of internal/proxy picks one of the workers that it is given, or none.
  abbrev pub PicksFrom : ProxySelector S Req W E → S → Req → List W → Type 0
  PicksFrom (adapter inner) s req ws = Each (λ w. is_among w ws ≡ true) (inner s req ws).1
  PicksFrom (custom f) s req ws = Unit

  inner_all :
      (ws : List W) → map (λ (p : ProxyWorker S Req W E). p.w) (map (wrapped S Req W E) ws) ≡ ws
  inner_all [] = refl
  inner_all (w ∷ ws) = ap (λ l. w ∷ l) (inner_all ws)

  wrapper-inner :
      (w : W) (ws : List W)
      → is_among w ws ≡ true
      → inner_of S Req W E (wrapper_of S Req W E w (map (wrapped S Req W E) ws)) ≡ some w
  wrapper-inner w [] h = cc
  wrapper-inner w (v ∷ vs) h = elim (Bool-cases (v == w)) [
    | inl e ↦ rw e (ap some ((same.same_iff v w).0 e))
    | inr e ↦ let h' : is_among w vs ≡ true = rw e at h in rw e (wrapper-inner w vs h')
  ]

  found-inner :
      (o : Option W) (ws : List W)
      → Each (λ w. is_among w ws ≡ true) o
      → inner_of S Req W E (found S Req W E o (map (wrapped S Req W E) ws)) ≡ o
  found-inner none ws h = refl
  found-inner (some w) ws h = wrapper-inner w ws h

  -- What the public selector answers for wrappers of the workers, as a pick among the workers.
  abbrev pub picked_through : ProxySelector S Req W E → Selector S Req W E
  picked_through p s req ws =
      let (s, o) = pick S Req W E p s req (map (wrapped S Req W E) ws) in (s, inner_of S Req W E o)

  unwrap_selector_lem :
      (p : ProxySelector S Req W E) (s : S) (req : Req) (ws : List W)
      → PicksFrom p s req ws
      → unwrap_selector S Req W E p s req ws ≡ picked_through p s req ws
  unfolding unwrap_selector pick
  unwrap_selector_lem (custom f) s req ws h = refl
  unwrap_selector_lem (adapter inner) s req ws h =
      ap (λ o. ((inner s req ws).0, o)) (sym (found-inner (inner s req ws).1 ws h))
      ∙ ap
          (λ l. (
            (inner s req l).0,
            inner_of S Req W E (found S Req W E (inner s req l).1 (map (wrapped S Req W E) ws)),
          ))
          (sym (inner_all ws))

  built : Selector S Req W E → Options S Req W E → Fresh S Req W E
  built least o = record { selector = or_default S Req W E least o.selector; opts = o }

  new-built :
      (least : Selector S Req W E) (o : Options S Req W E)
      → o.has_tls_config ≡ true
      → new S Req W E least o ≡ some (built least o)
  unfolding new built
  new-built least o tls = rw tls

  -- NewProxy with a TLS configuration and a Selector builds a proxy. That proxy picks, for any
  -- request and workers and in any state of the selector, the worker whose wrapper the given Selector
  -- picks among the workers' wrappers, or none where it picks none, and leaves the same state; a
  -- wrapped selector of internal/proxy must pick among the workers that it is given.
  pub new_proxy_picks :
      (least : Selector S Req W E) (opts : ProxyOptions S Req W E) (p : ProxySelector S Req W E)
      (s : S) (req : Req) (ws : List W)
      → opts.has_tls_config ≡ true
      → opts.selector ≡ some p
      → PicksFrom p s req ws
      → (b : Fresh S Req W E) × (new_proxy S Req W E least opts ≡ some b)
        × (b.selector s req ws ≡ picked_through p s req ws)
  unfolding new_proxy built
  new_proxy_picks least opts p s req ws tls e h = (
    built least (inner_options S Req W E opts),
    new-built least (inner_options S Req W E opts) tls,
    ap (λ o. or_default S Req W E least (unwrapped S Req W E o) s req ws) e
        ∙ unwrap_selector_lem p s req ws h,
  )
