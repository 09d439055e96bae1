-- ===== src/Proxy/Adapter.antt =====
-- proxy.go at the repository's root: the public names around internal/proxy, and `New` of
-- internal/proxy/proxy.go. `W` stands for the pointers to the workers, `S` for the state that a
-- selector keeps between its calls, `E` for what a hook does.
pub mod Picks
use reverse_http.Prelude.{
  ℕ, Bool, true, false, Option, none, some, List, [], ◌∷◌, map, if◌then◌else◌, Eq, ◌==◌,
}

module _ (S Req W E : Type 0) where
  -- *ProxyWorker: a fresh one for each use, so that only the worker in it counts.
  pub record ProxyWorker : Type 0 where
    pub w : W

  abbrev pub Selector : Type 0
  Selector = S → Req → List W → S × Option W

  -- A ProxySelector: the adapter around a selector of internal/proxy, or any other.
  pub data ProxySelector : Type 0 where
    adapter : Selector → ProxySelector
    custom : (S → Req → List ProxyWorker → S × Option ProxyWorker) → ProxySelector

  pub record ProxyOptions : Type 0 where
    pub has_tls_config : Bool
    pub selector : Option ProxySelector
    pub on_worker_attach : Option (ProxyWorker → E)
    pub on_worker_detach : Option (ProxyWorker → E)
    pub max_concurrent_streams : ℕ

  pub record Options : Type 0 where
    pub has_tls_config : Bool
    pub selector : Option Selector
    pub on_worker_attach : Option (W → E)
    pub on_worker_detach : Option (W → E)
    pub max_concurrent_streams : ℕ

  -- A fresh proxy: its selector and the options.
  pub record Fresh : Type 0 where
    pub selector : Selector
    pub opts : Options

  abbrev pub wrapped : W → ProxyWorker
  wrapped w = record { w = w }

  abbrev pub inner_of : Option ProxyWorker → Option W
  inner_of none = none
  inner_of (some p) = some p.w

  abbrev pub wrap_hook : Option (ProxyWorker → E) → Option (W → E)
  wrap_hook none = none
  wrap_hook (some hook) = some λ w. hook (wrapped w)

  abbrev pub wrap_selector : Selector → ProxySelector
  wrap_selector = adapter

  unfoldable pub unwrap_selector : ProxySelector → Selector
  unwrap_selector (adapter inner) = inner
  unwrap_selector (custom pick) =
      λ s req inner. let (s, picked) = pick s req (map wrapped inner) in (s, inner_of picked)

  abbrev pub unwrapped : Option ProxySelector → Option Selector
  unwrapped none = none
  unwrapped (some p) = some (unwrap_selector p)

  abbrev pub or_default : Selector → Option Selector → Selector
  or_default least none = least
  or_default least (some s) = s

  -- `least` is LeastInFlight; `none` is an error.
  unfoldable pub new : Selector → Options → Option Fresh
  new least opts =
      if opts.has_tls_config
      then some (record { selector = or_default least opts.selector; opts = opts })
      else none

  abbrev pub inner_options : ProxyOptions → Options
  inner_options opts = record {
    has_tls_config = opts.has_tls_config;
    selector = unwrapped opts.selector;
    on_worker_attach = wrap_hook opts.on_worker_attach;
    on_worker_detach = wrap_hook opts.on_worker_detach;
    max_concurrent_streams = opts.max_concurrent_streams;
  }

  unfoldable pub new_proxy : Selector → ProxyOptions → Option Fresh
  unfolding unwrap_selector new
  new_proxy least opts = new least (inner_options opts)

  unfoldable pub workers : List W → List ProxyWorker
  workers inner = map wrapped inner

  module _ ⦃same : Eq W⦄ where
    -- The first of the wrappers that has the picked worker.
    abbrev pub wrapper_of : W → List ProxyWorker → Option ProxyWorker
    wrapper_of picked [] = none
    wrapper_of picked (p ∷ ps) = if p.w == picked then some p else wrapper_of picked ps

    abbrev pub found : Option W → List ProxyWorker → Option ProxyWorker
    found none ps = none
    found (some picked) ps = wrapper_of picked ps

    -- `Pick` of selectorAdapter, and of any ProxySelector.
    unfoldable pub pick : ProxySelector → S → Req → List ProxyWorker → S × Option ProxyWorker
    pick (adapter inner) s req ps =
        let (s, picked) = inner s req (map (λ p. p.w) ps) in (s, found picked ps)
    pick (custom f) s req ps = f s req ps
