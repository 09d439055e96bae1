-- ===== src/Examples/Selecting.antt =====
-- Instances for the choice of a worker: internal/proxy/selector.go and proxy.go.
use reverse_http.Prelude.{
  ℕ, suc, ◌%◌, get_elem?, ◌≡◌, refl, true, none, some, List, [], ◌∷◌, arith, nat_eq,
}
use reverse_http.Proxy.Selector.{round_robin_pick, nil, picked}
use reverse_http.Proxy.Selector.Rotation.{picks, picks_rotate}
use reverse_http.Proxy.Adapter.{Selector, ProxyOptions, Fresh, wrap_selector, new_proxy}
use reverse_http.Proxy.Adapter.Picks.{picked_through, new_proxy_picks}

abbrev three_workers : List ℕ
three_workers = 10 ∷ 20 ∷ 30 ∷ []

picks_rotate_example :
    (picks three_workers 3 7 ≡ picked 20 ∷ picked 30 ∷ picked 10 ∷ [])
    × (round_robin_pick {W = ℕ} 7 [] ≡ (7, nil))
picks_rotate_example = picks_rotate three_workers 7 (omega arith)

abbrev in_turn : Selector ℕ Unit ℕ Unit
in_turn seq req ws = (suc seq, get_elem? ws (seq % 3))

abbrev in_turn_options : ProxyOptions ℕ Unit ℕ Unit
in_turn_options = record {
  has_tls_config = true;
  selector = some (wrap_selector ℕ Unit ℕ Unit in_turn);
  on_worker_attach = none;
  on_worker_detach = none;
  max_concurrent_streams = 100;
}

new_proxy_picks_example :
    (b : Fresh ℕ Unit ℕ Unit) × (new_proxy ℕ Unit ℕ Unit in_turn in_turn_options ≡ some b)
    × (b.selector 4 tt three_workers
        ≡ picked_through ℕ Unit ℕ Unit (wrap_selector ℕ Unit ℕ Unit in_turn) 4 tt three_workers)
new_proxy_picks_example =
    new_proxy_picks ℕ Unit ℕ Unit in_turn in_turn_options (wrap_selector ℕ Unit ℕ Unit in_turn) 4 tt
      three_workers refl refl refl
