-- ===== src/Proxy/Selector.antt =====
-- internal/proxy/selector.go: the choice of a worker for a request. The counters are read once for
-- each worker of a scan.
pub mod Least
pub mod Rotation
use reverse_http.Prelude.{
  ℕ, ◌+◌, ◌-◌, ◌%◌, ◌^◌, length, get_elem?, ◌==◌, nat_eq, Bool, true, false, Option, none, some,
  List, [], ◌∷◌, ltb, leb, if◌then◌else◌,
}

-- What a selector reads of a worker: its place among the attached ones, the requests in flight, the
-- registered streams and the peer's SETTINGS_MAX_CONCURRENT_STREAMS.
pub record Candidate : Type 0 where
  pub place : ℕ
  pub in_flight : ℕ
  pub registered : ℕ
  pub limit : ℕ

unfoldable pub saturated : Candidate → Bool
saturated w = leb w.limit (w.registered % 2 ^ 32)

-- `best == nil || n < bestN`
abbrev pub better : Option Candidate → Candidate → Bool
better none w = true
better (some best) w = ltb w.in_flight best.in_flight

-- A loop over the workers that passes over those for which `skips` holds.
unfoldable pub scan : (Candidate → Bool) → Option Candidate → List Candidate → Option Candidate
scan skips best [] = best
scan skips best (w ∷ ws) =
    scan skips (if skips w then best else if better best w then some w else best) ws

abbrev pub or_scan_all : Option Candidate → List Candidate → Option Candidate
or_scan_all (some best) ws = some best
or_scan_all none ws = scan (λ w. false) none ws

unfoldable pub least_in_flight_pick : List Candidate → Option Candidate
unfolding scan saturated
least_in_flight_pick ws = or_scan_all (scan saturated none ws) ws

-- What the selector of RoundRobin ends in: nil, a worker, or a panic of `%` or of the index.
pub data Pick {ℓ} (W : Type ℓ) : Type ℓ where
  nil : Pick W
  picked : W → Pick W
  panics : Pick W

abbrev pub indexed {ℓ} : {W : Type ℓ} → Option W → Pick W
indexed none = panics
indexed (some w) = picked w

-- `workers[int(i%uint64(len(workers)))]`
abbrev pub at_turn {ℓ} : {W : Type ℓ} → List W → ℕ → Pick W
at_turn ws i = if length ws == 0 then panics else indexed (get_elem? ws (i % length ws))

-- A call of the selector that RoundRobin returns, on its counter `seq`, an atomic.Uint64.
unfoldable pub round_robin_pick {ℓ} : {W : Type ℓ} → ℕ → List W → ℕ × Pick W
round_robin_pick seq ws =
    if length ws == 0
    then (seq, nil)
    else (let seq = (seq + 1) % 2 ^ 64 in (seq, at_turn ws ((seq + (2 ^ 64 - 1)) % 2 ^ 64)))
