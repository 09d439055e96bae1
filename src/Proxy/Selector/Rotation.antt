-- ===== src/Proxy/Selector/Rotation.antt =====
-- What RoundRobin picks in a row (internal/proxy/selector.go).
use native.Mathlib.Nat.{mod-add-mod, mod_self, mod-eq_of_lt, mod-lt}
use reverse_http.Prelude.{
  ℕ, zero, suc, ◌+◌, ◌-◌, ◌%◌, ◌^◌, ◌≤◌, ◌<◌, ◌≡◌, refl, ap, sym, ◌∙◌, some, List, [], ◌∷◌, ◌++◌,
  map, map-append, arith, length, get_elem?, get_elem?-lt, drop-get_elem?, take, drop, take_all,
  drop_all, length-drop, if_cases, ◌==◌, nat_eq,
}
use reverse_http.Proxy.Selector.{round_robin_pick, Pick, nil, picked, indexed, at_turn}

module _ {ℓ} {W : Type ℓ} (ws : List W) where
  -- The results of `k` calls for the same workers.
  abbrev pub picks : ℕ → ℕ → List (Pick W)
  picks zero seq = []
  picks (suc k) seq = let (seq, w) = round_robin_pick seq ws in w ∷ picks k seq

  turns : ℕ → ℕ → List (Pick W)
  turns zero seq = []
  turns (suc k) seq = indexed (get_elem? ws (seq % length ws)) ∷ turns k (seq + 1)

  round_robin_pick_lem :
      (seq : ℕ)
      → 0 < length ws
      → seq < 2 ^ 64
      → round_robin_pick seq ws ≡ ((seq + 1) % 2 ^ 64, indexed (get_elem? ws (seq % length ws)))
  unfolding round_robin_pick
  round_robin_pick_lem seq n h =
      if_cases
        (λ (r : ℕ × Pick W). r ≡ ((seq + 1) % 2 ^ 64, indexed (get_elem? ws (seq % length ws))))
        (length ws == 0) (λ e. absurd (ground (arith, n, e)))
        λ f.
          ap (λ i. ((seq + 1) % 2 ^ 64, at_turn ws i)) back
          ∙ ap (λ x. ((seq + 1) % 2 ^ 64, x))
              (if_cases (λ x. x ≡ indexed (get_elem? ws (seq % length ws))) (length ws == 0)
                (λ e. absurd (ground (arith, n, e))) λ _. refl)
    where
      back : ((seq + 1) % 2 ^ 64 + (2 ^ 64 - 1)) % 2 ^ 64 ≡ seq
      back = omega (arith, h)

  picks-turns : (k seq : ℕ) → 0 < length ws → seq + k ≤ 2 ^ 64 → picks k seq ≡ turns k seq
  unfolding turns
  picks-turns zero seq n h = refl
  picks-turns (suc zero) seq n h =
      ap (λ r. r.1 ∷ []) (round_robin_pick_lem seq n (omega (arith, h)))
  picks-turns (suc (suc k)) seq n h =
      ap (λ r. r.1 ∷ picks (suc k) r.0) (round_robin_pick_lem seq n (omega (arith, h)))
      ∙ ap (λ l. indexed (get_elem? ws (seq % length ws)) ∷ l)
          (ap (picks (suc k)) small ∙ picks-turns (suc k) (seq + 1) n (omega (arith, h)))
    where
      small : (seq + 1) % 2 ^ 64 ≡ seq + 1
      small = omega (arith, h)

  turns-append : (a b seq : ℕ) → turns (a + b) seq ≡ turns a seq ++ turns b (seq + a)
  unfolding turns
  turns-append zero b seq =
      let none_first : 0 + b ≡ b = omega arith in
      let from_here : seq ≡ seq + 0 = omega arith in
      ap (λ k. turns k seq) none_first ∙ ap (turns b) from_here
  turns-append (suc a) b seq =
      let one_first : suc a + b ≡ suc (a + b) = omega arith in
      let from_there : seq + 1 + a ≡ seq + suc a = omega arith in
      ap (λ k. turns k seq) one_first
      ∙ ap (λ l. indexed (get_elem? ws (seq % length ws)) ∷ l)
          (turns-append a b (seq + 1) ∙ ap (λ n. turns a (seq + 1) ++ turns b n) from_there)

  next_turn :
      (seq : ℕ) → seq % length ws + 1 < length ws → (seq + 1) % length ws ≡ seq % length ws + 1
  next_turn seq h = sym (mod-add-mod seq (length ws) 1) ∙ mod-eq_of_lt h

  -- The turn that falls on a worker.
  turn_on :
      (r : ℕ)
      → r < length ws
      → (w : W) × (get_elem? ws r ≡ some w) × (drop r ws ≡ w ∷ drop (suc r) ws)
  turn_on r h = let (w, e) = get_elem?-lt ws r h in (w, e, drop-get_elem? ws r w e)

  first_turn :
      (k r : ℕ) (rest : List (Pick W))
      → r < length ws
      → rest ≡ map picked (take k (drop (suc r) ws))
      → indexed (get_elem? ws r) ∷ rest ≡ map picked (take (suc k) (drop r ws))
  first_turn k r rest h e = let (w, g, d) = turn_on r h in rw (g, d, e)

  -- Turns that do not run past the last worker.
  turns_run :
      (k seq : ℕ)
      → 0 < length ws
      → seq % length ws + k ≤ length ws
      → turns k seq ≡ map picked (take k (drop (seq % length ws) ws))
  unfolding turns
  turns_run zero seq n h = refl
  turns_run (suc zero) seq n h = first_turn 0 (seq % length ws) [] (mod-lt seq n) refl
  turns_run (suc (suc k)) seq n h =
      let next : (seq + 1) % length ws ≡ suc (seq % length ws) =
        next_turn seq (omega (arith, h)) ∙ omega arith in
      first_turn (suc k) (seq % length ws) (turns (suc k) (seq + 1)) (mod-lt seq n) (
        turns_run (suc k) (seq + 1) n (omega (arith, h, next))
        ∙ ap (λ r. map picked (take (suc k) (drop r ws))) next)

  -- The first turn after a whole round.
  around : (seq : ℕ) → 0 < length ws → (seq + (length ws - seq % length ws)) % length ws ≡ 0
  around seq n =
      sym (mod-add-mod seq (length ws) (length ws - seq % length ws))
      ∙ ap (λ m. m % length ws) (omega (arith, mod-lt seq n))
      ∙ mod_self (length ws)

  whole_round :
      (seq : ℕ)
      → 0 < length ws
      → turns (length ws) seq ≡ map picked (drop (seq % length ws) ws ++ take (seq % length ws) ws)
  whole_round seq n =
      ap (λ k. turns k seq) split
      ∙ turns-append (length ws - r) r seq
      ∙ ap (λ l. l ++ turns r (seq + (length ws - r)))
          (turns_run (length ws - r) seq n (omega (arith, below)))
      ∙ ap (λ l. map picked (take (length ws - r) (drop r ws)) ++ l) second
      ∙ ap (λ l. map picked l ++ map picked (take r ws))
          (take_all (length ws - r) (drop r ws) (omega (arith, length-drop r ws)))
      ∙ sym (map-append picked (drop r ws) (take r ws))
    where
      r : ℕ
      r = seq % length ws

      below : r < length ws
      below = mod-lt seq n

      split : length ws ≡ length ws - r + r
      split = omega (arith, below)

      second : turns r (seq + (length ws - r)) ≡ map picked (take r ws)
      second =
          turns_run r (seq + (length ws - r)) n (omega (arith, around seq n, below))
          ∙ ap (λ i. map picked (take r (drop i ws))) (around seq n)

picks_rotate_from {ℓ} :
    {W : Type ℓ} (ws : List W) (seq : ℕ)
    → seq + length ws ≤ 2 ^ 64
    → picks ws (length ws) seq ≡ map picked (drop (seq % length ws) ws ++ take (seq % length ws) ws)
picks_rotate_from {W = W} [] seq h =
    rw (drop_all {A = W} (seq % 0) [] (omega arith), take_all {A = W} (seq % 0) [] (omega arith))
picks_rotate_from (w ∷ ws) seq h =
    picks-turns (w ∷ ws) (suc (length ws)) seq (omega arith) h
    ∙ whole_round (w ∷ ws) seq (omega arith)

-- As many calls in a row of the RoundRobin selector as there are workers, for the same workers and
-- while the counter does not pass 2^64, pick each worker exactly once and never panic: they go
-- through the list from the place that the counter gives, and on from its start. A call for no
-- workers answers nil and leaves the counter.
pub picks_rotate {ℓ} :
    {W : Type ℓ} (ws : List W) (seq : ℕ)
    → seq + length ws ≤ 2 ^ 64
    → (picks ws (length ws) seq
        ≡ map picked (drop (seq % length ws) ws ++ take (seq % length ws) ws))
      × (round_robin_pick {W = W} seq [] ≡ (seq, nil))
unfolding round_robin_pick
picks_rotate ws seq h = (picks_rotate_from ws seq h, refl)
