-- ===== src/Proxy/Selector/Least.antt =====
-- What `LeastInFlight` picks (internal/proxy/selector.go).
use reverse_http.Prelude.{
  ◌≤◌, ◌<◌, ◌≡◌, refl, ap, sym, ◌∙◌, subst, ◌⊎◌, inl, inr, Bool, true, false, Option, none, some,
  List, [], ◌∷◌, ◌++◌, append-nil, append_assoc, ltb, if◌then◌else◌, if_cases, arith, All,
  All-append, All-map,
}
use mathlib.Core.Bool.{true≢false}
use reverse_http.Proxy.Selector.{
  Candidate, saturated, better, scan, or_scan_all, least_in_flight_pick,
}

-- `w` is the least loaded of the workers that are not skipped, and the first of those.
pub record Least (skips : Candidate → Bool) (ws : List Candidate) (w : Candidate) : Type 0 where
  pub before : List Candidate
  pub after : List Candidate
  pub place : ws ≡ before ++ (w ∷ after)
  pub eligible : skips w ≡ false
  pub above : All (λ v. skips v ≡ false → w.in_flight < v.in_flight) before
  pub at_least : All (λ v. skips v ≡ false → w.in_flight ≤ v.in_flight) after

-- The state of a scan over the workers seen so far.
abbrev Scanned : (Candidate → Bool) → List Candidate → Option Candidate → Type 0
Scanned skips seen none = All (λ v. skips v ≡ true) seen
Scanned skips seen (some w) = Least skips seen w

seen_more :
    (skips : Candidate → Bool) (seen : List Candidate) (best : Option Candidate) (w : Candidate)
    → Scanned skips seen best
    → Scanned skips
        (seen ++ w ∷ [])
        (if skips w then best else if better best w then some w else best)
seen_more skips seen none w h =
    if_cases (Scanned skips (seen ++ w ∷ [])) (skips w)
      (λ t. All-append (λ v. skips v ≡ true) seen (w ∷ []) h (t, tt))
      λ f. record {
        before = seen;
        after = [];
        place = refl;
        eligible = f;
        above = All-map _ _ seen (λ v s e. absurd (true≢false (sym s ∙ e))) h;
        at_least = tt;
      }
seen_more skips seen (some b) w h =
    if_cases (Scanned skips (seen ++ w ∷ [])) (skips w)
      (λ t. longer (λ e. absurd (true≢false (sym t ∙ e))))
      λ f.
        if_cases (Scanned skips (seen ++ w ∷ [])) (ltb w.in_flight b.in_flight)
          (λ t.
            let t' : w.in_flight < b.in_flight = ground arith in
            record {
              before = seen;
              after = [];
              place = refl;
              eligible = f;
              above = subst (All λ v. skips v ≡ false → w.in_flight < v.in_flight) (sym h.place) (
                  All-append _ h.before (b ∷ h.after)
                    (All-map _ _ h.before (λ v k e. omega (arith, t', k e)) h.above)
                    (λ _. t', All-map _ _ h.after (λ v k e. omega (arith, t', k e)) h.at_least));
              at_least = tt;
            })
          λ g. longer λ _. ground arith
  where
    longer : (skips w ≡ false → b.in_flight ≤ w.in_flight) → Least skips (seen ++ w ∷ []) b
    longer k = record {
      before = h.before;
      after = h.after ++ w ∷ [];
      place = ap (λ l. l ++ w ∷ []) h.place ∙ append_assoc h.before (b ∷ h.after) (w ∷ []);
      eligible = h.eligible;
      above = h.above;
      at_least = All-append _ h.after (w ∷ []) h.at_least (k, tt);
    }

scan-Scanned :
    (skips : Candidate → Bool) (seen : List Candidate) (best : Option Candidate)
    (ws : List Candidate)
    → Scanned skips seen best
    → Scanned skips (seen ++ ws) (scan skips best ws)
unfolding scan
scan-Scanned skips seen best [] h = subst (λ l. Scanned skips l best) (sym (append-nil seen)) h
scan-Scanned skips seen best (w ∷ ws) h =
    subst (λ l. Scanned skips l (scan skips best (w ∷ ws))) (append_assoc seen (w ∷ []) ws)
      (scan-Scanned skips (seen ++ w ∷ []) _ ws (seen_more skips seen best w h))

-- What the selector promises: of the workers with room for a stream, the first of the least loaded;
-- if none has room, the first of the least loaded of all; and none only if none is attached.
abbrev pub Picked : List Candidate → Option Candidate → Type 0
Picked ws none = ws ≡ []
Picked ws (some w) =
    Least saturated ws w ⊎ (All (λ v. saturated v ≡ true) ws × Least (λ v. false) ws w)

nobody : (ws : List Candidate) → All (λ (v : Candidate). false ≡ true) ws → ws ≡ []
nobody [] h = refl
nobody (w ∷ ws) h = cc

second_scan :
    (ws : List Candidate) (o : Option Candidate)
    → All (λ v. saturated v ≡ true) ws
    → Scanned (λ v. false) ws o
    → Picked ws o
second_scan ws none full h = nobody ws h
second_scan ws (some w) full h = inr (full, h)

first_scan :
    (ws : List Candidate) (o : Option Candidate)
    → Scanned saturated ws o
    → Picked ws (or_scan_all o ws)
first_scan ws none h =
    second_scan ws (scan (λ v. false) none ws) h (scan-Scanned (λ v. false) [] none ws tt)
first_scan ws (some w) h = inl h

-- `LeastInFlight` picks, of the workers below their stream limit, the first one with the fewest
-- requests in flight; if all are at their limit, the first with the fewest of all; and no worker
-- only where none is attached.
pub least_in_flight_pick-Picked : (ws : List Candidate) → Picked ws (least_in_flight_pick ws)
unfolding least_in_flight_pick
least_in_flight_pick-Picked ws =
    first_scan ws (scan saturated none ws) (scan-Scanned saturated [] none ws tt)
