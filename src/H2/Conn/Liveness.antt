-- ===== src/H2/Conn/Liveness.antt =====
-- The PING watchdog of a connection (internal/h2/conn.go).
use reverse_http.Prelude.{
  ℕ, ◌+◌, ◌%◌, ◌^◌, ◌<◌, ◌≡◌, ◌≢◌, refl, sym, ◌∙◌, ◌⊎◌, inl, inr, ◌↔◌, Bool, true, false, ◌&&◌,
  Option, none, some, List, [], ◌∷◌, ltb, if◌then◌else◌, if_cases, arith, ◌==◌, nat_eq, All,
}
use mathlib.Core.Bool.{true≢false}
use reverse_http.H2.Errors.{Err, ping_timeout}
use reverse_http.H2.Conn.{Conn, send_or_check_ping, handle_ping_ack, ping_timeout_ns, submitted}

-- ACKs that arrive one after the other.
pub handle_acks : List ℕ → Conn → Conn
handle_acks [] c = c
handle_acks (payload ∷ acks) c = handle_acks acks (handle_ping_ack c payload)

-- The payload of the PING that an idle tick sends.
abbrev pub next_payload : Conn → ℕ
next_payload c = (c.ping_counter + 1) % 2 ^ 64

-- A PING with the payload `p` is out, and its deadline is `t`.
abbrev Armed : ℕ → ℕ → Conn → Type 0
Armed p t c = (c.ping_pending ≡ true) × (c.ping_data ≡ p) × (c.ping_deadline ≡ t)

quiet_acks :
    (acks : List ℕ) (c : Conn) → c.ping_pending ≡ false → (handle_acks acks c).ping_pending ≡ false
unfolding handle_acks handle_ping_ack
quiet_acks [] c h = h
quiet_acks (a ∷ acks) c h = quiet_acks acks _ (
    if_cases (λ (v : Conn). v.ping_pending ≡ false) (c.ping_pending && (c.ping_data == a))
      (λ _. refl) λ _. h)

-- Either the ACK is among those that have arrived, or the PING is still out.
Armed-acks :
    (acks : List ℕ) (c : Conn) (p t : ℕ)
    → Armed p t c
    → (All (λ a. a ≢ p) acks × Armed p t (handle_acks acks c))
      ⊎ (¬ All (λ a. a ≢ p) acks × ((handle_acks acks c).ping_pending ≡ false))
unfolding handle_acks handle_ping_ack
Armed-acks [] c p t h = inl (tt, h)
Armed-acks (a ∷ acks) c p t h =
    if_cases
      (λ (v : Conn).
        (((a ≢ p) × All (λ b. b ≢ p) acks) × Armed p t (handle_acks acks v))
        ⊎ (¬ ((a ≢ p) × All (λ b. b ≢ p) acks) × ((handle_acks acks v).ping_pending ≡ false)))
      (c.ping_pending && (c.ping_data == a))
      (λ e.
        inr
          (λ k. k.0 (ground (arith, h)), quiet_acks acks (record c { ping_pending = false }) refl))
      λ e. missed (λ q. absurd (true≢false (sym (both h q) ∙ e))) (Armed-acks acks c p t h)
  where
    both : Armed p t c → a ≡ p → (c.ping_pending && (c.ping_data == a)) ≡ true
    both k q = ground (arith, k)

    missed :
        a ≢ p
        → ((All (λ b. b ≢ p) acks × Armed p t (handle_acks acks c))
            ⊎ (¬ All (λ b. b ≢ p) acks × ((handle_acks acks c).ping_pending ≡ false)))
        → (((a ≢ p) × All (λ b. b ≢ p) acks) × Armed p t (handle_acks acks c))
          ⊎ (¬ ((a ≢ p) × All (λ b. b ≢ p) acks) × ((handle_acks acks c).ping_pending ≡ false))
    missed n (inl k) = inl ((n, k.0), k.1)
    missed n (inr k) = inr (λ both_hold. k.0 both_hold.1, k.1)

late_tick :
    (now : ℕ) (c : Conn) (p t : ℕ)
    → Armed p t c
    → ((send_or_check_ping now c).1 ≡ some ping_timeout) ↔ (t < now)
unfolding send_or_check_ping
late_tick now c p t h =
    if_cases (λ (r : Conn × Option Err). (r.1 ≡ some ping_timeout) ↔ (t < now)) c.ping_pending
      (λ _. late (ltb c.ping_deadline now) (ground (arith, h)))
      λ f. absurd (true≢false (sym h.0 ∙ f))
  where
    late :
        (b : Bool)
        → ((b ≡ true) ↔ (t < now))
        → ((if b then some ping_timeout else none) ≡ some ping_timeout) ↔ (t < now)
    late true e = (λ _. e.0 refl, λ _. refl)
    late false e = (λ q. cc, λ q. (let k = e.1 q in cc))

tick_quiet : (now : ℕ) (c : Conn) → c.ping_pending ≡ false → (send_or_check_ping now c).1 ≡ none
unfolding send_or_check_ping
tick_quiet now c h =
    if_cases (λ (r : Conn × Option Err). r.1 ≡ none) c.ping_pending
      (λ t. absurd (true≢false (sym t ∙ h))) λ _. refl

tick-Armed :
    (now : ℕ) (c : Conn)
    → c.ping_pending ≡ false
    → Armed (next_payload c) (now + ping_timeout_ns) (send_or_check_ping now c).0
unfolding send_or_check_ping submitted
tick-Armed now c h =
    if_cases (λ (r : Conn × Option Err). Armed (next_payload c) (now + ping_timeout_ns) r.0)
      c.ping_pending (λ t. absurd (true≢false (sym t ∙ h))) λ _. (refl, refl, refl)

-- The watchdog declares a connection dead exactly when it should. After an idle tick at `sent` has
-- put a PING out, and ACKs with any payloads have arrived, an idle tick at `now` fails if and only
-- if none of them had the payload of that PING and its deadline is over.
pub watchdog :
    (c : Conn) (sent now : ℕ) (acks : List ℕ)
    → c.ping_pending ≡ false
    → ((send_or_check_ping now (handle_acks acks (send_or_check_ping sent c).0)).1
        ≡ some ping_timeout)
      ↔ (All (λ a. a ≢ next_payload c) acks × (sent + ping_timeout_ns < now))
watchdog c sent now acks h = decide (
    Armed-acks acks (send_or_check_ping sent c).0 (next_payload c) (sent + ping_timeout_ns)
      (tick-Armed sent c h))
  where
    v : Conn
    v = handle_acks acks (send_or_check_ping sent c).0

    decide :
        ((All (λ a. a ≢ next_payload c) acks × Armed (next_payload c) (sent + ping_timeout_ns) v)
          ⊎ (¬ All (λ a. a ≢ next_payload c) acks × (v.ping_pending ≡ false)))
        → ((send_or_check_ping now v).1 ≡ some ping_timeout)
          ↔ (All (λ a. a ≢ next_payload c) acks × (sent + ping_timeout_ns < now))
    decide (inl k) =
        let e = late_tick now v (next_payload c) (sent + ping_timeout_ns) k.1 in
        (λ q. (k.0, e.0 q), λ q. e.1 q.1)
    decide (inr k) = let e = tick_quiet now v k.1 in (λ q. cc, λ q. absurd (k.0 q.0))
