-- ===== src/Proxy/Tunnel/Ids.antt =====
-- The stream IDs and the number of streams of a tunnel over time (internal/proxy/worker.go).
use reverse_http.Prelude.{
  ℕ, zero, suc, ◌+◌, ◌-◌, ◌*◌, ◌%◌, ◌^◌, ◌≤◌, ◌<◌, ◌≡◌, refl, ap, sym, ◌∙◌, subst, Option, none,
  some, List, [], ◌∷◌, ◌++◌, length, length-append, leb, if_cases, arith, nat_eq,
}
use reverse_http.Prelude.Int.{ℤ}
use reverse_http.Prelude.Table.{length-insert_le, length-delete_le}
use reverse_http.H2.Errors.{Err}
use reverse_http.H2.Conn.{
  Conn, new_conn, add_to_registry, remove_stream, next_stream_id, begin_drain, finish_drain,
}
use reverse_http.Proxy.Tunnel.{
  new_client, Worker, Opened, is_saturated, settled, open_stream, deregister_stream,
}
use reverse_http.Proxy.Tunnel.Opening.{fresh_id}

-- What befalls a tunnel: a call of `openStream`, with the answers of `sendHeaders`; the two removals at
-- the end of a forward, each under its own lock; a new limit from the peer; and its GOAWAY.
pub data Op : Type 0 where
  opens : (ℕ → Option Err) → ℤ → Op
  removes : ℕ → Op
  deregisters : ℕ → Op
  sets_limit : ℕ → Op
  drains : Op

unfoldable pub step : Worker → Op → Worker
step w (opens send_headers window) = (open_stream send_headers window w).0
step w (removes id) = record w { conn = remove_stream w.conn id }
step w (deregisters id) = deregister_stream id w
step w (sets_limit n) = record w { conn = record w.conn { peer_max_streams = n } }
step w drains = record w { conn = begin_drain w.conn }

unfoldable pub run : Worker → List Op → Worker
run w [] = w
run w (op ∷ ops) = run (step w op) ops

-- acceptTunnel (internal/proxy/tunnel.go)
abbrev pub attached : Worker
attached = record { conn = new_conn; streams = []; announced = [] }

-- The first `n` odd numbers, in ascending order.
unfoldable pub odds : ℕ → List ℕ
odds zero = []
odds (suc n) = odds n ++ (2 * n + 1) ∷ []

pub length-odds : (n : ℕ) → length (odds n) ≡ n
unfolding odds
length-odds zero = refl
length-odds (suc n) = omega (arith, length-odds n, length-append (odds n) ((2 * n + 1) ∷ []))

-- `n` streams were opened, and the next ID follows on the last.
pub record Counted (n : ℕ) (w : Worker) : Type 0 where
  pub ids : w.announced ≡ odds n
  pub next : w.conn.next_stream_id ≡ 2 * n - 1

-- At most `m` streams were opened.
abbrev AtMost : ℕ → Worker → Type 0
AtMost m w = (n : ℕ) × ((n ≤ m) × Counted n w)

kept_by_removal : (c : Conn) (id : ℕ) → (remove_stream c id).next_stream_id ≡ c.next_stream_id
unfolding remove_stream finish_drain
kept_by_removal c id = ground arith

kept_by_drain : (c : Conn) → (begin_drain c).next_stream_id ≡ c.next_stream_id
unfolding begin_drain finish_drain
kept_by_drain c = ground arith

settled-Counted :
    (n : ℕ) (w : Worker) (id : ℕ) (answer : Option Err)
    → Counted n w
    → Counted n (settled w id answer).0
settled-Counted n w id none h = h
settled-Counted n w id (some err) h = record {
  ids = h.ids;
  next = kept_by_removal w.conn id ∙ h.next;
}

fresh_id_lem : (n : ℕ) (w : Worker) → suc n < 2 ^ 31 → Counted n w → fresh_id w ≡ 2 * n + 1
unfolding next_stream_id
fresh_id_lem n w small h = ground (arith, h.next)

opened_once :
    (send_headers : ℕ → Option Err) (window : ℤ) (w : Worker) (m : ℕ)
    → suc m < 2 ^ 31
    → AtMost m w
    → AtMost (suc m) (open_stream send_headers window w).0
unfolding open_stream is_saturated next_stream_id add_to_registry odds
opened_once send_headers window w m small (n, (le, h)) =
    if_cases P w.conn.draining (λ _. kept)
      λ _.
        if_cases P (is_saturated w) (λ _. kept)
          λ _. (
            suc n,
            (
              omega (arith, le),
              settled-Counted (suc n) _ (fresh_id w) (send_headers (fresh_id w)) (record {
                ids =
                    ap (λ l. l ++ fresh_id w ∷ []) h.ids
                    ∙ ap (λ i. odds n ++ i ∷ []) (fresh_id_lem n w (omega (arith, le, small)) h);
                next = fresh_id_lem n w (omega (arith, le, small)) h ∙ omega arith;
              }),
            ),
          )
  where
    P : Worker × Opened → Type 0
    P r = AtMost (suc m) r.0

    kept : AtMost (suc m) w
    kept = (n, (omega (arith, le), h))

step-AtMost :
    (w : Worker) (op : Op) (m : ℕ) → suc m < 2 ^ 31 → AtMost m w → AtMost (suc m) (step w op)
unfolding step deregister_stream
step-AtMost w (opens send_headers window) m small h = opened_once send_headers window w m small h
step-AtMost w (deregisters id) m small (n, (le, h)) =
    (n, (omega (arith, le), record { ids = h.ids; next = h.next }))
step-AtMost w (removes id) m small (n, (le, h)) =
    (n, (omega (arith, le), record { ids = h.ids; next = kept_by_removal w.conn id ∙ h.next }))
step-AtMost w (sets_limit k) m small (n, (le, h)) =
    (n, (omega (arith, le), record { ids = h.ids; next = h.next }))
step-AtMost w drains m small (n, (le, h)) =
    (n, (omega (arith, le), record { ids = h.ids; next = kept_by_drain w.conn ∙ h.next }))

run-AtMost :
    (ops : List Op) (w : Worker) (m : ℕ)
    → m + length ops < 2 ^ 31
    → AtMost m w
    → AtMost (m + length ops) (run w ops)
unfolding run
run-AtMost [] w m small h = (h.0, (omega (arith, h.1.0), h.1.1))
run-AtMost (op ∷ ops) w m small h =
    subst (λ k. AtMost k (run (step w op) ops)) (omega arith)
      (run-AtMost ops (step w op) (suc m) (omega arith) (step-AtMost w op m (omega arith) h))

-- The proxy announces the streams of a tunnel with the IDs 1, 3, 5 and so on, each once and in this
-- order, whatever streams end in between, are refused, or fail to be announced. The tunnel sees
-- fewer than 2^31 events.
pub ids_ascend :
    (ops : List Op)
    → length ops < 2 ^ 31
    → (run attached ops).announced ≡ odds (length (run attached ops).announced)
unfolding odds
ids_ascend ops small =
    let (n, (le, h)) =
      run-AtMost ops attached 0 (omega arith)
        (0, (omega arith, record { ids = refl; next = omega arith })) in
    h.ids ∙ ap odds (sym (length-odds n) ∙ ap length (sym h.ids))

-- The peer does not change its limit.
abbrev pub Steady : List Op → Type 0
Steady [] = Unit
Steady (sets_limit n ∷ ops) = ⊥
Steady (op ∷ ops) = Steady ops

-- The limit of the peer is `limit`, and the tunnel keeps it.
abbrev Roomy : ℕ → Worker → Type 0
Roomy limit w = (w.conn.peer_max_streams ≡ limit) × (length w.streams ≤ limit)

limit_by_removal : (c : Conn) (id : ℕ) → (remove_stream c id).peer_max_streams ≡ c.peer_max_streams
unfolding remove_stream finish_drain
limit_by_removal c id = ground arith

limit_by_drain : (c : Conn) → (begin_drain c).peer_max_streams ≡ c.peer_max_streams
unfolding begin_drain finish_drain
limit_by_drain c = ground arith

settled-Roomy :
    (limit : ℕ) (w : Worker) (id : ℕ) (answer : Option Err)
    → Roomy limit w
    → Roomy limit (settled w id answer).0
settled-Roomy limit w id none h = h
settled-Roomy limit w id (some err) h =
    (limit_by_removal w.conn id ∙ h.0, omega (arith, h.1, length-delete_le id w.streams))

opened-Roomy :
    (limit : ℕ) (send_headers : ℕ → Option Err) (window : ℤ) (w : Worker)
    → limit < 2 ^ 32
    → Roomy limit w
    → Roomy limit (open_stream send_headers window w).0
unfolding open_stream is_saturated next_stream_id add_to_registry
opened-Roomy limit send_headers window w small h =
    if_cases P w.conn.draining (λ _. h)
      λ _.
        if_cases P (leb w.conn.peer_max_streams (length w.streams % 2 ^ 32)) (λ _. h)
          λ t.
            let room : suc (length w.streams) ≤ limit = ground (arith, h.0, h.1, small) in
            settled-Roomy limit _ (fresh_id w) (send_headers (fresh_id w))
              (h.0, omega (arith, length-insert_le (fresh_id w) new_client w.streams))
  where
    P : Worker × Opened → Type 0
    P r = Roomy limit r.0

-- Under a limit that the peer does not change, a tunnel never has more streams open than the limit,
-- however opening, failing and finishing requests follow on one another.
pub within_limit :
    (limit : ℕ) (ops : List Op) (w : Worker)
    → limit < 2 ^ 32
    → Steady ops
    → w.conn.peer_max_streams ≡ limit
    → length w.streams ≤ limit
    → length (run w ops).streams ≤ limit
unfolding run step deregister_stream
within_limit limit [] w small steady e h = h
within_limit limit (opens send_headers window ∷ ops) w small steady e h =
    let r = opened-Roomy limit send_headers window w small (e, h) in
    within_limit limit ops _ small steady r.0 r.1
within_limit limit (removes id ∷ ops) w small steady e h =
    within_limit limit ops _ small steady (limit_by_removal w.conn id ∙ e) h
within_limit limit (deregisters id ∷ ops) w small steady e h =
    within_limit limit ops _ small steady e (omega (arith, length-delete_le id w.streams))
within_limit limit (sets_limit n ∷ ops) w small steady e h = absurd steady
within_limit limit (drains ∷ ops) w small steady e h =
    within_limit limit ops _ small steady (limit_by_drain w.conn ∙ e) h
