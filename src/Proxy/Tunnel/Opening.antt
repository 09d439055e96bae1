-- ===== src/Proxy/Tunnel/Opening.antt =====
-- How the proxy opens streams on a tunnel (internal/proxy/worker.go).
use reverse_http.Prelude.{
  ℕ, suc, ◌%◌, ◌^◌, ◌≤◌, ◌<◌, ◌≡◌, refl, ◌∙◌, true, false, Option, none, some, [], ◌∷◌, ◌++◌,
  length, leb, if_cases, arith, nat_eq,
}
use reverse_http.Prelude.Int.{ℤ}
use reverse_http.Prelude.Table.{
  Table, lookup, insert, delete, lookup-insert, length-insert_new, delete-insert_new,
}
use reverse_http.H2.Errors.{Err}
use reverse_http.H2.Conn.{Conn, add_to_registry, remove_stream, next_stream_id, finish_drain}
use reverse_http.H2.Stream.{Stream, acquire}
use reverse_http.Proxy.Tunnel.{
  new_client, Worker, draining, saturated, sending, Opened, opened, refused, is_saturated, settled,
  open_stream,
}

-- The ID that the next stream gets.
abbrev pub fresh_id : Worker → ℕ
fresh_id w = (next_stream_id w.conn).1

-- What an answer of `openStream` says of the tunnel before and after.
abbrev pub Effect : (ℕ → Option Err) → Worker → Worker × Opened → Type 0
Effect send_headers w (v, opened id) =
    (id ≡ fresh_id w)
    × (send_headers id ≡ none)
    × (w.conn.draining ≡ false)
    × (length v.streams ≡ suc (length w.streams))
    × (length v.streams ≤ w.conn.peer_max_streams)
    × (lookup id v.streams ≡ some new_client)
    × ((s : Stream) × ((lookup id v.conn.streams ≡ some s) × (s.id ≡ id)))
Effect send_headers w (v, refused draining) = (v ≡ w) × (w.conn.draining ≡ true)
Effect send_headers w (v, refused saturated) =
    (v ≡ w) × (w.conn.peer_max_streams ≤ length w.streams)
Effect send_headers w (v, refused (sending err)) =
    (send_headers (fresh_id w) ≡ some err)
    × (v.streams ≡ w.streams)
    × (v.conn.streams ≡ w.conn.streams)

removed_streams : (c : Conn) (id : ℕ) → (remove_stream c id).streams ≡ delete id c.streams
unfolding remove_stream finish_drain
removed_streams c id = ground arith

found_new {ℓ} : {V : Type ℓ} (id : ℕ) (v : V) (m : Table ℕ V) → lookup id (insert id v m) ≡ some v
found_new id v m = ground (arith, lookup-insert id id v m)

module _ (send_headers : ℕ → Option Err) (window : ℤ) (w : Worker) where
  -- The tunnel with the stream registered.
  registered : Worker
  unfolding next_stream_id
  registered = record w {
    conn = add_to_registry (next_stream_id w.conn).0 (acquire (fresh_id w) window);
    streams = insert (fresh_id w) new_client w.streams;
    announced = w.announced ++ fresh_id w ∷ [];
  }

  settled-Effect :
      (answer : Option Err)
      → send_headers (fresh_id w) ≡ answer
      → lookup (fresh_id w) w.streams ≡ none
      → lookup (fresh_id w) w.conn.streams ≡ none
      → w.conn.draining ≡ false
      → length w.streams < w.conn.peer_max_streams
      → Effect send_headers w (settled registered (fresh_id w) answer)
  unfolding registered next_stream_id add_to_registry
  settled-Effect none e f g d room = (
    refl,
    e,
    d,
    length-insert_new (fresh_id w) new_client w.streams f,
    omega (arith, length-insert_new (fresh_id w) new_client w.streams f),
    found_new (fresh_id w) new_client w.streams,
    (acquire (fresh_id w) window, (found_new (fresh_id w) _ w.conn.streams, refl)),
  )
  settled-Effect (some err) e f g d room = (
    e,
    delete-insert_new (fresh_id w) new_client w.streams f,
    removed_streams _ (fresh_id w)
        ∙ delete-insert_new (fresh_id w) (acquire (fresh_id w) window) w.conn.streams g,
  )

  -- `openStream`, whatever its answer. A stream is opened under a fresh ID, in both registries, only
  -- if its HEADERS could be sent, while the tunnel does not drain and within the peer's
  -- SETTINGS_MAX_CONCURRENT_STREAMS. A refusal
  -- for draining or for want of room is justified and leaves the tunnel as it was; any other refusal
  -- is one of the HEADERS, and then both registries are rolled back. The tunnel has fewer than 2^32 streams, and the ID is registered in neither map.
  pub open_stream-Effect :
      length w.streams < 2 ^ 32
      → lookup (fresh_id w) w.streams ≡ none
      → lookup (fresh_id w) w.conn.streams ≡ none
      → Effect send_headers w (open_stream send_headers window w)
  unfolding open_stream is_saturated registered next_stream_id
  open_stream-Effect small f g =
      if_cases (Effect send_headers w) w.conn.draining (λ d. (refl, d))
        λ d.
          if_cases (Effect send_headers w) (leb w.conn.peer_max_streams (length w.streams % 2 ^ 32))
            (λ t. (refl, ground (arith, small)))
            λ t. settled-Effect (send_headers (fresh_id w)) refl f g d (ground (arith, small))
