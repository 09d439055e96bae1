-- ===== src/H2/Conn/Inbound.antt =====
-- `HandleInboundData` (internal/h2/conn.go): flow-control credit that goes back to the peer.
use reverse_http.Prelude.{
  ℕ, ◌+◌, ◌≡◌, ◌≢◌, refl, ap, ◌∙◌, ◌⊎◌, inl, inr, Bool, true, false, Option, none, some, List, [],
  ◌∷◌, ◌++◌, ltb, if◌then◌else◌, if_cases, arith, ◌==◌, nat_eq, Bytes, All,
}
use reverse_http.Prelude.Table.{lookup, insert, lookup-insert}
use reverse_http.H2.Errors.{stream_closed}
use reverse_http.H2.Stream.{Stream}
use reverse_http.H2.Writer.{Intent}
use reverse_http.H2.Conn.{
  Conn, submitted, get_stream, put_stream, receive, inbound, handle_inbound_data,
}

-- A DATA frame: the usable bytes, the full payload length and END_STREAM, with the pooled buffer.
pub record DataFrame : Type 0 where
  pub bp : ℕ
  pub id : ℕ
  pub bytes : Bytes
  pub flow_len : ℕ
  pub end_stream : Bool

unfoldable pub receive_all : List DataFrame → Conn → Conn
receive_all [] c = c
receive_all (f ∷ fs) c =
    receive_all fs (handle_inbound_data f.bp c f.id f.bytes f.flow_len f.end_stream)

abbrev credit_of : ℕ → Intent → ℕ
credit_of id (Intent.window_update j n) = if j == id then n else 0
credit_of id _ = 0

-- The credit that WINDOW_UPDATE frames give for `id`, the connection being 0.
pub credited : ℕ → List Intent → ℕ
credited id [] = 0
credited id (x ∷ xs) = credit_of id x + credited id xs

credited-append :
    (id : ℕ) (xs : List Intent) (x : Intent)
    → credited id (xs ++ x ∷ []) ≡ credited id xs + credit_of id x
unfolding credited
credited-append id [] x = omega arith
credited-append id (y ∷ xs) x = omega (arith, credited-append id xs x)

-- The flow-controlled length of the frames of a stream, and of all frames for the connection.
pub flow_of : ℕ → List DataFrame → ℕ
flow_of id [] = 0
flow_of id (f ∷ fs) =
    (if id == 0 then f.flow_len else if f.id == id then f.flow_len else 0) + flow_of id fs

abbrev is_some {ℓ} : {A : Type ℓ} → Option A → Bool
is_some none = false
is_some (some a) = true

abbrev pub registered : ℕ → Conn → Bool
registered id c = is_some (get_stream c id)

abbrev topped_up : Conn → ℕ → Conn
topped_up c n = if ltb 0 n then submitted c (Intent.window_update 0 n) else c

topped_up_credit :
    (c : Conn) (n id : ℕ)
    → (credited id (topped_up c n).sent ≡ credited id c.sent + (if id == 0 then n else 0))
      × ((topped_up c n).streams ≡ c.streams)
unfolding submitted
topped_up_credit c n id =
    if_cases
      (λ (v : Conn).
        (credited id v.sent ≡ credited id c.sent + (if id == 0 then n else 0))
        × (v.streams ≡ c.streams))
      (ltb 0 n) (λ t. (ground (arith, credited-append id c.sent (Intent.window_update 0 n)), refl))
      λ t. (ground arith, refl)

-- The stream's share, for a frame whose stream is `o`.
inbound_credit :
    (f : DataFrame) (c : Conn) (id : ℕ) (o : Option Stream)
    → let v = inbound f.bp f.id f.bytes f.flow_len f.end_stream c o in
      (credited id v.sent
        ≡ credited id c.sent + (if f.id == id then (if is_some o then f.flow_len else 0) else 0))
      × (registered id c ≡ true → registered id v ≡ true)
unfolding submitted get_stream
inbound_credit f c id none =
    if_cases
      (λ (v : Conn).
        (credited id v.sent ≡ credited id c.sent + (if f.id == id then 0 else 0))
        × (registered id c ≡ true → registered id v ≡ true))
      (ltb 0 f.flow_len)
      (λ t.
        (ground (arith, credited-append id c.sent (Intent.rst_stream f.id stream_closed)), λ h. h))
      λ t. (ground arith, λ h. h)
inbound_credit f c id (some s) =
    if_cases
      (λ (v : Conn).
        (credited id v.sent ≡ credited id c.sent + (if f.id == id then f.flow_len else 0))
        × (registered id c ≡ true
            → registered id (put_stream v f.id (receive f.bp f.bytes f.end_stream s)) ≡ true))
      (ltb 0 f.flow_len)
      (λ t.
        (ground (arith, credited-append id c.sent (Intent.window_update f.id f.flow_len)), still))
      λ t. (ground arith, still)
  where
    still :
        registered id c ≡ true
        → is_some (lookup id (insert f.id (receive f.bp f.bytes f.end_stream s) c.streams)) ≡ true
    still h =
        ground (arith, h, lookup-insert f.id id (receive f.bp f.bytes f.end_stream s) c.streams)

frame_credit :
    (f : DataFrame) (c : Conn) (id : ℕ)
    → f.id ≢ 0
    → (id ≡ 0) ⊎ (registered id c ≡ true)
    → let v = handle_inbound_data f.bp c f.id f.bytes f.flow_len f.end_stream in
      (credited id v.sent
        ≡ credited id c.sent
          + (if id == 0 then f.flow_len else if f.id == id then f.flow_len else 0))
      × ((id ≡ 0) ⊎ (registered id v ≡ true))
unfolding handle_inbound_data get_stream
frame_credit f c id nz h = (amount h, still h)
  where
    v : Conn
    v = topped_up c f.flow_len

    top :
        (credited id v.sent ≡ credited id c.sent + (if id == 0 then f.flow_len else 0))
        × (v.streams ≡ c.streams)
    top = topped_up_credit c f.flow_len id

    o : Option Stream
    o = lookup f.id c.streams

    share :
        let w = inbound f.bp f.id f.bytes f.flow_len f.end_stream v o in
        (credited id w.sent
          ≡ credited id v.sent + (if f.id == id then (if is_some o then f.flow_len else 0) else 0))
        × (registered id v ≡ true → registered id w ≡ true)
    share = inbound_credit f v id o

    same : (b : Bool) → b ≡ is_some o → f.id ≡ id → registered id c ≡ true → b ≡ true
    same b e i r = e ∙ ap (λ j. is_some (lookup j c.streams)) i ∙ r

    amount :
        (id ≡ 0) ⊎ (registered id c ≡ true)
        → credited id (inbound f.bp f.id f.bytes f.flow_len f.end_stream v o).sent
          ≡ credited id c.sent
            + (if id == 0 then f.flow_len else if f.id == id then f.flow_len else 0)
    amount (inl z) = ground (arith, share.0, top.0, nz)
    amount (inr r) =
        ground (arith, share.0, top.0, nz, λ (i : f.id ≡ id). same (is_some o) refl i r)

    still :
        (id ≡ 0) ⊎ (registered id c ≡ true)
        → (id ≡ 0) ⊎ (registered id (inbound f.bp f.id f.bytes f.flow_len f.end_stream v o) ≡ true)
    still (inl z) = inl z
    still (inr r) = inr (share.1 (ap (λ m. is_some (lookup id m)) top.1 ∙ r))

-- Inbound DATA never shrinks the peer's view of our receive windows. Whatever DATA frames arrive,
-- padded or empty or for streams that are gone, the connection is credited with exactly their full
-- payload lengths, and so is each registered stream with those of its own frames.
pub window_refilled :
    (fs : List DataFrame) (c : Conn) (id : ℕ)
    → All (λ (f : DataFrame). f.id ≢ 0) fs
    → (id ≡ 0) ⊎ (registered id c ≡ true)
    → credited id (receive_all fs c).sent ≡ credited id c.sent + flow_of id fs
unfolding receive_all flow_of
window_refilled [] c id nz h = omega arith
window_refilled (f ∷ fs) c id nz h =
    let v = handle_inbound_data f.bp c f.id f.bytes f.flow_len f.end_stream in
    let e = frame_credit f c id nz.0 h in omega (arith, window_refilled fs v id nz.1 e.1, e.0)
