-- ===== src/Proxy/Serve/Matched.antt =====
-- The client streams of a tunnel and the streams of its connection (internal/proxy/worker.go,
-- internal/proxy/tunnel.go).
use reverse_http.Prelude.{
  ℕ, ◌≡◌, refl, sym, subst, Bool, true, false, Option, none, some, List, [], ◌∷◌, if◌then◌else◌,
  if_cases, arith, ◌==◌, nat_eq, nat_beq_iff,
}
use reverse_http.Prelude.Int.{ℤ}
use reverse_http.Prelude.Table.{
  lookup, insert, delete, Unique, lookup-insert, lookup-delete, insert-Unique, delete-Unique,
}
use reverse_http.H2.Errors.{Err}
use reverse_http.H2.Conn.{Conn, add_to_registry, remove_stream, finish_drain, next_stream_id}
use reverse_http.H2.Stream.{Stream, acquire}
use reverse_http.H2.Writer.{Header}
use reverse_http.Proxy.Tunnel.{
  ClientStream, new_client, Worker, Opened, deliver_headers, fail, open_stream, is_saturated,
  settled, deregister_stream, finish_forward,
}
use reverse_http.Proxy.Serve.{Act, opens, removes, deregisters, forwards}
use reverse_http.Proxy.Serve.Grown.{GrownStream, Grown}

-- A response error is seen by the forwarder, and not before the body has been ended.
abbrev pub Settled : ClientStream → Stream → Type 0
Settled cs s = (e : Err) → cs.resp_err ≡ some e → (cs.closed ≡ true) × (s.data_done ≡ true)

abbrev pub MatchedAt : Option ClientStream → Option Stream → Type 0
MatchedAt (some cs) (some s) = Settled cs s
MatchedAt _ _ = Unit

-- No ID stands twice, and a client stream is settled together with the stream that it wraps, while
-- both are registered. At the end of a forward one goes before the other.
pub record Matched (w : Worker) : Type 0 where
  pub once : Unique w.streams
  pub once_below : Unique w.conn.streams
  pub matches : (id : ℕ) → MatchedAt (lookup id w.streams) (lookup id w.conn.streams)

MatchedAt-grown :
    (o : Option ClientStream) (a b : Option Stream)
    → MatchedAt o a
    → GrownStream a b
    → MatchedAt o b
MatchedAt-grown (some cs) (some s) (some v) h g = λ e x. ((h e x).0, g (h e x).1)
MatchedAt-grown (some cs) none (some v) h g = absurd g
MatchedAt-grown (some cs) (some s) none h g = tt
MatchedAt-grown (some cs) none none h g = tt
MatchedAt-grown none a b h g = tt

pub conn-Matched :
    (w : Worker) (v : Conn) → Grown w.conn v → Matched w → Matched (record w { conn = v })
conn-Matched w v g m = record {
  once = m.once;
  once_below = g.keeps m.once_below;
  matches = λ id.
      MatchedAt-grown (lookup id w.streams) (lookup id w.conn.streams) (lookup id v.streams)
        (m.matches id) (g.grows id);
}

-- A client stream that is there stays matched if what it says of its body holds.
MatchedAt-again :
    (cs cs' : ClientStream) (o : Option Stream)
    → MatchedAt (some cs) o
    → ((s : Stream) → o ≡ some s → Settled cs s → Settled cs' s)
    → MatchedAt (some cs') o
MatchedAt-again cs cs' none m h = tt
MatchedAt-again cs cs' (some s) m h = h s refl m

pub client-Matched :
    (w : Worker) (id : ℕ) (cs cs' : ClientStream)
    → lookup id w.streams ≡ some cs
    → ((s : Stream) → lookup id w.conn.streams ≡ some s → Settled cs s → Settled cs' s)
    → Matched w
    → Matched (record w { streams = insert id cs' w.streams })
client-Matched w id cs cs' at h m = record {
  once = insert-Unique id cs' w.streams m.once;
  once_below = m.once_below;
  matches = λ j.
      subst (λ o. MatchedAt o (lookup j w.conn.streams)) (sym (lookup-insert id j cs' w.streams))
        (if_cases (λ o. MatchedAt o (lookup j w.conn.streams)) (id == j)
          (λ e.
            subst (λ k. MatchedAt (some cs') (lookup k w.conn.streams)) ((nat_beq_iff id j).0 e)
              (MatchedAt-again cs cs' (lookup id w.conn.streams)
                (subst (λ o. MatchedAt o (lookup id w.conn.streams)) at (m.matches id)) h))
          λ _. m.matches j);
}

pub delivered-Settled :
    (status : ℤ) (header : Header) (cs : ClientStream) (s : Stream)
    → Settled cs s
    → Settled (deliver_headers status header cs) s
unfolding deliver_headers
delivered-Settled status header cs s h e x = ground (arith, h e)

pub failed-Settled :
    (err : Err) (cs : ClientStream) (s : Stream) → s.data_done ≡ true → Settled (fail err cs) s
unfolding fail
failed-Settled err cs s d e x = ground arith

-- A new stream, on both sides.
MatchedAt-new :
    (b : Bool) (s : Stream) (o : Option ClientStream) (c : Option Stream)
    → MatchedAt o c
    → MatchedAt (if b then some new_client else o) (if b then some s else c)
MatchedAt-new true s o c m = λ e x. ground arith
MatchedAt-new false s o c m = m

MatchedAt-gone :
    (b : Bool) (o : Option ClientStream) (c : Option Stream)
    → MatchedAt o c
    → MatchedAt (if b then none else o) (if b then none else c)
MatchedAt-gone true o c m = tt
MatchedAt-gone false o c m = m

both-opened :
    (w v : Worker) (id : ℕ) (s : Stream)
    → v.streams ≡ insert id new_client w.streams
    → v.conn.streams ≡ insert id s w.conn.streams
    → Matched w
    → Matched v
both-opened w v id s a b m = record {
  once = subst Unique (sym a) (insert-Unique id new_client w.streams m.once);
  once_below = subst Unique (sym b) (insert-Unique id s w.conn.streams m.once_below);
  matches = λ j.
      subst (λ x. MatchedAt (lookup j x) (lookup j v.conn.streams)) (sym a)
        (subst (λ y. MatchedAt (lookup j (insert id new_client w.streams)) (lookup j y)) (sym b)
          (rw (lookup-insert id j new_client w.streams) (
            rw (lookup-insert id j s w.conn.streams) (
              MatchedAt-new (id == j) s (lookup j w.streams) (lookup j w.conn.streams)
                (m.matches j)))));
}

both-closed :
    (w v : Worker) (id : ℕ)
    → v.streams ≡ delete id w.streams
    → v.conn.streams ≡ delete id w.conn.streams
    → Matched w
    → Matched v
both-closed w v id a b m = record {
  once = subst Unique (sym a) (delete-Unique id w.streams m.once);
  once_below = subst Unique (sym b) (delete-Unique id w.conn.streams m.once_below);
  matches = λ j.
      subst (λ x. MatchedAt (lookup j x) (lookup j v.conn.streams)) (sym a)
        (subst (λ y. MatchedAt (lookup j (delete id w.streams)) (lookup j y)) (sym b)
          (rw (lookup-delete id j w.streams m.once) (
            rw (lookup-delete id j w.conn.streams m.once_below) (
              MatchedAt-gone (id == j) (lookup j w.streams) (lookup j w.conn.streams)
                (m.matches j)))));
}

MatchedAt-below_gone :
    (b : Bool) (o : Option ClientStream) (c : Option Stream)
    → MatchedAt o c
    → MatchedAt o (if b then none else c)
MatchedAt-below_gone true none c m = tt
MatchedAt-below_gone true (some cs) c m = tt
MatchedAt-below_gone false o c m = m

MatchedAt-above_gone :
    (b : Bool) (o : Option ClientStream) (c : Option Stream)
    → MatchedAt o c
    → MatchedAt (if b then none else o) c
MatchedAt-above_gone true o c m = tt
MatchedAt-above_gone false o c m = m

removed-Matched :
    (id : ℕ) (w : Worker) (v : Conn)
    → v.streams ≡ delete id w.conn.streams
    → Matched w
    → Matched (record w { conn = v })
removed-Matched id w v e m = record {
  once = m.once;
  once_below = subst Unique (sym e) (delete-Unique id w.conn.streams m.once_below);
  matches = λ j.
      subst (λ y. MatchedAt (lookup j w.streams) (lookup j y)) (sym e)
        (rw (lookup-delete id j w.conn.streams m.once_below) (
          MatchedAt-below_gone (id == j) (lookup j w.streams) (lookup j w.conn.streams)
            (m.matches j)));
}

remove_stream-Matched :
    (id : ℕ) (w : Worker) → Matched w → Matched (record w { conn = remove_stream w.conn id })
unfolding remove_stream finish_drain
remove_stream-Matched id w m = removed-Matched id w (remove_stream w.conn id) (ground arith) m

deregister_stream-Matched : (id : ℕ) (w : Worker) → Matched w → Matched (deregister_stream id w)
unfolding deregister_stream
deregister_stream-Matched id w m = record {
  once = delete-Unique id w.streams m.once;
  once_below = m.once_below;
  matches = λ j.
      rw (lookup-delete id j w.streams m.once) (
        MatchedAt-above_gone (id == j) (lookup j w.streams) (lookup j w.conn.streams)
          (m.matches j));
}

pub finish_forward-Matched : (id : ℕ) (w : Worker) → Matched w → Matched (finish_forward id w)
unfolding finish_forward
finish_forward-Matched id w m = deregister_stream-Matched id _ (remove_stream-Matched id w m)

settled-Matched :
    (w v : Worker) (id : ℕ) (s : Stream) (answer : Option Err)
    → v.streams ≡ insert id new_client w.streams
    → v.conn.streams ≡ insert id s w.conn.streams
    → Matched w
    → Matched (settled v id answer).0
unfolding remove_stream finish_drain
settled-Matched w v id s none a b m = both-opened w v id s a b m
settled-Matched w v id s (some err) a b m =
    both-closed v _ id refl (ground arith) (both-opened w v id s a b m)

pub open_stream-Matched :
    (send : ℕ → Option Err) (window : ℤ) (w : Worker)
    → Matched w
    → Matched (open_stream send window w).0
unfolding open_stream add_to_registry next_stream_id
open_stream-Matched send window w m =
    if_cases (λ (r : Worker × Opened). Matched r.0) w.conn.draining (λ _. m)
      λ _.
        if_cases (λ (r : Worker × Opened). Matched r.0) (is_saturated w) (λ _. m)
          λ _. settled-Matched w _ _ (acquire _ window) (send _) refl refl m

pub forwards-Matched : (acts : List Act) (w : Worker) → Matched w → Matched (forwards acts w)
unfolding forwards
forwards-Matched [] w m = m
forwards-Matched (opens send window ∷ acts) w m =
    forwards-Matched acts _ (open_stream-Matched send window w m)
forwards-Matched (removes id ∷ acts) w m = forwards-Matched acts _ (remove_stream-Matched id w m)
forwards-Matched (deregisters id ∷ acts) w m =
    forwards-Matched acts _ (deregister_stream-Matched id w m)
