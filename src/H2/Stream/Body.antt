-- ===== src/H2/Stream/Body.antt =====
-- The body that `Read` hands out, against the DATA that was pushed (internal/h2/stream.go).
use reverse_http.Prelude.{
  ℕ, ◌≤◌, ◌≡◌, refl, sym, ap, ◌∙◌, Bool, true, false, Option, none, some, List, [], ◌∷◌, ◌++◌,
  append-nil, append_assoc, length, take, drop, take-drop_onto, take_all, drop-append_le,
  if◌then◌else◌, if_cases, Bytes, ◌==◌, nat_eq,
}
use reverse_http.H2.Errors.{Err}
use reverse_http.H2.Stream.{
  DataChunk, Stream, acquire, return_buf, push_data, close_data, fail_body, Reading, got, fails,
  eof, waits, at_end, read, Op, step, run, pushes, reads, closes_data, closes_body, fails_body,
}
use reverse_http.H2.Stream.Queue.{pending, Tidy, read_cases, consume_cases, fresh-Tidy, step-Tidy}

pub chunk_bytes : List DataChunk → Bytes
chunk_bytes [] = []
chunk_bytes (c ∷ q) = c.bytes ++ chunk_bytes q

chunk_bytes-append : (q r : List DataChunk) → chunk_bytes (q ++ r) ≡ chunk_bytes q ++ chunk_bytes r
unfolding chunk_bytes
chunk_bytes-append [] r = refl
chunk_bytes-append (c ∷ q) r = rw (chunk_bytes-append q r, append_assoc)

-- What is left to read.
pub unread : Stream → Bytes
unread s = s.buf ++ chunk_bytes (pending s)

abbrev delivered : Reading → Bytes
delivered (got bytes) = bytes
delivered _ = []

-- The bytes that the calls of `Read` have returned, in order.
pub received : Stream → List Op → Bytes
received s [] = []
received s (reads n ∷ ops) = delivered (read n s).1 ++ received (read n s).0 ops
received s (op ∷ ops) = received (step s op) ops

-- The bytes that the calls of PushData have brought, in order.
pub pushed : List Op → Bytes
pushed [] = []
pushed (pushes c ∷ ops) = c.bytes ++ pushed ops
pushed (op ∷ ops) = pushed ops

-- The body is not closed by its reader.
abbrev pub Unclosed : List Op → Type 0
Unclosed [] = Unit
Unclosed (closes_body ∷ ops) = ⊥
Unclosed (op ∷ ops) = Unclosed ops

unread_push :
    (s : Stream) (c : DataChunk)
    → s.q_head ≤ length s.queue
    → unread (push_data s c) ≡ unread s ++ c.bytes
unfolding unread chunk_bytes push_data
unread_push s c h =
    rw (drop-append_le s.q_head s.queue (c ∷ []) h, chunk_bytes-append, append-nil)
      (sym (append_assoc s.buf _ _))

-- A read hands out a prefix of what is unread.
read-unread :
    (n : ℕ) (s : Stream) → Tidy s → delivered (read n s).1 ++ unread (read n s).0 ≡ unread s
unfolding unread return_buf chunk_bytes
read-unread n s t =
    read_cases (λ r. delivered r.1 ++ unread r.0 ≡ unread s) n s t
      (λ more rest e.
        if_cases (λ v. take n s.buf ++ unread v ≡ unread s) (length rest == 0)
          (λ z. split rest e (chunk_bytes (pending s))) λ z. split rest e (chunk_bytes (pending s)))
      (λ b p. still s.data_done s.data_err)
      λ c b small p.
        consume_cases (λ r. delivered r.1 ++ unread r.0 ≡ unread s) n s c small
          (λ v a h. rw (a.rest, b, p, take-drop_onto) refl)
          λ v a h. rw (take_all n c.bytes h, a.same_buf, a.rest, b, p) refl
  where
    split :
        (rest : Bytes)
        → rest ≡ drop n s.buf
        → (q : Bytes) → take n s.buf ++ (rest ++ q) ≡ s.buf ++ q
    split rest e q = rw (e, take-drop_onto)

    still :
        (done : Bool) (err : Option Err)
        → delivered (if done then at_end err else waits) ++ unread s ≡ unread s
    still true none = refl
    still true (some e) = refl
    still false err = refl

conserved :
    (s : Stream) (ops : List Op)
    → Tidy s
    → Unclosed ops
    → received s ops ++ unread (run s ops) ≡ unread s ++ pushed ops
unfolding received pushed run step unread close_data fail_body
conserved s [] t u = rw append-nil
conserved s (pushes c ∷ ops) t u =
    conserved (push_data s c) ops (step-Tidy s (pushes c) t) u
    ∙ rw (unread_push s c t.within, append_assoc)
conserved s (reads n ∷ ops) t u =
    rw (append_assoc, conserved (read n s).0 ops (step-Tidy s (reads n) t) u)
      (sym (append_assoc _ _ (pushed ops)) ∙ ap (λ b. b ++ pushed ops) (read-unread n s t))
conserved s (closes_data ∷ ops) t u = conserved (close_data s) ops (step-Tidy s closes_data t) u
conserved s (closes_body ∷ ops) t u = absurd u
conserved s (fails_body err ∷ ops) t u =
    conserved (fail_body s err) ops (step-Tidy s (fails_body err) t) u

-- A stream hands out its body in order and without loss, whatever the sizes of the DATA frames and
-- of the reads, and however they interleave: until the reader closes the body, the bytes received
-- and those left to read are together exactly the bytes pushed.
pub body_in_order :
    (id : ℕ) (window : _) (ops : List Op)
    → Unclosed ops
    → let s = acquire id window in received s ops ++ unread (run s ops) ≡ pushed ops
unfolding unread chunk_bytes
body_in_order id window ops u = conserved (acquire id window) ops (fresh-Tidy id window) u

abbrev pub is_end : Reading → Bool
is_end eof = true
is_end (fails err) = true
is_end _ = false
