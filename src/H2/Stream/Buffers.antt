-- ===== src/H2/Stream/Buffers.antt =====
-- The pooled buffers of the chunks of a stream (internal/h2/stream.go): each goes back once.
use reverse_http.Prelude.{
  ℕ, ◌≤◌, ◌≡◌, refl, sym, ap, ◌∙◌, List, [], ◌∷◌, ◌++◌, append-nil, append_assoc, length,
  drop-append_le, if_cases, ◌==◌, nat_eq,
}
use reverse_http.H2.Stream.{
  DataChunk, Stream, acquire, return_buf, push_data, close_data, fail_body, handles, all_handles,
  read, close_body, release, Op, step, run, pushes, reads, closes_data, closes_body, fails_body,
}
use reverse_http.H2.Stream.Queue.{pending, Tidy, read_cases, consume_cases, fresh-Tidy, step-Tidy}

all_handles-append : (q r : List DataChunk) → all_handles (q ++ r) ≡ all_handles q ++ all_handles r
unfolding all_handles
all_handles-append [] r = refl
all_handles-append (c ∷ q) r = rw (all_handles-append q r) (sym (append_assoc (handles c.bp) _ _))

-- The buffers that were given back, then the reader's, then those of the unread chunks.
pub owned : Stream → List ℕ
owned s = s.returned ++ (handles s.buf_bp ++ all_handles (pending s))

-- The buffers that the calls of PushData have brought, in order.
pub brought : List Op → List ℕ
brought [] = []
brought (pushes c ∷ ops) = handles c.bp ++ brought ops
brought (op ∷ ops) = brought ops

owned_return : (s : Stream) → owned (return_buf s) ≡ owned s
unfolding owned return_buf
owned_return s = append_assoc s.returned (handles s.buf_bp) (all_handles (pending s))

owned_push :
    (s : Stream) (c : DataChunk)
    → s.q_head ≤ length s.queue
    → owned (push_data s c) ≡ owned s ++ handles c.bp
unfolding owned all_handles push_data
owned_push s c h =
    rw (drop-append_le s.q_head s.queue (c ∷ []) h, all_handles-append, append-nil)
      (ap (λ r. s.returned ++ r) (sym (append_assoc (handles s.buf_bp) _ (handles c.bp)))
        ∙ sym (append_assoc s.returned _ (handles c.bp)))

owned-read : (n : ℕ) (s : Stream) → Tidy s → owned (read n s).0 ≡ owned s
unfolding owned all_handles
owned-read n s t =
    read_cases (λ r. owned r.0 ≡ owned s) n s t
      (λ more rest e.
        if_cases (λ v. owned v ≡ owned s) (length rest == 0)
          (λ z. owned_return (record s { buf = rest })) λ z. refl)
      (λ b p. refl)
      λ c b small p.
        consume_cases (λ r. owned r.0 ≡ owned s) n s c small
          (λ v a h. rw (a.rest, a.same_returned, p, t.held (rw b refl)) refl)
          λ v a h.
            owned_return (record v { buf_bp = c.bp })
            ∙ rw (a.rest, a.same_returned, p, t.held (rw b refl)) refl

closed_owned : (s : Stream) → owned (close_body s) ≡ owned s
unfolding owned close_body return_buf all_handles
closed_owned s = rw append-nil (append_assoc s.returned (handles s.buf_bp) _)

owned-run : (s : Stream) (ops : List Op) → Tidy s → owned (run s ops) ≡ owned s ++ brought ops
unfolding run step brought close_data fail_body owned
owned-run s [] t = sym (append-nil _)
owned-run s (pushes c ∷ ops) t =
    owned-run (push_data s c) ops (step-Tidy s (pushes c) t)
    ∙ ap (λ b. b ++ brought ops) (owned_push s c t.within)
    ∙ append_assoc _ (handles c.bp) (brought ops)
owned-run s (reads n ∷ ops) t =
    owned-run (read n s).0 ops (step-Tidy s (reads n) t)
    ∙ ap (λ b. b ++ brought ops) (owned-read n s t)
owned-run s (closes_data ∷ ops) t = owned-run (close_data s) ops (step-Tidy s closes_data t)
owned-run s (closes_body ∷ ops) t =
    owned-run (close_body s) ops (step-Tidy s closes_body t)
    ∙ ap (λ b. b ++ brought ops) (closed_owned s)
owned-run s (fails_body err ∷ ops) t =
    owned-run (fail_body s err) ops (step-Tidy s (fails_body err) t)

-- Every buffer of a DATA chunk goes back to the pool exactly once, in the order of arrival: whatever
-- calls a stream has seen, Close of the body included, once it is released the buffers returned are
-- those of the chunks pushed.
pub buffers_returned_once :
    (id : ℕ) (window : _) (ops : List Op)
    → (release (run (acquire id window) ops)).returned ≡ brought ops
unfolding release return_buf owned all_handles
buffers_returned_once id window ops =
    let s = run (acquire id window) ops in
    append_assoc s.returned (handles s.buf_bp) (all_handles (pending s))
    ∙ owned-run (acquire id window) ops (fresh-Tidy id window)
