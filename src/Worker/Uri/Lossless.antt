-- ===== src/Worker/Uri/Lossless.antt =====
-- A parsed request target determines the bytes that it was parsed from (stream.go).
use mathlib.Core.Bool.{true≢false}
use reverse_http.Prelude.{
  subst, bytes_beq, ◌≡◌, refl, sym, ap, ◌∙◌, ◌⊎◌, inl, inr, Bool, true, false, not, Option, none,
  some, [], ◌∷◌, ◌++◌, arith, if◌then◌else◌, if_cases, Bytes, nat_eq, bytes_eq, bytes_beq_iff, ◌==◌,
  nat_beq_iff,
}
use reverse_http.Worker.Uri.{
  Url, path_unescape, cut_query, query_of, url_of, is_target, parse_request_uri,
}

abbrev glued : Bytes × Option Bytes → Bytes
glued (before, none) = before
glued (before, some after) = before ++ b'?' ∷ after

cut_query-glued : (s : Bytes) → glued (cut_query s) ≡ s
unfolding cut_query
cut_query-glued [] = refl
cut_query-glued (c ∷ s) = ground (arith, cut_query-glued s, nat_beq_iff c b'?')

-- The escaped path: as it came if it differs from the decoded one.
abbrev pub escaped_path : Url → Bytes
escaped_path u = if u.raw_path == [] then u.path else u.raw_path

-- What a successful parse tells of the part before the question mark.
record Escapes (path query : Bytes) (u : Url) : Type 0 where
  same_path : escaped_path u ≡ path
  same_query : u.raw_query ≡ query
  decoded : path_unescape path ≡ some u.path

kept_path :
    (path d query : Bytes)
    → path_unescape path ≡ some d
    → (d == path) ≡ false
    → escaped_path (record { path = d; raw_path = path; raw_query = query }) ≡ path
unfolding path_unescape bytes_beq
kept_path [] d query e n =
    let same : d ≡ [] = cc in absurd (true≢false (sym ((bytes_beq_iff d []).1 same) ∙ n))
kept_path (c ∷ path) d query e n = refl

plain_path :
    (path query : Bytes)
    → escaped_path (record { path = path; raw_path = []; raw_query = query }) ≡ path
unfolding bytes_beq
plain_path path query = refl

url_of-Escapes :
    (path query : Bytes) (o : Option Bytes) (u : Url)
    → path_unescape path ≡ o
    → url_of path query o ≡ some u
    → Escapes path query u
url_of-Escapes path query none u e h = cc
url_of-Escapes path query (some d) u e h =
    if_cases (λ r. r ≡ some u → Escapes path query u) (not (d == path))
      (λ n q.
        let same : record { path = d; raw_path = path; raw_query = query } ≡ u = cc in
        subst (Escapes path query) same (record {
          same_path = kept_path path d query e (false_of_negation _ n);
          same_query = refl;
          decoded = e;
        }))
      (λ n q.
        let same : record { path = path; raw_path = []; raw_query = query } ≡ u = cc in
        subst (Escapes path query) same (record {
          same_path = plain_path path query;
          same_query = refl;
          decoded = e ∙ ap some ((bytes_beq_iff d path).0 (true_of_negation _ n));
        }))
      h
  where
    false_of_negation : (b : Bool) → not b ≡ true → b ≡ false
    false_of_negation b k = ground arith

    true_of_negation : (b : Bool) → not b ≡ false → b ≡ true
    true_of_negation b k = ground arith

glued-Escapes :
    (raw : Bytes) (r : Bytes × Option Bytes) (u : Url)
    → glued r ≡ raw
    → Escapes r.0 (query_of r.1) u
    → ((escaped_path u ≡ raw) × (u.raw_query ≡ [])) ⊎ (escaped_path u ++ b'?' ∷ u.raw_query ≡ raw)
glued-Escapes raw (path, none) u g e = inl (e.same_path ∙ g, e.same_query)
glued-Escapes raw (path, some q) u g e = inr (rw (e.same_path, e.same_query) g)

-- A request target that is accepted can be put together again from the URL: the escaped path, and
-- the query behind its question mark. The path is the decoded escaped path.
pub parse_request_uri_lossless :
    (raw : Bytes) (u : Url)
    → parse_request_uri raw ≡ some u
    → (((escaped_path u ≡ raw) × (u.raw_query ≡ [])) ⊎ (escaped_path u ++ b'?' ∷ u.raw_query ≡ raw))
      × (path_unescape (escaped_path u) ≡ some u.path)
unfolding parse_request_uri
parse_request_uri_lossless raw u h =
    if_cases (λ r. r ≡ some u → Lossless) (not (is_target raw)) (λ _ q. cc)
      (λ _ q.
        let e = url_of-Escapes (cut_query raw).0 (query_of (cut_query raw).1) _ u refl q in
        (glued-Escapes raw (cut_query raw) u (cut_query-glued raw) e, rw e.same_path e.decoded))
      h
  where
    Lossless : Type 0
    Lossless =
        (((escaped_path u ≡ raw) × (u.raw_query ≡ []))
          ⊎ (escaped_path u ++ b'?' ∷ u.raw_query ≡ raw))
        × (path_unescape (escaped_path u) ≡ some u.path)
