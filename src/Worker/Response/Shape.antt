-- ===== src/Worker/Response/Shape.antt =====
-- What a peer requires of the frames of one response (RFC 9113 §8.1), as an automaton over them.
use reverse_http.Prelude.{
  ℕ, ◌≡◌, refl, ap, ◌∙◌, Bool, true, false, ◌&&◌, ◌||◌, Option, none, some, List, [], ◌∷◌, ◌++◌,
  leb, length, if◌then◌else◌, ◌==◌, nat_eq, bytes_eq, Bytes, append_assoc, append-nil,
}
use reverse_http.H2.Writer.{Intent, Header}
use reverse_http.Prelude.Table.{lookup}
use reverse_http.Worker.Response.{parse_uint63, first_value, content_length_key}

-- `interim`: at most 1xx responses so far; `streaming`: the final HEADERS is out; `closed`: END_STREAM is.
pub data Phase : Type 0 where
  interim streaming closed malformed : Phase

abbrev pub is_informational : ℕ → Bool
is_informational status = leb 100 status && leb status 199

abbrev pub headers_phase : Bool → Bool → Phase
headers_phase true true = malformed
headers_phase true false = interim
headers_phase false true = closed
headers_phase false false = streaming

abbrev pub body_phase : Bool → Phase
body_phase true = closed
body_phase false = streaming

abbrev pub step_phase : Phase → Intent → Phase
step_phase interim (Intent.resp_headers id status header end_stream) =
    headers_phase (is_informational status) end_stream
step_phase streaming (Intent.body id bytes end_stream) = body_phase end_stream
step_phase _ _ = malformed

abbrev phase_from : Phase → List Intent → Phase
phase_from p [] = p
phase_from p (x ∷ xs) = phase_from (step_phase p x) xs

pub phase : List Intent → Phase
phase = phase_from interim

phase_from-append :
    (p : Phase) (xs : List Intent) (x : Intent)
    → phase_from p (xs ++ x ∷ []) ≡ step_phase (phase_from p xs) x
phase_from-append p [] x = refl
phase_from-append p (y ∷ xs) x = phase_from-append (step_phase p y) xs x

pub phase-append : (xs : List Intent) (x : Intent) → phase (xs ++ x ∷ []) ≡ step_phase (phase xs) x
unfolding phase
phase-append xs x = phase_from-append interim xs x

pub phase-nil : phase [] ≡ interim
unfolding phase
phase-nil = refl

abbrev body_of : Intent → Bytes
body_of (Intent.body id bytes end_stream) = bytes
body_of _ = []

-- The bytes that the DATA frames carry.
pub body_bytes : List Intent → Bytes
body_bytes [] = []
body_bytes (x ∷ xs) = body_of x ++ body_bytes xs

pub body_bytes-nil : body_bytes [] ≡ []
unfolding body_bytes
body_bytes-nil = refl

pub body_bytes-data :
    (xs : List Intent) (id : ℕ) (bytes : Bytes) (end_stream : Bool)
    → body_bytes (xs ++ Intent.body id bytes end_stream ∷ []) ≡ body_bytes xs ++ bytes
unfolding body_bytes
body_bytes-data [] id bytes end_stream = rw append-nil
body_bytes-data (x ∷ xs) id bytes end_stream =
    rw append_assoc (ap (λ r. body_of x ++ r) (body_bytes-data xs id bytes end_stream))

pub body_bytes-headers :
    (xs : List Intent) (id status : ℕ) (header : _) (end_stream : Bool)
    → body_bytes (xs ++ Intent.resp_headers id status header end_stream ∷ []) ≡ body_bytes xs
unfolding body_bytes
body_bytes-headers [] id status header end_stream = refl
body_bytes-headers (x ∷ xs) id status header end_stream =
    ap (λ r. body_of x ++ r) (body_bytes-headers xs id status header end_stream)

-- Status and header of a final response.
abbrev pub Head : Type 0
Head = ℕ × Header

abbrev pub head_of : Intent → Option Head
head_of (Intent.resp_headers id status header end_stream) =
    if is_informational status then none else some (status, header)
head_of _ = none

abbrev pub or_head : Option Head → Option Head → Option Head
or_head (some h) o = some h
or_head none o = o

abbrev head_from : Option Head → List Intent → Option Head
head_from o [] = o
head_from o (x ∷ xs) = head_from (or_head (head_of x) o) xs

-- The last final HEADERS of the frames.
pub final_head : List Intent → Option Head
final_head = head_from none

head_from-append :
    (o : Option Head) (xs : List Intent) (x : Intent)
    → head_from o (xs ++ x ∷ []) ≡ or_head (head_of x) (head_from o xs)
head_from-append o [] x = refl
head_from-append o (y ∷ xs) x = head_from-append (or_head (head_of y) o) xs x

pub final_head-append :
    (xs : List Intent) (x : Intent)
    → final_head (xs ++ x ∷ []) ≡ or_head (head_of x) (final_head xs)
unfolding final_head
final_head-append xs x = head_from-append none xs x

pub interim_head :
    (xs : List Intent) (id status : ℕ) (header : Header) (end_stream : Bool)
    → is_informational status ≡ true
    → final_head (xs ++ Intent.resp_headers id status header end_stream ∷ []) ≡ final_head xs
interim_head xs id status header end_stream i =
    final_head-append xs (Intent.resp_headers id status header end_stream)
    ∙ ap (λ b. or_head (if b then none else some (status, header)) (final_head xs)) i

pub final_one :
    (xs : List Intent) (id status : ℕ) (header : Header) (end_stream : Bool)
    → is_informational status ≡ false
    → final_head (xs ++ Intent.resp_headers id status header end_stream ∷ [])
      ≡ some (status, header)
final_one xs id status header end_stream f =
    final_head-append xs (Intent.resp_headers id status header end_stream)
    ∙ ap (λ b. or_head (if b then none else some (status, header)) (final_head xs)) f

-- The methods and status codes whose responses have no body: HEAD, 204 and 304.
abbrev pub bodiless : Bool → ℕ → Bool
bodiless is_head status = is_head || (status == 204 || status == 304)

-- The length that a header declares, if it has a Content-Length that is a number.
abbrev pub number_in : Bytes → Option ℕ
number_in [] = none
number_in (c ∷ s) = parse_uint63 (c ∷ s)

abbrev pub declared_in : Header → Option ℕ
declared_in h = number_in (first_value (lookup content_length_key h))

-- What a final response with these bytes keeps to.
abbrev pub Fits : Bool → Option ℕ → Bytes → Type 0
Fits true d bytes = length bytes ≡ 0
Fits false none bytes = Unit
Fits false (some n) bytes = length bytes ≡ n

-- The frames have a final HEADERS, and the bytes of the DATA are those that it announces.
pub record Whole (is_head : Bool) (log : List Intent) : Type 0 where
  pub status : ℕ
  pub header : Header
  pub sent_head : final_head log ≡ some (status, header)
  pub fits : Fits (bodiless is_head status) (declared_in header) (body_bytes log)
