-- ===== src/Signature.antt =====
-- Signed streams: internal/common/middleware/hmacsha256, and the response writer and request reader over
-- them in internal/gophermart/handlers/middleware/httphmacsha256.
pub mod Streams
use gomart.Prelude.{
  ℕ, zero, suc, ◌+◌, Bool, true, false, Option, none, some, List, [], ◌∷◌, ◌++◌, Bytes, length, ltb,
  Result, ok, err, if◌then◌else◌,
}
use gomart.Password.{Hmac, encode_to_string}
use gomart.Middleware.{body_allowed, unsuccess_status_code}

-- `io.Writer` and `io.Reader` over a state: how much was written, or what was read, and whether there
-- was an error.
abbrev pub Writing : Type 0 → Type 0
Writing W = Bytes → W → (ℕ × Bool) × W

abbrev pub Reading : Type 0 → Type 0
Reading R = R → (Bytes × Bool) × R

-- `h` is what was written to the hash.
pub record HmacWriter (W : Type 0) : Type 0 where
  pub w : W
  pub h : Bytes

abbrev pub new_writer : {W : Type 0} → W → HmacWriter W
new_writer w = record { w = w; h = [] }

unfoldable pub write : {W : Type 0} → Writing W → Bytes → HmacWriter W → (ℕ × Bool) × HmacWriter W
write put p h = let (r, w) = put p h.w in (r, record { w = w; h = h.h ++ p })

-- `h.Sum(nil)`
unfoldable pub get_sig : {W : Type 0} → Hmac → Bytes → HmacWriter W → Bytes
get_sig hmac key h = hmac.code key h.h

pub record HmacReader (R : Type 0) : Type 0 where
  pub r : R
  pub hr : Bytes

abbrev pub new_reader : {R : Type 0} → R → HmacReader R
new_reader r = record { r = r; hr = [] }

unfoldable pub read : {R : Type 0} → Reading R → HmacReader R → (Bytes × Bool) × HmacReader R
read get h =
    let ((p, failed), r) = get h.r in
    ((p, failed), record { r = r; hr = if ltb 0 (length p) then h.hr ++ p else h.hr })

unfoldable pub reader_sig : {R : Type 0} → Hmac → Bytes → HmacReader R → Bytes
reader_sig hmac key h = hmac.code key h.hr

-- What `net/http` sends, and the header `HashSHA256` as it is set before and as it is sent.
pub record Sent : Type 0 where
  pub hash_set : Option Bytes
  pub status : Option ℕ
  pub hash : Option Bytes
  pub body : Bytes

abbrev pub fresh : Sent
fresh = record { hash_set = none; status = none; hash = none; body = [] }

abbrev started : ℕ → Sent → Sent
started code s = record s { status = some code; hash = s.hash_set }

abbrev pub put_header : ℕ → Sent → Sent
put_header code s = elim s.status [ none ↦ started code s | some _ ↦ s ]

abbrev with_body : ℕ → Bytes → Sent → (ℕ × Bool) × Sent
with_body code p s =
    if body_allowed code
    then ((length p, false), record s { body = s.body ++ p })
    else ((0, true), s)

abbrev pub put_body : Writing Sent
put_body p s = elim s.status [
  | none ↦ with_body 200 p (started 200 s)
  | some code ↦ with_body code p s
]

-- `httphmacsha256.NewWriter`, whose `w` and that of its `hw` are the same writer.
abbrev pub http_new_writer : Sent → HmacWriter Sent
http_new_writer w = new_writer w

-- `httphmacsha256Writer.Write`
unfoldable pub http_write : Bytes → HmacWriter Sent → (ℕ × Bool) × HmacWriter Sent
http_write = write put_body

-- `httphmacsha256Writer.WriteHeader`
unfoldable pub http_write_header : Hmac → Bytes → ℕ → HmacWriter Sent → HmacWriter Sent
http_write_header hmac key status_code h =
    if ltb status_code unsuccess_status_code
    then record h {
      w =
          put_header status_code
            (record h.w { hash_set = some (encode_to_string (get_sig hmac key h)) });
    }
    else record h { w = put_header status_code h.w }

-- `httphmacsha256.NewReader`, and what its reader has besides.
abbrev pub http_new_reader : {R : Type 0} → R → HmacReader R
http_new_reader r = new_reader r

abbrev http_read : {R : Type 0} → Reading R → HmacReader R → (Bytes × Bool) × HmacReader R
http_read get h = read get h

-- An `io.ReadCloser`, of the type that signs or of another.
pub data ReadCloser (R : Type 0) : Type 0 where
  signed : HmacReader R → ReadCloser R
  unsigned : R → ReadCloser R

pub data SignatureError : Type 0 where
  bad_reader_type : SignatureError

-- `httphmacsha256.GetSig`
unfoldable pub http_get_sig :
    {R : Type 0} → Hmac → Bytes → ReadCloser R → Result SignatureError Bytes
http_get_sig hmac key (signed m) = ok (reader_sig hmac key m)
http_get_sig hmac key (unsigned r) = err bad_reader_type

-- Several calls one after the other.
unfoldable pub write_all : List Bytes → HmacWriter Sent → HmacWriter Sent
write_all [] h = h
write_all (p ∷ ps) h = write_all ps (http_write p h).1

-- What several reads have read together.
unfoldable pub read_times : {R : Type 0} → Reading R → ℕ → HmacReader R → Bytes × HmacReader R
read_times get zero h = ([], h)
read_times get (suc n) h =
    let ((p, failed), h') = http_read get h in
    let (rest, h'') = read_times get n h' in (p ++ rest, h'')
