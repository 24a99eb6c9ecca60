-- ===== src/Middleware.antt =====
-- The writers around the handlers: internal/gophermart/handlers/middleware/httplogs and httpgzip, and
-- `withLogging` and `gzipMiddleware` of internal/gophermart/handlers/handlers.go.
pub mod Compression
use gomart.Prelude.{
  ℕ, ◌+◌, Bool, true, false, ◌&&◌, ◌||◌, not, Option, none, some, List, [], ◌∷◌, ◌++◌, Bytes, codes,
  length, is_empty, ltb, ◌==◌, if◌then◌else◌, ◌≡◌,
}
use gomart.Conn.{World}
use gomart.Handlers.{Request, Response, Page}

-- What `net/http` sends: the status, whether the header `Content-Encoding: gzip` went with it, and
-- the body; before the status is sent, whether that header is set.
pub record Wire : Type 0 where
  pub encoding_set : Bool
  pub status : Option ℕ
  pub encoded : Bool
  pub body : Bytes

-- `http.ResponseWriter.WriteHeader`: only the first call counts.
unfoldable pub send_header : ℕ → Wire → Wire
send_header code w = elim w.status [
  | none ↦ record w { status = some code; encoded = w.encoding_set }
  | some _ ↦ w
]

abbrev pub body_allowed : ℕ → Bool
body_allowed code = not (ltb code 200 || code == 204 || code == 304)

abbrev sent_body : ℕ → Bytes → Wire → ℕ × Wire
sent_body code p w =
    if body_allowed code then (length p, record w { body = w.body ++ p }) else (0, w)

-- `http.ResponseWriter.Write`: with no status yet it is 200, and some statuses have no body.
unfoldable pub send_body : Bytes → Wire → ℕ × Wire
send_body p w = elim w.status [
  | none ↦ sent_body 200 p (record w { status = some 200; encoded = w.encoding_set })
  | some code ↦ sent_body code p w
]

-- `loggingResponseWriter` with its `responseData`
pub record LoggingResponseWriter : Type 0 where
  pub wire : Wire
  pub status : ℕ
  pub size : ℕ

-- `loggingResponseWriter.Write`
unfoldable pub logged_write : Bytes → LoggingResponseWriter → LoggingResponseWriter
logged_write b r =
    let (size, wire) = send_body b r.wire in record r { wire = wire; size = r.size + size }

-- `loggingResponseWriter.WriteHeader`
unfoldable pub logged_header : ℕ → LoggingResponseWriter → LoggingResponseWriter
logged_header status_code r = record r {
  wire = send_header status_code r.wire;
  status = status_code;
}

abbrev pub set_encoding : LoggingResponseWriter → LoggingResponseWriter
set_encoding r = record r { wire = record r.wire { encoding_set = true } }

-- `NewResponseData` and `NewResponseWriter` over a fresh connection.
abbrev pub new_response_writer : LoggingResponseWriter
new_response_writer = record {
  wire = record { encoding_set = false; status = none; encoded = false; body = [] };
  status = 0;
  size = 0;
}

module _ (State : Type 0) (write : State → Bytes → Bytes × State) (close : State → Bytes) where
  -- What a writer puts out for the given pieces, and when it is closed.
  unfoldable pub put_out : State → List Bytes → Bytes
  put_out s [] = close s
  put_out s (p ∷ ps) = let (out, s') = write s p in out ++ put_out s' ps

abbrev pub joined : List Bytes → Bytes
joined [] = []
joined (p ∷ ps) = p ++ joined ps

-- `compress/gzip`: a writer is a state that puts out bytes as it likes, and what it has put out when
-- it is closed is read back as the pieces that were written, joined. `open_reader` is `NewReader`,
-- with an error for a bad header, and then what the reader reads, or its error.
pub record Gzip : Type 1 where
  pub State : Type 0
  pub fresh : State
  pub write : State → Bytes → Bytes × State
  pub close : State → Bytes
  pub open_reader : Bytes → Option (Option Bytes)
  pub round_trip :
      (ps : List Bytes) → open_reader (put_out State write close fresh ps) ≡ some (some (joined ps))

-- `strings.Contains`
abbrev starts_with : Bytes → Bytes → Bool
starts_with s [] = true
starts_with [] (c ∷ t) = false
starts_with (a ∷ s) (c ∷ t) = a == c && starts_with s t

abbrev pub contains : Bytes → Bytes → Bool
contains [] t = starts_with [] t
contains (a ∷ s) t = starts_with (a ∷ s) t || contains s t

abbrev pub unsuccess_status_code : ℕ
unsuccess_status_code = 300

-- A request as it arrives: two headers and the body as sent.
pub record Incoming : Type 0 where
  pub accept_encoding : Bytes
  pub content_encoding : Bytes
  pub sent : Option Bytes
  pub request : Request

module _ (gzip : Gzip) where
  pub record CompressWriter : Type 0 where
    pub w : LoggingResponseWriter
    pub zw : gzip.State

  unfoldable pub compressed_write : Bytes → CompressWriter → CompressWriter
  compressed_write p c =
      let (out, zw) = gzip.write c.zw p in record { w = logged_write out c.w; zw = zw }

  unfoldable pub compressed_header : ℕ → CompressWriter → CompressWriter
  compressed_header status_code c =
      if ltb status_code unsuccess_status_code
      then record c { w = logged_header status_code (set_encoding c.w) }
      else record c { w = logged_header status_code c.w }

  -- `Close`
  unfoldable pub compressed_close : CompressWriter → LoggingResponseWriter
  compressed_close c = logged_write (gzip.close c.zw) c.w

  -- What a handler does with its writer, plain or compressing.
  unfoldable pub respond : Response → LoggingResponseWriter → LoggingResponseWriter
  respond res w =
      let started = logged_header res.status w in
      if is_empty res.body then started else logged_write res.body started

  unfoldable pub respond_compressed : Response → CompressWriter → CompressWriter
  respond_compressed res c =
      let started = compressed_header res.status c in
      if is_empty res.body then started else compressed_write res.body started

  abbrev pub new_compress_writer : LoggingResponseWriter → CompressWriter
  new_compress_writer w = record { w = w; zw = gzip.fresh }

  -- `next.ServeHTTP(ow, r)` and the deferred `cw.Close()`.
  unfoldable pub finish_response : Bool → Response → LoggingResponseWriter → LoggingResponseWriter
  finish_response supports_gzip res w =
      if supports_gzip
      then compressed_close (respond_compressed res (new_compress_writer w))
      else respond res w

  -- The error goes to the plain writer, and the deferred `Close` of the other writes to it too.
  unfoldable pub refuse_body : Bool → LoggingResponseWriter → LoggingResponseWriter
  refuse_body supports_gzip w =
      let refused = logged_header 500 w in
      if supports_gzip then compressed_close (new_compress_writer refused) else refused

  -- What the handler reads: `none` where `NewCompressReader` fails.
  abbrev pub decoded_body : Bool → Option Bytes → Option (Option Bytes)
  decoded_body false sent = some sent
  decoded_body true none = none
  decoded_body true (some b) = gzip.open_reader b

  abbrev pub pass_on :
      (Request → Page)
      → Incoming
      → LoggingResponseWriter
      → World
      → Bool
      → Option (Option Bytes)
      → LoggingResponseWriter × World
  pass_on next r w world supports_gzip none = (refuse_body supports_gzip w, world)
  pass_on next r w world supports_gzip (some body) =
      let (res, world') = next (record r.request { body = body }) world in
      (finish_response supports_gzip res w, world')

  unfoldable pub gzip_middleware :
      (Request → Page) → Incoming → LoggingResponseWriter → World → LoggingResponseWriter × World
  gzip_middleware next r w world =
      pass_on next r w world (contains r.accept_encoding (codes "gzip"))
        (decoded_body (contains r.content_encoding (codes "gzip")) r.sent)

  -- The record that is logged is the status and the size of the result.
  unfoldable pub with_logging : (Request → Page) → Incoming → World → LoggingResponseWriter × World
  with_logging next r world = gzip_middleware next r new_response_writer world
