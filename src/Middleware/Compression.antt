-- ===== src/Middleware/Compression.antt =====
-- What a client receives of a handler's response, and what is logged about it.
use mathlib.Core.List.{append-nil}
use gomart.Prelude.{
  ℕ, ◌≡◌, refl, sym, ap, ◌∙◌, subst, Bool, Bool-cases, true, false, ◌&&◌, inl, inr, Option, some,
  [], ◌∷◌, ◌++◌, Bytes, codes, length, length-append, List-cases, is_empty, ltb, if◌then◌else◌,
  arith,
}
use gomart.Conn.{World}
use gomart.Handlers.{Request, Response, Page}
use gomart.Middleware.{
  send_header, body_allowed, send_body, LoggingResponseWriter, logged_write, logged_header,
  new_response_writer, put_out, joined, Gzip, contains, unsuccess_status_code, Incoming,
  compressed_write, compressed_header, compressed_close, respond, respond_compressed,
  new_compress_writer, finish_response, decoded_body, gzip_middleware, with_logging, pass_on,
}

-- A connection whose status is sent, with the record that is kept of it.
abbrev wired : Bool → Bool → ℕ → Bytes → LoggingResponseWriter
wired set encoded code body = record {
  wire = record { encoding_set = set; status = some code; encoded = encoded; body = body };
  status = code;
  size = length body;
}

logged_write-wired :
    (set encoded : Bool) (code : ℕ) (body p : Bytes)
    → body_allowed code ≡ true
    → logged_write p (wired set encoded code body) ≡ wired set encoded code (body ++ p)
unfolding logged_write send_body
logged_write-wired set encoded code body p ok_ = ground (arith, length-append body p)

module _ (gzip : Gzip) where
  abbrev pub marked : ℕ → Bool
  marked code = ltb code unsuccess_status_code

  compressed_header-wired :
      (code : ℕ)
      → compressed_header gzip code (new_compress_writer gzip new_response_writer)
        ≡ record { w = wired (marked code) (marked code) code []; zw = gzip.fresh }
  unfolding compressed_header logged_header send_header
  compressed_header-wired code = ground arith

  respond_compressed-wired :
      (res : Response)
      → body_allowed res.status ≡ true
      → compressed_close gzip
          (respond_compressed gzip res (new_compress_writer gzip new_response_writer))
        ≡ wired (marked res.status) (marked res.status) res.status (
            put_out gzip.State gzip.write gzip.close gzip.fresh
              (if is_empty res.body then [] else res.body ∷ []))
  unfolding respond_compressed compressed_write compressed_close put_out
  respond_compressed-wired res allowed =
      let m = marked res.status in
      elim (Bool-cases (is_empty res.body)) [
        | inl e ↦
            rw (e, compressed_header-wired res.status)
              (logged_write-wired m m res.status [] (gzip.close gzip.fresh) allowed)
        | inr e ↦
            let out = (gzip.write gzip.fresh res.body).0 in
            let rest = gzip.close (gzip.write gzip.fresh res.body).1 in
            rw
              (
                e,
                compressed_header-wired res.status,
                logged_write-wired m m res.status [] out allowed,
              )
              (logged_write-wired m m res.status out rest allowed)
      ]

  joined_one : (body : Bytes) → joined (if is_empty body then [] else body ∷ []) ≡ body
  joined_one [] = refl
  joined_one (b ∷ body) = append-nil (b ∷ body)

  respond-wired :
      (res : Response)
      → body_allowed res.status ≡ true
      → respond gzip res new_response_writer ≡ wired false false res.status res.body
  unfolding respond logged_header send_header
  respond-wired res allowed = elim (List-cases res.body) [
    | inl e ↦ rw e refl
    | inr (b, body, e) ↦ rw e (logged_write-wired false false res.status [] (b ∷ body) allowed)
  ]

  -- What the body on the wire says, read as it was written.
  abbrev pub read_back : Bool → Bytes → Option (Option Bytes)
  read_back true body = gzip.open_reader body
  read_back false body = some (some body)

  pub record Delivered (supports_gzip : Bool) (res : Response) (w : LoggingResponseWriter)
      : Type 0 where
    pub status : w.wire.status ≡ some res.status
    pub body : read_back supports_gzip w.wire.body ≡ some (some res.body)
    pub encoded : w.wire.encoded ≡ (supports_gzip && marked res.status)
    pub logged_status : w.status ≡ res.status
    pub logged_size : w.size ≡ length w.wire.body

  finish_response-Delivered :
      (supports_gzip : Bool) (res : Response)
      → body_allowed res.status ≡ true
      → Delivered supports_gzip res (finish_response gzip supports_gzip res new_response_writer)
  unfolding finish_response
  finish_response-Delivered true res allowed =
      let pieces = if is_empty res.body then [] else res.body ∷ [] in
      rw (respond_compressed-wired res allowed) (record {
        status = refl;
        body = gzip.round_trip pieces ∙ ap (λ b. some (some b)) (joined_one res.body);
        encoded = refl;
        logged_status = refl;
        logged_size = refl;
      })
  finish_response-Delivered false res allowed = rw (respond-wired res allowed) (record {
    status = refl;
    body = refl;
    encoded = refl;
    logged_status = refl;
    logged_size = refl;
  })

  -- If the request's body can be decoded and the handler's status allows a body, the middleware gives
  -- the handler the decoded body and leaves its effect; the client receives the handler's status, and
  -- a body that reads, decompressed exactly where the request accepts gzip, as the handler's; but it is
  -- marked as compressed only for a status below 300; the status and the length of the body sent are
  -- what is logged.
  pub with_logging-Delivered :
      (next : Request → Page) (r : Incoming) (world : World) (body : Option Bytes)
      → decoded_body gzip (contains r.content_encoding (codes "gzip")) r.sent ≡ some body
      → body_allowed (next (record r.request { body = body }) world).0.status ≡ true
      → Delivered
          (contains r.accept_encoding (codes "gzip"))
          (next (record r.request { body = body }) world).0
          (with_logging gzip next r world).0
        × ((with_logging gzip next r world).1 ≡ (next (record r.request { body = body }) world).1)
  unfolding with_logging gzip_middleware
  with_logging-Delivered next r world body e allowed =
      let res = (next (record r.request { body = body }) world).0 in
      let passed =
        ap
          (pass_on gzip next r new_response_writer world
            (contains r.accept_encoding (codes "gzip")))
          e in
      (
        subst (Delivered (contains r.accept_encoding (codes "gzip")) res)
            (sym (ap (λ p. p.0) passed))
            (finish_response-Delivered (contains r.accept_encoding (codes "gzip")) res allowed),
        ap (λ p. p.1) passed,
      )
