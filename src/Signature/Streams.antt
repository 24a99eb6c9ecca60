-- ===== src/Signature/Streams.antt =====
-- What the signatures of a writer and a reader sign, and what the header signs.
use mathlib.Core.List.{append-nil, append_assoc}
use gomart.Prelude.{
  ℕ, zero, suc, ◌≡◌, refl, sym, ap, ◌∙◌, Bool-cases, inl, inr, Option, none, some, List, [], ◌∷◌,
  ◌++◌, ok, Bytes, length, ltb, if◌then◌else◌, arith,
}
use gomart.Password.{Hmac, encode_to_string}
use gomart.Middleware.{body_allowed, joined, unsuccess_status_code}
use gomart.Signature.{
  HmacWriter, HmacReader, Reading, Sent, fresh, http_new_writer, http_new_reader, http_get_sig,
  signed, write, read, get_sig, reader_sig, http_write, http_write_header, put_body, write_all,
  read_times,
}

write_all-h : (ps : List Bytes) (h : HmacWriter Sent) → (write_all ps h).h ≡ h.h ++ joined ps
unfolding write_all http_write write
write_all-h [] h = rw append-nil refl
write_all-h (p ∷ ps) h = write_all-h ps (http_write p h).1 ∙ append_assoc h.h p (joined ps)

absorbed : (hr p : Bytes) → (if ltb 0 (length p) then hr ++ p else hr) ≡ hr ++ p
absorbed hr [] = sym (append-nil hr)
absorbed hr (c ∷ p) = ground arith

read_times-hr :
    {R : Type 0} (get : Reading R) (n : ℕ) (h : HmacReader R)
    → let (all, h') = read_times get n h in h'.hr ≡ h.hr ++ all
unfolding read_times read
read_times-hr get zero h = rw append-nil refl
read_times-hr get (suc n) h =
    let h' = (read get h).1 in
    let p = (read get h).0.0 in
    let rest = (read_times get n h').0 in
    read_times-hr get n h' ∙ ap (λ b. b ++ rest) (absorbed h.hr p) ∙ append_assoc h.hr p rest

put_body-sent :
    (p : Bytes) (code : ℕ) (s : Sent)
    → s.status ≡ some code
    → (put_body p s).1 ≡ (if body_allowed code then record s { body = s.body ++ p } else s)
put_body-sent p code s e = ground (arith, e)

-- With the status sent, the pieces are added to the body where the status has one, and nothing else of
-- the response changes.
write_all-sent :
    (ps : List Bytes) (code : ℕ) (h : HmacWriter Sent)
    → h.w.status ≡ some code
    → (write_all ps h).w
      ≡ (if body_allowed code then record h.w { body = h.w.body ++ joined ps } else h.w)
unfolding write_all http_write write
write_all-sent [] code h e = elim (Bool-cases (body_allowed code)) [
  | inl has ↦ rw (has, append-nil) refl
  | inr bare ↦ rw bare refl
]
write_all-sent (p ∷ ps) code h e = elim (Bool-cases (body_allowed code)) [
  | inl has ↦
      let one : (put_body p h.w).1 ≡ record h.w { body = h.w.body ++ p } =
        put_body-sent p code h.w e ∙ rw has refl in
      write_all-sent ps code (http_write p h).1 (ap (λ s. s.status) one ∙ e)
      ∙ rw (has, one, append_assoc) refl
  | inr bare ↦
      let one : (put_body p h.w).1 ≡ h.w = put_body-sent p code h.w e ∙ rw bare refl in
      write_all-sent ps code (http_write p h).1 (ap (λ s. s.status) one ∙ e) ∙ rw (bare, one) refl
]

module _ (hmac : Hmac) (key : Bytes) (code : ℕ) (ps : List Bytes) where
  abbrev headed : HmacWriter Sent
  headed = http_write_header hmac key code (http_new_writer fresh)

  abbrev pub responded : HmacWriter Sent
  responded = write_all ps headed

  abbrev header : Option Bytes
  header =
      if ltb code unsuccess_status_code then some (encode_to_string (hmac.code key [])) else none

  headed-start : headed ≡ record {
    w = record { hash_set = header; status = some code; hash = header; body = [] };
    h = [];
  }
  unfolding http_write_header get_sig
  headed-start = elim (Bool-cases (ltb code unsuccess_status_code)) [
    | inl good ↦ rw good refl
    | inr bad ↦ rw bad refl
  ]

  responded-sent : responded.w ≡ record {
    hash_set = header;
    status = some code;
    hash = header;
    body = if body_allowed code then joined ps else [];
  }
  responded-sent = elim (Bool-cases (body_allowed code)) [
    | inl has ↦
        write_all-sent ps code headed (ap (λ h. h.w.status) headed-start)
        ∙ rw (has, headed-start) refl
    | inr bare ↦
        write_all-sent ps code headed (ap (λ h. h.w.status) headed-start)
        ∙ rw (bare, headed-start) refl
  ]

  -- A response that is written in any pieces after its status has them joined as its body, if the status
  -- has one, and the writer's signature is the one that `GetSig` finds for a reader of the same bytes, in whatever pieces and with
  -- whatever errors it reads them: the code of these bytes. But the header `HashSHA256`, which goes with a
  -- status below 300, is the code of the empty message, whatever the body.
  pub write_all-read_times :
      {R : Type 0} (get : Reading R) (n : ℕ) (r : R)
      → (read_times get n (http_new_reader r)).0 ≡ joined ps
      → (responded.w.body ≡ (if body_allowed code then joined ps else []))
        × (get_sig hmac key responded ≡ hmac.code key (joined ps))
        × (http_get_sig hmac key (signed (read_times get n (http_new_reader r)).1)
            ≡ ok (hmac.code key (joined ps)))
        × (responded.w.hash ≡ (
            if ltb code unsuccess_status_code
            then some (encode_to_string (hmac.code key []))
            else none))
  unfolding get_sig reader_sig http_get_sig
  write_all-read_times get n r e = (
    ap (λ s. s.body) responded-sent,
    ap (hmac.code key) (write_all-h ps headed ∙ ap (λ h. h.h ++ joined ps) headed-start),
    ap (λ b. ok (hmac.code key b)) (read_times-hr get n (http_new_reader r) ∙ e),
    ap (λ s. s.hash) responded-sent,
  )
