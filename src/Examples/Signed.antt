-- ===== src/Examples/Signed.antt =====
-- A response written in two pieces, and read in three.
use gomart.Prelude.{
  ◌≡◌, refl, true, false, none, some, List, [], ok, ◌∷◌, Bytes, codes, ltb, if◌then◌else◌,
}
use gomart.Password.{encode_to_string}
use gomart.Middleware.{body_allowed, joined, unsuccess_status_code}
use gomart.Signature.{Reading, get_sig, http_get_sig, signed, http_new_reader, read, read_times}
use gomart.Signature.Streams.{responded, write_all-read_times}
use gomart.Examples.{hmac}

abbrev chunked : Reading (List Bytes)
chunked [] = (([], true), [])
chunked (p ∷ ps) = ((p, false), ps)

abbrev key : Bytes
key = codes "key"

abbrev pieces : List Bytes
pieces = codes "ab" ∷ codes "c" ∷ []

abbrev reads : List Bytes
reads = codes "a" ∷ [] ∷ codes "bc" ∷ []

same_bytes : (read_times chunked 4 (http_new_reader reads)).0 ≡ joined pieces
unfolding read_times read
same_bytes = refl

write_all-read_times_example :
    ((responded hmac key 200 pieces).w.body ≡ (if body_allowed 200 then joined pieces else []))
    × (get_sig hmac key (responded hmac key 200 pieces) ≡ hmac.code key (joined pieces))
    × (http_get_sig hmac key (signed (read_times chunked 4 (http_new_reader reads)).1)
        ≡ ok (hmac.code key (joined pieces)))
    × ((responded hmac key 200 pieces).w.hash ≡ (
        if ltb 200 unsuccess_status_code then some (encode_to_string (hmac.code key [])) else none))
write_all-read_times_example = write_all-read_times hmac key 200 pieces chunked 4 reads same_bytes
