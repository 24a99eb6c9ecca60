-- ===== src/Examples/Compressed.antt =====
-- A page sent compressed, with a toy compressor.
use gomart.Prelude.{ℕ, ◌≡◌, refl, ap, true, Option, none, some, List, [], ◌∷◌, ◌++◌, Bytes, codes}
use gomart.Handlers.{Request, Page, main_page, subject, text_plain_content}
use gomart.Middleware.{put_out, joined, Gzip, Incoming, with_logging}
use gomart.Middleware.Compression.{Delivered, with_logging-Delivered}
use gomart.Examples.{world}
use gomart.Examples.Http.{request, first_user}

-- Each byte behind a 1, and a 0 at the end.
abbrev pack : Bytes → Bytes
pack [] = []
pack (b ∷ bs) = 1 ∷ b ∷ pack bs

abbrev cons_read : ℕ → Option (Option Bytes) → Option (Option Bytes)
cons_read b none = none
cons_read b (some none) = some none
cons_read b (some (some bs)) = some (some (b ∷ bs))

abbrev unpack : Bytes → Option (Option Bytes)
unpack [] = none
unpack (c ∷ []) = some (some [])
unpack (c ∷ b ∷ rest) = cons_read b (unpack rest)

abbrev write : Unit {0} → Bytes → Bytes × Unit {0}
write s p = (pack p, tt)

abbrev close : Unit {0} → Bytes
close s = 0 ∷ []

unpack-pack :
    (p rest x : Bytes)
    → unpack rest ≡ some (some x)
    → unpack (pack p ++ rest) ≡ some (some (p ++ x))
unpack-pack [] rest x e = e
unpack-pack (b ∷ p) rest x e = ap (cons_read b) (unpack-pack p rest x e)

pub unpack-put_out :
    (ps : List Bytes) → unpack (put_out (Unit {0}) write close tt ps) ≡ some (some (joined ps))
unfolding put_out
unpack-put_out [] = refl
unpack-put_out (p ∷ ps) =
    unpack-pack p (put_out (Unit {0}) write close tt ps) (joined ps) (unpack-put_out ps)

toy : Gzip
toy = record {
  State = Unit {0};
  fresh = tt;
  write = write;
  close = close;
  open_reader = unpack;
  round_trip = unpack-put_out;
}

abbrev page : Request → Page
page req w = (main_page req, w)

abbrev incoming : Incoming
incoming = record {
  accept_encoding = codes "gzip, deflate";
  content_encoding = [];
  sent = some [];
  request = request text_plain_content (subject first_user);
}

with_logging-Delivered_example :
    Delivered toy true (main_page incoming.request) (with_logging toy page incoming world).0
    × ((with_logging toy page incoming world).1 ≡ world)
unfolding main_page
with_logging-Delivered_example = with_logging-Delivered toy page incoming world (some []) refl refl
