-- ===== src/Handlers/Access.antt =====
-- Without a user the authenticated pages do nothing.
use gomart.Prelude.{Option, none, some, is_empty, if◌then◌else◌}
use gomart.Handlers.{unauthorized, Response, write_header, Subject, no_token, no_subject, subject}

-- What the token says of the user: nobody, where there is none or its subject is empty; a token without
-- a subject is answered by the recovered panic.
abbrev pub refusal : Subject → Option Response
refusal no_token = some unauthorized
refusal no_subject = some (write_header 500)
refusal (subject s) = if is_empty s then some unauthorized else none
