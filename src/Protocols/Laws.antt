-- ===== src/Protocols/Laws.antt =====
-- Both protocols are lawful.
use prime_server.Prelude.{Bytes, Option, refl}
use prime_server.Server.{IsLawful}
use prime_server.Http.{Method}
use prime_server.Http.Message.{timeout}
use prime_server.Protocols.{netstring_protocol, http_protocol}

pub netstring_protocol-IsLawful : IsLawful netstring_protocol
unfolding netstring_protocol
netstring_protocol-IsLawful = record {
  timeout_id = λ info. refl;
  timeout_time_stamp = λ info. refl;
}

pub http_protocol-IsLawful :
    (method : Method) (unescape : Bytes → Option Bytes) (escape : Bytes → Option Bytes)
    → IsLawful (http_protocol method unescape escape)
unfolding http_protocol timeout
http_protocol-IsLawful method unescape escape = record {
  timeout_id = λ info. refl;
  timeout_time_stamp = λ info. refl;
}
