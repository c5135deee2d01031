-- ===== src/Tls/Messages/Tests.antt =====
-- A ServerHello for x25519 as a destination sends it, and the theorems at it.
use leshiy.Prelude.{ℕ, ◌≡◌, refl, arith, ◌⊎◌, List, [], ◌∷◌, ◌++◌}
use leshiy.Tls.Error.{failed, done, truncated, malformed, server_hello_key_share}
use leshiy.Tls.Messages.{
  ServerHelloParams, parse_hs_msg, build_server_hello, parse_server_hello, adapt_server_hello,
  build_certificate, parse_certificate, build_certificate_verify, parse_certificate_verify,
  build_finished, parse_finished,
}
use leshiy.Tls.Messages.RoundTrip.{IsServerHello, IsShareOf, adapt_server_hello-build}
use leshiy.Tls.Messages.Certificates.{parse-build_messages}

abbrev eight : ℕ → List ℕ
eight x = x ∷ x ∷ x ∷ x ∷ x ∷ x ∷ x ∷ x ∷ []

abbrev thirty_two : ℕ → List ℕ
thirty_two x = eight x ++ (eight x ++ (eight x ++ eight x))

abbrev hello : ServerHelloParams
hello = record {
  suite = 0x1301;
  server_random = thirty_two 7;
  session_id_echo = 1 ∷ 2 ∷ 3 ∷ [];
  key_share_group = 0x001d;
  key_share = thirty_two 9;
}

hello-IsServerHello : IsServerHello hello
hello-IsServerHello = record {
  suite_fits = omega arith;
  random_length = refl;
  session_id_fits = omega arith;
  group_fits = omega arith;
  share_length = omega arith;
}

cut_short : parse_server_hello (2 ∷ 0 ∷ 0 ∷ 2 ∷ 3 ∷ []) ≡ failed (truncated 6 5)
unfolding parse_server_hello parse_hs_msg
cut_short = refl

adapt_server_hello-build_example :
    IsShareOf 0x001d 32
      × ((msg : List ℕ) × (adapt_server_hello (build_server_hello hello ++ (5 ∷ [])) (thirty_two 4)
            ≡ done msg)
          × (parse_server_hello msg ≡ done (record hello { key_share = thirty_two 4 })))
    ⊎ ¬ IsShareOf 0x001d 32
      × (adapt_server_hello (build_server_hello hello ++ (5 ∷ [])) (thirty_two 4)
          ≡ failed (malformed server_hello_key_share))
adapt_server_hello-build_example =
    adapt_server_hello-build hello (5 ∷ []) (thirty_two 4) hello-IsServerHello

parse-build_messages_example :
    (parse_certificate (build_certificate (eight 6) ++ (1 ∷ [])) ≡ done (eight 6))
    × (parse_certificate_verify (build_certificate_verify 0x0807 (eight 5) ++ (1 ∷ []))
        ≡ done (0x0807, eight 5))
    × (parse_finished (build_finished (eight 4) ++ (1 ∷ [])) ≡ done (eight 4))
parse-build_messages_example =
    parse-build_messages (eight 6) (eight 5) (eight 4) (1 ∷ []) 0x0807 (omega arith) (omega arith)
      (omega arith) (omega arith)
