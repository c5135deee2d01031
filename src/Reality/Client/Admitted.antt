-- ===== src/Reality/Client/Admitted.antt =====
-- The server recognises the hello that the client builds.
use leshiy.Prelude.{
  ℕ, ◌+◌, ◌/◌, ◌%◌, ◌≤◌, ◌<◌, ◌≡◌, refl, ap, sym, ◌∙◌, subst, true, some, List, [], ◌∷◌, ◌++◌,
  length,
}
use leshiy.Tls.Camouflage.{Digest}
use leshiy.Tls.Fingerprint.{Profile}
use leshiy.Tls.Builder.{hello_tail, build_client_hello_with_entropy}
use leshiy.Tls.Builder.Sent.{IsHello}
use leshiy.Tls.Builder.Fields.{after_session_id-hello_tail}
use leshiy.Reality.Auth.{
  Crypto, IsCrypto, ServerAuthConfig, authed, abs_diff, client_auth_key, seal_client_hello,
  classify_full,
}
use leshiy.Reality.Auth.Layout.{IsPayload}
use leshiy.Reality.Auth.Accepted.{classify_full-seal_client_hello}
use leshiy.Reality.Client.{
  ClientAuthConfig, Draws, hello_input, auth_payload, build_authed_client_hello,
}

-- A client that knows the server's public key and sends an allowed name, and whose clock is near
-- enough, is recognised by the hello that it builds of any profile with a server name and key
-- shares, whatever it draws: the server has its short id, its time and the key that it has derived.
pub classify_full-build_authed_client_hello :
    (c : Crypto) (sha256 : Digest) (lossy : List ℕ → List ℕ) (server : ServerAuthConfig)
    (profile : Profile) (cfg : ClientAuthConfig) (draws : Draws) (now then_secs : ℕ)
    → IsCrypto c
    → IsHello sha256 profile (hello_input c cfg draws)
    → cfg.server_public ≡ c.public_key server.static_secret
    → 8 ≡ length cfg.short_id
    → then_secs < 4294967296
    → lossy cfg.sni ≡ cfg.sni
    → server.sni_allowed cfg.sni ≡ true
    → abs_diff now then_secs ≤ server.max_time_diff
    → classify_full c lossy
        (build_authed_client_hello c sha256 profile cfg then_secs draws).0
        server
        now
      ≡ authed cfg.short_id then_secs
          (client_auth_key c draws.ephem_bytes cfg.server_public draws.ch_random)
unfolding build_authed_client_hello build_client_hello_with_entropy
classify_full-build_authed_client_hello c sha256 lossy server profile cfg draws now then_secs law v
      known id secs text allowed near =
    let input = hello_input c cfg draws in
    let rest = hello_tail sha256 profile input in
    let read = after_session_id-hello_tail lossy sha256 profile input v (71 + length rest) in
    let payload : IsPayload (auth_payload cfg then_secs) = record {
      version_length = refl;
      secs_fit = secs;
      short_id_length = id;
    } in
    let body_length =
      length
        ((0x03 ∷ 0x03 ∷ []) ++ (draws.ch_random ++ ((32 ∷ []) ++ (draws.ch_random ++ rest)))) in
    let sent = λ (key : List ℕ).
      seal_client_hello c key draws.ch_random (auth_payload cfg then_secs)
        (build_client_hello_with_entropy sha256 profile input) in
    subst
      (λ (server_public : List ℕ).
        classify_full c lossy
          (sent (client_auth_key c draws.ephem_bytes server_public draws.ch_random)) server now
        ≡ authed cfg.short_id then_secs
            (client_auth_key c draws.ephem_bytes server_public draws.ch_random))
      (sym known)
      (classify_full-seal_client_hello c lossy server draws.ephem_bytes draws.ch_random
        draws.ch_random rest cfg.sni (body_length / 256 / 256 % 256) (body_length / 256 % 256)
        (body_length % 256) 0x03 0x03 now read.0 (auth_payload cfg then_secs) law payload
        v.random_length v.random_length read.1 read.3 (read.2 ∙ ap some text) allowed near)
