-- ===== src/Reality/Auth/Layout.antt =====
-- Where the fields of a hello and of a payload stand.
use leshiy.Prelude.{
  ℕ, ◌+◌, ◌<◌, ◌≡◌, refl, ap, sym, ◌∙◌, min, true, List, [], ◌∷◌, ◌++◌, length, get_or, take, drop,
  replicate, length-append, take-append, drop-append, append_assoc, take_exact, drop-append_plus,
  get_or-append, ltb, arith,
}
use leshiy.Prelude.Bytes.{to_be, from_be, from_be-to_be}
use leshiy.Tls.Error.{done}
use leshiy.Tls.Parser.{u8-cons, u16-cons, u24-cons, take_slice-append}
use leshiy.Tls.ClientHello.{Extracted, after_session_id, extract_client_hello_fields}
use leshiy.Reality.Auth.{AuthPayload, encode, decode, aad_from_client_hello, write_session_id}

-- A ClientHello up to its random, then its session id of 32 bytes and the rest.
abbrev pub hello_of : List ℕ → List ℕ → List ℕ → List ℕ
hello_of front sid rest = front ++ (32 ∷ (sid ++ rest))

pub record IsPayload (p : AuthPayload) : Type 0 where
  pub version_length : 3 ≡ length p.version
  pub secs_fit : p.unix_secs < 4294967296
  pub short_id_length : 8 ≡ length p.short_id

pub length-encode : (p : AuthPayload) → IsPayload p → length (encode p) ≡ 16
unfolding encode
length-encode p v = omega (
  arith,
  length-append p.version ((0 ∷ []) ++ (to_be 4 p.unix_secs ++ p.short_id)),
  v.version_length,
  v.short_id_length,
)

pub decode-encode : (p : AuthPayload) → IsPayload p → decode (encode p) ≡ p
unfolding decode encode
decode-encode p v =
    let secs : from_be (to_be 4 p.unix_secs) ≡ p.unix_secs =
      from_be-to_be 4 p.unix_secs v.secs_fit in
    let t1 = to_be 4 p.unix_secs ++ p.short_id in
    let t0 = (0 ∷ []) ++ t1 in
    rw
      (
        take-append p.version t0 3 v.version_length,
        drop-append_plus p.version t0 4 1 (omega (arith, v.version_length)),
        drop-append_plus p.version t0 8 5 (omega (arith, v.version_length)),
        take_exact p.short_id 8 v.short_id_length,
        secs,
      )
      refl

module _ (front rest : List ℕ) (h : 38 ≡ length front) where
  length-hello_of :
      (sid : List ℕ) → 32 ≡ length sid → length (hello_of front sid rest) ≡ 71 + length rest
  length-hello_of sid s =
      omega (arith, length-append front (32 ∷ (sid ++ rest)), length-append sid rest, h, s)

  take-hello_of : (sid : List ℕ) → take 39 (hello_of front sid rest) ≡ front ++ (32 ∷ [])
  take-hello_of sid =
      ap (take 39) (sym (append_assoc front (32 ∷ []) (sid ++ rest)))
      ∙ take-append (front ++ (32 ∷ [])) (sid ++ rest) 39
          (omega (arith, length-append front (32 ∷ []), h))

  drop-hello_of : (sid : List ℕ) → 32 ≡ length sid → drop 71 (hello_of front sid rest) ≡ rest
  drop-hello_of sid s =
      drop-append_plus front (32 ∷ (sid ++ rest)) 71 33 (omega (arith, h))
      ∙ drop-append sid rest 32 s

  pub write_session_id-hello_of :
      (sid other : List ℕ)
      → 32 ≡ length sid
      → 32 ≡ length other
      → write_session_id (hello_of front sid rest) other ≡ hello_of front other rest
  unfolding write_session_id
  write_session_id-hello_of sid other s o =
      let end : min 71 (length (hello_of front sid rest)) ≡ 71 =
        omega (arith, length-hello_of sid s) in
      rw (end, take-hello_of sid, drop-hello_of sid s, take_exact other 32 o)
        (append_assoc front (32 ∷ []) (other ++ rest))

  pub aad-hello_of :
      (sid : List ℕ)
      → 32 ≡ length sid
      → aad_from_client_hello (hello_of front sid rest) ≡ hello_of front (replicate 32 0) rest
  unfolding aad_from_client_hello
  aad-hello_of sid s =
      let long : ltb 39 (length (hello_of front sid rest)) ≡ true =
        ground (arith, length-hello_of sid s) in
      let len : get_or (hello_of front sid rest) 38 0 ≡ 32 =
        get_or-append front (32 ∷ (sid ++ rest)) 38 0 h in
      let end : min 71 (length (hello_of front sid rest)) ≡ 71 =
        omega (arith, length-hello_of sid s) in
      rw (long, len, end, take-hello_of sid, drop-hello_of sid s)
        (append_assoc front (32 ∷ []) (replicate 32 0 ++ rest))

-- The fields of a hello, by what stands behind the session id.
pub extract-hello_of :
    (lossy : List ℕ → List ℕ) (l1 l2 l3 v1 v2 : ℕ) (random sid rest : List ℕ) (found : Extracted)
    → 32 ≡ length random
    → 32 ≡ length sid
    → after_session_id lossy (71 + length rest) rest ≡ done found
    → extract_client_hello_fields lossy (hello_of (1 ∷ l1 ∷ l2 ∷ l3 ∷ v1 ∷ v2 ∷ random) sid rest)
      ≡ done (record { random = random; session_id = sid; extracted = found })
unfolding extract_client_hello_fields
extract-hello_of lossy l1 l2 l3 v1 v2 random sid rest found r s e =
    let t = 32 ∷ (sid ++ rest) in
    let size : length (hello_of (1 ∷ l1 ∷ l2 ∷ l3 ∷ v1 ∷ v2 ∷ random) sid rest) ≡ 71 + length rest =
      length-hello_of (1 ∷ l1 ∷ l2 ∷ l3 ∷ v1 ∷ v2 ∷ random) rest (omega (arith, r)) sid s in
    rw
      (
        u8-cons 1 (l1 ∷ l2 ∷ l3 ∷ v1 ∷ v2 ∷ (random ++ t)),
        u24-cons l1 l2 l3 (v1 ∷ v2 ∷ (random ++ t)),
        u16-cons v1 v2 (random ++ t),
        take_slice-append random t 32 r,
        u8-cons 32 (sid ++ rest),
        take_slice-append sid rest 32 s,
        size,
        e,
      )
      refl
