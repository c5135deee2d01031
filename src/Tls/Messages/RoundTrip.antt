-- ===== src/Tls/Messages/RoundTrip.antt =====
-- The ServerHello that is built is parsed back, and adapting a ServerHello changes its key share alone.
use leshiy.Prelude.{
  ◌==◌, ℕ, zero, suc, ◌+◌, ◌%◌, ◌<◌, ◌≡◌, refl, ap, sym, ◌∙◌, true, false, Bool-cases, ◌⊎◌, inl,
  inr, List, [], ◌∷◌, ◌++◌, length, ltb, leb, arith, length-append, drop-append, append-nil,
}
use leshiy.Prelude.Bytes.{to_be, from_be, from_be-to_be}
use leshiy.Tls.Error.{done, failed, malformed, server_hello_key_share}
use leshiy.Tls.Messages.{
  ServerHelloParams, server_hello_extensions, build_server_hello, Share, read_share, share_loop,
  parse_server_hello_body, parse_server_hello, share_fits, adapt_server_hello,
}
use leshiy.Tls.Messages.Cursor.{take_all, take_bytes-append, take_u16-to_be, parse_hs_msg-hs_msg}

-- The fields fit the widths in which they are sent.
pub record IsServerHello (p : ServerHelloParams) : Type 0 where
  pub suite_fits : p.suite < 65536
  pub random_length : 32 ≡ length p.server_random
  pub session_id_fits : length p.session_id_echo < 256
  pub group_fits : p.key_share_group < 65536
  pub share_length : length p.key_share < 65521

length-extensions :
    (p : ServerHelloParams) → length (server_hello_extensions p) ≡ 14 + length p.key_share
unfolding server_hello_extensions
length-extensions p = omega arith

-- The key_share extension's body.
share_body : ServerHelloParams → List ℕ
share_body p = to_be 2 p.key_share_group ++ (to_be 2 (length p.key_share) ++ p.key_share)

read_share-body :
    (p : ServerHelloParams) (found : Share)
    → IsServerHello p
    → read_share 0x0033 (4 + length p.key_share) (share_body p) found
      ≡ (p.key_share_group, p.key_share)
unfolding read_share share_body
read_share-body p found v =
    let group : from_be (to_be 2 p.key_share_group) ≡ p.key_share_group =
      from_be-to_be 2 p.key_share_group v.group_fits in
    let len : from_be (to_be 2 (length p.key_share)) ≡ length p.key_share =
      from_be-to_be 2 (length p.key_share) (omega (arith, v.share_length)) in
    let enough : leb (4 + length p.key_share) (length (share_body p)) ≡ true = ground arith in
    let long : leb 4 (4 + length p.key_share) ≡ true = ground arith in
    rw (long, group, len, enough, take_all p.key_share) refl

share_loop-extension :
    (f etype : ℕ) (body more : List ℕ) (found : Share)
    → etype < 65536
    → length body < 65536
    → share_loop (suc f) (to_be 2 etype ++ (to_be 2 (length body) ++ (body ++ more))) found
      ≡ share_loop f more (read_share etype (length body) (body ++ more) found)
unfolding share_loop
share_loop-extension f etype body more found small fits =
    let kind : from_be (to_be 2 etype) ≡ etype = from_be-to_be 2 etype small in
    let len : from_be (to_be 2 (length body)) ≡ length body = from_be-to_be 2 (length body) fits in
    let head : ltb (length (to_be 2 etype ++ (to_be 2 (length body) ++ (body ++ more)))) 4 ≡ false =
      ground arith in
    let whole : ltb (length (body ++ more)) (length body) ≡ false =
      ground (arith, length-append body more) in
    rw (head, kind, len, whole, drop-append body more (length body) refl) refl

share_loop_nil : (f : ℕ) (found : Share) → share_loop f [] found ≡ found
unfolding share_loop
share_loop_nil zero found = refl
share_loop_nil (suc f) found = refl

share_loop-extensions :
    (f : ℕ) (p : ServerHelloParams)
    → IsServerHello p
    → share_loop (suc (suc f)) (server_hello_extensions p) (0, [])
      ≡ (p.key_share_group, p.key_share)
unfolding server_hello_extensions share_body read_share
share_loop-extensions f p v =
    let small : length (share_body p) < 65536 = omega (arith, v.share_length) in
    let whole : share_body p ++ [] ≡ share_body p = append-nil (share_body p) in
    let width : length (share_body p) ≡ 4 + length p.key_share = omega arith in
    ap (λ (xs : List ℕ). share_loop (suc (suc f)) xs (0, []))
      (ap (λ (m : ℕ). versions ++ (to_be 2 0x33 ++ (to_be 2 m ++ share_body p))) (sym width)
        ∙ ap
            (λ (xs : List ℕ). versions ++ (to_be 2 0x33 ++ (to_be 2 (length (share_body p)) ++ xs)))
            (sym whole))
    ∙ share_loop-extension (suc f) 0x2b (0x03 ∷ 0x04 ∷ [])
        (to_be 2 0x33 ++ (to_be 2 (length (share_body p)) ++ (share_body p ++ []))) (0, [])
        (omega arith) (omega arith)
    ∙ share_loop-extension f 0x33 (share_body p) [] (0, []) (omega arith) small
    ∙ share_loop_nil f (read_share 0x33 (length (share_body p)) (share_body p ++ []) (0, []))
    ∙ ap (λ (xs : List ℕ). read_share 0x33 (length (share_body p)) xs (0, [])) whole
    ∙ ap (λ (m : ℕ). read_share 0x33 m (share_body p) (0, [])) width
    ∙ read_share-body p (0, []) v
  where
    versions : List ℕ
    versions = to_be 2 0x2b ++ (to_be 2 2 ++ (0x03 ∷ 0x04 ∷ []))

-- What `build_server_hello` puts behind the message's header.
abbrev server_hello_body : ServerHelloParams → List ℕ → List ℕ
server_hello_body p ext =
    (0x03 ∷ 0x03 ∷ [])
    ++ (p.server_random
        ++ (to_be 1 (length p.session_id_echo)
            ++ (p.session_id_echo
                ++ (to_be 2 p.suite ++ ((0x00 ∷ []) ++ (to_be 2 (length ext) ++ ext))))))

parse_server_hello_body-build :
    (p : ServerHelloParams)
    → IsServerHello p
    → (ext : List ℕ) → ext ≡ server_hello_extensions p
    → parse_server_hello_body (server_hello_body p ext) ≡ done p
unfolding parse_server_hello_body
parse_server_hello_body-build p v ext e =
    let n = length p.session_id_echo in
    let low : n % 256 ≡ n = omega (arith, v.session_id_fits) in
    let short : length ext < 65536 =
      omega (arith, ap length e, length-extensions p, v.share_length) in
    let fuel : length ext ≡ suc (suc (12 + length p.key_share)) =
      omega (arith, ap length e, length-extensions p) in
    let found : share_loop (length ext) ext (0, []) ≡ (p.key_share_group, p.key_share) =
      ap (λ (m : ℕ). share_loop m ext (0, [])) fuel
      ∙ ap (λ (xs : List ℕ). share_loop (suc (suc (12 + length p.key_share))) xs (0, [])) e
      ∙ share_loop-extensions (12 + length p.key_share) p v in
    let t6 = to_be 2 (length ext) ++ ext in
    let t5 = (0x00 ∷ []) ++ t6 in
    let t4 = to_be 2 p.suite ++ t5 in
    let t3 = p.session_id_echo ++ t4 in
    let t2 = to_be 1 n ++ t3 in
    rw
      (
        take_bytes-append 0 2 (0x03 ∷ 0x03 ∷ []) (p.server_random ++ t2) refl,
        take_bytes-append 2 32 p.server_random t2 v.random_length,
        take_bytes-append 34 1 (to_be 1 n) t3 refl,
        low,
        take_bytes-append 35 n p.session_id_echo t4 refl,
        take_u16-to_be (35 + n) p.suite t5 v.suite_fits,
        take_bytes-append (35 + n + 2) 1 (0x00 ∷ []) t6 refl,
        take_u16-to_be (35 + n + 2 + 1) (length ext) ext short,
        take_all ext,
        found,
      )
      refl

length-server_hello :
    (p : ServerHelloParams) (ext : List ℕ)
    → IsServerHello p
    → length ext ≡ 14 + length p.key_share
    → length (server_hello_body p ext) < 16777216
length-server_hello p ext v h =
    omega (arith, v.random_length, v.session_id_fits, v.share_length, length-append {0})

pub parse_server_hello-build :
    (p : ServerHelloParams) (rest : List ℕ)
    → IsServerHello p
    → parse_server_hello (build_server_hello p ++ rest) ≡ done p
unfolding parse_server_hello build_server_hello
parse_server_hello-build p rest v =
    let ext = server_hello_extensions p in
    rw
      (parse_hs_msg-hs_msg 0x02 (server_hello_body p ext) rest
        (length-server_hello p ext v (length-extensions p)))
      (parse_server_hello_body-build p v ext refl)

-- The shares that fit a group: 32 bytes for x25519, 1120 for X25519MLKEM768.
abbrev pub IsShareOf : ℕ → ℕ → Type 0
IsShareOf group len = ((group ≡ 0x001d) × (len ≡ 32)) ⊎ ((group ≡ 0x11ec) × (len ≡ 1120))

-- Adapting a ServerHello whose fields fit, whatever bytes follow it, to a share of 32 bytes when its
-- group is x25519, or of 1120 bytes when it is X25519MLKEM768, gives a message that is parsed back to
-- the same fields with the new share; for every other pair of group and length it is refused.
pub adapt_server_hello-build :
    (p : ServerHelloParams) (rest new_share : List ℕ)
    → IsServerHello p
    → IsShareOf p.key_share_group (length new_share)
        × ((msg : List ℕ) × (adapt_server_hello (build_server_hello p ++ rest) new_share ≡ done msg)
            × (parse_server_hello msg ≡ done (record p { key_share = new_share })))
      ⊎ ¬ IsShareOf p.key_share_group (length new_share)
        × (adapt_server_hello (build_server_hello p ++ rest) new_share
            ≡ failed (malformed server_hello_key_share))
unfolding adapt_server_hello
adapt_server_hello-build p rest new_share v =
    let read = parse_server_hello-build p rest v in
    elim (Bool-cases (share_fits p.key_share_group (length new_share))) [
      | inr other ↦
          inr (share_unfit p.key_share_group (length new_share) other, rw (read, other) refl)
      | inl fits ↦
          let q = record p { key_share = new_share } in
          let short : length new_share < 65521 = ground (arith, fits) in
          let back : parse_server_hello (build_server_hello q) ≡ done q =
            ap parse_server_hello (sym (append-nil (build_server_hello q)))
            ∙ parse_server_hello-build q [] (record {
              suite_fits = v.suite_fits;
              random_length = v.random_length;
              session_id_fits = v.session_id_fits;
              group_fits = v.group_fits;
              share_length = short;
            }) in
          inl (
            share_fit p.key_share_group (length new_share) fits,
            (build_server_hello q, rw (read, fits) refl, back),
          )
    ]
  where
    share_fit : (group len : ℕ) → share_fits group len ≡ true → IsShareOf group len
    share_fit group len h = elim (Bool-cases (group == 0x001d)) [
      | inl x ↦ inl (ground (arith, x), ground (arith, x, h))
      | inr y ↦ inr (ground (arith, y, h), ground (arith, y, h))
    ]

    share_unfit : (group len : ℕ) → share_fits group len ≡ false → ¬ IsShareOf group len
    share_unfit group len h (inl (g, l)) = ground (arith, g, l, h)
    share_unfit group len h (inr (g, l)) = ground (arith, g, l, h)
