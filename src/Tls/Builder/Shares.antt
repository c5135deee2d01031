-- ===== src/Tls/Builder/Shares.antt =====
-- The key_share extension that is built is read back.
use leshiy.Prelude.{
  ℕ, zero, suc, ◌<◌, ◌≡◌, refl, ap, sym, ◌∙◌, true, some, List, [], ◌∷◌, ◌++◌, length,
  length-append, take-append, drop-append, take_exact, append-nil, append_assoc, leb, ◌==◌, arith,
}
use leshiy.Prelude.Bytes.{to_be}
use leshiy.Tls.Error.{done}
use leshiy.Tls.Parser.{u16-to_be, take_slice-append}
use leshiy.Tls.ClientHello.{Extracted, keep_share, shares_loop}
use leshiy.Tls.Builder.{key_share_entries, extension}

shares_loop-extension :
    (f group : ℕ) (key more : List ℕ) (found : Extracted)
    → group < 65536
    → length key < 65536
    → shares_loop (suc f) (extension group key more) found
      ≡ shares_loop f more (keep_share group key found)
unfolding shares_loop extension
shares_loop-extension f group key more found small fits =
    let t1 = key ++ more in
    let t0 = to_be 2 (length key) ++ t1 in
    let enough : leb 4 (length (to_be 2 group ++ t0)) ≡ true = ground arith in
    rw
      (
        enough,
        u16-to_be group t0 small,
        u16-to_be (length key) t1 fits,
        take_slice-append key more (length key) refl,
      )
      refl

shares_loop-nil : (f : ℕ) (found : Extracted) → shares_loop f [] found ≡ done found
unfolding shares_loop
shares_loop-nil zero found = refl
shares_loop-nil (suc f) found = refl

-- The entries, one by one.
entries_lem :
    (group : ℕ) (x25519_pub mlkem_ek : List ℕ)
    → 32 ≡ length x25519_pub
    → 1184 ≡ length mlkem_ek
    → key_share_entries group x25519_pub mlkem_ek
      ≡ extension group
          (0x00 ∷ [])
          (extension 0x11ec (mlkem_ek ++ x25519_pub) (extension 0x001d x25519_pub []))
unfolding key_share_entries extension
entries_lem group x25519_pub mlkem_ek x m =
    let both : length (mlkem_ek ++ x25519_pub) ≡ 1216 =
      omega (arith, length-append mlkem_ek x25519_pub, x, m) in
    rw (both, ← x, append-nil x25519_pub)
      (ap
        (λ (t : List ℕ).
          to_be 2 group ++ (to_be 2 1 ++ ((0x00 ∷ []) ++ (to_be 2 0x11ec ++ (to_be 2 1216 ++ t)))))
        (sym (append_assoc mlkem_ek x25519_pub (to_be 2 0x001d ++ (to_be 2 32 ++ x25519_pub)))))

keep_share_grease : (group : ℕ) (found : Extracted) → keep_share group (0x00 ∷ []) found ≡ found
unfolding keep_share
keep_share_grease group found = ground arith

abbrev pub with_shares : List ℕ → List ℕ → Extracted → Extracted
with_shares x25519_pub mlkem_ek found = record found {
  key_share_x25519 = some x25519_pub;
  key_share_mlkem = some (record { ek = mlkem_ek; x25519 = x25519_pub });
}

keep_share_hybrid :
    (x25519_pub mlkem_ek : List ℕ) (found : Extracted)
    → 32 ≡ length x25519_pub
    → 1184 ≡ length mlkem_ek
    → keep_share 0x001d x25519_pub (keep_share 0x11ec (mlkem_ek ++ x25519_pub) found)
      ≡ with_shares x25519_pub mlkem_ek found
unfolding keep_share
keep_share_hybrid x25519_pub mlkem_ek found x m =
    let both : (length (mlkem_ek ++ x25519_pub) == 1216) ≡ true =
      ground (arith, length-append mlkem_ek x25519_pub, x, m) in
    let whole : (length x25519_pub == 32) ≡ true = ground (arith, x) in
    rw
      (
        both,
        whole,
        take-append mlkem_ek x25519_pub 1184 m,
        drop-append mlkem_ek x25519_pub 1184 m,
        take_exact x25519_pub 32 x,
      )
      refl

pub shares_loop-entries :
    (f group : ℕ) (x25519_pub mlkem_ek : List ℕ) (found : Extracted)
    → group < 65536
    → 32 ≡ length x25519_pub
    → 1184 ≡ length mlkem_ek
    → shares_loop (suc (suc (suc f))) (key_share_entries group x25519_pub mlkem_ek) found
      ≡ done (with_shares x25519_pub mlkem_ek found)
shares_loop-entries f group x25519_pub mlkem_ek found small x m =
    let hybrid = mlkem_ek ++ x25519_pub in
    let last = extension 0x001d x25519_pub [] in
    ap (λ (q : List ℕ). shares_loop (suc (suc (suc f))) q found)
      (entries_lem group x25519_pub mlkem_ek x m)
    ∙ shares_loop-extension (suc (suc f)) group (0x00 ∷ []) (extension 0x11ec hybrid last) found
        small (omega arith)
    ∙ ap (shares_loop (suc (suc f)) (extension 0x11ec hybrid last)) (keep_share_grease group found)
    ∙ shares_loop-extension (suc f) 0x11ec hybrid last found (omega arith)
        (omega (arith, length-append mlkem_ek x25519_pub, x, m))
    ∙ shares_loop-extension f 0x001d x25519_pub [] (keep_share 0x11ec hybrid found) (omega arith)
        (omega (arith, x))
    ∙ shares_loop-nil f (keep_share 0x001d x25519_pub (keep_share 0x11ec hybrid found))
    ∙ ap done (keep_share_hybrid x25519_pub mlkem_ek found x m)

pub length-key_share_entries :
    (group : ℕ) (x25519_pub mlkem_ek : List ℕ)
    → 32 ≡ length x25519_pub
    → 1184 ≡ length mlkem_ek
    → length (key_share_entries group x25519_pub mlkem_ek) ≡ 1261
unfolding key_share_entries
length-key_share_entries group x25519_pub mlkem_ek x m = omega (
  arith,
  x,
  m,
  length-append mlkem_ek (x25519_pub ++ (to_be 2 0x001d ++ (to_be 2 32 ++ x25519_pub))),
  length-append x25519_pub (to_be 2 0x001d ++ (to_be 2 32 ++ x25519_pub)),
)
