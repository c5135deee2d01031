-- ===== src/Client/SplitTunnel/Parse.antt =====
-- What the parsers of rule lists let through.
use leshiy.Prelude.{
  ℕ, ◌≡◌, ◌⊎◌, ◌++◌, inl, inr, refl, subst, true, false, Bool-cases, Option, Option-cases, none,
  some, List, [], ◌∷◌, All, arith,
}
use leshiy.Prelude.Net.{IpAddr}
use leshiy.Client.SplitTunnel.{
  SplitMode, SplitTunnel, SplitCidr, IsValid, Text, Rule, blank, bad, domain, network, is_nil,
  add_rule, rule_of, rules_of, parse_lines, looks_like_domain, cidr_from_str, cidr_of_parts,
  host_cidr, split_once, strip_comment, trim, split_whitespace, first_or, token_rule, width,
  parsed_prefix,
}

module _ (t : Text) where
  abbrev pub IsDomain : List ℕ → Type 0
  IsDomain d = looks_like_domain t d ≡ true

  parsed_prefix-IsValid :
      (addr : IpAddr) (o : Option ℕ) (c : SplitCidr) → parsed_prefix addr o ≡ some c → IsValid c
  parsed_prefix-IsValid addr none c e = cc
  parsed_prefix-IsValid addr (some prefix) c e = ground arith

  cidr_of_parts-IsValid : (a p : List ℕ) (c : SplitCidr) → cidr_of_parts t a p ≡ some c → IsValid c
  unfolding cidr_of_parts
  cidr_of_parts-IsValid a p c e = elim (Option-cases (t.parse_ip (trim t a))) [
    | inl absent ↦ cc (rw (absent, cidr_of_parts) at e)
    | inr (addr, found) ↦
        parsed_prefix-IsValid addr (t.parse_u8 (trim t p)) c (rw (found, cidr_of_parts) at e)
  ]

  host_cidr-IsValid : (s : List ℕ) (c : SplitCidr) → host_cidr t s ≡ some c → IsValid c
  unfolding host_cidr
  host_cidr-IsValid s c e = elim (Option-cases (t.parse_ip s)) [
    | inl absent ↦ cc (rw (absent, host_cidr) at e)
    | inr (addr, found) ↦
        let same : some (record { addr = addr; prefix = width addr }) ≡ some c =
          rw (found, host_cidr) at e in
        ground (arith, same)
  ]

  cidr_from_str-IsValid : (s : List ℕ) (c : SplitCidr) → cidr_from_str t s ≡ some c → IsValid c
  unfolding cidr_from_str
  cidr_from_str-IsValid s c e = elim (Option-cases (split_once b'/' (trim t s))) [
    | inl absent ↦ host_cidr-IsValid (trim t s) c (rw (absent, cidr_from_str) at e)
    | inr ((a, p), found) ↦ cidr_of_parts-IsValid a p c (rw (found, cidr_from_str) at e)
  ]

  -- A line without its comment and surrounding white space, and its first word.
  abbrev line_of : List ℕ → List ℕ
  line_of raw = trim t (strip_comment raw)

  abbrev token_of : List ℕ → List ℕ
  token_of raw = first_or (line_of raw) (split_whitespace t (line_of raw))

  -- A line that has a word which is neither a domain nor a network.
  pub record IsBad (raw : List ℕ) : Type 0 where
    pub has_text : is_nil (line_of raw) ≡ false
    pub no_domain : looks_like_domain t (token_of raw) ≡ false
    pub no_network : cidr_from_str t (token_of raw) ≡ none

  -- What a sound line means: nothing, its word as a domain, or its word as a network.
  pub data Means (raw : List ℕ) : List SplitCidr → List (List ℕ) → Type 0 where
    nothing : is_nil (line_of raw) ≡ true → Means raw [] []
    a_domain :
        is_nil (line_of raw) ≡ false
        → looks_like_domain t (token_of raw) ≡ true
        → Means raw [] (token_of raw ∷ [])
    a_network :
        (c : SplitCidr)
        → is_nil (line_of raw) ≡ false
        → looks_like_domain t (token_of raw) ≡ false
        → cidr_from_str t (token_of raw) ≡ some c
        → Means raw (c ∷ []) []

  pub data HasBad : List (List ℕ) → Type 0 where
    here : (raw : List ℕ) (lines : List (List ℕ)) → IsBad raw → HasBad (raw ∷ lines)
    there : (raw : List ℕ) (lines : List (List ℕ)) → HasBad lines → HasBad (raw ∷ lines)

  -- The networks and the domains of the lines, in their order.
  pub data Reads : List (List ℕ) → List SplitCidr → List (List ℕ) → Type 0 where
    done : Reads [] [] []
    line :
        (raw : List ℕ) (lines : List (List ℕ)) (cs cidrs : List SplitCidr)
        (ds domains : List (List ℕ))
        → Means raw cs ds
        → Reads lines cidrs domains
        → Reads (raw ∷ lines) (cs ++ cidrs) (ds ++ domains)

  Means-sound :
      (raw : List ℕ) (cs : List SplitCidr) (ds : List (List ℕ)) → Means raw cs ds → ¬ IsBad raw
  Means-sound raw cs ds (nothing empty) b = cc (empty, b.has_text)
  Means-sound raw cs ds (a_domain full named) b = cc (named, b.no_domain)
  Means-sound raw cs ds (a_network c full other found) b = cc (found, b.no_network)

  Reads-sound :
      (lines : List (List ℕ)) (cidrs : List SplitCidr) (domains : List (List ℕ))
      → Reads lines cidrs domains
      → ¬ HasBad lines
  Reads-sound lines cidrs domains (line raw rest cs cidrs' ds domains' m r) (here raw' rest' b) =
      Means-sound raw cs ds m b
  Reads-sound lines cidrs domains (line raw rest cs cidrs' ds domains' m r) (there raw' rest' b) =
      Reads-sound rest cidrs' domains' r b
  Reads-sound lines cidrs domains done b = elim b [ ]

  -- What the code's rule of a line says of it.
  abbrev Says : List ℕ → Rule → Type 0
  Says raw blank = is_nil (line_of raw) ≡ true
  Says raw bad = IsBad raw
  Says raw (domain d) =
      (is_nil (line_of raw) ≡ false)
      × (looks_like_domain t (token_of raw) ≡ true)
      × (token_of raw ≡ d)
  Says raw (network c) =
      (is_nil (line_of raw) ≡ false)
      × (looks_like_domain t (token_of raw) ≡ false)
      × (cidr_from_str t (token_of raw) ≡ some c)

  token_rule-Says :
      (raw : List ℕ) → is_nil (line_of raw) ≡ false → Says raw (token_rule t (token_of raw))
  unfolding token_rule
  token_rule-Says raw full = elim (Bool-cases (looks_like_domain t (token_of raw))) [
    | inl named ↦ rw named (full, named, refl)
    | inr other ↦ elim (Option-cases (cidr_from_str t (token_of raw))) [
      | inl absent ↦
          rw (other, absent) (record { has_text = full; no_domain = other; no_network = absent })
      | inr (c, found) ↦ rw (other, found) (full, other, found)
    ]
  ]

  rule_of-Says : (raw : List ℕ) → Says raw (rule_of t raw)
  unfolding rule_of
  rule_of-Says raw = elim (Bool-cases (is_nil (line_of raw))) [
    | inl empty ↦ rw empty empty
    | inr full ↦ rw full (token_rule-Says raw full)
  ]

  -- The outcome for some lines: a bad one, or a reading of all of them.
  abbrev Explains : List (List ℕ) → Option (List SplitCidr × List (List ℕ)) → Type 0
  Explains lines none = HasBad lines
  Explains lines (some r) = Reads lines r.0 r.1 × All IsValid r.0 × All IsDomain r.1

  add_rule-Explains :
      (raw : List ℕ) (lines : List (List ℕ)) (r : Rule)
      (o : Option (List SplitCidr × List (List ℕ)))
      → Says raw r
      → Explains lines o
      → Explains (raw ∷ lines) (add_rule r o)
  add_rule-Explains raw lines blank none g h = there raw lines h
  add_rule-Explains raw lines blank (some r) g h =
      (line raw lines [] r.0 [] r.1 (nothing g) h.0, h.1, h.2)
  add_rule-Explains raw lines bad o g h = here raw lines g
  add_rule-Explains raw lines (domain d) none g h = there raw lines h
  add_rule-Explains raw lines (domain d) (some r) g h = (
    subst (λ (x : List ℕ). Reads (raw ∷ lines) r.0 (x ∷ r.1)) g.2
        (line raw lines [] r.0 (token_of raw ∷ []) r.1 (a_domain g.0 g.1) h.0),
    h.1,
    (subst IsDomain g.2 g.1, h.2),
  )
  add_rule-Explains raw lines (network c) none g h = there raw lines h
  add_rule-Explains raw lines (network c) (some r) g h = (
    line raw lines (c ∷ []) r.0 [] r.1 (a_network c g.0 g.1 g.2) h.0,
    (cidr_from_str-IsValid (token_of raw) c g.2, h.1),
    h.2,
  )

  rules_of-Explains : (lines : List (List ℕ)) → Explains lines (rules_of t lines)
  unfolding rules_of
  rules_of-Explains [] = (done, tt, tt)
  rules_of-Explains (raw ∷ lines) =
      add_rule-Explains raw lines (rule_of t raw) (rules_of t lines) (rule_of-Says raw)
        (rules_of-Explains lines)

  -- A rule list is refused if and only if one of its lines, after its comment is cut off and white
  -- space is trimmed, has a first word that is neither a domain nor a network. Otherwise the rules
  -- are the words of the other lines, in their order, none left out; every network's prefix is
  -- within its address family, and the mode is the one asked for.
  pub parse_lines_lem :
      (mode : SplitMode) (lines : List (List ℕ))
      → HasBad lines × (parse_lines t mode lines ≡ none)
        ⊎ (¬ HasBad lines)
          × ((r : SplitTunnel) × (parse_lines t mode lines ≡ some r)
              × (r.mode ≡ mode)
              × Reads lines r.cidrs r.domains
              × All IsValid r.cidrs
              × All IsDomain r.domains)
  unfolding parse_lines
  parse_lines_lem mode lines = elim (Option-cases (rules_of t lines)) [
    | inl absent ↦ inl (subst (Explains lines) absent (rules_of-Explains lines), rw absent refl)
    | inr (r, found) ↦
        let good = subst (Explains lines) found (rules_of-Explains lines) in
        inr (
          Reads-sound lines r.0 r.1 good.0,
          (
            record { mode = mode; cidrs = r.0; domains = r.1 },
            rw found refl,
            refl,
            good.0,
            good.1,
            good.2,
          ),
        )
  ]
