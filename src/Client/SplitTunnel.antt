-- ===== src/Client/SplitTunnel.antt =====
-- crates/leshiy-client/src/split_tunnel.rs: the split-tunnel rules and the plan made of them. A text
-- is the list of its characters; the parsers of addresses and small numbers and the class of
-- white-space characters, which the standard library provides, are parameters.
pub mod Parse
pub mod Merge
mod Tests
use leshiy.Prelude.{
  ℕ, suc, ◌≤◌, Bool, true, false, not, ◌&&◌, ◌||◌, Option, none, some, List, [], ◌∷◌, ◌++◌, leb,
  ltb, ◌==◌, if◌then◌else◌,
}
use leshiy.Prelude.Net.{IpAddr, is_ipv4, same_bytes, same_addr}

pub data SplitMode : Type 0 where
  exclude include : SplitMode

pub record SplitCidr : Type 0 where
  pub addr : IpAddr
  pub prefix : ℕ

-- The bits of an address of the family.
abbrev pub width : IpAddr → ℕ
width addr = if is_ipv4 addr then 32 else 128

abbrev pub IsValid : SplitCidr → Type 0
IsValid c = c.prefix ≤ width c.addr

abbrev pub same_cidr : SplitCidr → SplitCidr → Bool
same_cidr a b = same_addr a.addr b.addr && a.prefix == b.prefix

pub record SplitTunnel : Type 0 where
  pub mode : SplitMode
  pub cidrs : List SplitCidr
  pub domains : List (List ℕ)

pub record RuleSet : Type 0 where
  pub cidrs : List SplitCidr
  pub domains : List (List ℕ)

abbrev pub no_rules : RuleSet
no_rules = record { cidrs = []; domains = [] }

abbrev pub is_nil {ℓ} : {A : Type ℓ} → List A → Bool
is_nil [] = true
is_nil (x ∷ xs) = false

abbrev pub is_empty : RuleSet → Bool
is_empty r = is_nil r.cidrs && is_nil r.domains

-- `contains`, by the equality test of the elements.
unfoldable pub contains {ℓ} : {A : Type ℓ} → (A → A → Bool) → List A → A → Bool
contains same [] a = false
contains same (x ∷ xs) a = let rest = contains same xs a in same x a || rest

unfoldable pub push_new {ℓ} : {A : Type ℓ} → (A → A → Bool) → List A → List A → List A
push_new same known [] = known
push_new same known (x ∷ xs) =
    push_new same (if not (contains same known x) then known ++ (x ∷ []) else known) xs

unfoldable pub extend : RuleSet → RuleSet → RuleSet
extend r other = record {
  cidrs = push_new same_cidr r.cidrs other.cidrs;
  domains = push_new same_bytes r.domains other.domains;
}

pub record SplitPlan : Type 0 where
  pub base_mode : SplitMode
  pub include_rules : RuleSet
  pub exclude_rules : RuleSet

plan_of : SplitMode → RuleSet → SplitPlan
plan_of exclude set = record { base_mode = exclude; exclude_rules = set; include_rules = no_rules }
plan_of include set = record { base_mode = include; include_rules = set; exclude_rules = no_rules }

unfoldable pub from_manual : SplitTunnel → SplitPlan
unfolding plan_of
from_manual manual = plan_of manual.mode (record { cidrs = manual.cidrs; domains = manual.domains })

unfoldable pub merge : SplitPlan → SplitMode → RuleSet → SplitPlan
merge p include rules = record p { include_rules = extend p.include_rules rules }
merge p exclude rules = record p { exclude_rules = extend p.exclude_rules rules }

abbrev pub effective_at : SplitMode → SplitPlan → RuleSet × RuleSet
effective_at exclude p =
    if is_empty p.exclude_rules then (no_rules, no_rules) else (p.include_rules, p.exclude_rules)
effective_at include p =
    if is_empty p.include_rules then (no_rules, no_rules) else (p.include_rules, p.exclude_rules)

-- The include and the exclude rules that can affect routing.
unfoldable pub effective : SplitPlan → RuleSet × RuleSet
effective p = effective_at p.base_mode p

-- What the standard library gives.
pub record Text : Type 0 where
  pub parse_ip : List ℕ → Option IpAddr
  pub parse_u8 : List ℕ → Option ℕ
  pub is_space : ℕ → Bool

-- The parts before and after the first occurrence of a character.
unfoldable pub split_once : ℕ → List ℕ → Option (List ℕ × List ℕ)
split_once c [] = none
split_once c (x ∷ xs) =
    let later = split_once c xs in
    if x == c
    then some ([], xs)
    else elim later [ none ↦ none | some (before, after) ↦ some (x ∷ before, after) ]

unfoldable pub strip_comment : List ℕ → List ℕ
strip_comment line = elim (split_once b'#' line) [ none ↦ line | some (before, _) ↦ before ]

abbrev pub parsed_prefix : IpAddr → Option ℕ → Option SplitCidr
parsed_prefix addr none = none
parsed_prefix addr (some prefix) =
    if ltb (width addr) prefix then none else some (record { addr = addr; prefix = prefix })

unfoldable pub any_char : (ℕ → Bool) → List ℕ → Bool
any_char p [] = false
any_char p (x ∷ xs) = let rest = any_char p xs in p x || rest

abbrev pub is_ascii_alphabetic : ℕ → Bool
is_ascii_alphabetic c = (leb b'a' c && leb c b'z') || (leb b'A' c && leb c b'Z')

abbrev pub directive_domain : List ℕ
directive_domain = b'd' ∷ b'o' ∷ b'm' ∷ b'a' ∷ b'i' ∷ b'n' ∷ []

abbrev pub directive_full : List ℕ
directive_full = b'f' ∷ b'u' ∷ b'l' ∷ b'l' ∷ []

-- What one line gives: nothing, the error, a domain, or a network.
pub data Rule : Type 0 where
  blank bad : Rule
  domain : List ℕ → Rule
  network : SplitCidr → Rule

abbrev pub network_or_bad : Option SplitCidr → Rule
network_or_bad none = bad
network_or_bad (some c) = network c

abbrev pub first_or : List ℕ → List (List ℕ) → List ℕ
first_or line [] = line
first_or line (w ∷ ws) = w

-- One line's rule put in front of what the later lines give.
abbrev pub add_rule :
    Rule → Option (List SplitCidr × List (List ℕ)) → Option (List SplitCidr × List (List ℕ))
add_rule blank later = later
add_rule bad later = none
add_rule (domain d) none = none
add_rule (domain d) (some (cidrs, domains)) = some (cidrs, d ∷ domains)
add_rule (network c) none = none
add_rule (network c) (some (cidrs, domains)) = some (c ∷ cidrs, domains)

abbrev pub ruleset_of : SplitMode → Option (List SplitCidr × List (List ℕ)) → Option SplitTunnel
ruleset_of mode none = none
ruleset_of mode (some (cidrs, domains)) =
    some (record { mode = mode; cidrs = cidrs; domains = domains })

module _ (t : Text) where
  -- `trim_start`, and the end by way of the reversed text.
  unfoldable pub trim_start : List ℕ → List ℕ
  trim_start [] = []
  trim_start (x ∷ xs) = let rest = trim_start xs in if t.is_space x then rest else x ∷ xs

  unfoldable pub trim_end : List ℕ → List ℕ
  trim_end [] = []
  trim_end (x ∷ xs) = let rest = trim_end xs in if is_nil rest && t.is_space x then [] else x ∷ rest

  unfoldable pub trim : List ℕ → List ℕ
  trim s = trim_end (trim_start s)

  -- `split_whitespace`: the words, from the last to the first by recursion.
  unfoldable pub split_whitespace : List ℕ → List (List ℕ)
  split_whitespace [] = []
  split_whitespace (x ∷ []) = if t.is_space x then [] else (x ∷ []) ∷ []
  split_whitespace (x ∷ y ∷ xs) =
      let words = split_whitespace (y ∷ xs) in
      if t.is_space x
      then words
      else if t.is_space y
      then (x ∷ []) ∷ words
      else elim words [ [] ↦ (x ∷ []) ∷ [] | w ∷ ws ↦ (x ∷ w) ∷ ws ]

  -- A parse of the address, then one of the prefix; an error is `none`.
  unfoldable pub cidr_of_parts : List ℕ → List ℕ → Option SplitCidr
  cidr_of_parts a p = elim (t.parse_ip (trim a)) [
    | none ↦ none
    | some addr ↦ parsed_prefix addr (t.parse_u8 (trim p))
  ]

  unfoldable pub host_cidr : List ℕ → Option SplitCidr
  host_cidr s = elim (t.parse_ip s) [
    | none ↦ none
    | some addr ↦ some (record { addr = addr; prefix = width addr })
  ]

  unfoldable pub cidr_from_str : List ℕ → Option SplitCidr
  cidr_from_str s = elim (split_once b'/' (trim s)) [
    | none ↦ host_cidr (trim s)
    | some (a, p) ↦ cidr_of_parts a p
  ]

  unfoldable pub looks_like_domain : List ℕ → Bool
  looks_like_domain tok = elim (t.parse_ip tok) [
    | some addr ↦ false
    | none ↦
        if any_char (λ c. c == b'/') tok
        then false
        else any_char (λ c. c == b'.') tok && any_char is_ascii_alphabetic tok
  ]

  unfoldable pub token_rule : List ℕ → Rule
  token_rule tok = if looks_like_domain tok then domain tok else network_or_bad (cidr_from_str tok)

  unfoldable pub rule_of : List ℕ → Rule
  rule_of raw =
      let line = trim (strip_comment raw) in
      let tok = first_or line (split_whitespace line) in
      if is_nil line then blank else token_rule tok

  -- The loop over the lines, which `lines` has split.
  unfoldable pub rules_of : List (List ℕ) → Option (List SplitCidr × List (List ℕ))
  rules_of [] = some ([], [])
  rules_of (raw ∷ lines) = add_rule (rule_of raw) (rules_of lines)

  unfoldable pub parse_lines : SplitMode → List (List ℕ) → Option SplitTunnel
  parse_lines mode lines = ruleset_of mode (rules_of lines)

  -- The host of a directive, or of a bare token; `none` is a line to skip.
  unfoldable pub directive_host : List ℕ → Option (List ℕ)
  directive_host tok = elim (split_once b':' tok) [
    | none ↦ some tok
    | some (word, h) ↦
        if same_bytes word directive_domain || same_bytes word directive_full then some h else none
  ]

  abbrev pub keep_domain : Option (List ℕ) → List (List ℕ)
  keep_domain none = []
  keep_domain (some host) = if looks_like_domain host then host ∷ [] else []

  unfoldable pub list_domains : List (List ℕ) → List (List ℕ)
  list_domains [] = []
  list_domains (raw ∷ lines) =
      let line = trim (strip_comment raw) in
      let tok = first_or line (split_whitespace line) in
      (if is_nil line then [] else keep_domain (directive_host tok)) ++ list_domains lines

  unfoldable pub parse_domain_list : SplitMode → List (List ℕ) → SplitTunnel
  parse_domain_list mode lines = record { mode = mode; cidrs = []; domains = list_domains lines }

  unfoldable pub keep_domains : List (List ℕ) → List (List ℕ)
  keep_domains [] = []
  keep_domains (host ∷ hosts) =
      let rest = keep_domains hosts in if looks_like_domain host then host ∷ rest else rest

  -- The first column, the sink, is dropped.
  abbrev pub after_sink : List (List ℕ) → List (List ℕ)
  after_sink [] = []
  after_sink (sink ∷ hosts) = hosts

  unfoldable pub host_domains : List (List ℕ) → List (List ℕ)
  host_domains [] = []
  host_domains (raw ∷ lines) =
      keep_domains (after_sink (split_whitespace (trim (strip_comment raw)))) ++ host_domains lines

  unfoldable pub parse_hosts : SplitMode → List (List ℕ) → SplitTunnel
  parse_hosts mode lines = record { mode = mode; cidrs = []; domains = host_domains lines }
