-- ===== src/Client/SplitTunnel/Tests.antt =====
-- A rule list of three lines, a merge, and the theorems at them.
use leshiy.Prelude.{
  ℕ, ◌-◌, ◌≡◌, ◌⊎◌, refl, ◌||◌, Option, none, some, List, [], ◌∷◌, All, ◌==◌, leb, ◌&&◌,
  if◌then◌else◌,
}
use leshiy.Prelude.Net.{v4, same_bytes}
use leshiy.Client.SplitTunnel.{
  SplitTunnel, SplitCidr, SplitPlan, RuleSet, Text, IsValid, include, exclude, same_cidr, contains,
  merge, from_manual, parse_lines, rules_of, rule_of, token_rule, looks_like_domain, any_char,
  cidr_from_str, cidr_of_parts, host_cidr, split_once, strip_comment, trim, trim_start, trim_end,
  split_whitespace,
}
use leshiy.Client.SplitTunnel.Parse.{HasBad, Reads, IsDomain, parse_lines_lem}
use leshiy.Client.SplitTunnel.Merge.{side, IsDistinct, merge_union}

-- One address and the prefixes of one digit.
abbrev digit : List ℕ → Option ℕ
digit (c ∷ []) = if leb b'0' c && leb c b'9' then some (c - b'0') else none
digit s = none

abbrev std : Text
std = record {
  parse_ip = λ s. if same_bytes s (b'9' ∷ []) then some (v4 (9 ∷ 9 ∷ 9 ∷ 9 ∷ [])) else none;
  parse_u8 = digit;
  is_space = λ c. c == b' ';
}

-- "a.b #x", " 9/8", "".
abbrev lines : List (List ℕ)
lines = (b'a' ∷ b'.' ∷ b'b' ∷ b' ' ∷ b'#' ∷ b'x' ∷ []) ∷ (b' ' ∷ b'9' ∷ b'/' ∷ b'8' ∷ []) ∷ [] ∷ []

lines_parsed :
    parse_lines std exclude lines
    ≡ some (record {
      mode = exclude;
      cidrs = record { addr = v4 (9 ∷ 9 ∷ 9 ∷ 9 ∷ []); prefix = 8 } ∷ [];
      domains = (b'a' ∷ b'.' ∷ b'b' ∷ []) ∷ [];
    })
unfolding parse_lines rules_of rule_of token_rule looks_like_domain any_char cidr_from_str
    cidr_of_parts host_cidr split_once strip_comment trim trim_start trim_end split_whitespace
    same_bytes
lines_parsed = refl

parse_lines_lem_example :
    HasBad std lines × (parse_lines std exclude lines ≡ none)
    ⊎ (¬ HasBad std lines)
      × ((r : SplitTunnel) × (parse_lines std exclude lines ≡ some r)
          × (r.mode ≡ exclude)
          × Reads std lines r.cidrs r.domains
          × All IsValid r.cidrs
          × All (IsDomain std) r.domains)
parse_lines_lem_example = parse_lines_lem std exclude lines

abbrev ten : SplitCidr
ten = record { addr = v4 (10 ∷ 0 ∷ 0 ∷ 0 ∷ []); prefix = 8 }

abbrev subscription : RuleSet
subscription = record { cidrs = ten ∷ ten ∷ []; domains = [] }

abbrev manual : SplitPlan
manual = from_manual (record { mode = exclude; cidrs = ten ∷ []; domains = [] })

merge_union_example :
    let q = merge manual include subscription in
    IsDistinct (side include q)
    × (contains same_cidr (side include q).cidrs ten ≡ (
        contains same_cidr (side include manual).cidrs ten
        || contains same_cidr subscription.cidrs ten))
    × (contains same_bytes (side include q).domains [] ≡ (
        contains same_bytes (side include manual).domains []
        || contains same_bytes subscription.domains []))
    × (side exclude q ≡ side exclude manual)
    × (q.base_mode ≡ manual.base_mode)
unfolding from_manual
merge_union_example = merge_union manual include subscription ten [] (refl, refl)
