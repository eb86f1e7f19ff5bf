-- ===== src/Policy/Isolation.antt =====
-- What policy/model.rs grants: the allow-graph behind `can_see`, the bootstrap policy, and tenant
-- isolation under a policy that `validate` accepts.
use mathlib.Core.List.Memᴰ
use tabbify_service_mesh.Shared.{
  Bool-cases, Option-cases, ◌==◌, nat_eq, list_beq_iff, list_eq, option_eq, pair_eq, Text, any,
  select, find_first, contains, any-mem, any_of_mem, select-mem, mem-select, find_first-none, ◌≡◌,
  refl, sym, subst, ◌↔◌, ◌⊎◌, inl, inr, true, false, ◌&&◌, ◌||◌, none, List, [], ◌∷◌, Memᴰ, arith,
}
use tabbify_service_mesh.Policy.Matching.{Matches, tag_matches-Matches}
use tabbify_service_mesh.Policy.{
  tag_net_prefix, tag_system, star, accept_action, AclRule, is_accept, Policy, bootstrap,
  strip_star, starts_with, tag_matches, pattern_matches, tags_match_any, allows_directed, can_see,
  is_cross_tenant_glob_source, validate_rules, validate,
}

-- A list of patterns fits a node: one of them is a lone star, or matches one of its tags.
abbrev pub Fits : (patterns tags : List Text) → Type 0
Fits patterns tags =
    (pattern : Text) × Memᴰ pattern patterns
    × ((pattern ≡ star) ⊎ ((tag : Text) × Memᴰ tag tags × Matches pattern tag))

tags_match_any-Fits :
    (patterns tags : List Text) → (tags_match_any patterns tags ≡ true) ↔ Fits patterns tags
unfolding tags_match_any pattern_matches
tags_match_any-Fits patterns tags = (
  λ h.
      let (pattern, m, hit) = any-mem (pattern_matches tags) patterns h in
      (
        pattern,
        m,
        elim (Bool-cases (pattern == star)) [
          | inl e ↦ inl ((list_beq_iff pattern star).0 e)
          | inr e ↦
              let (tag, k, match_) = any-mem (tag_matches pattern) tags (ground arith) in
              inr (tag, k, (tag_matches-Matches pattern tag).0 match_)
        ],
      ),
  λ (pattern, m, how). any_of_mem (pattern_matches tags) m (hits pattern how),
)
  where
    hits :
        (pattern : Text)
        → (pattern ≡ star) ⊎ ((tag : Text) × Memᴰ tag tags × Matches pattern tag)
        → pattern_matches tags pattern ≡ true
    hits pattern (inl e) = ground (arith, list_beq_iff pattern star)
    hits pattern (inr (tag, k, match_)) =
        let some_tag =
          any_of_mem (tag_matches pattern) k ((tag_matches-Matches pattern tag).1 match_) in
        ground arith

-- One rule that lets a node with tags `a` reach a node with tags `b`.
abbrev pub Edge : Policy → List Text → List Text → Type 0
Edge p a b =
    (rule : AclRule) × Memᴰ rule p.acls
    × (is_accept rule ≡ true)
    × (tags_match_any rule.src a ≡ true)
    × (tags_match_any rule.dst b ≡ true)

pub allows_directed-Edge :
    (p : Policy) (a b : List Text) → (allows_directed p a b ≡ true) ↔ Edge p a b
unfolding allows_directed
allows_directed-Edge p a b = (
  λ h.
      let (rule, m, q) = any-mem _ (select is_accept p.acls) h in
      let (n, acc) = select-mem is_accept p.acls m in (rule, n, acc, ground arith, ground arith),
  λ (rule, m, acc, s, d). any_of_mem _ (mem-select is_accept m acc) (ground arith),
)

-- A rule whose action is `accept`, whose source fits a node with tags `a` and whose destination fits a
-- node with tags `b`.
abbrev pub Allows : Policy → (a b : List Text) → Type 0
Allows p a b =
    (rule : AclRule) × Memᴰ rule p.acls
    × (rule.action ≡ accept_action)
    × Fits rule.src a
    × Fits rule.dst b

accepts : (rule : AclRule) → (is_accept rule ≡ true) ↔ (rule.action ≡ accept_action)
unfolding is_accept
accepts rule = list_beq_iff rule.action accept_action

Edge-Allows : (p : Policy) (a b : List Text) → Edge p a b ↔ Allows p a b
Edge-Allows p a b = (
  λ (rule, m, acc, s, d). (
    rule,
    m,
    (accepts rule).0 acc,
    (tags_match_any-Fits rule.src a).0 s,
    (tags_match_any-Fits rule.dst b).0 d,
  ),
  λ (rule, m, acc, s, d). (
    rule,
    m,
    (accepts rule).1 acc,
    (tags_match_any-Fits rule.src a).1 s,
    (tags_match_any-Fits rule.dst b).1 d,
  ),
)

can_see-Edge : (p : Policy) (a b : List Text) → (can_see p a b ≡ true) ↔ (Edge p a b ⊎ Edge p b a)
unfolding can_see
can_see-Edge p a b = (
  λ h. elim (Bool-cases (allows_directed p a b)) [
    | inl e ↦ inl ((allows_directed-Edge p a b).0 e)
    | inr e ↦ inr ((allows_directed-Edge p b a).0 (ground arith))
  ],
  λ h. elim h [
    | inl e ↦ let q = (allows_directed-Edge p a b).1 e in ground arith
    | inr e ↦ let q = (allows_directed-Edge p b a).1 e in ground arith
  ],
)

-- Two nodes see each other exactly when the policy has a rule with the action `accept` whose source
-- fits one of them and whose destination fits the other. A list of patterns fits a node if it has a
-- lone star, or a pattern that matches one of the node's tags: by being that tag and ending in no star,
-- or by being a prefix of the tag followed by a star.
pub can_see-Allows :
    (p : Policy) (a b : List Text) → (can_see p a b ≡ true) ↔ (Allows p a b ⊎ Allows p b a)
can_see-Allows p a b = (
  λ h. elim ((can_see-Edge p a b).0 h) [
    | inl e ↦ inl ((Edge-Allows p a b).0 e)
    | inr e ↦ inr ((Edge-Allows p b a).0 e)
  ],
  λ h. elim h [
    | inl e ↦ (can_see-Edge p a b).1 (inl ((Edge-Allows p a b).1 e))
    | inr e ↦ (can_see-Edge p a b).1 (inr ((Edge-Allows p b a).1 e))
  ],
)

pub can_see_comm : (p : Policy) (a b : List Text) → can_see p a b ≡ can_see p b a
unfolding can_see
can_see_comm p a b = ground arith

literal_match :
    (tags : List Text) (t : Text)
    → strip_star t ≡ none
    → (t == star) ≡ false
    → any (tag_matches t) tags ≡ contains tags t
unfolding tag_matches
literal_match [] t e s = refl
literal_match (x ∷ xs) t e s =
    ground (arith, e, literal_match xs t e s, list_beq_iff t x, list_beq_iff x t)

-- Under the bootstrap policy two nodes see each other exactly when both wear `tag:system`.
pub can_see-bootstrap :
    (a b : List Text) → can_see bootstrap a b ≡ (contains a tag_system && contains b tag_system)
unfolding can_see bootstrap
can_see-bootstrap a b =
    let s : any (tag_matches tag_system) a ≡ contains a tag_system =
      literal_match a tag_system strip refl in
    let t : any (tag_matches tag_system) b ≡ contains b tag_system =
      literal_match b tag_system strip refl in
    ground arith
  where
    strip : strip_star tag_system ≡ none
    strip = refl

starts_with-comparable :
    (s p q : Text)
    → starts_with s p ≡ true
    → starts_with s q ≡ true
    → (starts_with q p || starts_with p q) ≡ true
unfolding starts_with
starts_with-comparable s [] q h k = ground arith
starts_with-comparable s (x ∷ p) [] h k = ground arith
starts_with-comparable [] (x ∷ p) (y ∷ q) h k = absurd (ground arith)
starts_with-comparable (c ∷ s) (x ∷ p) (y ∷ q) h k = ground (arith, starts_with-comparable s p q)

-- A tag of a tenant network.
abbrev pub IsTenant : Text → Type 0
IsTenant tag = starts_with tag tag_net_prefix ≡ true

-- A source pattern that `validate` lets pass matches a tenant tag only by naming it: it reaches at
-- most one tenant.
pub tag_matches-tenant :
    (pattern tag : Text)
    → is_cross_tenant_glob_source pattern ≡ false
    → IsTenant tag
    → tag_matches pattern tag ≡ true
    → pattern ≡ tag
unfolding is_cross_tenant_glob_source tag_matches
tag_matches-tenant pattern tag legal tenant h = elim (Option-cases (strip_star pattern)) [
  | inl e ↦ ground (arith, list_beq_iff pattern tag)
  | inr (prefix, e) ↦ absurd (ground (arith, starts_with-comparable tag prefix tag_net_prefix))
]

validate_rules-none :
    (rules : List AclRule)
    → validate_rules rules ≡ none
    → {rule : AclRule} → Memᴰ rule rules
    → {pattern : Text} → Memᴰ pattern rule.src
    → is_cross_tenant_glob_source pattern ≡ false
unfolding validate_rules
validate_rules-none [] h m q = absurd (Memᴰ.not-nil m)
validate_rules-none (r ∷ rules) h {rule} (Memᴰ.head e) q =
    find_first-none is_cross_tenant_glob_source q
      (subst (λ z. find_first is_cross_tenant_glob_source z.src ≡ none) (sym e) first)
  where
    first : find_first is_cross_tenant_glob_source r.src ≡ none
    first = ground arith
validate_rules-none (r ∷ rules) h {rule} (Memᴰ.tail m) q =
    validate_rules-none rules (ground arith) m q

-- A node all of whose tags are tenant tags.
abbrev pub Tenants : List Text → Type 0
Tenants [] = Unit {0}
Tenants (t ∷ ts) = IsTenant t × Tenants ts

Tenants-mem : {t : Text} (ts : List Text) → Tenants ts → Memᴰ t ts → IsTenant t
Tenants-mem [] h m = absurd (Memᴰ.not-nil m)
Tenants-mem (x ∷ ts) h (Memᴰ.head e) = subst IsTenant (sym e) h.0
Tenants-mem (x ∷ ts) h (Memᴰ.tail m) = Tenants-mem ts h.1 m

-- An accept rule whose source list holds, letter for letter, a tag of `a`, and whose destination list
-- fits `b`.
abbrev pub NamedEdge : Policy → List Text → List Text → Type 0
NamedEdge p a b =
    (rule : AclRule) × Memᴰ rule p.acls
    × (rule.action ≡ accept_action)
    × (tag : Text) × Memᴰ tag rule.src
    × Memᴰ tag a
    × Fits rule.dst b

star_refused :
    (pattern : Text) → (pattern == star) ≡ true → ¬ (is_cross_tenant_glob_source pattern ≡ false)
unfolding is_cross_tenant_glob_source
star_refused pattern e legal = ground arith

named_edge :
    (p : Policy) (a b : List Text) → validate p ≡ none → Tenants a → Edge p a b → NamedEdge p a b
unfolding validate tags_match_any pattern_matches
named_edge p a b valid tenants (rule, m, acc, s, d) =
    let (pattern, n, hit) = any-mem (pattern_matches a) rule.src s in
    let legal : is_cross_tenant_glob_source pattern ≡ false =
      validate_rules-none p.acls valid m n in
    let (tag, k, match_) = any-mem (tag_matches pattern) a (not_star pattern legal hit) in
    let same = tag_matches-tenant pattern tag legal (Tenants-mem a tenants k) match_ in
    (
      rule,
      m,
      (accepts rule).0 acc,
      tag,
      subst (λ z. Memᴰ z rule.src) same n,
      k,
      (tags_match_any-Fits rule.dst b).0 d,
    )
  where
    not_star :
        (pattern : Text)
        → is_cross_tenant_glob_source pattern ≡ false
        → pattern_matches a pattern ≡ true
        → any (tag_matches pattern) a ≡ true
    not_star pattern legal hit = elim (Bool-cases (pattern == star)) [
      | inl e ↦ absurd (star_refused pattern e legal)
      | inr e ↦ ground arith
    ]

-- Under a policy that `validate` accepts, two nodes that wear tenant tags alone see each other only
-- by an accept rule whose source list names, letter for letter, a tag of one of them, and whose
-- destination list fits the other. A wildcard as the source never joins them; the destination may be
-- one.
pub can_see-NamedEdge :
    (p : Policy) (a b : List Text)
    → validate p ≡ none
    → Tenants a
    → Tenants b
    → can_see p a b ≡ true
    → NamedEdge p a b ⊎ NamedEdge p b a
can_see-NamedEdge p a b valid ta tb h = elim ((can_see-Edge p a b).0 h) [
  | inl e ↦ inl (named_edge p a b valid ta e)
  | inr e ↦ inr (named_edge p b a valid tb e)
]
