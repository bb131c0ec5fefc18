-- ===== src/Uri.antt =====
-- include/ultranet/actor/core/actor_uri.h, and the parser of its text in
-- include/ultranet/actor/dist/serialization.h. A std::string is its list of bytes.
use ultra_net.Prelude.{
  ℕ, ◌≡◌, ◌≢◌, ◌↔◌, refl, ap, [], ◌∷◌, ◌++◌, Option, none, some, ◌==◌, if◌then◌else◌, Bytes, codes,
  drop, All, arith, Option-cases, Bool-cases, inl, inr, ◌⊎◌, subst, length, length-append, sym, ◌∙◌,
}
use ultra_net.Prelude.Decimal

pub record ActorUri : Type 0 where
  pub node : Bytes
  pub type : Bytes
  pub name : Bytes

pub make_local : Bytes → Bytes → ActorUri
make_local type name = record { node = codes "*"; type = type; name = name }

pub make : ℕ → Bytes → Bytes → ActorUri
make node_id type name = record { node = Decimal.to_string node_id; type = type; name = name }

unfoldable pub to_string : ActorUri → Bytes
to_string u = codes "ultra://" ++ (u.node ++ b'/' ∷ (u.type ++ b'/' ∷ u.name))

-- `find('/')`: the bytes before the first slash, and those behind it.
unfoldable pub split_slash : Bytes → Option (Bytes × Bytes)
split_slash [] = none
split_slash (c ∷ s) =
    if c == b'/'
    then some ([], s)
    else elim (split_slash s) [ none ↦ none | some (l, r) ↦ some (c ∷ l, r) ]

abbrev unparsed : Bytes → ActorUri
unparsed s = record { node = codes "*"; type = s; name = [] }

unfoldable pub parse_uri_from_wire : Bytes → ActorUri
parse_uri_from_wire s = elim (split_slash (drop 8 s)) [
  | none ↦ unparsed s
  | some (node, r) ↦ elim (split_slash r) [
    | none ↦ unparsed s
    | some (type, name) ↦ record { node = node; type = type; name = name }
  ]
]

abbrev pub NoSlash : Bytes → Type 0
NoSlash = All (λ c. c ≢ b'/')

split_slash-append : (s t : Bytes) → NoSlash s → split_slash (s ++ b'/' ∷ t) ≡ some (s, t)
unfolding split_slash
split_slash-append [] t h = refl
split_slash-append (c ∷ s) t (h, hs) = ground (arith, split_slash-append s t hs)

split_slash-NoSlash : (s : Bytes) {l r : Bytes} → split_slash s ≡ some (l, r) → NoSlash l
unfolding split_slash
split_slash-NoSlash [] h = cc
split_slash-NoSlash (c ∷ s) {l} {r} h = elim (Bool-cases (c == b'/')) [
  | inl slash ↦ subst NoSlash {x = []} (ground arith) tt
  | inr other ↦ elim (Option-cases (split_slash s)) [
    | inl e ↦ absurd (ground arith)
    | inr ((k, q), e) ↦
        subst NoSlash {x = c ∷ k} (ground arith) (ground arith, split_slash-NoSlash s e)
  ]
]

not_unparsed : (u : ActorUri) → unparsed (to_string u) ≢ u
unfolding to_string
not_unparsed u h =
    let e = ap (λ (v : ActorUri). length v.type) h in
    omega (
      arith,
      e,
      length-append (codes "ultra://") (u.node ++ b'/' ∷ (u.type ++ b'/' ∷ u.name)),
      length-append u.node (b'/' ∷ (u.type ++ b'/' ∷ u.name)),
      length-append u.type (b'/' ∷ u.name),
    )

-- What the parser returns is the whole text as a type, or has no slash in its node and its type.
parsed_cases :
    (s : Bytes)
    → (parse_uri_from_wire s ≡ unparsed s)
      ⊎ (NoSlash (parse_uri_from_wire s).node × NoSlash (parse_uri_from_wire s).type)
unfolding parse_uri_from_wire
parsed_cases s = elim (Option-cases (split_slash (drop 8 s))) [
  | inl e ↦ inl (ground arith)
  | inr ((node, r), e) ↦ elim (Option-cases (split_slash r)) [
    | inl k ↦ inl (ground arith)
    | inr ((type, name), k) ↦ inr (
      subst NoSlash {x = node} (ground arith) (split_slash-NoSlash _ e),
      subst NoSlash {x = type} (ground arith) (split_slash-NoSlash r k),
    )
  ]
]

parsed_back :
    (u : ActorUri) → NoSlash u.node → NoSlash u.type → parse_uri_from_wire (to_string u) ≡ u
unfolding parse_uri_from_wire to_string
parsed_back u n t = ground (
  arith,
  split_slash-append u.node (u.type ++ b'/' ∷ u.name) n,
  split_slash-append u.type u.name t,
)

-- The text of a URI is parsed back to it exactly if neither the node nor the type holds a slash.
pub parse_uri_from_wire-to_string :
    (u : ActorUri) → (parse_uri_from_wire (to_string u) ≡ u) ↔ (NoSlash u.node × NoSlash u.type)
parse_uri_from_wire-to_string u = (
  λ h. elim (parsed_cases (to_string u)) [
    | inl e ↦ absurd (not_unparsed u (sym e ∙ h))
    | inr (n, t) ↦ (subst (λ v. NoSlash v.node) h n, subst (λ v. NoSlash v.type) h t)
  ],
  λ (n, t). parsed_back u n t,
)
