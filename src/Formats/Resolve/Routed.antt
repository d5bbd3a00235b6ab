-- ===== src/Formats/Resolve/Routed.antt =====
-- What is known of a source that got a route.
use semiconductor_agent_know.Base.{
  ℕ, ◌≤◌, String, Bool, true, false, ◌&&◌, ◌||◌, Option, none, some, List, [], ◌∷◌, ◌==◌, In, here,
  there, In-filter, all, filter, contains, is_empty, length, ltb, ◌≡◌, ◌≢◌, ◌⊎◌, ap, sym, ◌∙◌,
  arith, inl, inr, Bool-cases, Option-cases, string_eq, option_eq, ==_iff,
}
use semiconductor_agent_know.Base.Result.{ok, Result-cases}
use semiconductor_agent_know.Formats.{
  SourceFormat, RoutingPolicy, ExtensionRule, FormatRoute, ResolvedRoute, ZipInfo, format_routes,
  source_format_eq, source_format_iff,
}
use semiconductor_agent_know.Formats.Archive.{inspect_office}
use semiconductor_agent_know.Formats.Resolve.{
  detect_signature, is_generic, validate_media_type, validate_signature, has_signature, all_rules,
  indexed, is_candidate, same_kind, is_known, sole_candidate, resolve_without_extension, route_for,
  rule_fault, office_family_of, resolved, resolve,
}

indexed-In :
    (extension : String) (rules : List (FormatRoute × ExtensionRule))
    {p : FormatRoute × ExtensionRule}
    → indexed extension rules ≡ some p
    → In p rules
unfolding indexed
indexed-In extension [] h = absurd (ground arith)
indexed-In extension ((r, rule) ∷ rules) {p} h = elim (Bool-cases (rule.extension == extension)) [
  | inl e ↦ let same : (r, rule) ≡ p = ground (arith, e) in rw (← same) here
  | inr e ↦ there (indexed-In extension rules (ground (arith, e)))
]

sole_candidate-In :
    (known : Bool) (cs : List (FormatRoute × ExtensionRule)) {p : FormatRoute × ExtensionRule}
    → sole_candidate known cs ≡ ok p
    → In p cs
unfolding sole_candidate
sole_candidate-In known [] h = absurd (ground arith)
sole_candidate-In known (c ∷ cs) {p} h = elim (Bool-cases (all (same_kind c) cs)) [
  | inl e ↦ let same : c ≡ p = ground (arith, e) in rw (← same) here
  | inr e ↦ absurd (ground (arith, e))
]

route_for-In :
    (extension media_type : String) (signature : Option String) (family : Option SourceFormat)
    {p : FormatRoute × ExtensionRule}
    → route_for extension media_type signature family ≡ ok p
    → In p (all_rules format_routes)
unfolding route_for resolve_without_extension
route_for-In extension media_type signature family {p} h = elim (Bool-cases (extension == "")) [
  | inr e ↦ elim (Option-cases (indexed extension (all_rules format_routes))) [
    | inl n ↦ absurd (ground (arith, e, n))
    | inr (q, n) ↦
        let same : q ≡ p = ground (arith, e, n) in
        rw (← same) (indexed-In extension (all_rules format_routes) n)
  ]
  | inl e ↦
      let rules = all_rules format_routes in
      let test =
        λ (q : FormatRoute × ExtensionRule). is_candidate media_type signature family q.1 in
      (In-filter test rules
        (sole_candidate-In (is_known media_type rules) (filter test rules) (ground (arith, e)))).0
]

-- The signature is one that the rule names, or the rule names none and none is found.
abbrev pub Signed : ExtensionRule → Option String → Type 0
Signed rule signature =
    (has_signature rule.signatures signature ≡ true)
    ⊎ ((is_empty rule.signatures ≡ true) × (signature ≡ none))

validate_signature-Signed :
    (rule : ExtensionRule) (signature : Option String)
    → validate_signature rule signature ≡ true
    → Signed rule signature
unfolding validate_signature
validate_signature-Signed rule signature h = elim (Bool-cases (is_empty rule.signatures)) [
  | inr e ↦ inl (ground (arith, e))
  | inl e ↦
      let same : (signature == none) ≡ true = ground (arith, e) in
      inr (e, (==_iff signature none).0 same)
]

-- The rule's own tests.
abbrev pub Fits : ExtensionRule → String → Option String → Option SourceFormat → Type 0
Fits rule media_type signature family =
    ((is_generic media_type || contains rule.media_types media_type) ≡ true)
    × Signed rule signature
    × ((rule.office_family ≡ none) ⊎ (rule.office_family ≡ family))

rule_fault-Fits :
    (rule : ExtensionRule) (media_type : String) (signature : Option String)
    (family : Option SourceFormat)
    → rule_fault rule media_type signature family ≡ none
    → Fits rule media_type signature family
unfolding rule_fault validate_media_type
rule_fault-Fits rule media_type signature family h =
    let signed =
      λ (v : (validate_media_type rule media_type && validate_signature rule signature) ≡ true).
        validate_signature-Signed rule signature (ground (arith, v)) in
    elim (Bool-cases (validate_media_type rule media_type && validate_signature rule signature)) [
      | inr v ↦ absurd (ground (arith, v))
      | inl v ↦ elim (Option-cases rule.office_family) [
        | inl n ↦ (ground (arith, v), signed v, inl n)
        | inr (f, e) ↦ elim (Option-cases family) [
          | inl n ↦ absurd (ground (arith, v, e, n))
          | inr (g, n) ↦ elim (Bool-cases (g == f)) [
            | inr d ↦ absurd (ground (arith, v, e, n, d))
            | inl d ↦
                let same = (source_format_iff g f).0 d in
                (ground (arith, v), signed v, inr (e ∙ ap some (sym same) ∙ sym n))
          ]
        ]
      ]
    ]

office_family_of-inspected :
    (policy : RoutingPolicy) (infolist : List ℕ → Option (List ZipInfo)) (content : List ℕ)
    (signature : Option String) {family : Option SourceFormat}
    → office_family_of policy infolist content signature ≡ ok family
    → (signature ≢ some "zip") ⊎ (inspect_office policy (infolist content) ≡ ok family)
unfolding office_family_of
office_family_of-inspected policy infolist content signature h =
    elim (Bool-cases (signature == some "zip")) [
      | inl z ↦ inr (ground (arith, z))
      | inr z ↦ inl (λ e. cc (z, (==_iff signature (some "zip")).1 e))
    ]

-- What is known of a routed source.
abbrev pub Routed :
    RoutingPolicy → (List ℕ → Option (List ZipInfo)) → List ℕ → String → ResolvedRoute → Type 0
Routed policy infolist content media_type r =
    (p : FormatRoute × ExtensionRule) × In p (all_rules format_routes)
    × (r.source_format ≡ p.0.source_format)
    × (r.parser_id ≡ p.0.parser_id)
    × ((is_generic media_type || contains p.1.media_types media_type) ≡ true)
    × Signed p.1 (detect_signature content)
    × ((detect_signature content ≢ some "zip")
        ⊎ ((family : Option SourceFormat) × (inspect_office policy (infolist content) ≡ ok family)
            × ((p.1.office_family ≡ none) ⊎ (p.1.office_family ≡ family))))

-- A source gets a route only if it is not empty and within the size limit, and the route is one of
-- the table whose rule accepts the media type, unless that is a generic one, and the signature of
-- the bytes. A zip archive has passed the inspection, and is of the Office family that the rule
-- asks for, if it asks for one.
pub resolve-Routed :
    (policy : RoutingPolicy) (infolist : List ℕ → Option (List ZipInfo)) (extension : String)
    (content : List ℕ) (media_type : String) {r : ResolvedRoute}
    → resolve policy infolist extension content media_type ≡ ok r
    → (is_empty content ≡ false)
      × (length content ≤ policy.max_source_bytes)
      × Routed policy infolist content media_type r
unfolding resolve
resolve-Routed policy infolist extension content media_type {r} h =
    let signature = detect_signature content in
    elim (Bool-cases (is_empty content || ltb policy.max_source_bytes (length content))) [
      | inl s ↦ absurd (ground (arith, s))
      | inr s ↦ elim (Result-cases (office_family_of policy infolist content signature)) [
        | inr (e, o) ↦ absurd (ground (arith, s, o))
        | inl (family, o) ↦ elim (Result-cases (route_for extension media_type signature family)) [
          | inr (e, q) ↦ absurd (ground (arith, s, o, q))
          | inl (p, q) ↦ elim (Option-cases (rule_fault p.1 media_type signature family)) [
            | inr (e, f) ↦ absurd (ground (arith, s, o, q, f))
            | inl f ↦
                let fits = rule_fault-Fits p.1 media_type signature family f in
                let (accepted, signed, office) = fits in
                let same : resolved p.0 extension media_type signature ≡ r =
                  ground (arith, s, o, q, f) in
                (
                  ground (arith, s),
                  ground (arith, s),
                  (
                    p,
                    route_for-In extension media_type signature family q,
                    ap (λ (x : ResolvedRoute). x.source_format) (sym same),
                    ap (λ (x : ResolvedRoute). x.parser_id) (sym same),
                    accepted,
                    signed,
                    elim (office_family_of-inspected policy infolist content signature o) [
                      | inl n ↦ inl n
                      | inr i ↦ inr (family, i, office)
                    ],
                  ),
                )
          ]
        ]
      ]
    ]
