-- ===== src/Hooks/Utility/Explain/Options.antt =====
-- src/hooks/utility/explain.rs: which options of EXPLAIN are accepted.
use pg_analytics.Prelude.{
  ◌∙◌, ap, Option-cases, Bool, some, List, [], ◌∷◌, All, ◌≡◌, ◌⊎◌, ◌↔◌, refl, inl, inr, arith,
  Bool-cases,
}
use pg_analytics.Text.{Text, str, same}
use pg_analytics.Text.Equality.{same_iff}
use pg_analytics.Result.{ok, IsOk, Result-cases}
use pg_analytics.Hooks.Utility.Explain.{
  Style, postgres, duckdb, ExplainState, DefElem, parse_explain_style, explain_option,
  explain_options, parse_explain_options,
}

abbrev pub IsStyle : Text → Type 0
IsStyle s = (s ≡ str "pg") ⊎ (s ≡ str "postgres") ⊎ (s ≡ str "duckdb")

-- ANALYZE with a Boolean value, or STYLE with one of its three names.
abbrev pub IsKnown : DefElem → Type 0
IsKnown opt =
    ((opt.defname ≡ ok (str "analyze")) × ((b : Bool) × (opt.boolean ≡ ok b)))
    ⊎ ((opt.defname ≡ ok (str "style")) × ((s : Text) × (opt.string ≡ ok s) × IsStyle s))

known_style : (s : Text) → IsStyle s → (style : Style) × (parse_explain_style s ≡ some style)
unfolding parse_explain_style str same
known_style s (inl e) = rw e (postgres, refl)
known_style s (inr (inl e)) = rw e (postgres, refl)
known_style s (inr (inr e)) = rw e (duckdb, refl)

unknown_style : (s : Text) (style : Style) → parse_explain_style s ≡ some style → IsStyle s
unfolding parse_explain_style
unknown_style s style h = elim (Bool-cases (same s (str "pg"))) [
  | inl e ↦ inl ((same_iff s (str "pg")).0 e)
  | inr a ↦ elim (Bool-cases (same s (str "postgres"))) [
    | inl e ↦ inr (inl ((same_iff s (str "postgres")).0 e))
    | inr b ↦ inr (inr ((same_iff s (str "duckdb")).0 (ground (arith, a, b))))
  ]
]

IsKnown-explain_option :
    (state : ExplainState) (opt : DefElem)
    → IsKnown opt
    → (s : ExplainState) × (explain_option state opt ≡ ok s)
unfolding explain_option str same
IsKnown-explain_option state opt (inl (e, (b, v))) = rw (e, v) (record state { analyze = b }, refl)
IsKnown-explain_option state opt (inr (e, (s, v, known))) =
    let (style, p) = known_style s known in rw (e, v, p) (record state { style = style }, refl)

explain_option-IsKnown :
    (state : ExplainState) (opt : DefElem) → IsOk (explain_option state opt) → IsKnown opt
unfolding explain_option
explain_option-IsKnown state opt h = elim (Result-cases opt.defname) [
  | inr (f, e) ↦ absurd (rw e at h)
  | inl (name, e) ↦ elim (Bool-cases (same name (str "analyze"))) [
    | inl a ↦ elim (Result-cases opt.boolean) [
      | inl (b, v) ↦ inl (e ∙ ap ok ((same_iff name (str "analyze")).0 a), (b, v))
      | inr (f, v) ↦ absurd (rw (e, a, v) at h)
    ]
    | inr a ↦ elim (Bool-cases (same name (str "style"))) [
      | inl b ↦ elim (Result-cases opt.string) [
        | inl (s, v) ↦ elim (Option-cases (parse_explain_style s)) [
          | inl p ↦ absurd (rw (e, a, b, v, p) at h)
          | inr (style, p) ↦
              inr (e ∙ ap ok ((same_iff name (str "style")).0 b), (s, v, unknown_style s style p))
        ]
        | inr (f, v) ↦ absurd (rw (e, a, b, v) at h)
      ]
      | inr b ↦ absurd (rw (e, a, b) at h)
    ]
  ]
]

explain_options-IsKnown :
    (state : ExplainState) (opts : List DefElem)
    → IsOk (explain_options state opts)
    → All IsKnown opts
unfolding explain_options
explain_options-IsKnown state [] h = tt
explain_options-IsKnown state (opt ∷ opts) h = elim (Result-cases (explain_option state opt)) [
  | inl (s, e) ↦
      (explain_option-IsKnown state opt (rw e tt), explain_options-IsKnown s opts (rw e at h))
  | inr (f, e) ↦ absurd (rw e at h)
]

IsKnown-explain_options :
    (state : ExplainState) (opts : List DefElem)
    → All IsKnown opts
    → IsOk (explain_options state opts)
unfolding explain_options
IsKnown-explain_options state [] h = tt
IsKnown-explain_options state (opt ∷ opts) (known, h) =
    let (s, e) = IsKnown-explain_option state opt known in rw e (IsKnown-explain_options s opts h)

-- The options of EXPLAIN on a query for DuckDB are accepted exactly when each of them is ANALYZE with
-- a Boolean value or STYLE with one of its three names; any other option is an error.
pub parse_explain_options_iff :
    (opts : List DefElem) → IsOk (parse_explain_options opts) ↔ All IsKnown opts
unfolding parse_explain_options
parse_explain_options_iff opts = (explain_options-IsKnown _ opts, IsKnown-explain_options _ opts)
