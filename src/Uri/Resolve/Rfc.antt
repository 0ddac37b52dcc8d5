-- ===== src/Uri/Resolve/Rfc.antt =====
-- `resolve_rel_url` against the choice of path and query of RFC 3986, section 5.2.2, and a
-- cleaning of the path that is not that of the RFC.
use npupnp.Common.{
  ◌≡◌, ◌≢◌, refl, subst, ◌&&◌, inl, inr, Option-cases, true, false, not, none, some, [], ◌∷◌, ◌++◌,
  ◌==◌, if◌then◌else◌, Bytes, codes, equal_iff, last_index_of, first_or, last_or, null, arith,
}
use npupnp.Uri.HostPort.{Resolver}
use npupnp.Uri.Dots.{remove_dots}
use npupnp.Uri.Dots.Segments.{remove_dots-segments}
use npupnp.Uri.Parse.{Uri, absolute, relative, parse_uri, uri_asurlstr}
use npupnp.Uri.Resolve.{
  fresh, merge_path, up_to_slash, target, target_path, resolve_rel_url, resolve_parsed,
  print_target, resolve_relative, resolve_from,
}

-- A path up to its last slash.
abbrev pub directory : Bytes → Bytes
directory [] = []
directory (c ∷ s) =
    let rest = directory s in if not (null rest) then c ∷ rest else if c == b'/' then c ∷ [] else []

-- Section 5.2.3: everything up to the last slash of the base path, and the reference's path; a
-- slash in front for a base with an authority and no path.
abbrev pub rfc_merge : Uri → Bytes → Bytes
rfc_merge base rel_path =
    if not (null base.hostport.text) && null base.path
    then b'/' ∷ rel_path
    else directory base.path ++ rel_path

-- Section 5.2.2, for a reference with no scheme and no authority: path, before dot segments are
-- removed, and query.
abbrev pub rfc_target : Uri → Uri → Bytes × Bytes
rfc_target base rel =
    if null rel.path
    then (base.path, if null rel.query then base.query else rel.query)
    else (if first_or 0 rel.path == b'/' then rel.path else rfc_merge base rel.path, rel.query)

up_to_slash-directory : (s : Bytes) → up_to_slash s ≡ directory s
unfolding up_to_slash last_index_of
up_to_slash-directory [] = refl
up_to_slash-directory (c ∷ []) = ground arith
up_to_slash-directory (c ∷ d ∷ s) = ground (arith, up_to_slash-directory (d ∷ s))

directory-last : (s : Bytes) → last_or 0 s ≡ b'/' → directory s ≡ s
directory-last [] k = refl
directory-last (c ∷ []) k = ground arith
directory-last (c ∷ d ∷ s) k = ground (arith, directory-last (d ∷ s) k)

null-eq : (s : Bytes) → null s ≡ true → s ≡ []
null-eq [] h = refl
null-eq (c ∷ s) h = cc

remove_dots-ne-none : (s : Bytes) → remove_dots s ≢ none
remove_dots-ne-none [] e = unfold remove_dots in cc
remove_dots-ne-none (c ∷ s) e = cc (remove_dots-segments (c ∷ s) (λ h. cc)).0

null-first : (s : Bytes) → first_or 0 s ≡ b'/' → null s ≡ false
null-first [] h = absurd (omega arith)
null-first (c ∷ s) h = refl

-- Path and query of the target are those of the RFC, but for a reference with a query whose path
-- is absolute or is merged with an empty base path.
pub target_path-rfc_target :
    (base rel : Uri)
    → null base.hostport.text ≡ false
    → (first_or 0 rel.path ≡ b'/' → rel.query ≡ [])
    → (base.path ≡ [] → rel.query ≡ [])
    → target_path base rel ≡ rfc_target base rel
unfolding target_path merge_path
target_path-rfc_target base rel has_host h k = ground (
  arith,
  null-eq base.path,
  null-eq rel.query,
  up_to_slash-directory base.path,
  directory-last base.path,
  equal_iff base.path (codes "/"),
)

target_path_absolute :
    (base rel : Uri) → first_or 0 rel.path ≡ b'/' → target_path base rel ≡ (rel.path, [])
unfolding target_path merge_path
target_path_absolute base rel h = ground (arith, null-first rel.path)

target-ne-none : (base rel : Uri) → target base rel ≢ none
unfolding target
target-ne-none base rel e = elim (Option-cases (remove_dots (target_path base rel).0)) [
  | inl bad ↦ remove_dots-ne-none (target_path base rel).0 bad
  | inr (p, ok) ↦ ground (arith, ok)
]

resolve_parsed-ne-none : (base rel : Uri) → resolve_parsed base rel ≢ none
unfolding resolve_parsed print_target
resolve_parsed-ne-none base rel e = elim (Option-cases (target base rel)) [
  | inl bad ↦ target-ne-none base rel bad
  | inr (u, ok) ↦ ground (arith, ok)
]

resolve_from-ne-none :
    (r : Resolver) (base : Uri) (base_url rel_url : Bytes)
    → resolve_from r base base.kind base_url rel_url ≢ none
unfolding resolve_from resolve_relative
resolve_from-ne-none r base base_url rel_url e = elim (Option-cases (parse_uri r rel_url)) [
  | inl bad ↦ ground (arith, bad)
  | inr (rel, ok) ↦ ground (arith, ok, resolve_parsed-ne-none base rel)
]

-- Whatever the two texts are, `resolve_rel_url` gives a result.
pub resolve_rel_url-ne-none :
    (r : Resolver) (base_url rel_url : Bytes) → resolve_rel_url r base_url rel_url ≢ none
unfolding resolve_rel_url
resolve_rel_url-ne-none r base_url rel_url e = elim (Option-cases (parse_uri r base_url)) [
  | inl bad ↦ ground (arith, bad)
  | inr (base, ok) ↦ ground (arith, ok, resolve_from-ne-none r base base_url rel_url)
]

-- A base and a reference that both parse: the base absolute, the reference relative and with no
-- authority.
pub record IsReference (r : Resolver) (base_url rel_url : Bytes) (base rel : Uri) : Type 0 where
  pub base_given : null base_url ≡ false
  pub rel_given : null rel_url ≡ false
  pub base_is : parse_uri r base_url ≡ some base
  pub rel_is : parse_uri r rel_url ≡ some rel
  pub base_absolute : base.kind ≡ absolute
  pub rel_relative : rel.kind ≡ relative
  pub no_authority : null rel.hostport.text ≡ true

-- The URL that is written for a path and a query: scheme and authority are the base's, the
-- fragment is the reference's.
abbrev pub put_together : Uri → Uri → Bytes → Bytes → Bytes
put_together base rel path query = uri_asurlstr (record fresh {
  scheme = base.scheme;
  hostport = base.hostport;
  path = path;
  query = query;
  fragment = rel.fragment;
})

resolve_rel_url-target_path :
    (r : Resolver) (base_url rel_url : Bytes) (base rel : Uri)
    → IsReference r base_url rel_url base rel
    → (p : Bytes) × (remove_dots (target_path base rel).0 ≡ some p)
      × (resolve_rel_url r base_url rel_url
          ≡ some (put_together base rel p (target_path base rel).1))
unfolding resolve_rel_url resolve_from resolve_relative resolve_parsed print_target target
resolve_rel_url-target_path r base_url rel_url base rel v =
    elim (Option-cases (remove_dots (target_path base rel).0)) [
      | inl bad ↦ absurd (remove_dots-ne-none (target_path base rel).0 bad)
      | inr (p, ok) ↦ (
        p,
        ok,
        ground (
          arith, ok, v.base_is, v.rel_is, v.base_given, v.rel_given, v.base_absolute,
          v.rel_relative, v.no_authority,
        ),
      )
    ]

-- A reference with an absolute path loses its query: the URL written has none, whatever the
-- query of the reference is.
pub resolve_rel_url-drops_query :
    (r : Resolver) (base_url rel_url : Bytes) (base rel : Uri)
    → IsReference r base_url rel_url base rel
    → first_or 0 rel.path ≡ b'/'
    → (p : Bytes) × (remove_dots rel.path ≡ some p)
      × (resolve_rel_url r base_url rel_url ≡ some (put_together base rel p []))
resolve_rel_url-drops_query r base_url rel_url base rel v h =
    subst
      (λ t.
        (p : Bytes) × (remove_dots t.0 ≡ some p)
        × (resolve_rel_url r base_url rel_url ≡ some (put_together base rel p t.1)))
      (target_path_absolute base rel h) (resolve_rel_url-target_path r base_url rel_url base rel v)
