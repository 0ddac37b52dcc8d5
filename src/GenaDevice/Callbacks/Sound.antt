-- ===== src/GenaDevice/Callbacks/Sound.antt =====
-- The loop over the CALLBACK header ends, and lets only checked URLs through.
use npupnp.Common.{
  ℕ, ap, sym, ◌∙◌, append_assoc, take-append-drop, zero, suc, ◌+◌, ◌-◌, ◌≡◌, ◌<◌, refl, inl, inr,
  Option-cases, Bool-cases, true, false, Option, none, some, List, [], ◌∷◌, ◌++◌, leb, Bytes,
  index_of, take, drop, length, null, All, All-append, arith,
}
use npupnp.Uri.HostPort.{SockAddr, Resolver}
use npupnp.Uri.Parse.{Uri, parse_uri}
use npupnp.GenaDevice.Callbacks.Brackets.{IsBracketed, url-IsBracketed}
use npupnp.GenaDevice.Callbacks.{
  NetIf, call_stranger_check, UrlList, urls, refused, invalid_url, check_url, url_loop,
  create_url_list, is_ok,
}

module _ (r : Resolver) (n : NetIf) (client : SockAddr) (clnetif : ℕ) (ulist : Bytes) where
  -- A delivery URL that passed the check: it was written for a URL between brackets of the list
  -- that parses, and whose address is link-local, or is on the client's interface.
  pub record IsChecked (text : Bytes) : Type 0 where
    pub given : Bytes
    pub bracketed : IsBracketed ulist given
    pub uri : Uri
    pub parsed : parse_uri r given ≡ some uri
    pub has_host : null uri.hostport.text ≡ false
    pub allowed : call_stranger_check n uri.hostport.ip_address clnetif ≡ true
    pub written : text ≡ n.maybe_scope_url_addr uri client

  check_url-IsChecked :
      (surl : Bytes) (more : List Bytes)
      → IsBracketed ulist surl
      → check_url r n client clnetif surl ≡ some more
      → All IsChecked more
  unfolding check_url
  check_url-IsChecked surl more inside e = elim (Option-cases (parse_uri r surl)) [
    | inl bad ↦ absurd (ground (arith, bad))
    | inr (u, ok) ↦ elim (Bool-cases (null u.hostport.text)) [
      | inl no_host ↦ absurd (ground (arith, ok, no_host))
      | inr host ↦ elim (Bool-cases (call_stranger_check n u.hostport.ip_address clnetif)) [
        | inr stranger ↦ absurd (ground (arith, ok, stranger))
        | inl allowed ↦
            let checked : IsChecked (n.maybe_scope_url_addr u client) = record {
              given = surl;
              bracketed = inside;
              uri = u;
              parsed = ok;
              has_host = host;
              allowed = allowed;
              written = refl;
            } in
            ground (arith, ok, host, allowed, checked)
      ]
    ]
  ]

  -- The result of the loop, for every URL list that it may return.
  abbrev IsSafe : Option UrlList → Type 0
  IsSafe none = ⊥
  IsSafe (some (refused e)) = e ≡ invalid_url
  IsSafe (some (urls out)) = All IsChecked out

  index_of-lt : (b i : ℕ) (s : Bytes) → index_of b s ≡ some i → i < length s
  unfolding index_of
  index_of-lt b i [] h = cc
  index_of-lt b i (c ∷ s) h = elim (Option-cases (index_of b s)) [
    | inl bad ↦ ground (arith, bad)
    | inr (j, ok) ↦ ground (arith, ok, index_of-lt b j s ok)
  ]

  length-drop : (k : ℕ) (s : Bytes) → length (drop k s) ≡ length s - k
  length-drop zero s = omega arith
  length-drop (suc k) [] = omega arith
  length-drop (suc k) (c ∷ s) = omega (arith, length-drop k s)

  url_loop-IsSafe :
      (fuel : ℕ) (before s : Bytes) (out : List Bytes)
      → ulist ≡ before ++ s
      → length s < fuel
      → All IsChecked out
      → IsSafe (url_loop r n client clnetif fuel s out)
  unfolding url_loop
  url_loop-IsSafe zero before s out whole h a = absurd (omega arith)
  url_loop-IsSafe (suc fuel) before s out whole h a = elim (Option-cases (index_of b'<' s)) [
    | inl done ↦ rw (done, url_loop) a
    | inr (i, at) ↦ elim (Option-cases (index_of b'>' (drop i s))) [
      | inl done ↦ rw (at, url_loop, done) a
      | inr (k, closed) ↦ elim (Bool-cases (leb k 1)) [
        | inl short ↦ rw (at, url_loop, closed, short) refl
        | inr long ↦
            elim (Option-cases (check_url r n client clnetif (take (k - 1) (drop (suc i) s)))) [
              | inl bad ↦ rw (at, url_loop, closed, long, bad) refl
              | inr (more, good) ↦
                  rw (at, url_loop, closed, long, good)
                    (url_loop-IsSafe fuel (before ++ take (i + k) s) (drop (i + k) s) (out ++ more)
                      (whole
                        ∙ ap (λ t. before ++ t) (sym (take-append-drop (i + k) s))
                        ∙ sym (append_assoc before (take (i + k) s) (drop (i + k) s)))
                      (ground (arith, length-drop (i + k) s, index_of-lt b'<' i s at))
                      (All-append IsChecked out more a (
                        check_url-IsChecked (take (k - 1) (drop (suc i) s)) more
                          (url-IsBracketed ulist before s i k whole at closed long) good)))
            ]
      ]
    ]
  ]

-- The list is made; if it is accepted, its URLs are checked against the client's interface.
abbrev pub IsAnswer : Resolver → NetIf → SockAddr → Bytes → Option UrlList → Type 0
IsAnswer r n client ulist none = ⊥
IsAnswer r n client ulist (some (refused e)) = Unit
IsAnswer r n client ulist (some (urls out)) =
    (clnetif : ℕ) × (n.interface_for_address client ≡ some clnetif)
    × All (IsChecked r n client clnetif ulist) out

answered :
    (r : Resolver) (n : NetIf) (client : SockAddr) (ulist : Bytes) (list : Option UrlList) (i : ℕ)
    → n.interface_for_address client ≡ some i
    → IsSafe r n client i ulist list
    → IsAnswer r n client ulist list
answered r n client ulist none i found safe = safe
answered r n client ulist (some (refused e)) i found safe = tt
answered r n client ulist (some (urls out)) i found safe = (i, found, safe)

-- A CALLBACK header is always answered: the fuel is enough. If its list is accepted, the client's
-- address has a network interface of the program, and every delivery URL kept was written for a
-- text that stands in the list between a `<` and the next `>`, that parses as a URL with a host,
-- and whose address is IPv6 link-local, or IPv4 and on that same interface.
pub create_url_list-IsChecked :
    (r : Resolver) (n : NetIf) (client : SockAddr) (ulist : Bytes)
    → IsAnswer r n client ulist (create_url_list r n client ulist)
unfolding create_url_list
create_url_list-IsChecked r n client ulist = elim (Bool-cases (is_ok client)) [
  | inr bad ↦ simp (bad) tt
  | inl ok ↦ elim (Option-cases (n.interface_for_address client)) [
    | inl lost ↦ simp (ok, lost) tt
    | inr (i, found) ↦
        let loop : create_url_list r n client ulist
            ≡ url_loop r n client i (suc (length ulist)) ulist [] =
          ground (arith, ok, found) in
        let safe : IsSafe r n client i ulist (create_url_list r n client ulist) = rw loop (
          url_loop-IsSafe r n client i ulist (suc (length ulist)) [] ulist [] refl (omega arith)
            tt) in
        answered r n client ulist (create_url_list r n client ulist) i found safe
  ]
]
