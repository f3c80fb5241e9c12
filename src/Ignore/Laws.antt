-- ===== src/Ignore/Laws.antt =====
-- What the patterns and matchers of plumbing/format/gitignore match.
use ai_experimental_search.Base.{
  ◌≡◌, refl, ap, ◌∙◌, Bool, true, false, not, ◌&&◌, Option, none, some, List, [], ◌∷◌, ◌++◌, Bytes,
  bytes_eq, bytes_eq_refl, All, arith,
}
use ai_experimental_search.Refs.Reference.{contains_pair}
use ai_experimental_search.Ignore.{
  no_match, Pattern, is_nil, zero_to_many_dirs, behind_domain, glob_loop, entered, glob_result,
  glob_match, match_pattern, decided, match_from_last, reversed_onto, matcher_match, traverse,
}

reversed_onto-append :
    {A : Type 0} (xs ys acc : List A)
    → reversed_onto (xs ++ ys) acc ≡ reversed_onto ys (reversed_onto xs acc)
unfolding reversed_onto
reversed_onto-append [] ys acc = refl
reversed_onto-append (x ∷ xs) ys acc = reversed_onto-append xs ys (x ∷ acc)

module _ (glob : Bytes → Bytes → Option Bool) where
  -- Patterns that do not match a path.
  abbrev pub NoneMatches : List Bytes → Bool → List Pattern → Type 0
  NoneMatches path is_dir ps = All (λ (p : Pattern). match_pattern glob p path is_dir ≡ no_match) ps

  match_from_last-skips :
      (ps acc : List Pattern) (path : List Bytes) (is_dir : Bool)
      → NoneMatches path is_dir ps
      → match_from_last glob (reversed_onto ps acc) path is_dir
        ≡ match_from_last glob acc path is_dir
  unfolding match_from_last reversed_onto
  match_from_last-skips [] acc path is_dir h = refl
  match_from_last-skips (p ∷ ps) acc path is_dir (h, hs) =
      match_from_last-skips ps (p ∷ acc) path is_dir hs ∙ rw h refl

  -- A later pattern has precedence: behind the last pattern that matches a path the others have no say, and
  -- this one says whether the path is ignored; one that does not match leaves it to those before it.
  pub matcher_match-append :
      (before : List Pattern) (p : Pattern) (after : List Pattern) (path : List Bytes)
      (is_dir : Bool)
      → NoneMatches path is_dir after
      → matcher_match glob (before ++ (p ∷ after)) path is_dir
        ≡ decided glob (matcher_match glob before path is_dir) (match_pattern glob p path is_dir)
  unfolding matcher_match match_from_last reversed_onto
  matcher_match-append before p after path is_dir h =
      ap (λ (ps : List Pattern). match_from_last glob ps path is_dir)
        (reversed_onto-append before (p ∷ after) [])
      ∙ match_from_last-skips after (p ∷ reversed_onto before []) path is_dir h

  -- A segment with no meaning of its own: not empty, and with no `**` in it.
  abbrev pub IsPlain : Bytes → Type 0
  IsPlain s =
      (bytes_eq s [] ≡ false)
      × (bytes_eq s zero_to_many_dirs ≡ false)
      × (contains_pair b'*' b'*' s ≡ false)

  abbrev goes_on : Option (List Bytes) → Option Bool → Option (List Bytes)
  goes_on rest none = none
  goes_on rest (some true) = rest
  goes_on rest (some false) = none

  -- What is left of a path whose first names match the segments, one by one.
  unfoldable pub match_each : List Bytes → List Bytes → Option (List Bytes)
  match_each [] path = some path
  match_each (s ∷ ss) [] = none
  match_each (s ∷ ss) (e ∷ path) = goes_on (match_each ss path) (glob s e)

  abbrev pub expected : Bool → Bool → Option (List Bytes) → Bool
  expected dir_only is_dir none = false
  expected dir_only is_dir (some rest) = not (dir_only && not is_dir && is_nil rest)

  abbrev marked : Option (List Bytes) → Option (List Bytes × Bool)
  marked none = none
  marked (some rest) = some (rest, true)

  glob_loop-match_each :
      (s : Bytes) (ss path : List Bytes) (matched : Bool)
      → All IsPlain (s ∷ ss)
      → glob_loop glob (s ∷ ss) path matched false ≡ marked (match_each (s ∷ ss) path)
  unfolding glob_loop match_each
  glob_loop-match_each s ss [] matched ((a, b, c), h) = rw (a, b, c) refl
  glob_loop-match_each s [] (e ∷ path) matched ((a, b, c), h) = rw (a, b, c) (last (glob s e))
    where
      last :
          (o : Option Bool)
          → entered glob (some (path, not (is_nil path && false))) o
            ≡ marked (goes_on (some path) o)
      last none = refl
      last (some true) = ground arith
      last (some false) = refl
  glob_loop-match_each s (t ∷ ss) (e ∷ path) matched ((a, b, c), h) =
      rw (a, b, c) (more (glob_loop-match_each t ss path (not (is_nil path && true)) h) (glob s e))
    where
      more :
          glob_loop glob (t ∷ ss) path (not (is_nil path && true)) false
            ≡ marked (match_each (t ∷ ss) path)
          → (o : Option Bool)
          → entered glob (glob_loop glob (t ∷ ss) path (not (is_nil path && true)) false) o
            ≡ marked (goes_on (match_each (t ∷ ss) path) o)
      more ih none = refl
      more ih (some true) = ih
      more ih (some false) = refl

  -- A glob pattern whose segments are not empty and have no `**` matches a path exactly where the segments
  -- match the first names of the path one by one; a pattern for directories only does not match a file whose
  -- path ends there.
  pub glob_match-match_each :
      (s : Bytes) (ss path : List Bytes) (dir_only is_dir : Bool)
      → All IsPlain (s ∷ ss)
      → glob_match glob (s ∷ ss) dir_only path is_dir
        ≡ expected dir_only is_dir (match_each (s ∷ ss) path)
  unfolding glob_match
  glob_match-match_each s ss path dir_only is_dir h =
      ap (glob_result glob dir_only is_dir) (glob_loop-match_each s ss path false h)
      ∙ same (match_each (s ∷ ss) path)
    where
      same :
          (o : Option (List Bytes))
          → glob_result glob dir_only is_dir (marked o) ≡ expected dir_only is_dir o
      same none = refl
      same (some rest) = ground arith

  -- A pattern `a/**/b/c` does not match a path whose second name matches `b` and whose third one does not
  -- match `c`, whatever follows: the search behind `**` ends at the first name that matches `b`.
  pub glob_match-no_second_try :
      (a b c e f g : Bytes) (rest : List Bytes) (dir_only is_dir : Bool)
      → All IsPlain (a ∷ b ∷ c ∷ [])
      → glob a e ≡ some true
      → glob b f ≡ some true
      → glob c g ≡ some false
      → glob_match glob (a ∷ zero_to_many_dirs ∷ b ∷ c ∷ []) dir_only (e ∷ f ∷ g ∷ rest) is_dir
        ≡ false
  unfolding glob_match glob_loop traverse bytes_eq
  glob_match-no_second_try a b c e f g rest dir_only is_dir
        ((a1, a2, a3), ((b1, b2, b3), ((c1, c2, c3), h))) p q r =
      rw (a1, a2, a3, p, b1, b2, b3, q, c1, c2, c3, r) refl

  behind_domain-append :
      (domain : List Bytes) (e : Bytes) (path : List Bytes)
      → behind_domain domain (domain ++ (e ∷ path)) ≡ some (e ∷ path)
  unfolding behind_domain
  behind_domain-append [] e path = refl
  behind_domain-append (d ∷ domain) e path =
      rw (bytes_eq_refl d) (behind_domain-append domain e path)

  -- Below its domain a pattern matches what the same pattern without a domain matches.
  pub match_pattern-domain :
      (p : Pattern) (e : Bytes) (path : List Bytes) (is_dir : Bool)
      → match_pattern glob p (p.domain ++ (e ∷ path)) is_dir
        ≡ match_pattern glob (record p { domain = [] }) (e ∷ path) is_dir
  unfolding match_pattern behind_domain
  match_pattern-domain p e path is_dir = rw (behind_domain-append p.domain e path) refl
