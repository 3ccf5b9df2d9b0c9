-- ===== src/Router/LongestPrefix.antt =====
-- The choice of a route.
use internet.Prelude.{
  ℕ, ◌≤◌, ◌<◌, ◌≡◌, refl, sym, ap, subst, ◌∙◌, inl, inr, true, false, ◌&&◌, Option, none, some,
  List, [], ◌∷◌, ◌++◌, append-nil, append_assoc, arith, ltb, if◌then◌else◌, Bool-cases, if_elim,
  All, All-append,
}
use internet.Router.{Route, matches, is_longer, best_route}

-- `r` stands in the table; it matches; no other match is longer, and an earlier one is shorter.
pub record IsBest (dest : ℕ) (routes : List Route) (r : Route) : Type 0 where
  pub before : List Route
  pub after : List Route
  pub split : routes ≡ before ++ r ∷ after
  pub match : matches dest r ≡ true
  pub longer : All (λ q. matches dest q ≡ true → q.prefix_length < r.prefix_length) before
  pub longest : All (λ q. matches dest q ≡ true → q.prefix_length ≤ r.prefix_length) after

-- `none` says that no route of the table matches.
abbrev pub Best : ℕ → List Route → Option Route → Type 0
Best dest routes none = All (λ q. matches dest q ≡ false) routes
Best dest routes (some r) = IsBest dest routes r

-- The loop's invariant: the best of the part of the table that has been read.
Best-snoc :
    (dest : ℕ) (seen : List Route) (r : Route) (best : Option Route)
    → Best dest seen best
    → Best dest (seen ++ r ∷ []) (if matches dest r && is_longer r best then some r else best)
unfolding is_longer
Best-snoc dest seen r none b = elim (Bool-cases (matches dest r)) [
  | inl e ↦ rw e (record {
    before = seen;
    after = [];
    split = refl;
    match = e;
    longer = none_matches seen b;
    longest = tt;
  })
  | inr e ↦ rw e (All-append (λ q. matches dest q ≡ false) seen (r ∷ []) b (e, tt))
]
  where
    none_matches :
        (qs : List Route)
        → All (λ q. matches dest q ≡ false) qs
        → All (λ q. matches dest q ≡ true → q.prefix_length < r.prefix_length) qs
    none_matches [] a = tt
    none_matches (q ∷ qs) a = ((λ h. cc), none_matches qs a.1)
Best-snoc dest seen r (some m) b =
    if_elim (Best dest (seen ++ r ∷ [])) (matches dest r && ltb m.prefix_length r.prefix_length) _ _
      (λ e. record {
        before = seen;
        after = [];
        split = refl;
        match = both e;
        longer =
            subst (All (λ q. matches dest q ≡ true → q.prefix_length < r.prefix_length))
              (sym b.split)
              (All-append _ b.before (m ∷ b.after) (shorter b.before (ground arith) b.longer)
                ((λ h. ground arith), at_most b.after (ground arith) b.longest));
        longest = tt;
      })
      λ e. record {
        before = b.before;
        after = b.after ++ r ∷ [];
        split = ap (λ qs. qs ++ r ∷ []) b.split ∙ append_assoc b.before (m ∷ b.after) (r ∷ []);
        match = b.match;
        longer = b.longer;
        longest = All-append _ b.after (r ∷ []) b.longest ((λ h. ground arith), tt);
      }
  where
    both : (matches dest r && ltb m.prefix_length r.prefix_length) ≡ true → matches dest r ≡ true
    both e = ground arith

    shorter :
        (qs : List Route)
        → m.prefix_length < r.prefix_length
        → All (λ q. matches dest q ≡ true → q.prefix_length < m.prefix_length) qs
        → All (λ q. matches dest q ≡ true → q.prefix_length < r.prefix_length) qs
    shorter [] lt a = tt
    shorter (q ∷ qs) lt a = ((λ h. omega (arith, a.0 h)), shorter qs lt a.1)

    at_most :
        (qs : List Route)
        → m.prefix_length < r.prefix_length
        → All (λ q. matches dest q ≡ true → q.prefix_length ≤ m.prefix_length) qs
        → All (λ q. matches dest q ≡ true → q.prefix_length < r.prefix_length) qs
    at_most [] lt a = tt
    at_most (q ∷ qs) lt a = ((λ h. omega (arith, a.0 h)), at_most qs lt a.1)

best_route-Best :
    (dest : ℕ) (seen rest : List Route) (best : Option Route)
    → Best dest seen best
    → Best dest (seen ++ rest) (best_route dest rest best)
unfolding best_route
best_route-Best dest seen [] best b = subst (λ rs. Best dest rs best) (sym (append-nil seen)) b
best_route-Best dest seen (r ∷ rest) best b =
    subst (λ rs. Best dest rs (best_route dest (r ∷ rest) best)) (append_assoc seen (r ∷ []) rest)
      (best_route-Best dest (seen ++ r ∷ []) rest _ (Best-snoc dest seen r best b))

-- The route that is chosen matches the destination and is the longest match; among equally long
-- ones it is the first. No route is chosen exactly when none matches.
pub best_route_lem :
    (dest : ℕ) (routes : List Route) → Best dest routes (best_route dest routes none)
best_route_lem dest routes = best_route-Best dest [] routes none tt
