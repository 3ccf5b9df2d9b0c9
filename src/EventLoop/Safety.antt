-- ===== src/EventLoop/Safety.antt =====
-- The look-ups by index of the event loop: categories by number, descriptors by position.
use internet.Prelude.{
  ℕ, zero, suc, ◌+◌, ◌≤◌, ◌<◌, ◌≡◌, refl, Bool, true, false, ◌||◌, not, some, List, [], ◌∷◌, ◌++◌,
  arith, leb, ◌==◌, if_elim, length, get_elem?, All, length-append, Bytes, Exec, ok, fault,
  runtime_error, out_of_range, undefined, out_of_fuel, ◌>>=◌,
}
use internet.EventLoop.{
  EventLoop, BasicRule, FdRule, Store, Result, PollFd, Revents, SocketOption, not_socket, failed,
  wrong_length, socket_error, add_category, category_name, busy_wait, serve_rule, serve_rules,
  is_defunct, set_up, report, is_hung_up, poll_ready, is_idle, serve_polled, wait_for_poll,
  wait_next_event,
}

-- The code ends with a result that satisfies `P`, or with an exception other than
-- `std::out_of_range`.
abbrev pub InRange : {A : Type 0} → (A → Type 0) → Exec A → Type 0
InRange P (ok a) = P a
InRange P (fault out_of_range) = ⊥
InRange P (fault runtime_error) = Unit
InRange P (fault undefined) = Unit
InRange P (fault out_of_fuel) = Unit

InRange-bind :
    {A B : Type 0} (P : A → Type 0) (Q : B → Type 0) (m : Exec A) (f : A → Exec B)
    → InRange P m
    → ((a : A) → P a → InRange Q (f a))
    → InRange Q (m >>= f)
InRange-bind P Q (ok a) f p q = q a p
InRange-bind P Q (fault out_of_range) f p q = absurd p
InRange-bind P Q (fault runtime_error) f p q = tt
InRange-bind P Q (fault undefined) f p q = tt
InRange-bind P Q (fault out_of_fuel) f p q = tt

abbrev pub Any : {A : Type 0} → A → Type 0
Any a = Unit

pub get_elem?-inside :
    {A : Type 0} (xs : List A) (i : ℕ) → i < length xs → (x : A) × (get_elem? xs i ≡ some x)
get_elem?-inside [] i lt = absurd (omega arith)
get_elem?-inside (x ∷ xs) zero lt = (x, refl)
get_elem?-inside (x ∷ xs) (suc i) lt = get_elem?-inside xs i (omega arith)

-- What is asked of `poll`: it says something of each descriptor, and throws no `std::out_of_range`.
abbrev pub Answers : (List PollFd → ℕ → Exec (ℕ × List (PollFd × Revents))) → Type 0
Answers poll =
    (fds : List PollFd) (timeout_ms : ℕ)
    → InRange (λ (_, polled). length polled ≡ length fds) (poll fds timeout_ms)

module _ {W : Type 0} where
  -- The rule's category exists, and its callbacks throw no `std::out_of_range` of their own.
  abbrev pub BasicFits : ℕ → BasicRule W → Type 0
  BasicFits n r = (r.category_id < n) × ((s : Store W) → InRange Any (r.callback s))

  abbrev pub FdFits : ℕ → FdRule W → Type 0
  FdFits n r =
      BasicFits n r.rule
      × ((s : Store W) → InRange Any (r.cancel s))
      × ((s : Store W) → InRange Any (r.error s))

  pub record IsValid (l : EventLoop W) : Type 0 where
    pub basic : All (BasicFits (length l.rule_categories)) l.non_fd_rules
    pub fd : All (FdFits (length l.rule_categories)) l.fd_rules

  category_name-InRange :
      (l : EventLoop W) (i : ℕ) → i < length l.rule_categories → InRange Any (category_name l i)
  unfolding category_name
  category_name-InRange l i lt =
      let (x, e) = get_elem?-inside l.rule_categories i lt in rw (e, category_name) tt

  busy_wait-InRange :
      {A : Type 0} (P : A → Type 0) (l : EventLoop W) (r : BasicRule W)
      → r.category_id < length l.rule_categories
      → InRange P (busy_wait l r)
  unfolding busy_wait
  busy_wait-InRange P l r lt =
      InRange-bind Any P (category_name l r.category_id) _
        (category_name-InRange l r.category_id lt) λ _ _. tt

  serve_rule-InRange :
      (l : EventLoop W) (r : BasicRule W) (left : ℕ) (fired : Bool) (s : Store W)
      → BasicFits (length l.rule_categories) r
      → InRange Any (serve_rule l r left fired s)
  unfolding serve_rule
  serve_rule-InRange l r zero fired s (lt, c) =
      if_elim (InRange Any) (r.interest s) _ _ (λ _. busy_wait-InRange Any l r lt) λ _. tt
  serve_rule-InRange l r (suc left) fired s (lt, c) =
      if_elim (InRange Any) (r.interest s) _ _
        (λ _.
          InRange-bind Any Any (r.callback s) _ (c s)
            λ s' _. serve_rule-InRange l r left true s' (lt, c))
        λ _. tt

  serve_rules-InRange :
      (l : EventLoop W) (rs : List (BasicRule W)) (s : Store W)
      → All (BasicFits (length l.rule_categories)) rs
      → InRange (λ (_, rs', _). All (BasicFits (length l.rule_categories)) rs') (serve_rules l rs s)
  unfolding serve_rules
  serve_rules-InRange l [] s tt = tt
  serve_rules-InRange l (r ∷ rs) s (h, hs) =
      if_elim (InRange Kept) (s.cancel_requested r.handle) _ _ (λ _. serve_rules-InRange l rs s hs)
        λ _.
          InRange-bind Any Kept (serve_rule l r 128 false s) _
            (serve_rule-InRange l r 128 false s h)
            λ (fired, s') _.
              if_elim (InRange Kept) fired _ _ (λ _. (h, hs))
                λ _.
                  InRange-bind Kept Kept (serve_rules l rs s') _ (serve_rules-InRange l rs s' hs)
                    λ _ kept. (h, kept)
    where
      Kept : Bool × List (BasicRule W) × Store W → Type 0
      Kept (_, rs', _) = All (BasicFits (length l.rule_categories)) rs'

  -- The rules that `set_up` keeps fit, and there is one descriptor for each.
  abbrev pub Prepared : ℕ → List (FdRule W) × List PollFd × Bool × Store W → Type 0
  Prepared n (rs, fds, _, _) = All (FdFits n) rs × (length fds ≡ length rs)

  set_up-InRange :
      (n : ℕ) (rs : List (FdRule W)) (s : Store W)
      → All (FdFits n) rs
      → InRange (Prepared n) (set_up rs s)
  unfolding set_up
  set_up-InRange n [] s tt = (tt, refl)
  set_up-InRange n (r ∷ rs) s (h, hs) =
      if_elim (InRange (Prepared n)) (s.cancel_requested r.rule.handle) _ _
        (λ _. set_up-InRange n rs s hs)
        λ _.
          if_elim (InRange (Prepared n)) (is_defunct r s) _ _
            (λ _.
              InRange-bind Any (Prepared n) (r.cancel s) _ (h.1 s)
                λ s' _. set_up-InRange n rs s' hs)
            λ _.
              InRange-bind (Prepared n) (Prepared n) (set_up rs s) _ (set_up-InRange n rs s hs)
                λ _ (kept, same). ((h, kept), omega arith)

  report-InRange :
      (l : EventLoop W) (r : FdRule W) (o : SocketOption)
      → r.rule.category_id < length l.rule_categories
      → InRange Any (report l r o)
  unfolding report
  report-InRange l r not_socket lt =
      InRange-bind Any Any (category_name l r.rule.category_id) _ (category_name-InRange l _ lt)
        λ _ _. tt
  report-InRange l r failed lt = tt
  report-InRange l r wrong_length lt = tt
  report-InRange l r (socket_error e) lt =
      if_elim (InRange Any) (e == 0) _ _ (λ _. tt)
        λ _.
          InRange-bind Any Any (category_name l r.rule.category_id) _ (category_name-InRange l _ lt)
            λ _ _. tt

  abbrev pub Served : ℕ → List (FdRule W) × Store W → Type 0
  Served n (rs, _) = All (FdFits n) rs

  serve_polled-InRange :
      (l : EventLoop W) (getsockopt : ℕ → SocketOption) (polled : List (PollFd × Revents)) (at : ℕ)
      (rs : List (FdRule W)) (s : Store W)
      → All (FdFits (length l.rule_categories)) rs
      → at + length rs ≤ length polled
      → InRange (Served (length l.rule_categories)) (serve_polled l getsockopt polled at rs s)
  unfolding serve_polled
  serve_polled-InRange l getsockopt polled at [] s tt le = tt
  serve_polled-InRange l getsockopt polled at (r ∷ rs) s (h, hs) le =
      let ((p, e), found) = get_elem?-inside polled at (omega arith) in
      let n = length l.rule_categories in
      let next : (s' : Store W)
          → InRange (Served n) (serve_polled l getsockopt polled (at + 1) rs s') =
        λ s'. serve_polled-InRange l getsockopt polled (at + 1) rs s' hs (omega arith) in
      rw (found, serve_polled)
        (if_elim (InRange (Served n)) (e.pollerr || e.pollnval) _ _
          (λ _.
            InRange-bind Any (Served n) (report l r (getsockopt (s.files r.fd).fd)) _
              (report-InRange l r (getsockopt (s.files r.fd).fd) h.0.0)
              λ _ _.
                InRange-bind Any (Served n) (r.error s) _ (h.2 s)
                  λ s' _. InRange-bind Any (Served n) (r.cancel s') _ (h.1 s') λ s'' _. next s'')
          λ _.
            if_elim (InRange (Served n)) (is_hung_up r p e) _ _
              (λ _. InRange-bind Any (Served n) (r.cancel s) _ (h.1 s) λ s' _. next s')
              λ _.
                if_elim (InRange (Served n)) (poll_ready p.events e) _ _
                  (λ _. InRange-bind Any (Served n) (r.rule.callback s) _ (h.0.1 s) λ s' _.
                    if_elim (InRange (Served n)) (is_idle r s s') _ _
                      (λ _. busy_wait-InRange (Served n) l r.rule h.0.0) λ _. (h, hs))
                  λ _.
                    InRange-bind (Served n) (Served n)
                      (serve_polled l getsockopt polled (at + 1) rs s) _ (next s)
                      λ _ kept. (h, kept))

  -- The rules of the loop after a round.
  abbrev pub StaysValid : EventLoop W → Result × EventLoop W × Store W → Type 0
  StaysValid l (_, l', _) = IsValid l' × (l'.rule_categories ≡ l.rule_categories)

  wait_for_poll-InRange :
      (poll : List PollFd → ℕ → Exec (ℕ × List (PollFd × Revents))) (getsockopt : ℕ → SocketOption)
      (timeout_ms : ℕ) (l : EventLoop W) (s : Store W)
      → IsValid l
      → Answers poll
      → InRange (StaysValid l) (wait_for_poll poll getsockopt timeout_ms l s)
  unfolding wait_for_poll
  wait_for_poll-InRange poll getsockopt timeout_ms l s v answers =
      InRange-bind (Prepared n) (StaysValid l) (set_up l.fd_rules s) _
        (set_up-InRange n l.fd_rules s v.fd)
        λ (rs, fds, something, s') (kept, same).
          if_elim (InRange (StaysValid l)) (not something) _ _ (λ _. with_rules rs kept)
            λ _.
              InRange-bind (λ (_, polled). length polled ≡ length fds) (StaysValid l)
                (poll fds timeout_ms) _ (answers fds timeout_ms)
                λ (count, polled) all.
                  if_elim (InRange (StaysValid l)) (count == 0) _ _ (λ _. with_rules rs kept)
                    λ _.
                      InRange-bind (Served n) (StaysValid l)
                        (serve_polled l getsockopt polled 0 rs s') _
                        (serve_polled-InRange l getsockopt polled 0 rs s' kept (omega arith))
                        λ (rs', s'') kept'. with_rules rs' kept'
    where
      n : ℕ
      n = length l.rule_categories

      with_rules :
          (rs : List (FdRule W))
          → All (FdFits (length l.rule_categories)) rs
          → IsValid (record l { fd_rules = rs }) × (l.rule_categories ≡ l.rule_categories)
      with_rules rs kept = (record { basic = v.basic; fd = kept }, refl)

  -- Where every rule has a category that exists, `poll` answers for each descriptor, and neither
  -- it nor any callback throws `std::out_of_range`, a round never throws it, and if it returns the
  -- rules and categories are again such.
  pub wait_next_event-StaysValid :
      (poll : List PollFd → ℕ → Exec (ℕ × List (PollFd × Revents))) (getsockopt : ℕ → SocketOption)
      (timeout_ms : ℕ) (l : EventLoop W) (s : Store W)
      → IsValid l
      → Answers poll
      → InRange (StaysValid l) (wait_next_event poll getsockopt timeout_ms l s)
  unfolding wait_next_event
  wait_next_event-StaysValid poll getsockopt timeout_ms l s v answers =
      InRange-bind (λ (_, rs, _). All (BasicFits (length l.rule_categories)) rs) (StaysValid l)
        (serve_rules l l.non_fd_rules s) _ (serve_rules-InRange l l.non_fd_rules s v.basic)
        λ (fired, rs, s') kept.
          if_elim (InRange (StaysValid l)) fired _ _
            (λ _. (record { basic = kept; fd = v.fd }, refl))
            λ _.
              wait_for_poll-InRange poll getsockopt timeout_ms (record l { non_fd_rules = rs }) s'
                (record { basic = kept; fd = v.fd }) answers

  FdFits-mono : (m n : ℕ) (rs : List (FdRule W)) → m ≤ n → All (FdFits m) rs → All (FdFits n) rs
  FdFits-mono m n [] le tt = tt
  FdFits-mono m n (r ∷ rs) le (((lt, c), x, e), hs) =
      (((omega arith, c), x, e), FdFits-mono m n rs le hs)

  BasicFits-mono :
      (m n : ℕ) (rs : List (BasicRule W)) → m ≤ n → All (BasicFits m) rs → All (BasicFits n) rs
  BasicFits-mono m n [] le tt = tt
  BasicFits-mono m n (r ∷ rs) le ((lt, c), hs) = ((omega arith, c), BasicFits-mono m n rs le hs)

  add_category-IsValid :
      (name : Bytes) (l : EventLoop W)
      → IsValid l
      → InRange (λ (id, l'). IsValid l' × (id < length l'.rule_categories)) (add_category name l)
  unfolding add_category
  add_category-IsValid name l v =
      if_elim (InRange (λ (id, l'). IsValid l' × (id < length l'.rule_categories)))
        (leb l.capacity (length l.rule_categories)) _ _ (λ _. tt)
        λ _. (
          record {
            basic = BasicFits-mono _ _ l.non_fd_rules (omega (arith, more)) v.basic;
            fd = FdFits-mono _ _ l.fd_rules (omega (arith, more)) v.fd;
          },
          omega (arith, more),
        )
    where
      more : length (l.rule_categories ++ name ∷ []) ≡ length l.rule_categories + 1
      more = length-append l.rule_categories (name ∷ [])
