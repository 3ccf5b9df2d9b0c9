-- ===== src/EventLoop/Rounds.antt =====
-- What one round of the event loop serves.
use internet.Prelude.{
  ℕ, zero, suc, ◌≤◌, ◌<◌, ◌≡◌, refl, sym, subst, ◌∙◌, inl, inr, Bool, true, false, ◌||◌, List, [],
  ◌∷◌, arith, if◌then◌else◌, Bool-cases, length, All, Exec, ok, fault, runtime_error, Ensures,
  Ensures-bind, Ensures-to_ok,
}
use internet.EventLoop.{
  EventLoop, BasicRule, FdRule, Store, PollFd, Revents, SocketOption, exit, category_name,
  busy_wait, serve_rule, serve_rules, is_defunct, poll_fd, set_up, wait_for_poll, wait_next_event,
}
use internet.EventLoop.Safety.{get_elem?-inside}

or_true : (x : Bool) → (x || true) ≡ true
or_true true = refl
or_true false = refl

or_false : (x : Bool) → (x || false) ≡ x
or_false true = refl
or_false false = refl

Ensures-mono :
    {A : Type 0} (P Q : A → Type 0) (m : Exec A) → ((a : A) → P a → Q a) → Ensures P m → Ensures Q m
Ensures-mono P Q (ok a) f p = f a p
Ensures-mono P Q (fault e) f p = absurd p

module _ {W : Type 0} where
  -- The rules that are not cancelled.
  abbrev pub active : Store W → List (BasicRule W) → List (BasicRule W)
  active s [] = []
  active s (r ∷ rs) = if s.cancel_requested r.handle then active s rs else r ∷ active s rs

  abbrev pub active_fd : Store W → List (FdRule W) → List (FdRule W)
  active_fd s [] = []
  active_fd s (r ∷ rs) =
      if s.cancel_requested r.rule.handle then active_fd s rs else r ∷ active_fd s rs

  abbrev pub Resting : Store W → BasicRule W → Type 0
  Resting s r = r.interest s ≡ false

  serve_rule_resting :
      (l : EventLoop W) (r : BasicRule W) (left : ℕ) (fired : Bool) (s : Store W)
      → r.interest s ≡ false
      → serve_rule l r left fired s ≡ ok (fired, s)
  unfolding serve_rule
  serve_rule_resting l r zero fired s e = rw e refl
  serve_rule_resting l r (suc left) fired s e = rw e refl

  serve_rules-Resting :
      (l : EventLoop W) (rs : List (BasicRule W)) (s : Store W)
      → All (Resting s) (active s rs)
      → serve_rules l rs s ≡ ok (false, active s rs, s)
  unfolding serve_rules
  serve_rules-Resting l [] s h = refl
  serve_rules-Resting l (r ∷ rs) s h = elim (Bool-cases (s.cancel_requested r.handle)) [
    | inl e ↦ rw e (
        serve_rules-Resting l rs s
          (subst (λ b. All (Resting s) (if b then active s rs else r ∷ active s rs)) e h))
    | inr e ↦
        (let h' : All (Resting s) (r ∷ active s rs) =
            subst (λ b. All (Resting s) (if b then active s rs else r ∷ active s rs)) e h in
          rw e (
            rw (serve_rule_resting l r 128 false s h'.0)
              (rw (serve_rules-Resting l rs s h'.1) refl)))
  ]

  -- A rule of a descriptor that is neither interested nor to be dropped.
  abbrev pub RestingFd : Store W → FdRule W → Type 0
  RestingFd s r = (r.rule.interest s ≡ false) × (is_defunct r s ≡ false)

  set_up_resting :
      (rs : List (FdRule W)) (s : Store W)
      → All (RestingFd s) (active_fd s rs)
      → (fds : List PollFd) × (set_up rs s ≡ ok (active_fd s rs, fds, false, s))
  unfolding set_up
  set_up_resting [] s h = ([], refl)
  set_up_resting (r ∷ rs) s h = elim (Bool-cases (s.cancel_requested r.rule.handle)) [
    | inl e ↦
        (let (fds, eq) = set_up_resting rs s (
            subst (λ b. All (RestingFd s) (if b then active_fd s rs else r ∷ active_fd s rs)) e
              h) in
          (fds, rw e eq))
    | inr e ↦
        (let h' : All (RestingFd s) (r ∷ active_fd s rs) =
            subst (λ b. All (RestingFd s) (if b then active_fd s rs else r ∷ active_fd s rs)) e h in
          let (fds, eq) = set_up_resting rs s h'.1 in
          (poll_fd r s ∷ fds, rw e (rw h'.0.1 (rw eq (rw h'.0.0 refl)))))
  ]

  -- When no rule that is left uncancelled is interested, and no descriptor is at its end or
  -- closed, a round calls no callback and does not poll: it drops the cancelled rules and returns
  -- `exit`.
  wait_next_event-exit :
      (poll : List PollFd → ℕ → Exec (ℕ × List (PollFd × Revents))) (getsockopt : ℕ → SocketOption)
      (timeout_ms : ℕ) (l : EventLoop W) (s : Store W)
      → All (Resting s) (active s l.non_fd_rules)
      → All (RestingFd s) (active_fd s l.fd_rules)
      → wait_next_event poll getsockopt timeout_ms l s
        ≡ ok (
          exit,
          record l { non_fd_rules = active s l.non_fd_rules; fd_rules = active_fd s l.fd_rules },
          s,
        )
  unfolding wait_next_event wait_for_poll
  wait_next_event-exit poll getsockopt timeout_ms l s basic fd =
      let (fds, e) = set_up_resting l.fd_rules s fd in
      rw (serve_rules-Resting l l.non_fd_rules s basic) (rw e refl)

  busy_wait-runtime_error :
      {A : Type 0} (l : EventLoop W) (r : BasicRule W)
      → r.category_id < length l.rule_categories
      → busy_wait {A = A} l r ≡ fault runtime_error
  unfolding busy_wait category_name
  busy_wait-runtime_error l r lt =
      let (name, e) = get_elem?-inside l.rule_categories r.category_id lt in
      rw (e, category_name) refl

  -- A measure of what a rule has left to do: it is interested as long as some is left, and each
  -- call does some of it.
  pub record Works (r : BasicRule W) (rank : Store W → ℕ) : Type 0 where
    pub done : (s : Store W) → rank s ≡ 0 → r.interest s ≡ false
    pub calls :
        (s : Store W) → r.interest s ≡ true → Ensures (λ s'. rank s' < rank s) (r.callback s)

  -- A rule with at most as much to do as iterations are left is served until it is not interested,
  -- and no exception is thrown.
  serve_rule-Ensures :
      (l : EventLoop W) (r : BasicRule W) (rank : Store W → ℕ) (left : ℕ) (fired : Bool)
      (s : Store W)
      → Works r rank
      → rank s ≤ left
      → Ensures
          (λ (fired', s'). (r.interest s' ≡ false) × (fired' ≡ (fired || r.interest s)))
          (serve_rule l r left fired s)
  unfolding serve_rule
  serve_rule-Ensures l r rank zero fired s w le =
      let e : r.interest s ≡ false = w.done s (omega arith) in rw e (e, sym (or_false fired))
  serve_rule-Ensures l r rank (suc left) fired s w le = elim (Bool-cases (r.interest s)) [
    | inr e ↦ rw e (e, sym (or_false fired))
    | inl e ↦ rw e (
        Ensures-bind (λ s'. rank s' < rank s) _ (r.callback s) _ (w.calls s e)
          λ s' less.
            Ensures-mono (λ (fired', s''). (r.interest s'' ≡ false) × (fired' ≡ true))
              (λ (fired', s''). (r.interest s'' ≡ false) × (fired' ≡ (fired || true)))
              (serve_rule l r left true s') (λ _ (rest, f). (rest, f ∙ sym (or_true fired)))
              (serve_rule-Ensures l r rank left true s' w (omega arith)))
  ]

  -- A rule that stays interested, whose callback returns.
  abbrev pub IsEndless : BasicRule W → Type 0
  IsEndless r = (s : Store W) → (r.interest s ≡ true) × Ensures (λ _. Unit) (r.callback s)

  serve_rule-endless :
      (l : EventLoop W) (r : BasicRule W) (left : ℕ) (fired : Bool) (s : Store W)
      → r.category_id < length l.rule_categories
      → IsEndless r
      → serve_rule l r left fired s ≡ fault runtime_error
  unfolding serve_rule
  serve_rule-endless l r zero fired s lt endless = rw (endless s).0 (busy_wait-runtime_error l r lt)
  serve_rule-endless l r (suc left) fired s lt endless =
      let (s', e, _) = Ensures-to_ok (λ _. Unit) (r.callback s) (endless s).1 in
      rw (endless s).0 (rw e (serve_rule-endless l r left true s' lt endless))

  serve_rules_busy :
      (l : EventLoop W) (all : List (BasicRule W)) (s : Store W) (r : BasicRule W)
      (rs : List (BasicRule W))
      → active s all ≡ r ∷ rs
      → r.category_id < length l.rule_categories
      → IsEndless r
      → serve_rules l all s ≡ fault runtime_error
  unfolding serve_rules
  serve_rules_busy l [] s r rs e lt endless = absurd cc
  serve_rules_busy l (x ∷ all) s r rs e lt endless =
      elim (Bool-cases (s.cancel_requested x.handle)) [
        | inl c ↦ rw c (serve_rules_busy l all s r rs (with_test c) lt endless)
        | inr c ↦
            (let same : x ≡ r = head (with_test c) in
              rw c (
                rw
                  (subst (λ y. serve_rule l y 128 false s ≡ fault runtime_error) (sym same)
                    (serve_rule-endless l r 128 false s lt endless))
                  refl))
      ]
    where
      with_test :
          {b : Bool}
          → s.cancel_requested x.handle ≡ b
          → (if b then active s all else x ∷ active s all) ≡ r ∷ rs
      with_test c = subst (λ b. (if b then active s all else x ∷ active s all) ≡ r ∷ rs) c e

      head : {ys : List (BasicRule W)} → x ∷ ys ≡ r ∷ rs → x ≡ r
      head e' = cc

  -- A round whose first uncancelled rule without a descriptor stays interested ends with an
  -- exception, and not in an endless loop.
  wait_next_event-busy :
      (poll : List PollFd → ℕ → Exec (ℕ × List (PollFd × Revents))) (getsockopt : ℕ → SocketOption)
      (timeout_ms : ℕ) (l : EventLoop W) (s : Store W) (r : BasicRule W) (rs : List (BasicRule W))
      → active s l.non_fd_rules ≡ r ∷ rs
      → r.category_id < length l.rule_categories
      → IsEndless r
      → wait_next_event poll getsockopt timeout_ms l s ≡ fault runtime_error
  unfolding wait_next_event
  wait_next_event-busy poll getsockopt timeout_ms l s r rs e lt endless =
      rw (serve_rules_busy l l.non_fd_rules s r rs e lt endless) refl
