-- ===== src/EventLoop.antt =====
-- util/eventloop.hh and util/eventloop.cc: rules with callbacks, and one round of waiting. What
-- the callbacks reach is a store: the program's own state `W`, what the descriptors say of
-- themselves, and for each rule whether it was cancelled. A rule is known by a number, as its
-- handle points to it; the handle of a rule that is gone does nothing, and so does its mark here.
-- Callbacks add no rules, and asking for interest changes nothing. `poll` and `getsockopt` are
-- parameters.
pub mod Safety
pub mod Rounds
use internet.Prelude.{
  ℕ, zero, suc, ◌+◌, Bool, true, false, ◌&&◌, ◌||◌, not, Option, none, some, List, [], ◌∷◌, ◌++◌,
  leb, ◌==◌, if◌then◌else◌, length, get_elem?, Bytes, Exec, ok, fault, runtime_error, out_of_range,
  ◌>>=◌, ◌>>◌,
}
use internet.FileDescriptor.{FdWrapper}

pub data Direction : Type 0 where
  direction_in direction_out : Direction

pub data Result : Type 0 where
  success timeout exit : Result

pub record Store (W : Type 0) : Type 0 where
  pub world : W
  pub files : ℕ → FdWrapper
  pub cancel_requested : ℕ → Bool

pub record BasicRule (W : Type 0) : Type 0 where
  pub handle : ℕ
  pub category_id : ℕ
  pub interest : Store W → Bool
  pub callback : Store W → Exec (Store W)

-- `fd` is the key of the descriptor in the store.
pub record FdRule (W : Type 0) : Type 0 where
  pub rule : BasicRule W
  pub fd : ℕ
  pub direction : Direction
  pub cancel : Store W → Exec (Store W)
  pub error : Store W → Exec (Store W)

-- `capacity` is that of the vector of categories.
pub record EventLoop (W : Type 0) : Type 0 where
  pub rule_categories : List Bytes
  pub capacity : ℕ
  pub fd_rules : List (FdRule W)
  pub non_fd_rules : List (BasicRule W)
  pub next_handle : ℕ

-- What is asked of `poll`, with no event or one, and what it says.
pub record PollFd : Type 0 where
  pub fd : ℕ
  pub events : Option Direction

pub record Revents : Type 0 where
  pub pollin : Bool
  pub pollout : Bool
  pub pollerr : Bool
  pub pollnval : Bool
  pub pollhup : Bool

-- How `getsockopt` ends: with an error number, 0 for none.
pub data SocketOption : Type 0 where
  not_socket failed wrong_length : SocketOption
  socket_error : ℕ → SocketOption

unfoldable pub is_in : Direction → Bool
is_in direction_in = true
is_in direction_out = false

-- `revents & events`.
unfoldable pub poll_ready : Option Direction → Revents → Bool
poll_ready none r = false
poll_ready (some direction_in) r = r.pollin
poll_ready (some direction_out) r = r.pollout

unfoldable pub has_events : Option Direction → Bool
has_events none = false
has_events (some d) = true

module _ {W : Type 0} where
  unfoldable pub init : ℕ → EventLoop W
  init capacity = record {
    rule_categories = [];
    capacity = capacity;
    fd_rules = [];
    non_fd_rules = [];
    next_handle = 0;
  }

  unfoldable pub service_count : FdRule W → Store W → ℕ
  unfolding is_in
  service_count r s =
      if is_in r.direction then (s.files r.fd).read_count else (s.files r.fd).write_count

  unfoldable pub add_category : Bytes → EventLoop W → Exec (ℕ × EventLoop W)
  add_category name l =
      if leb l.capacity (length l.rule_categories)
      then fault runtime_error
      else ok
          (length l.rule_categories, record l { rule_categories = l.rule_categories ++ name ∷ [] })

  -- A rule on a descriptor; the result is its handle.
  unfoldable pub add_fd_rule :
      ℕ
      → ℕ
      → Direction
      → (callback : Store W → Exec (Store W)) → (interest : Store W → Bool)
      → (cancel error : Store W → Exec (Store W)) → EventLoop W
      → Exec (ℕ × EventLoop W)
  add_fd_rule category_id fd direction callback interest cancel error l =
      if leb (length l.rule_categories) category_id
      then fault out_of_range
      else ok (
        l.next_handle,
        record l {
          fd_rules =
              l.fd_rules
              ++ record {
                rule = record {
                  handle = l.next_handle;
                  category_id = category_id;
                  interest = interest;
                  callback = callback;
                };
                fd = fd;
                direction = direction;
                cancel = cancel;
                error = error;
              }
                ∷ [];
          next_handle = l.next_handle + 1;
        },
      )

  unfoldable pub add_basic_rule :
      ℕ
      → (callback : Store W → Exec (Store W)) → (interest : Store W → Bool) → EventLoop W
      → Exec (ℕ × EventLoop W)
  add_basic_rule category_id callback interest l =
      if leb (length l.rule_categories) category_id
      then fault out_of_range
      else ok (
        l.next_handle,
        record l {
          non_fd_rules =
              l.non_fd_rules
              ++ record {
                handle = l.next_handle;
                category_id = category_id;
                interest = interest;
                callback = callback;
              }
                ∷ [];
          next_handle = l.next_handle + 1;
        },
      )

  -- `RuleHandle::cancel`.
  unfoldable pub cancel_rule : ℕ → Store W → Store W
  cancel_rule handle s = record s {
    cancel_requested = λ other. if handle == other then true else s.cancel_requested other;
  }

  -- `_rule_categories.at( category_id ).name`.
  unfoldable pub category_name : EventLoop W → ℕ → Exec Bytes
  category_name l i = elim (get_elem? l.rule_categories i) [
    | none ↦ fault out_of_range
    | some name ↦ ok name
  ]

  -- The exception that tells of a busy wait names the category.
  unfoldable pub busy_wait : {A : Type 0} → EventLoop W → BasicRule W → Exec A
  unfolding category_name
  busy_wait l r = category_name l r.category_id >>= λ _. fault runtime_error

  -- The loop over one rule; `left` more iterations are allowed.
  unfoldable pub serve_rule : EventLoop W → BasicRule W → ℕ → Bool → Store W → Exec (Bool × Store W)
  unfolding busy_wait
  serve_rule l r zero fired s = if r.interest s then busy_wait l r else ok (fired, s)
  serve_rule l r (suc left) fired s =
      if r.interest s then (r.callback s >>= λ s'. serve_rule l r left true s') else ok (fired, s)

  -- The loop over the rules that have no descriptor, up to the first that is served.
  unfoldable pub serve_rules :
      EventLoop W → List (BasicRule W) → Store W → Exec (Bool × List (BasicRule W) × Store W)
  unfolding serve_rule
  serve_rules l [] s = ok (false, [], s)
  serve_rules l (r ∷ rs) s =
      if s.cancel_requested r.handle
      then serve_rules l rs s
      else (serve_rule l r 128 false s >>= λ (fired, s').
          if fired
          then ok (true, r ∷ rs, s')
          else (serve_rules l rs s' >>= λ (served, rs', s''). ok (served, r ∷ rs', s'')))

  -- Whether a rule's descriptor has nothing more to read or is closed.
  unfoldable pub is_defunct : FdRule W → Store W → Bool
  unfolding is_in
  is_defunct r s = (is_in r.direction && (s.files r.fd).eof) || (s.files r.fd).closed

  unfoldable pub poll_fd : FdRule W → Store W → PollFd
  poll_fd r s = record {
    fd = (s.files r.fd).fd;
    events = if r.rule.interest s then some r.direction else none;
  }

  -- The loop that sets up the descriptors to poll: the rules that stay, their descriptors, and
  -- whether there is something to poll.
  unfoldable pub set_up :
      List (FdRule W) → Store W → Exec (List (FdRule W) × List PollFd × Bool × Store W)
  unfolding is_defunct poll_fd
  set_up [] s = ok ([], [], false, s)
  set_up (r ∷ rs) s =
      if s.cancel_requested r.rule.handle
      then set_up rs s
      else (if is_defunct r s
          then (r.cancel s >>= λ s'. set_up rs s')
          else (set_up rs s >>= λ (rs', fds, something, s').
              ok (r ∷ rs', poll_fd r s ∷ fds, r.rule.interest s || something, s')))

  -- What is done when `poll` tells of an error; what it prints is not modelled, the name it looks
  -- up is.
  unfoldable pub report : EventLoop W → FdRule W → SocketOption → Exec (Unit {0})
  unfolding category_name
  report l r not_socket = category_name l r.rule.category_id >>= λ _. ok tt
  report l r failed = fault runtime_error
  report l r wrong_length = fault runtime_error
  report l r (socket_error e) =
      if e == 0 then ok tt else (category_name l r.rule.category_id >>= λ _. ok tt)

  -- Only a hangup was told, or the rule is for writing.
  unfoldable pub is_hung_up : FdRule W → PollFd → Revents → Bool
  unfolding is_in has_events poll_ready
  is_hung_up r p e =
      e.pollhup && ((has_events p.events && not (poll_ready p.events e)) || not (is_in r.direction))

  -- A callback that leaves the counter and the interest as they were.
  unfoldable pub is_idle : FdRule W → Store W → Store W → Bool
  unfolding service_count
  is_idle r s s' =
      (service_count r s == service_count r s') && not (s'.files r.fd).closed && r.rule.interest s'

  -- The loop over what `poll` tells; `at` is the index of the first rule.
  unfoldable pub serve_polled :
      EventLoop W
      → (ℕ → SocketOption)
      → List (PollFd × Revents)
      → ℕ
      → List (FdRule W)
      → Store W
      → Exec (List (FdRule W) × Store W)
  unfolding report is_hung_up poll_ready is_idle busy_wait
  serve_polled l getsockopt polled at [] s = ok ([], s)
  serve_polled l getsockopt polled at (r ∷ rs) s = elim (get_elem? polled at) [
    | none ↦ fault out_of_range
    | some (p, e) ↦
        let erased : Store W → Exec (List (FdRule W) × Store W) =
          serve_polled l getsockopt polled (at + 1) rs in
        if e.pollerr || e.pollnval
        then (report l r (getsockopt (s.files r.fd).fd)
            >> (r.error s >>= λ s'. r.cancel s' >>= λ s''. erased s''))
        else (if is_hung_up r p e
            then (r.cancel s >>= λ s'. erased s')
            else (if poll_ready p.events e
                then (r.rule.callback s >>= λ s'.
                    if is_idle r s s' then busy_wait l r.rule else ok (r ∷ rs, s'))
                else (serve_polled l getsockopt polled (at + 1) rs s >>= λ (rs', s').
                    ok (r ∷ rs', s'))))
  ]

  -- The rest of `wait_next_event`, when no rule without a descriptor was served. `poll` returns
  -- how many descriptors have events and what they are.
  unfoldable pub wait_for_poll :
      (poll : List PollFd → ℕ → Exec (ℕ × List (PollFd × Revents)))
      → (getsockopt : ℕ → SocketOption) → ℕ
      → EventLoop W
      → Store W
      → Exec (Result × EventLoop W × Store W)
  unfolding set_up serve_polled
  wait_for_poll poll getsockopt timeout_ms l s = set_up l.fd_rules s >>= λ (rs, fds, something, s').
      if not something
      then ok (exit, record l { fd_rules = rs }, s')
      else (poll fds timeout_ms >>= λ (count, polled).
          if count == 0
          then ok (timeout, record l { fd_rules = rs }, s')
          else (serve_polled l getsockopt polled 0 rs s' >>= λ (rs', s'').
              ok (success, record l { fd_rules = rs' }, s'')))

  unfoldable pub wait_next_event :
      (poll : List PollFd → ℕ → Exec (ℕ × List (PollFd × Revents)))
      → (getsockopt : ℕ → SocketOption) → ℕ
      → EventLoop W
      → Store W
      → Exec (Result × EventLoop W × Store W)
  unfolding serve_rules wait_for_poll
  wait_next_event poll getsockopt timeout_ms l s =
      serve_rules l l.non_fd_rules s >>= λ (fired, rs, s').
      let l' = record l { non_fd_rules = rs } in
      if fired then ok (success, l', s') else wait_for_poll poll getsockopt timeout_ms l' s'
