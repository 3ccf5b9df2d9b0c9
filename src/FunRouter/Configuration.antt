-- ===== src/FunRouter/Configuration.antt =====
-- The configuration of the router program.
use internet.Prelude.{
  ℕ, ◌≤◌, ◌<◌, ◌≡◌, refl, sym, ap, ◌∙◌, ◌≢◌, inl, inr, Option, none, some, List, [], ◌∷◌, ◌++◌,
  append-nil, append_assoc, arith, ◌==◌, ==_iff, Bool-cases, if_elim, length, All, length-append,
  All-append, Bytes, Exec, ok, fault, runtime_error, Holds, Holds-bind, Holds-ok, Holds-any,
}
use internet.FileDescriptor.{FdWrapper}
use internet.NetworkInterface
use internet.NetworkInterface.{NetworkInterface}
use internet.Router.{add_interface, add_route}
use internet.Wire.Ethernet.{EthernetAddress}
use internet.FunRouter.{
  split_from, split_config, same_string, index_of, random_router_ethernet_address, Setup, no_setup,
  new_interface, next_hop_of, new_route, interface_fields, route_fields, apply_fields, apply_each,
  apply_configs, interface_word, route_word,
}

-- Fields with colons between them.
abbrev pub join : List Bytes → Bytes
join [] = []
join (field ∷ []) = field
join (field ∷ next ∷ fields) = field ++ 58 ∷ join (next ∷ fields)

abbrev pub HasNoColon : Bytes → Type 0
HasNoColon field = All (λ ch. ch ≢ 58) field

split_from-cons :
    (field rest : Bytes) → (x : Bytes) × (xs : List Bytes) × (split_from field rest ≡ x ∷ xs)
unfolding split_from
split_from-cons field [] = (field, [], refl)
split_from-cons field (ch ∷ rest) = elim (Bool-cases (ch == 58)) [
  | inl e ↦ (field, split_from [] rest, rw e refl)
  | inr e ↦ let (x, xs, same) = split_from-cons (field ++ ch ∷ []) rest in (x, xs, rw e same)
]

join-cons :
    (field : Bytes) (fields : List Bytes) (x : Bytes) (xs : List Bytes)
    → fields ≡ x ∷ xs
    → join (field ∷ fields) ≡ field ++ 58 ∷ join fields
join-cons field fields x xs e = rw e refl

split_from_lem :
    (field rest : Bytes)
    → HasNoColon field
    → (join (split_from field rest) ≡ field ++ rest) × All HasNoColon (split_from field rest)
unfolding split_from
split_from_lem field [] h = (sym (append-nil field), (h, tt))
split_from_lem field (ch ∷ rest) h = elim (Bool-cases (ch == 58)) [
  | inl e ↦
      let (x, xs, same) = split_from-cons [] rest in
      let (joined, none_left) = split_from_lem [] rest tt in
      let colon : ch ≡ 58 = (==_iff ch 58).0 e in
      rw e (
        join-cons field (split_from [] rest) x xs same
            ∙ ap (λ r. field ++ 58 ∷ r) joined
            ∙ ap (λ c. field ++ c ∷ rest) (sym colon),
        (h, none_left),
      )
  | inr e ↦
      let other : ch ≢ 58 = ground arith in
      let (joined, none_left) =
        split_from_lem (field ++ ch ∷ []) rest
          (All-append (λ c. c ≢ 58) field (ch ∷ []) h (other, tt)) in
      rw e (joined ∙ append_assoc field (ch ∷ []) rest, none_left)
]

-- A text is cut at its colons, and nowhere else: the fields, joined by colons, are the text, and no
-- field has a colon.
pub join-split_config :
    (str : Bytes) → (join (split_config str) ≡ str) × All HasNoColon (split_config str)
unfolding split_config
join-split_config str = split_from_lem [] str tt

-- The sequences have the same length, and every name and every route is that of an interface.
pub record IsConfigured {A : Type 0} (s : Setup A) : Type 0 where
  pub ports : length s.ports ≡ length s.router.interfaces
  pub interfaces : length s.interfaces ≡ length s.router.interfaces
  pub names : All (λ e. e.1 < length s.router.interfaces) s.iface_name_to_idx
  pub routes : All (λ r. r.interface_num < length s.router.interfaces) s.router.routes

no_setup-IsConfigured : {A : Type 0} → IsConfigured (no_setup {A = A})
no_setup-IsConfigured = record { ports = refl; interfaces = refl; names = tt; routes = tt }

index_of-All :
    (bound : ℕ) (name : Bytes) (names : List (Bytes × ℕ)) (i : ℕ)
    → All (λ e. e.1 < bound) names
    → index_of name names ≡ some i
    → i < bound
unfolding index_of
index_of-All bound name [] i h e = absurd (ground arith)
index_of-All bound name ((other, j) ∷ names) i (lt, h) e =
    ground (arith, index_of-All bound name names i h)

All-mono :
    {B : Type 0} (f : B → ℕ) (bound bound' : ℕ) (bs : List B)
    → bound ≤ bound'
    → All (λ b. f b < bound) bs
    → All (λ b. f b < bound') bs
All-mono f bound bound' [] le h = tt
All-mono f bound bound' (b ∷ bs) le (lt, h) = (omega arith, All-mono f bound bound' bs le h)

Holds-none :
    {A B : Type 0} (P : A → Type 0) (o : Option B) (m : Exec A)
    → Holds P m
    → Holds P (elim o [ some i ↦ fault runtime_error | none ↦ m ])
Holds-none P none m h = h
Holds-none P (some i) m h = tt

Holds-some :
    {A B : Type 0} (P : A → Type 0) (o : Option B) (k : B → Exec A)
    → ((b : B) → o ≡ some b → Holds P (k b))
    → Holds P (elim o [ none ↦ fault runtime_error | some b ↦ k b ])
Holds-some P none k h = tt
Holds-some P (some b) k h = h b refl

module _ {A : Type 0} (address : Bytes → Exec ℕ) (stoi : Bytes → Exec ℕ)
    (physical_address : Bytes → Bytes → Exec A) (bound_socket : Bytes → Exec FdWrapper)
    (random : ℕ → EthernetAddress) where
  new_interface-IsConfigured :
      (name addr local dest port : Bytes) (s : Setup A)
      → IsConfigured s
      → Holds IsConfigured (
          new_interface address stoi physical_address bound_socket random name addr local dest port
            s)
  unfolding new_interface add_interface
  new_interface-IsConfigured name addr local dest port s c =
      Holds-none IsConfigured (index_of name s.iface_name_to_idx) _ (
        Holds-bind (λ _. Unit {0}) IsConfigured (physical_address dest port) _
          (Holds-any (physical_address dest port))
          λ physical_dest _.
            Holds-bind (λ _. Unit {0}) IsConfigured (bound_socket local) _
              (Holds-any (bound_socket local))
              λ socket _.
                Holds-bind (λ _. Unit {0}) IsConfigured (address addr) _ (Holds-any (address addr))
                  λ ip _. added socket physical_dest ip)
    where
      added :
          (socket : FdWrapper) (physical_dest : A) (ip : ℕ)
          → IsConfigured (record {
            router = record (s.router) {
              interfaces =
                  s.router.interfaces
                  ++ NetworkInterface.init
                      (random_router_ethernet_address (random (length s.interfaces)))
                      ip
                    ∷ [];
            };
            ports = s.ports ++ record { socket = socket; physical_dest = physical_dest } ∷ [];
            interfaces = s.interfaces ++ length s.router.interfaces ∷ [];
            iface_name_to_idx = (name, length s.interfaces) ∷ s.iface_name_to_idx;
          })
      added socket physical_dest ip =
          let n = length s.router.interfaces in
          let iface =
            NetworkInterface.init (random_router_ethernet_address (random (length s.interfaces)))
              ip in
          let more = length-append s.router.interfaces (iface ∷ []) in
          let p = c.ports in
          let q = c.interfaces in
          record {
            ports = omega (
              arith,
              more,
              length-append s.ports
                  (record { socket = socket; physical_dest = physical_dest } ∷ []),
            );
            interfaces = omega (arith, more, length-append s.interfaces (n ∷ []));
            names = (
              omega (arith, more),
              All-mono (λ e. e.1) n _ s.iface_name_to_idx (omega (arith, more)) c.names,
            );
            routes =
                All-mono (λ r. r.interface_num) n _ s.router.routes (omega (arith, more)) c.routes;
          }

  new_route-IsConfigured :
      (prefix_addr prefix_len name : Bytes) (hop : List Bytes) (s : Setup A)
      → IsConfigured s
      → Holds IsConfigured (
          new_route address stoi physical_address bound_socket random prefix_addr prefix_len name
            hop s)
  unfolding new_route add_route
  new_route-IsConfigured prefix_addr prefix_len name hop s c =
      let hops = next_hop_of address stoi physical_address bound_socket random hop in
      Holds-bind (λ _. Unit {0}) IsConfigured hops _ (Holds-any hops)
        λ next_hop _. Holds-some IsConfigured (index_of name s.iface_name_to_idx) _ λ i found.
          Holds-bind (λ _. Unit {0}) IsConfigured (address prefix_addr) _
            (Holds-any (address prefix_addr))
            λ route_prefix _.
              Holds-bind (λ _. Unit {0}) IsConfigured (stoi prefix_len) _
                (Holds-any (stoi prefix_len))
                λ prefix_length _. record {
                  ports = c.ports;
                  interfaces = c.interfaces;
                  names = c.names;
                  routes =
                      All-append (λ r. r.interface_num < length s.router.interfaces) s.router.routes
                        _ c.routes
                        (
                          index_of-All (length s.router.interfaces) name s.iface_name_to_idx i
                              c.names found,
                          tt,
                        );
                }

  interface_fields-IsConfigured :
      (fields : List Bytes) (s : Setup A)
      → IsConfigured s
      → Holds IsConfigured
          (interface_fields address stoi physical_address bound_socket random fields s)
  unfolding interface_fields
  interface_fields-IsConfigured (name ∷ addr ∷ local ∷ dest ∷ port ∷ []) s c =
      new_interface-IsConfigured name addr local dest port s c
  interface_fields-IsConfigured fields s c = tt

  route_fields-IsConfigured :
      (fields : List Bytes) (s : Setup A)
      → IsConfigured s
      → Holds IsConfigured (route_fields address stoi physical_address bound_socket random fields s)
  unfolding route_fields
  route_fields-IsConfigured (addr ∷ len ∷ name ∷ []) s c =
      new_route-IsConfigured addr len name [] s c
  route_fields-IsConfigured (addr ∷ len ∷ name ∷ hop ∷ []) s c =
      new_route-IsConfigured addr len name (hop ∷ []) s c
  route_fields-IsConfigured fields s c = tt

  apply_fields-IsConfigured :
      (fields : List Bytes) (s : Setup A)
      → IsConfigured s
      → Holds IsConfigured (apply_fields address stoi physical_address bound_socket random fields s)
  unfolding apply_fields
  apply_fields-IsConfigured [] s c = tt
  apply_fields-IsConfigured (word ∷ fields) s c =
      if_elim (Holds IsConfigured) (same_string word interface_word) _ _
        (λ _. interface_fields-IsConfigured fields s c)
        λ _.
          if_elim (Holds IsConfigured) (same_string word route_word) _ _
            (λ _. route_fields-IsConfigured fields s c) λ _. tt

  apply_each-IsConfigured :
      (configs : List Bytes) (s : Setup A)
      → IsConfigured s
      → Holds IsConfigured (apply_each address stoi physical_address bound_socket random configs s)
  unfolding apply_each
  apply_each-IsConfigured [] s c = c
  apply_each-IsConfigured (config ∷ configs) s c =
      Holds-bind IsConfigured IsConfigured
        (apply_fields address stoi physical_address bound_socket random (split_config config) s) _
        (apply_fields-IsConfigured (split_config config) s c)
        λ s' c'. apply_each-IsConfigured configs s' c'

  -- Whatever the arguments are, if the configuration is accepted, there is a port for each
  -- interface, and every route leads to an interface that exists.
  pub apply_configs-IsConfigured :
      (configs : List Bytes) (s : Setup A)
      → apply_configs address stoi physical_address bound_socket random configs no_setup ≡ ok s
      → IsConfigured s
  unfolding apply_configs
  apply_configs-IsConfigured [] s e = absurd cc
  apply_configs-IsConfigured (config ∷ configs) s e =
      Holds-ok IsConfigured _ s
        (apply_each-IsConfigured (config ∷ configs) no_setup no_setup-IsConfigured) e
