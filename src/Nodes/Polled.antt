-- ===== src/Nodes/Polled.antt =====
-- What the admin URL of a node stands for.
use nox_indexer.Prelude.{
  ℕ, ◌+◌, ◌≤◌, ◌≡◌, refl, inl, inr, leb, Bool, true, Option, some, [], ◌++◌, leb→le, Bool-cases,
  Option-cases, ◌⊎◌,
}
use nox_indexer.Prelude.Text.{Text, text}
use nox_indexer.Nodes.Targets.{IpAddr, ip_allowed_with}
use nox_indexer.Nodes.Address.{parse_multiaddr, derive_admin_url_with}
use nox_indexer.Nodes.State.{OnChainNode, NodeState, from_chain_info, port_after}

module _ (sha256 : Text → ℕ) (parse_ip : Text → Option IpAddr) (show_socket : IpAddr → ℕ → Text)
    (allow_private : Bool) where
  -- The node's multiaddr holds an address that may be polled and a port below the largest; its admin
  -- URL is that address with the next port, which is also its admin port.
  pub record IsPolled (node : NodeState) : Type 0 where
    pub ip_text : Text
    pub tcp_port : ℕ
    pub ip : IpAddr
    pub parsed : parse_multiaddr node.p2p_addr ≡ some (ip_text, tcp_port)
    pub is_ip : parse_ip ip_text ≡ some ip
    pub allowed : ip_allowed_with ip allow_private ≡ true
    pub port_fits : tcp_port + 1 ≤ 65_535
    pub port : node.admin_port ≡ tcp_port + 1
    pub url : node.admin_url ≡ text "http://" ++ show_socket ip (tcp_port + 1)

  -- A node from the chain has no admin URL, or one that names an address that may be polled, with the
  -- TCP port of its multiaddr plus one.
  pub from_chain_info-IsPolled :
      (info : OnChainNode) (id : ℕ) (registry : Text)
      → ((from_chain_info sha256 parse_ip show_socket allow_private info id registry).admin_url
          ≡ [])
        ⊎ IsPolled (from_chain_info sha256 parse_ip show_socket allow_private info id registry)
  unfolding from_chain_info derive_admin_url_with
  from_chain_info-IsPolled info id registry = elim (Option-cases (parse_multiaddr info.url)) [
    | inl e ↦ inl (rw (e, derive_admin_url_with) refl)
    | inr ((ip_text, tcp_port), e) ↦ elim (Option-cases (parse_ip ip_text)) [
      | inl f ↦ inl (rw (e, derive_admin_url_with, f) refl)
      | inr (ip, f) ↦ elim (Bool-cases (leb (tcp_port + 1) 65_535)) [
        | inr big ↦ inl (rw (e, derive_admin_url_with, f, big) refl)
        | inl fits ↦ elim (Bool-cases (ip_allowed_with ip allow_private)) [
          | inr refused ↦ inl (rw (e, derive_admin_url_with, f, fits, refused) refl)
          | inl allowed' ↦ inr (record {
            ip_text = ip_text;
            tcp_port = tcp_port;
            ip = ip;
            parsed = e;
            is_ip = f;
            allowed = allowed';
            port_fits = leb→le (tcp_port + 1) 65_535 fits;
            port = rw (e, port_after, fits) refl;
            url = rw (e, derive_admin_url_with, f, fits, allowed') refl;
          })
        ]
      ]
    ]
  ]
