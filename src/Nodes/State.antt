-- ===== src/Nodes/State.antt =====
-- `NodeState` of src/state.rs, built from the chain and from a stored row, and the row that
-- src/db.rs writes. The coordinates, which an external database supplies, are left out. An address
-- text is ASCII.
use Prim.Native.Nat
use nox_indexer.Prelude.{
  ℕ, ◌-◌, ◌%◌, ◌==◌, leb, Bool, Option, none, some, [], ◌∷◌, ◌++◌, if◌then◌else◌, length,
}
use nox_indexer.Prelude.Int.{ℤ, pos, negsuc}
use nox_indexer.Prelude.Text.{Text, text, to_lowercase, drop_text, is_empty}
use nox_indexer.Sync.Status.{i64_max}
use nox_indexer.Nodes.Status.{NodeStatus, offline, as_str, from_str}
use nox_indexer.Nodes.Targets.{IpAddr}
use nox_indexer.Nodes.Address.{parse_multiaddr, checked_add, derive_admin_url_with}

-- `OnChainNode` of src/chain/mod.rs.
pub record OnChainNode : Type 0 where
  pub address : Text
  pub url : Text
  pub ingress_url : Text
  pub metadata_url : Text
  pub sphinx_key : Text
  pub role : ℕ
  pub frozen : Bool

pub record NodeState : Type 0 where
  pub id : Text
  pub address : Text
  pub admin_port : ℕ
  pub ingress_port : ℕ
  pub p2p_addr : Text
  pub sphinx_key : Text
  pub admin_url : Text
  pub ingress_url : Text
  pub metadata_url : Text
  pub status : NodeStatus
  pub role : ℕ
  pub layer : ℕ
  pub frozen : Bool
  pub registry_address : Text
  pub chain_id : ℕ

-- `NodeRow` of src/db.rs: the columns of a row that are read, whose numbers are signed.
pub record NodeRow : Type 0 where
  pub address : Text
  pub id : Text
  pub admin_port : ℤ
  pub ingress_port : ℤ
  pub p2p_addr : Text
  pub sphinx_key : Text
  pub admin_url : Text
  pub ingress_url : Text
  pub metadata_url : Text
  pub status : Text
  pub role : ℤ
  pub frozen : Bool
  pub registry_address : Text
  pub chain_id : ℤ

abbrev pub take_text : ℕ → Text → Text
take_text n [] = []
take_text ℕ.zero (c ∷ s) = []
take_text (ℕ.suc n) (c ∷ s) = c ∷ take_text n s

-- `x as u16` and the like, modulo a power of two.
abbrev pub cast : ℕ → ℤ → ℕ
cast m (pos n) = n % m
cast m (negsuc n) = m - 1 - n % m

-- `u64::try_from(n).unwrap_or_default()`
abbrev pub u64_or_default : ℤ → ℕ
u64_or_default (pos n) = n
u64_or_default (negsuc n) = 0

-- `parsed.and_then(|(_, p)| p.checked_add(n)).unwrap_or(0)`
abbrev pub port_after : ℕ → Option (Text × ℕ) → ℕ
port_after n none = 0
port_after n (some (ip, p)) = elim (checked_add p n) [ none ↦ 0 | some port ↦ port ]

abbrev pub id_of : Text → Text
id_of address =
    if leb 10 (length address)
    then text "nox-" ++ take_text 8 (drop_text 2 address)
    else text "nox-" ++ address

-- The first byte of the SHA-256 digest of a text is a parameter.
module _ (sha256 : Text → ℕ) where
  unfoldable pub primary_layer_for_role : ℕ → Text → ℕ
  primary_layer_for_role role address =
      if role == 2
      then 2
      else if role == 1
      then sha256 (to_lowercase address) % 2
      else sha256 (to_lowercase address) % 3

  module _ (parse_ip : Text → Option IpAddr) (show_socket : IpAddr → ℕ → Text)
      (allow_private : Bool) where
    abbrev pub derive_admin_url : Text → Text
    derive_admin_url multiaddr = derive_admin_url_with parse_ip show_socket multiaddr allow_private

    -- `NodeState::from(row)`
    unfoldable pub from_row : NodeRow → NodeState
    unfolding primary_layer_for_role from_str
    from_row row = record {
      id = row.id;
      address = row.address;
      admin_port = cast 65_536 row.admin_port;
      ingress_port = cast 65_536 row.ingress_port;
      p2p_addr = row.p2p_addr;
      sphinx_key = row.sphinx_key;
      admin_url = if is_empty row.admin_url then derive_admin_url row.p2p_addr else row.admin_url;
      ingress_url = row.ingress_url;
      metadata_url = row.metadata_url;
      status = from_str row.status;
      role = cast 256 row.role;
      layer = primary_layer_for_role (cast 256 row.role) row.address;
      frozen = row.frozen;
      registry_address = row.registry_address;
      chain_id = u64_or_default row.chain_id;
    }

    unfoldable pub from_chain_info : OnChainNode → ℕ → Text → NodeState
    unfolding primary_layer_for_role parse_multiaddr
    from_chain_info info chain_id registry_address = record {
      id = id_of info.address;
      address = to_lowercase info.address;
      admin_port = port_after 1 (parse_multiaddr info.url);
      ingress_port = port_after 2 (parse_multiaddr info.url);
      p2p_addr = info.url;
      sphinx_key = info.sphinx_key;
      admin_url = derive_admin_url info.url;
      ingress_url = info.ingress_url;
      metadata_url = info.metadata_url;
      status = offline;
      role = info.role;
      layer = primary_layer_for_role info.role info.address;
      frozen = info.frozen;
      registry_address = to_lowercase registry_address;
      chain_id = chain_id;
    }

-- The columns that `upsert_node` binds and that are read back; the layer is not.
unfoldable pub row_of : NodeState → NodeRow
unfolding as_str
row_of node = record {
  address = node.address;
  id = node.id;
  admin_port = pos node.admin_port;
  ingress_port = pos node.ingress_port;
  p2p_addr = node.p2p_addr;
  sphinx_key = node.sphinx_key;
  admin_url = node.admin_url;
  ingress_url = node.ingress_url;
  metadata_url = node.metadata_url;
  status = as_str node.status;
  role = pos node.role;
  frozen = node.frozen;
  registry_address = node.registry_address;
  chain_id = pos (Nat.min node.chain_id i64_max);
}
