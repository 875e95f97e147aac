-- ===== src/Nodes/Stored.antt =====
-- A node that was written to its row and loaded again.
use Prim.Native.Nat
use nox_indexer.Prelude.{
  ℕ, ◌%◌, ◌+◌, ◌≤◌, ◌<◌, ◌≡◌, refl, sym, leb, Bool, true, false, Option, none, some, [], ◌∷◌,
  if◌then◌else◌, arith, leb→le,
}
use nox_indexer.Prelude.Text.{Text, is_empty, to_lowercase, to_lowercase-idempotent}
use nox_indexer.Sync.Status.{i64_max}
use nox_indexer.Nodes.Status.{NodeStatus, online, offline, deregistered, as_str, from_str}
use nox_indexer.Nodes.Targets.{IpAddr}
use nox_indexer.Nodes.Address.{parse_multiaddr}
use nox_indexer.Nodes.State.{
  OnChainNode, primary_layer_for_role, from_row, from_chain_info, row_of, port_after,
  derive_admin_url,
}

-- A status read from its text is the status.
pub from_str-as_str : (s : NodeStatus) → from_str (as_str s) ≡ s
unfolding from_str as_str
from_str-as_str online = refl
from_str-as_str offline = refl
from_str-as_str deregistered = refl

small_port : (n : ℕ) → n < 65_536 → n % 65_536 ≡ n
small_port n h = omega arith

small_role : (n : ℕ) → n < 256 → n % 256 ≡ n
small_role n h = omega arith

default_url : (u v : Text) → u ≡ v → (if is_empty u then v else u) ≡ u
default_url [] v e = sym e
default_url (c ∷ s) v e = refl

module _ (sha256 : Text → ℕ) (parse_ip : Text → Option IpAddr) (show_socket : IpAddr → ℕ → Text)
    (allow_private : Bool) where
  checked_port :
      (n p : ℕ) (b : Bool) → leb (p + n) 65_535 ≡ b → port_after n (some ([], p)) < 65_536
  checked_port n p true e = rw (e, port_after) (let le = leb→le (p + n) 65_535 e in omega arith)
  checked_port n p false e = rw (e, port_after) (omega arith)

  port_bound : (n : ℕ) (parsed : Option (Text × ℕ)) → port_after n parsed < 65_536
  port_bound n none = omega arith
  port_bound n (some (ip, p)) = checked_port n p (leb (p + n) 65_535) refl

  layer_of_lower :
      (role : ℕ) (address : Text)
      → primary_layer_for_role sha256 role (to_lowercase address)
        ≡ primary_layer_for_role sha256 role address
  unfolding primary_layer_for_role
  layer_of_lower role address = rw (to_lowercase-idempotent address) refl

  -- A node built from the chain, with any status, whose role is a byte and whose chain id is within
  -- an i64, is the node that its stored row loads.
  pub from_row-row_of :
      (info : OnChainNode) (id : ℕ) (registry : Text) (s : NodeStatus)
      → info.role < 256
      → id ≤ i64_max
      → from_row sha256 parse_ip show_socket allow_private (
          row_of
            (record (from_chain_info sha256 parse_ip show_socket allow_private info id registry) {
              status = s;
            }))
        ≡ record (from_chain_info sha256 parse_ip show_socket allow_private info id registry) {
          status = s;
        }
  unfolding from_row row_of from_chain_info
  from_row-row_of info id registry s r i =
      rw
        (
          small_port (port_after 1 (parse_multiaddr info.url))
              (port_bound 1 (parse_multiaddr info.url)),
          small_port (port_after 2 (parse_multiaddr info.url))
              (port_bound 2 (parse_multiaddr info.url)),
          small_role info.role r,
          layer_of_lower info.role info.address,
          from_str-as_str s,
          default_url (derive_admin_url sha256 parse_ip show_socket allow_private info.url)
              (derive_admin_url sha256 parse_ip show_socket allow_private info.url) refl,
        )
        (let m : Nat.min id i64_max ≡ id = omega arith in rw m refl)
