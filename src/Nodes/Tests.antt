-- ===== src/Nodes/Tests.antt =====
-- A node with a public address, and addresses on both sides of the special-purpose blocks.
use nox_indexer.Prelude.{ℕ, ◌≡◌, refl, ◌⊎◌, true, false, not, Option, some, [], arith}
use nox_indexer.Prelude.Text.{Text, text}
use nox_indexer.Nodes.Status.{online}
use nox_indexer.Nodes.Targets.{Ipv4Addr, IpAddr, v4, is_public_v4}
use nox_indexer.Nodes.Ranges.{special, number, in_any, is_public_v4-eq}
use nox_indexer.Nodes.Address.{parse_multiaddr}
use nox_indexer.Nodes.State.{OnChainNode, from_row, row_of, from_chain_info}
use nox_indexer.Nodes.Stored.{from_row-row_of}
use nox_indexer.Nodes.Polled.{IsPolled, from_chain_info-IsPolled}

abbrev info : OnChainNode
info = record {
  address = text "0xAB00000000000000000000000000000000000001";
  url = text "/ip4/8.8.8.8/tcp/9000";
  ingress_url = [];
  metadata_url = [];
  sphinx_key = text "00";
  role = 3;
  frozen = false;
}

abbrev sha256 : Text → ℕ
sha256 t = 7

abbrev dns : Ipv4Addr
dns = record { a = 8; b = 8; c = 8; d = 8 }

abbrev parse_ip : Text → Option IpAddr
parse_ip t = some (v4 dns)

abbrev show_socket : IpAddr → ℕ → Text
show_socket ip port = text "8.8.8.8:9001"

is_public_v4-eq_example :
    is_public_v4 (record { a = 100; b = 64; c = 0; d = 1 })
    ≡ not (in_any special (number 100 64 0 1))
is_public_v4-eq_example =
    is_public_v4-eq 100 64 0 1 (omega arith) (omega arith) (omega arith) (omega arith)

shared_is_private : is_public_v4 (record { a = 100; b = 127; c = 255; d = 255 }) ≡ false
unfolding is_public_v4
shared_is_private = refl

dns_is_public : is_public_v4 dns ≡ true
unfolding is_public_v4
dns_is_public = refl

parses : parse_multiaddr info.url ≡ some (text "8.8.8.8", 9000)
unfolding parse_multiaddr
parses = refl

from_row-row_of_example :
    from_row sha256 parse_ip show_socket false (
      row_of (record (from_chain_info sha256 parse_ip show_socket false info 10 (text "0xC0")) {
        status = online;
      }))
    ≡ record (from_chain_info sha256 parse_ip show_socket false info 10 (text "0xC0")) {
      status = online;
    }
from_row-row_of_example =
    from_row-row_of sha256 parse_ip show_socket false info 10 (text "0xC0") online (omega arith)
      (omega arith)

from_chain_info-IsPolled_example :
    ((from_chain_info sha256 parse_ip show_socket false info 10 (text "0xC0")).admin_url ≡ [])
    ⊎ IsPolled sha256 parse_ip show_socket false
        (from_chain_info sha256 parse_ip show_socket false info 10 (text "0xC0"))
from_chain_info-IsPolled_example =
    from_chain_info-IsPolled sha256 parse_ip show_socket false info 10 (text "0xC0")
