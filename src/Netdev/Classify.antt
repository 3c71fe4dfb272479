-- ===== src/Netdev/Classify.antt =====
-- `ena_netdev_classify_tx_pkt`. A byte is read through `byte_at`, so a read past the bytes of the packet
-- shows as `none`.
use lib_ena.Prelude.{
  ℕ, zero, suc, ◌+◌, ◌*◌, ◌^◌, bit_and, ◌==◌, ltb, leb, Bool, false, not, ◌&&◌, ◌||◌, if◌then◌else◌,
  Option, none, some, List, [], ◌∷◌,
}
use lib_ena.Tx.Submit.{TxPkt}
use lib_ena.Netdev.{Netbuf}

-- `ENA_ETH_IO_L3_PROTO_…` and `ENA_ETH_IO_L4_PROTO_…`
abbrev pub l3_unknown : ℕ
l3_unknown = 0

abbrev pub l3_ipv4 : ℕ
l3_ipv4 = 8

abbrev pub l3_ipv6 : ℕ
l3_ipv6 = 11

abbrev pub l4_unknown : ℕ
l4_unknown = 0

abbrev pub l4_tcp : ℕ
l4_tcp = 12

abbrev pub l4_udp : ℕ
l4_udp = 13

unfoldable pub byte_at : List ℕ → ℕ → Option ℕ
byte_at [] i = none
byte_at (x ∷ xs) zero = some x
byte_at (x ∷ xs) (suc i) = byte_at xs i

-- A big-endian word of two bytes.
unfoldable pub word_at : List ℕ → ℕ → Option ℕ
word_at bytes i = elim (byte_at bytes i) [
  | none ↦ none
  | some hi ↦ elim (byte_at bytes (i + 1)) [ none ↦ none | some lo ↦ some (hi * 2 ^ 8 + lo) ]
]

-- The transport of a protocol number.
abbrev pub l4_of : ℕ → ℕ
l4_of proto = if proto == 6 then l4_tcp else if proto == 17 then l4_udp else l4_unknown

-- The transport of a packet whose network header stands at `l3_off`, has `header` bytes and the
-- protocol number in byte `at` of them; a header that is cut short has none.
unfoldable pub transport : Netbuf → ℕ → ℕ → ℕ → Option ℕ
transport pkt l3_off header at =
    if leb (l3_off + header) pkt.len
    then elim (byte_at pkt.bytes (l3_off + at)) [ none ↦ none | some p ↦ some (l4_of p) ]
    else some l4_unknown

-- The two protocols by the type of the frame.
unfoldable pub protocols : Netbuf → ℕ → ℕ → Option (ℕ × ℕ)
protocols pkt ethertype l3_off =
    if ethertype == 0x0800
    then elim (transport pkt l3_off 20 9) [ none ↦ none | some l4 ↦ some (l3_ipv4, l4) ]
    else if ethertype == 0x86dd
    then elim (transport pkt l3_off 40 6) [ none ↦ none | some l4 ↦ some (l3_ipv6, l4) ]
    else some (l3_unknown, l4_unknown)

-- The protocols of a frame, a VLAN tag passed over.
unfoldable pub frame_protocols : Netbuf → Option (ℕ × ℕ)
frame_protocols pkt = elim (word_at pkt.bytes 12) [
  | none ↦ none
  | some ethertype ↦
      if ethertype == 0x8100 && leb 18 pkt.len
      then elim (word_at pkt.bytes 16) [ none ↦ none | some inner ↦ protocols pkt inner 18 ]
      else protocols pkt ethertype 14
]

-- A flag of a netbuf: `UK_NETBUF_F_PARTIAL_CSUM` and `UK_NETBUF_F_GSO_TCPV4`.
abbrev pub wants_csum : Netbuf → Bool
wants_csum pkt = not (bit_and pkt.flags 2 == 0)

abbrev pub wants_tso : Netbuf → Bool
wants_tso pkt = not (bit_and pkt.flags 4 == 0)

-- The checksum requests of a packet of known protocols.
unfoldable pub offload : Netbuf → ℕ × ℕ → TxPkt → TxPkt
offload pkt (l3, l4) t = record t {
  l3_proto = l3;
  l4_proto = l4;
  l3_csum_en = wants_csum pkt && l3 == l3_ipv4;
  l4_csum_en = wants_csum pkt && (l4 == l4_tcp || l4 == l4_udp);
  tso_en = wants_tso pkt || t.tso_en;
}

-- `ena_netdev_classify_tx_pkt`; `none` is a read past the bytes of the packet.
unfoldable pub classify_tx_pkt : Netbuf → TxPkt → Option TxPkt
classify_tx_pkt pkt t =
    if pkt.data_addr == 0 || ltb pkt.len 14
    then some (record t {
      l3_proto = l3_unknown;
      l4_proto = l4_unknown;
      l3_csum_en = false;
      l4_csum_en = false;
    })
    else elim (frame_protocols pkt) [ none ↦ none | some p ↦ some (offload pkt p t) ]
