-- ===== src/Netdev/Classified.antt =====
-- What `ena_netdev_classify_tx_pkt` makes of a packet.
use lib_ena.Prelude.{
  ℕ, zero, suc, ◌+◌, ◌*◌, ◌^◌, ◌≤◌, ◌<◌, ◌≡◌, ◌≢◌, refl, Bool, true, false, ◌&&◌, ◌||◌, ◌==◌, ltb,
  leb, ◌↔◌, sym, ap, ◌∙◌, some_injective, ◌⊎◌, inl, inr, some, List, [], ◌∷◌, length, Bool-cases,
  arith,
}
use lib_ena.Tx.Submit.{TxPkt}
use lib_ena.Netdev.{Netbuf}
use lib_ena.Netdev.Classify.{
  l3_unknown, l3_ipv4, l3_ipv6, l4_unknown, l4_tcp, l4_udp, byte_at, word_at, l4_of, transport,
  protocols, frame_protocols, wants_csum, wants_tso, offload, classify_tx_pkt,
}

pub byte_at_total : (xs : List ℕ) (i : ℕ) → i < length xs → (b : ℕ) × (byte_at xs i ≡ some b)
unfolding byte_at
byte_at_total [] i h = absurd (omega arith)
byte_at_total (x ∷ xs) zero h = (x, refl)
byte_at_total (x ∷ xs) (suc i) h = byte_at_total xs i (omega arith)

word_at_total : (xs : List ℕ) (i : ℕ) → i + 1 < length xs → (w : ℕ) × (word_at xs i ≡ some w)
unfolding word_at
word_at_total xs i h =
    let (hi, e) = byte_at_total xs i (omega arith) in
    let (lo, f) = byte_at_total xs (i + 1) h in (hi * 2 ^ 8 + lo, rw (e, word_at) (rw f refl))

-- Where the network header of a frame starts, and its type: after a VLAN tag, if the frame has one
-- whole.
abbrev pub Tagged : Netbuf → Type 0
Tagged pkt = (word_at pkt.bytes 12 ≡ some 0x8100) × (18 ≤ pkt.len)

pub data Header (pkt : Netbuf) (ethertype l3_off : ℕ) : Type 0 where
  plain :
      ¬ Tagged pkt
      → word_at pkt.bytes 12 ≡ some ethertype
      → l3_off ≡ 14
      → Header pkt ethertype l3_off
  tagged :
      Tagged pkt → word_at pkt.bytes 16 ≡ some ethertype → l3_off ≡ 18 → Header pkt ethertype l3_off

-- The transport that a header gives: that of the protocol number, if the header is whole.
pub record Carries (pkt : Netbuf) (l3_off header at l4 : ℕ) : Type 0 where
  pub whole :
      l3_off + header ≤ pkt.len
      → (p : ℕ) × (byte_at pkt.bytes (l3_off + at) ≡ some p) × (l4 ≡ l4_of p)
  pub cut : pkt.len < l3_off + header → l4 ≡ l4_unknown

-- The protocols that the type of a frame gives.
pub data Named (pkt : Netbuf) (l3_off ethertype l3 l4 : ℕ) : Type 0 where
  ipv4 :
      ethertype ≡ 0x0800
      → l3 ≡ l3_ipv4
      → Carries pkt l3_off 20 9 l4
      → Named pkt l3_off ethertype l3 l4
  ipv6 :
      ethertype ≡ 0x86dd
      → l3 ≡ l3_ipv6
      → Carries pkt l3_off 40 6 l4
      → Named pkt l3_off ethertype l3 l4
  other :
      ethertype ≢ 0x0800
      → ethertype ≢ 0x86dd
      → l3 ≡ l3_unknown
      → l4 ≡ l4_unknown
      → Named pkt l3_off ethertype l3 l4

-- What a packet of at least 14 bytes is classified as.
pub record Framed (pkt : Netbuf) (t out : TxPkt) : Type 0 where
  pub ethertype : ℕ
  pub l3_off : ℕ
  pub header : Header pkt ethertype l3_off
  pub named : Named pkt l3_off ethertype out.l3_proto out.l4_proto
  pub l3_csum : (out.l3_csum_en ≡ true) ↔ ((wants_csum pkt ≡ true) × (out.l3_proto ≡ l3_ipv4))
  pub l4_csum : (out.l4_csum_en ≡ true) ↔ ((wants_csum pkt ≡ true) × (out.l4_proto ≢ l4_unknown))
  pub tso : out.tso_en ≡ (wants_tso pkt || t.tso_en)

-- A packet that is too short for a frame, or has no data.
pub record Unframed (out : TxPkt) : Type 0 where
  pub l3 : out.l3_proto ≡ l3_unknown
  pub l4 : out.l4_proto ≡ l4_unknown
  pub no_l3_csum : out.l3_csum_en ≡ false
  pub no_l4_csum : out.l4_csum_en ≡ false

-- What stays as the caller has set it.
pub record Untouched (t out : TxPkt) : Type 0 where
  pub netbuf : out.netbuf ≡ t.netbuf
  pub phys_addr : out.phys_addr ≡ t.phys_addr
  pub len : out.len ≡ t.len
  pub df : out.df ≡ t.df

transport-Carries :
    (pkt : Netbuf) (off header at : ℕ)
    → pkt.len ≤ length pkt.bytes
    → at < header
    → (l4 : ℕ) × (transport pkt off header at ≡ some l4) × Carries pkt off header at l4
unfolding transport
transport-Carries pkt off header at h lt = elim (Bool-cases (leb (off + header) pkt.len)) [
  | inr e ↦ (
    l4_unknown,
    rw e refl,
    record { whole = λ k. absurd (ground (arith, k, e)); cut = λ _. refl },
  )
  | inl e ↦
      let fits : off + header ≤ pkt.len = ground (arith, e) in
      let (p, f) = byte_at_total pkt.bytes (off + at) (omega (arith, h, lt, fits)) in
      (
        l4_of p,
        simp (e, f),
        record { whole = λ _. (p, f, refl); cut = λ k. absurd (omega (arith, k, fits)) },
      )
]

protocols-Named :
    (pkt : Netbuf) (ethertype off : ℕ)
    → pkt.len ≤ length pkt.bytes
    → (l3 l4 : ℕ) × (protocols pkt ethertype off ≡ some (l3, l4)) × Named pkt off ethertype l3 l4
unfolding protocols
protocols-Named pkt ty off h = elim (Bool-cases (ty == 0x0800)) [
  | inl e ↦
      let (l4, f, c) = transport-Carries pkt off 20 9 h (omega arith) in
      (l3_ipv4, l4, simp (e, f), ipv4 (ground (arith, e)) refl c)
  | inr e ↦ elim (Bool-cases (ty == 0x86dd)) [
    | inl d ↦
        let (l4, f, c) = transport-Carries pkt off 40 6 h (omega arith) in
        (l3_ipv6, l4, simp (e, d, f), ipv6 (ground (arith, d)) refl c)
    | inr d ↦ (
      l3_unknown,
      l4_unknown,
      rw (e, d) refl,
      other (ground (arith, e)) (ground (arith, d)) refl refl,
    )
  ]
]

frame-Header :
    (pkt : Netbuf)
    → pkt.len ≤ length pkt.bytes
    → 14 ≤ pkt.len
    → (ethertype l3_off l3 l4 : ℕ) × (frame_protocols pkt ≡ some (l3, l4))
      × Header pkt ethertype l3_off
      × Named pkt l3_off ethertype l3 l4
unfolding frame_protocols
frame-Header pkt h long =
    let (w, e) = word_at_total pkt.bytes 12 (omega arith) in
    elim (Bool-cases (w == 0x8100 && leb 18 pkt.len)) [
      | inl t ↦
          let is_tag : w ≡ 0x8100 = ground (arith, t) in
          let room : 18 ≤ pkt.len = ground (arith, t) in
          let (inner, f) = word_at_total pkt.bytes 16 (omega arith) in
          let (l3, l4, g, n) = protocols-Named pkt inner 18 h in
          (
            inner,
            18,
            l3,
            l4,
            rw (e, frame_protocols) (rw (t, f, g) refl),
            tagged (e ∙ ap some is_tag, room) f refl,
            n,
          )
      | inr t ↦
          let (l3, l4, g, n) = protocols-Named pkt w 14 h in
          (
            w,
            14,
            l3,
            l4,
            rw (e, frame_protocols) (rw (t, g) refl),
            plain
                (λ k.
                  let same : w ≡ 0x8100 = some_injective (sym e ∙ k.0) in
                  ground (arith, same, k.1, t))
                e refl,
            n,
          )
    ]

l3_wanted : (b : Bool) (l3 : ℕ) → ((b && l3 == l3_ipv4) ≡ true) ↔ ((b ≡ true) × (l3 ≡ l3_ipv4))
l3_wanted b l3 = (λ e. ground (arith, e), λ e. ground (arith, e.0, e.1))

l4_wanted :
    (b : Bool) (l4 : ℕ)
    → (l4 ≡ l4_unknown) ⊎ ((l4 ≡ l4_tcp) ⊎ (l4 ≡ l4_udp))
    → ((b && (l4 == l4_tcp || l4 == l4_udp)) ≡ true) ↔ ((b ≡ true) × (l4 ≢ l4_unknown))
l4_wanted b l4 k = (λ e. ground (arith, e), λ e. ground (arith, e.0, e.1, k))

Carries-l4 :
    (pkt : Netbuf) (off header at l4 : ℕ)
    → Carries pkt off header at l4
    → (l4 ≡ l4_unknown) ⊎ ((l4 ≡ l4_tcp) ⊎ (l4 ≡ l4_udp))
Carries-l4 pkt off header at l4 c = elim (Bool-cases (leb (off + header) pkt.len)) [
  | inr e ↦ inl (c.cut (ground (arith, e)))
  | inl e ↦ let (p, f, g) = c.whole (ground (arith, e)) in ground (arith, g)
]

-- The transport that a named frame has is one of three.
Named-l4 :
    (pkt : Netbuf) (off ty l3 l4 : ℕ)
    → Named pkt off ty l3 l4
    → (l4 ≡ l4_unknown) ⊎ ((l4 ≡ l4_tcp) ⊎ (l4 ≡ l4_udp))
Named-l4 pkt off ty l3 l4 n = elim n [
  | ipv4 e f c ↦ Carries-l4 pkt off 20 9 l4 c
  | ipv6 e f c ↦ Carries-l4 pkt off 40 6 l4 c
  | other e f g k ↦ inl k
]

-- Of a packet whose data has as many bytes as its length says, `ena_netdev_classify_tx_pkt` reads no byte
-- past them. A packet with no data or under 14 bytes is of no protocol and asks for no checksum. Of any
-- other the type after a whole VLAN tag, or else the type of the frame, gives IPv4, IPv6 or nothing, and
-- the protocol number of a header that is whole gives TCP, UDP or nothing; the IP checksum is asked for
-- exactly if the packet wants checksums and is IPv4, the transport's exactly if it wants them and the
-- transport is known, and segmentation if the packet wants it or the caller has set it.
pub classify-Classified :
    (pkt : Netbuf) (t : TxPkt)
    → pkt.len ≤ length pkt.bytes
    → (out : TxPkt) × (classify_tx_pkt pkt t ≡ some out)
      × Untouched t out
      × ((((pkt.data_addr ≡ 0) ⊎ (pkt.len < 14)) × Unframed out)
          ⊎ ((pkt.data_addr ≢ 0) × (14 ≤ pkt.len) × Framed pkt t out))
unfolding classify_tx_pkt offload
classify-Classified pkt t h = elim (Bool-cases (pkt.data_addr == 0 || ltb pkt.len 14)) [
  | inl e ↦ (
    record t {
      l3_proto = l3_unknown;
      l4_proto = l4_unknown;
      l3_csum_en = false;
      l4_csum_en = false;
    },
    rw e refl,
    record { netbuf = refl; phys_addr = refl; len = refl; df = refl },
    inl (ground (arith, e), record { l3 = refl; l4 = refl; no_l3_csum = refl; no_l4_csum = refl }),
  )
  | inr e ↦
      let (ty, off, l3, l4, f, hd, n) = frame-Header pkt h (ground (arith, e)) in
      (
        offload pkt (l3, l4) t,
        rw (e, f) refl,
        record { netbuf = refl; phys_addr = refl; len = refl; df = refl },
        inr (
          ground (arith, e),
          ground (arith, e),
          record {
            ethertype = ty;
            l3_off = off;
            header = hd;
            named = n;
            l3_csum = l3_wanted (wants_csum pkt) l3;
            l4_csum = l4_wanted (wants_csum pkt) l4 (Named-l4 pkt off ty l3 l4 n);
            tso = refl;
          },
        ),
      )
]
