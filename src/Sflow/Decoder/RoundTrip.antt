-- ===== src/Sflow/Decoder/RoundTrip.antt =====
-- What the parsers read from a packet that is built from its parts.
pub mod Chain
pub mod Packets
pub mod Ipv6
pub mod Frames
use unifabric.Common.{
  List, [], ◌∷◌, ◌++◌, ℕ, zero, suc, ◌+◌, ◌-◌, ◌*◌, ◌/◌, ◌%◌, ◌<◌, ◌≤◌, Bool, true, false, not,
  Option, none, some, ltb, leb, ◌&&◌, ◌||◌, ◌==◌, ==_iff, nat_eq, length, length-append,
  if◌then◌else◌, map, Bool-cases, ◌≡◌, refl, sym, ap, ◌∙◌, arith, ◌⊎◌, inl, inr,
}
use unifabric.Sflow.Decoder.Bytes.{
  Bytes, ◌>>=◌, byte_at, slice, big_endian_uint16, byte_at-append, slice_middle,
}
use unifabric.Sflow.Decoder.Headers.{
  ParsedFlow, ether_type_ipv4, clone_ip, uint16_at, is_transport, ports_at, ipv4_bytes, parse_ipv4,
}

pub append_assoc : (xs ys zs : Bytes) → (xs ++ ys) ++ zs ≡ xs ++ (ys ++ zs)
append_assoc [] ys zs = refl
append_assoc (x ∷ xs) ys zs = ap (λ ws. x ∷ ws) (append_assoc xs ys zs)

copied : (bs : Bytes) → map (λ b. b) bs ≡ bs
copied [] = refl
copied (b ∷ bs) = ap (λ cs. b ∷ cs) (copied bs)

pub clone_ip_same : (bs : Bytes) → clone_ip (some bs) ≡ some bs
unfolding clone_ip
clone_ip_same bs = ap some (copied bs)

pub uint16_at_next :
    (xs zs : Bytes) (high low offset : ℕ)
    → offset ≡ length xs
    → uint16_at (xs ++ high ∷ low ∷ zs) offset ≡ some (high * 256 + low)
unfolding uint16_at big_endian_uint16
uint16_at_next xs zs high low offset e =
    let s : slice (xs ++ high ∷ low ∷ zs) offset (offset + 2) ≡ some (high ∷ low ∷ []) =
      slice_middle xs (high ∷ low ∷ []) zs offset (offset + 2) e (omega (arith, e)) in
    rw s refl

-- the four bytes of the two ports of TCP, UDP and SCTP
pub record Ports : Type 0 where
  pub src_high : ℕ
  pub src_low : ℕ
  pub dst_high : ℕ
  pub dst_low : ℕ

abbrev pub port_bytes : Ports → Bytes
port_bytes p = p.src_high ∷ p.src_low ∷ p.dst_high ∷ p.dst_low ∷ []

abbrev pub src_port_of : Ports → ℕ
src_port_of p = p.src_high * 256 + p.src_low

abbrev pub dst_port_of : Ports → ℕ
dst_port_of p = p.dst_high * 256 + p.dst_low

pub ports_at_next :
    (xs zs : Bytes) (p : Ports) (proto offset : ℕ)
    → offset ≡ length xs
    → is_transport proto ≡ true
    → ports_at (xs ++ (port_bytes p ++ zs)) proto offset ≡ some (src_port_of p, dst_port_of p)
unfolding ports_at
ports_at_next xs zs p proto offset e t =
    let l : leb (offset + 4) (length (xs ++ (port_bytes p ++ zs))) ≡ true =
      ground (arith, e, length-append xs (port_bytes p ++ zs)) in
    let s = uint16_at_next xs (p.dst_high ∷ p.dst_low ∷ zs) p.src_high p.src_low offset e in
    let d : uint16_at (xs ++ (port_bytes p ++ zs)) (offset + 2) ≡ some (dst_port_of p) =
      ap (λ bs. uint16_at bs (offset + 2))
        (sym (append_assoc xs (p.src_high ∷ p.src_low ∷ []) (p.dst_high ∷ p.dst_low ∷ zs)))
      ∙ uint16_at_next (xs ++ (p.src_high ∷ p.src_low ∷ [])) zs p.dst_high p.dst_low (offset + 2)
          (omega (arith, e, length-append xs (p.src_high ∷ p.src_low ∷ []))) in
    rw (t, l, s, d) refl
