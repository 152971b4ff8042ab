-- ===== src/Adapter/Filter.antt =====
-- What `unwrap_tcp_in_ip` of libsponge/tcp_helpers/tcp_over_ip.cc lets through.
use mathlib.Core.Option.{none-ne-some, some-injective}
use sponge.Prelude.{
  ℕ, ◌≡◌, refl, Bool, true, false, not, ◌&&◌, Option, none, some, ◌==◌, if◌then◌else◌, Bool-cases,
  inl, inr, ap, arith, subst,
}
use sponge.Parser.{ParseResult}
use sponge.TcpSegment.{TcpSegment, default_segment}
use sponge.TcpSegment.Bytes
use sponge.Ipv4.{Ipv4Datagram}
use sponge.Ipv4.Bytes.{pseudo_cksum}
use sponge.Adapter.{FdAdapter, no_error, target, unwrap_tcp_in_ip, proto_tcp}

-- A test that did not return.
guard {ℓ ℓ'} :
    {A : Type ℓ} {B : Type ℓ'} (b : Bool) (a a' : A) (r : A × Option B) (x : B)
    → (if b then (a, none) else r) ≡ (a', some x)
    → (b ≡ false) × (r ≡ (a', some x))
guard true a a' r x e = absurd (none-ne-some x (ap (λ q. q.1) e))
guard false a a' r x e = (refl, e)

is_equal : (i j : ℕ) → not (i == j) ≡ false → i ≡ j
is_equal i j h = ground arith

no_error_lem : (r : ParseResult) → not (no_error r) ≡ false → r ≡ ParseResult.no_error
no_error_lem ParseResult.no_error h = refl
no_error_lem ParseResult.bad_checksum h = ground arith
no_error_lem ParseResult.packet_too_short h = ground arith
no_error_lem ParseResult.wrong_ip_version h = ground arith
no_error_lem ParseResult.header_too_short h = ground arith
no_error_lem ParseResult.truncated_packet h = ground arith
no_error_lem ParseResult.unsupported h = ground arith

is_syn : (syn rst : Bool) → not (syn && not rst) ≡ false → (syn ≡ true) × (rst ≡ false)
is_syn true false h = (refl, refl)
is_syn true true h = ground arith
is_syn false rst h = ground arith

-- The datagram holds a segment with a checksum that fits, between the ends of the connection. An adapter that listened has these from the segment, which has a SYN and no RST.
pub record IsForUs (a a' : FdAdapter) (dgram : Ipv4Datagram) (seg : TcpSegment) : Type 0 where
  pub parsed :
      Bytes.parse default_segment dgram.payload (pseudo_cksum dgram.header)
      ≡ (ParseResult.no_error, seg)
  pub proto : dgram.header.proto ≡ proto_tcp
  pub dst : dgram.header.dst ≡ a'.cfg.source.ip
  pub src : dgram.header.src ≡ a'.cfg.destination.ip
  pub dport : seg.header.dport ≡ a'.cfg.source.port
  pub sport : seg.header.sport ≡ a'.cfg.destination.port
  pub connected : a'.listen ≡ false
  pub same : a.listen ≡ false → a' ≡ a
  pub syn : a.listen ≡ true → (seg.header.syn ≡ true) × (seg.header.rst ≡ false)

-- A segment that unwrap_tcp_in_ip lets through was parsed from the payload with the checksum of
-- the pseudo-header, in a datagram with TCP as its protocol, and its addresses and ports are
-- those of the adapter afterwards, which does not listen; one that did not listen before is as
-- it was, and one that did has these ends from the segment, which has a SYN and no RST.
pub unwrap_tcp_in_ip-IsForUs :
    (a a' : FdAdapter) (dgram : Ipv4Datagram) (seg : TcpSegment)
    → unwrap_tcp_in_ip a dgram ≡ (a', some seg)
    → IsForUs a a' dgram seg
unfolding unwrap_tcp_in_ip
unwrap_tcp_in_ip-IsForUs a a' dgram seg e =
    let parsed = Bytes.parse default_segment dgram.payload (pseudo_cksum dgram.header) in
    let (g1, e1) = guard (not a.listen && not (dgram.header.dst == a.cfg.source.ip)) a a' _ seg e in
    let (g2, e2) =
      guard (not a.listen && not (dgram.header.src == a.cfg.destination.ip)) a a' _ seg e1 in
    let (g3, e3) = guard (not (dgram.header.proto == proto_tcp)) a a' _ seg e2 in
    let (g4, e4) = guard (not (no_error (parsed.0))) a a' _ seg e3 in
    let (g5, e5) = guard (not (parsed.1.header.dport == a.cfg.source.port)) a a' _ seg e4 in
    let (g6, e6) =
      guard (a.listen && not (parsed.1.header.syn && not parsed.1.header.rst)) a a' _ seg e5 in
    let t = if a.listen then target a dgram (parsed.1) else a in
    let (g7, e7) = guard (not (parsed.1.header.sport == t.cfg.destination.port)) t a' _ seg e6 in
    let adapters : t ≡ a' = ap (λ q. q.0) e7 in
    let segments : parsed.1 ≡ seg = some-injective (parsed.1) seg (ap (λ q. q.1) e7) in
    let through : IsForUs a t dgram (parsed.1) = record {
      parsed = λ i. (no_error_lem (parsed.0) g4 i, parsed.1);
      proto = is_equal dgram.header.proto proto_tcp g3;
      dst = elim (Bool-cases a.listen) [
        | inl l ↦ rw l refl
        | inr l ↦ rw l (is_equal dgram.header.dst a.cfg.source.ip (rw l at g1))
      ];
      src = elim (Bool-cases a.listen) [
        | inl l ↦ rw l refl
        | inr l ↦ rw l (is_equal dgram.header.src a.cfg.destination.ip (rw l at g2))
      ];
      dport = elim (Bool-cases a.listen) [
        | inl l ↦ rw l (is_equal parsed.1.header.dport a.cfg.source.port g5)
        | inr l ↦ rw l (is_equal parsed.1.header.dport a.cfg.source.port g5)
      ];
      sport = is_equal parsed.1.header.sport t.cfg.destination.port g7;
      connected = elim (Bool-cases a.listen) [ inl l ↦ rw l refl | inr l ↦ rw l refl ];
      same = λ l. rw l refl;
      syn = λ l. is_syn parsed.1.header.syn parsed.1.header.rst (rw l at g6);
    } in
    subst (λ seg. IsForUs a a' dgram seg) segments
      (subst (λ t. IsForUs a t dgram (parsed.1)) adapters through)
