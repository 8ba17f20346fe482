-- ===== src/Validation/Upstreams/Same.antt =====
-- config/validate.rs: the test on peers is equality.
use raddy.Base.{Bool, true, false, ◌&&◌, ◌==◌, ◌≡◌, inl, inr, refl, sym, arith, Bool-cases}
use raddy.Config.Wildcard.{text_eq-≡, text_eq_refl}
use raddy.Validation.{same_ip}
use raddy.Validation.Layer4.{same_ip_refl}
use raddy.Validation.Upstreams.{UpstreamPeer, same_flag, same_version, same_addr, same_peer}
use raddy.Values.Addresses.{IpAddr, v4, v6, UpstreamHttpVersion, auto, h2, h2c}

same_ip-≡ : (a b : IpAddr) → same_ip a b ≡ true → a ≡ b
same_ip-≡ (v4 a) (v4 b) h = ground (arith, h)
same_ip-≡ (v6 a) (v6 b) h = ground (arith, h)
same_ip-≡ (v4 a) (v6 b) h = absurd cc
same_ip-≡ (v6 a) (v4 b) h = absurd cc

same_version-≡ : (a b : UpstreamHttpVersion) → same_version a b ≡ true → a ≡ b
same_version-≡ auto auto h = refl
same_version-≡ h2 h2 h = refl
same_version-≡ h2c h2c h = refl
same_version-≡ auto h2 h = absurd cc
same_version-≡ auto h2c h = absurd cc
same_version-≡ h2 auto h = absurd cc
same_version-≡ h2 h2c h = absurd cc
same_version-≡ h2c auto h = absurd cc
same_version-≡ h2c h2 h = absurd cc

same_version_refl : (a : UpstreamHttpVersion) → same_version a a ≡ true
same_version_refl auto = refl
same_version_refl h2 = refl
same_version_refl h2c = refl

same_flag-≡ : (a b : Bool) → same_flag a b ≡ true → a ≡ b
same_flag-≡ true b h = sym h
same_flag-≡ false true h = absurd cc
same_flag-≡ false false h = refl

and_parts : (a b : Bool) → (a && b) ≡ true → (a ≡ true) × (b ≡ true)
and_parts true b h = (refl, h)
and_parts false b h = absurd cc

pub same_peer-≡ : (p q : UpstreamPeer) → same_peer p q ≡ true → p ≡ q
unfolding same_peer
same_peer-≡ p q h =
    let (addr, rest) = and_parts (same_addr p.addr q.addr) _ h in
    let (place, scoped) =
      and_parts (same_ip p.addr.ip q.addr.ip && p.addr.port == q.addr.port) _ addr in
    let (ip, port) = and_parts (same_ip p.addr.ip q.addr.ip) _ place in
    let (flow, scope) = and_parts (p.addr.flowinfo == q.addr.flowinfo) _ scoped in
    let (tls, more) = and_parts (same_flag p.tls q.tls) _ rest in
    let (version, host) = and_parts (same_version p.http_version q.http_version) _ more in
    let same_i = same_ip-≡ p.addr.ip q.addr.ip ip in
    let same_t = same_flag-≡ p.tls q.tls tls in
    let same_v = same_version-≡ p.http_version q.http_version version in
    let same_h = text_eq-≡ p.host q.host host in
    ground (arith, same_i, same_t, same_v, same_h, port, flow, scope)

pub same_peer_refl : (p : UpstreamPeer) → same_peer p p ≡ true
unfolding same_peer
same_peer_refl p =
    let ip = same_ip_refl p.addr.ip in
    let version = same_version_refl p.http_version in
    let host = text_eq_refl p.host in
    elim (Bool-cases p.tls) [
      | inl e ↦ ground (arith, ip, version, host, e)
      | inr e ↦ ground (arith, ip, version, host, e)
    ]
