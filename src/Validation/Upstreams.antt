-- ===== src/Validation/Upstreams.antt =====
-- config/validate.rs: resolve_upstreams and build_upstream_tls. The resolver, files and PEM are parameters.
pub mod Peers
pub mod Same
use raddy.Base.{
  ℕ, List, [], ◌∷◌, ◌++◌, Option, none, some, Bool, true, false, not, ◌&&◌, ◌||◌, any, ◌==◌,
  is_some, if◌then◌else◌,
}
use raddy.Config.Source.{ProxyTlsConfig}
use raddy.Config.Wildcard.{text_eq}
use raddy.Validation.{same_ip, with_prefix, cert_key_from_pem}
use raddy.Values.{Text, codes, about, Result, ok, err, ◌>>=◌, ◌>>◌, reject_if}
use raddy.Values.Addresses.{SocketAddr, Upstream, UpstreamHttpVersion, auto, h2, h2c}

pub record UpstreamPeer : Type 0 where
  pub addr : SocketAddr
  pub tls : Bool
  pub http_version : UpstreamHttpVersion
  pub host : Text

abbrev pub same_flag : Bool → Bool → Bool
same_flag true b = b
same_flag false b = not b

abbrev pub same_version : UpstreamHttpVersion → UpstreamHttpVersion → Bool
same_version auto auto = true
same_version h2 h2 = true
same_version h2c h2c = true
same_version _ _ = false

-- The equality of two socket addresses.
abbrev pub same_addr : SocketAddr → SocketAddr → Bool
same_addr a b =
    (same_ip a.ip b.ip && a.port == b.port)
    && (a.flowinfo == b.flowinfo && a.scope_id == b.scope_id)

unfoldable pub same_peer : UpstreamPeer → UpstreamPeer → Bool
unfolding text_eq
same_peer p q =
    same_addr p.addr q.addr
    && (same_flag p.tls q.tls
        && (same_version p.http_version q.http_version && text_eq p.host q.host))

abbrev pub peer_of : Upstream → SocketAddr → UpstreamPeer
peer_of upstream addr = record {
  addr = addr;
  tls = upstream.tls;
  http_version = upstream.http_version;
  host = upstream.host;
}

unfoldable pub push_new : List UpstreamPeer → UpstreamPeer → List UpstreamPeer
unfolding same_peer
push_new resolved new =
    if any (λ peer. same_peer peer new) resolved then resolved else resolved ++ (new ∷ [])

unfoldable pub push_addrs : List UpstreamPeer → Upstream → List SocketAddr → List UpstreamPeer
unfolding push_new
push_addrs resolved upstream [] = resolved
push_addrs resolved upstream (addr ∷ addrs) =
    push_addrs (push_new resolved (peer_of upstream addr)) upstream addrs

abbrev pub is_nil {ℓ} : {A : Type ℓ} → List A → Bool
is_nil [] = true
is_nil (x ∷ xs) = false

module _ (resolver : Text → ℕ → Result (List SocketAddr)) (print_number : ℕ → Text) where
  unfoldable pub resolve_from : List UpstreamPeer → List Upstream → Result (List UpstreamPeer)
  unfolding push_addrs
  resolve_from resolved [] = ok resolved
  resolve_from resolved (upstream ∷ to) = do
    addrs ← resolver upstream.host upstream.port
    reject_if (is_nil addrs)
        (about "no address resolved for upstream " upstream.host ":" ++ print_number upstream.port)
    resolve_from (push_addrs resolved upstream addrs) to

  unfoldable pub resolve_upstreams : List Upstream → Result (List UpstreamPeer)
  unfolding resolve_from
  resolve_upstreams to = resolve_from [] to

pub record UpstreamTls (X509 PKey : Type 0) : Type 0 where
  pub verify_cert : Bool
  pub servername : Text
  pub ca : Option (List X509)
  pub client_cert : Option (List X509 × PKey)

abbrev pub or_empty : Option Text → Text
or_empty none = []
or_empty (some text) = text

module _ {X509 : Type 0} {PKey : Type 0} (read_to_string : Text → Result Text)
    (stack_from_pem : Text → Result (List X509)) (private_key_from_pem : Text → Result PKey) where
  unfoldable pub ca_stack : List Text → Result (List X509)
  ca_stack [] = ok []
  ca_stack (path ∷ paths) = do
    pem ← with_prefix (about "failed to read CA file " path ": ") (read_to_string path)
    certs ← with_prefix (about "invalid CA certificate in " path ": ") (stack_from_pem pem)
    rest ← ca_stack paths
    ok (certs ++ rest)

  unfoldable pub ca_of : List Text → Result (Option (List X509))
  unfolding ca_stack
  ca_of [] = ok none
  ca_of (path ∷ paths) = ca_stack (path ∷ paths) >>= λ stack. ok (some stack)

  unfoldable pub client_cert_of : Option Text → Option Text → Result (Option (List X509 × PKey))
  unfolding cert_key_from_pem
  client_cert_of (some cert) (some key) = do
    cert_pem ←
        with_prefix (about "failed to read certificate file " cert ": ") (read_to_string cert)
    key_pem ← with_prefix (about "failed to read key file " key ": ") (read_to_string key)
    cert_key ←
        with_prefix (codes "invalid client certificate: ")
          (cert_key_from_pem read_to_string stack_from_pem private_key_from_pem cert_pem key_pem)
    ok (some cert_key)
  client_cert_of none none = ok none
  client_cert_of _ _ = err (codes "tls_cert requires both a certificate and a key file")

  unfoldable pub build_upstream_tls :
      ProxyTlsConfig → Bool → Result (Option (UpstreamTls X509 PKey))
  unfolding ca_of client_cert_of
  build_upstream_tls config false = do
    reject_if
        (is_some config.servername
          || (config.skip_verify || (not (is_nil config.ca_files) || is_some config.cert_file)))
        (codes "tls_servername / tls_skip_verify / tls_ca / tls_cert require an https:// upstream")
    ok none
  build_upstream_tls config true = do
    ca ← ca_of config.ca_files
    client_cert ← client_cert_of config.cert_file config.key_file
    ok (
        some (record {
          verify_cert = not config.skip_verify;
          servername = or_empty config.servername;
          ca = ca;
          client_cert = client_cert;
        }))
