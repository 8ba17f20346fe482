-- ===== src/Validation/Tests.antt =====
-- Runs of the validation of layer-4 listeners.
use raddy.Base.{ℕ_discrete, ℕ, List, [], ◌∷◌, none, some, Bool, ◌≡◌, refl}
use raddy.Config.{named, catch_all, round_robin, SiteKey-discrete}
use raddy.Config.Source.{Site, nil, Layer4Listener, tcp, udp, tls_default, internal}
use raddy.Validation.{validate_layer4}
use raddy.Validation.Layer4.{IsExclusive, validate_layer4-IsExclusive}
use raddy.Base.{All}
use raddy.Config.Source.{
  Directives, cons, respond, basic_auth, path_is, handle, tls, Raddexfile, global_default,
}
use raddy.Validation.Compile.{Terminal, respond_terminal, basic_auth_modifier}
use raddy.Validation.Compile.Guards.{IsGuarded, compile_handle_block-IsGuarded}
use raddy.Validation.Compile.Order.{users_of}
use raddy.Validation.Compile.Scopes.{compile_handle_block}
use raddy.Validation.Sites.{CompiledConfig, validate_and_compile}
use raddy.Validation.Sound.{IsSound, validate_and_compile-IsSound}
use raddy.Validation.Upstreams.{UpstreamPeer, resolve_upstreams}
use raddy.Validation.Upstreams.Peers.{ArePeers, resolve_upstreams-ArePeers}
use raddy.Values.{Text, codes, Result, ok, err}
use raddy.Values.Addresses.{socket_addr, v4, SocketAddr, Upstream, auto}

abbrev display : SocketAddr → Text
display address = codes "address"

abbrev print_number : ℕ → Text
print_number n = codes "n"

-- Files that are there, with one certificate and a key.
abbrev read_to_string : Text → Result Text
read_to_string path = ok path

abbrev stack_from_pem : Text → Result (List Text)
stack_from_pem pem = ok (pem ∷ [])

abbrev private_key_from_pem : Text → Result Text
private_key_from_pem pem = ok pem

abbrev site : Site
site = record { key = named (codes "a.example") 443; directives = nil }

abbrev database : ℕ → Layer4Listener
database ip = tcp (record {
  listen = socket_addr (v4 ip) 3306;
  tls_config = some (record tls_default { source = internal });
  transparent = Bool.false;
  upstreams = record { host = codes "db"; port = 3306 } ∷ [];
  lb_policy = round_robin;
  connect_timeout = 1;
  idle_timeout = 1;
  max_connections = 1;
  health_check = none;
  sni_routes = [];
  sni_fallback = none;
})

abbrev names : Layer4Listener
names = udp (record {
  listen = socket_addr (v4 0) 3306;
  upstreams = record { host = codes "dns"; port = 53 } ∷ [];
  lb_policy = round_robin;
  idle_timeout = 1;
  max_flows = 1;
  max_datagram_size = 1;
  recv_buffer = 0;
  send_buffer = 0;
})

abbrev listeners : List Layer4Listener
listeners = database 1 ∷ names ∷ database 2 ∷ []

validate_layer4-IsExclusive_example : (listeners ≡ listeners) × IsExclusive (site ∷ []) listeners
unfolding validate_layer4
validate_layer4-IsExclusive_example =
    validate_layer4-IsExclusive read_to_string stack_from_pem private_key_from_pem display
      print_number (site ∷ []) listeners listeners refl

-- A bind on every address overlaps one on its port.
overlapping :
    validate_layer4 read_to_string stack_from_pem private_key_from_pem display print_number []
      (database 0 ∷ database 2 ∷ [])
    ≡ err (codes "duplicate or overlapping Tcp listener on address")
unfolding validate_layer4
overlapping = refl

abbrev resolver : Text → ℕ → Result (List SocketAddr)
resolver host port = ok (socket_addr (v4 1) port ∷ [])

-- The users of a block guard what stands before them.
abbrev block : Directives
block = cons (respond [] 200 none) (cons (basic_auth (codes "ann") (codes "hash")) nil)

abbrev compiled_block : List (Terminal Text Text)
compiled_block =
    record {
      matchers = path_is (codes "/x") ∷ [];
      kind = respond_terminal 200 none;
      modifiers = basic_auth_modifier ((codes "ann", codes "hash") ∷ []) ∷ [];
      strip_prefix = some (codes "/x");
    }
    ∷ []

compile_handle_block-IsGuarded_example :
    All
      (IsGuarded (path_is (codes "/x") ∷ []) Bool.true ((codes "ann", codes "hash") ∷ []))
      compiled_block
unfolding compile_handle_block users_of
compile_handle_block-IsGuarded_example =
    compile_handle_block-IsGuarded read_to_string stack_from_pem private_key_from_pem resolver
      print_number (path_is (codes "/x") ∷ []) Bool.true block compiled_block refl

abbrev upstream : Text → Upstream
upstream host = record {
  host = host;
  port = 80;
  tls = Bool.false;
  http_version = auto;
  resolved = none;
}

abbrev peer : Text → UpstreamPeer
peer host = record {
  addr = socket_addr (v4 1) 80;
  tls = Bool.false;
  http_version = auto;
  host = host;
}

-- Two hosts at one address are two peers, and one that is named twice is one.
abbrev upstreams : List Upstream
upstreams = upstream (codes "a") ∷ upstream (codes "b") ∷ upstream (codes "a") ∷ []

resolve_upstreams-ArePeers_example :
    ArePeers resolver upstreams (peer (codes "a") ∷ peer (codes "b") ∷ [])
unfolding resolve_upstreams
resolve_upstreams-ArePeers_example =
    resolve_upstreams-ArePeers resolver print_number upstreams
      (peer (codes "a") ∷ peer (codes "b") ∷ []) refl

abbrev file : Raddexfile
file = record {
  global = global_default;
  sites =
      record { key = named (codes "a.example") 443; directives = cons (handle [] block) nil }
      ∷ record { key = catch_all 80; directives = nil }
      ∷ [];
  layer4 = listeners;
}

abbrev compiled_file : CompiledConfig Text Text
compiled_file = record {
  global = global_default;
  sites =
      record {
        key = named (codes "a.example") 443;
        terminals =
            record {
              matchers = [];
              kind = respond_terminal 200 none;
              modifiers = basic_auth_modifier ((codes "ann", codes "hash") ∷ []) ∷ [];
              strip_prefix = none;
            }
            ∷ [];
        modifiers = [];
        trusted = none;
        tls_config = none;
        log_off = Bool.false;
      }
      ∷ record {
        key = catch_all 80;
        terminals = [];
        modifiers = [];
        trusted = none;
        tls_config = none;
        log_off = Bool.false;
      }
      ∷ [];
  layer4 = listeners;
}

validate_and_compile-IsSound_example :
    IsSound read_to_string stack_from_pem private_key_from_pem resolver print_number file
      compiled_file
unfolding validate_and_compile SiteKey-discrete
validate_and_compile-IsSound_example =
    validate_and_compile-IsSound read_to_string stack_from_pem private_key_from_pem resolver
      print_number display file compiled_file refl

-- A site without TLS options on another port is refused where the TLS-ALPN challenge is chosen, and a wildcard
-- on the port of a neighbour's TLS is accepted without the DNS challenge.
abbrev with_sites : Bool → List Site → Raddexfile
with_sites alpn sites = record {
  global = record global_default { tls_alpn_challenge = alpn };
  sites = sites;
  layer4 = [];
}

abbrev is_accepted : {A : Type 0} → Result A → Bool
is_accepted (ok a) = Bool.true
is_accepted (err m) = Bool.false

abbrev accepts : Raddexfile → Bool
unfolding validate_and_compile SiteKey-discrete
accepts file = is_accepted (
    validate_and_compile read_to_string stack_from_pem private_key_from_pem resolver print_number
      display file)

plain_off_port :
    accepts (
      with_sites Bool.true (record { key = named (codes "a.example") 8080; directives = nil } ∷ []))
    ≡ Bool.false
unfolding accepts
plain_off_port = refl

wildcard_beside_tls :
    accepts (
      with_sites Bool.false (
        record { key = named (codes "*.a.example") 8443; directives = nil }
        ∷ record {
          key = named (codes "b.example") 8443;
          directives = cons (tls (record tls_default { source = internal })) nil;
        }
        ∷ []))
    ≡ Bool.true
unfolding accepts ℕ_discrete
wildcard_beside_tls = refl
