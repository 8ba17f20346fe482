-- ===== src/Lib.antt =====
-- Raddex, the reverse-proxy gateway: models of its core in functions by clauses, and the theorems
-- that make them correct. Paths are from the repository's root.
--
-- How the parts interact: a configuration file is lexed, parsed and compiled into sites; a
-- request on a listener selects its site by the Host header, passes the site's rate limits and
-- guards, and is served by a terminal (an upstream picked by a load balancer, or a file). Layer-4
-- listeners route TLS connections by the server name in the ClientHello and pick an upstream by
-- their own balancer. Certificates are issued by a worker that drains a bounded queue.
--
-- * Issuance.antt and Issuance/: src/server/issuance_queue.rs (`Inner`, `AcmeQueue`) and the
-- worker loop of src/server/acme.rs.
-- * ClientHello.antt and ClientHello/: src/layer4/tls.rs (`parse_client_hello_sni`,
-- `read_client_hello`). The loops of the parser run on fuel one above the length of what they
-- walk, which is enough since each round moves on.
-- * RateLimit.antt and RateLimit/: src/proxy/ratelimit.rs (`RateLimiter`). The scan of an
-- eviction is recursion on the rounds that are left of its 64.
-- * Balance.antt and Balance/: src/layer4/balance.rs (`Balancer`). Walks are recursion on the
-- rounds that are left.
-- * SiteSelection.antt, SiteSelection/ and Config/: src/proxy/site.rs (`select_with_index`) and
-- the site keys, patterns and rates of src/config/ast.rs.
-- * ByteRange.antt and ByteRange/: src/proxy/fs.rs (`parse_range` and the loop of `serve` over
-- the body). The loop runs on fuel above the number of bytes that remain.
-- * StaticFiles.antt and StaticFiles/: src/proxy/fs.rs (`resolve`, and `serve` in
-- StaticFiles/Reply.antt) and src/proxy/handler.rs (the rewriting of a response's header,
-- StaticFiles/Headers.antt); Segments and Served on paths, Fields, Plans, Sound and Head on
-- replies.
-- * Lexer.antt and Lexer/: src/config/lexer.rs (`lex`). The loop runs on fuel one above the
-- length of the input, which is enough since each round takes at least one character.
-- * Compression.antt and Compression/: src/proxy/compress.rs (`choose`, and `Encoder` in
-- Compression/Encoders.antt).
-- * Values.antt and Values/, Config/Source.antt, Parser.antt and Parser/: src/config/parser.rs
-- and src/config/ast.rs (the parser of a configuration file, its values and the source AST).
-- * The module Dns.antt: src/server/dns/mod.rs (the registry of DNS-01 providers, the check of
-- their credentials and the construction of a client).
-- * Validation.antt and Validation/: src/config/validate.rs (the whole of it) with
-- cert_key_from_pem of src/tls/mod.rs.
--
-- Conventions. Base.antt and Base/ hold the shared names. A `HashMap` is an association list
-- whose order stands for the iteration order, which Rust leaves open (Base/Map.antt); keys are
-- any type with decidable equality. An `Instant` or a `Duration` is a number counted from one
-- epoch. Code that fails by an early return gives an `Option` or a data type of outcomes. What a
-- lock guards is one step. Text is a list of bytes or of code points, as the source walks it. The
-- parser's loops run on fuel that the number of tokens bounds; that it suffices is proved. A
-- method of the parser that only reads it for its errors is a function to a value or a message.
--
-- Not modelled: sockets, timers, the TLS library, ACME orders, Pingora and the other crates are
-- parameters or are left out. The reading of an imported file, the request handler but for the
-- headers that it rewrites, the layer-4 relays, the pool of upstreams, the server's lifecycle,
-- the migration tools and the metrics have no model yet.
pub mod Base
pub mod Balance
pub mod ByteRange
pub mod ClientHello
pub mod Compression
pub mod Config
pub mod Dns
pub mod Issuance
pub mod Lexer
pub mod Parser
pub mod RateLimit
pub mod SiteSelection
pub mod StaticFiles
pub mod Validation
pub mod Values
