-- ===== src/Config.antt =====
-- config/ast.rs: the compiled configuration that the request path reads. Text is a list of bytes.
pub mod Source
pub mod Wildcard
pub mod Patterns
use raddy.Base.{
  ℕ, zero, suc, ◌*◌, List, [], ◌∷◌, Option, none, some, Bool, true, false, Eq, ℕ_discrete,
}

pub data SiteKey : Type 0 where
  named : (host : List ℕ) (port : ℕ) → SiteKey
  catch_all : (port : ℕ) → SiteKey

unfoldable pub SiteKey-discrete : Discrete SiteKey
SiteKey-discrete = hlevel ℕ_discrete

instance abbrev pub site_key_eq : Eq SiteKey
site_key_eq = record { dec = SiteKey-discrete }

abbrev pub port_of : SiteKey → ℕ
port_of (named host port) = port
port_of (catch_all port) = port

pub data RateUnit : Type 0 where
  second minute hour day : RateUnit

abbrev pub secs : RateUnit → ℕ
secs second = 1
secs minute = 60
secs hour = 3600
secs day = 86_400

-- The token bucket of a `rate_limit`; what it counts on is resolved before the limiter is asked.
pub record RateSpec : Type 0 where
  pub rate_count : ℕ
  pub unit : RateUnit
  pub burst : ℕ

pub data LbPolicy : Type 0 where
  round_robin random ip_hash : LbPolicy
