-- ===== src/Compression/Encoders.antt =====
-- proxy/compress.rs: the incremental encoder of a body. The codecs are parameters.
use raddy.Base.{ℕ, List, Option, some, ◌>>=◌}
use raddy.Base.Map.{map_option}
use raddy.Compression.{Algo, gzip_algo, zstd_algo, brotli_algo}

abbrev pub Bytes : Type 0
Bytes = List ℕ

-- The writers of the codecs, each over its output.
pub record Codec (E : Type 0) : Type 0 where
  pub new : Algo → Option E
  pub write_all : E → Bytes → Option E
  pub flush : E → Option E
  pub finish : E → Option E
  pub take_output : E → Bytes × E

pub record Encoder (E : Type 0) : Type 0 where
  pub algo : Algo
  pub writer : E

module _ {E : Type 0} (codec : Codec E) where
  unfoldable pub encoder_new : Algo → Option (Encoder E)
  encoder_new algo = map_option (λ e. record { algo = algo; writer = e }) (codec.new algo)

  abbrev pub taken : Algo → Bytes × E → Bytes × Encoder E
  taken algo (out, e) = (out, record { algo = algo; writer = e })

  unfoldable pub encoder_write : Encoder E → Bytes → Option (Bytes × Encoder E)
  encoder_write encoder chunk = do
    e ← codec.write_all encoder.writer chunk
    e' ← codec.flush e
    some (taken encoder.algo (codec.take_output e'))

  -- `into_inner` of the brotli writer finishes it, and cannot fail.
  abbrev pub close : Algo → E → Option E
  close gzip_algo e = codec.finish e
  close zstd_algo e = codec.finish e
  close brotli_algo e = codec.flush e >>= codec.finish

  unfoldable pub encoder_finish : Encoder E → Option Bytes
  encoder_finish encoder = do e ← close encoder.algo encoder.writer; some (codec.take_output e).0
