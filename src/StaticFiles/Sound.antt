-- ===== src/StaticFiles/Sound.antt =====
-- proxy/fs.rs: `serve` answers every request as it should.
use raddy.StaticFiles.Answers.{Answers}
