-- ===== src/Archive/Claims.antt =====
-- Who claims a temporary file, over the archive and what it shares.
use newtua_py.Base.{ℕ, ◌+◌}
use newtua_py.Host.Claims.{Sound}
use newtua_py.Host.Owners.{held_by, stream_claims}
use newtua_py.Archive.{State}

-- The claims of the archive and of the open streams on each temporary file.
abbrev pub claims_of : {R : Type 0} → State R → ℕ → ℕ
claims_of s t = held_by s.archive.tempfile t + stream_claims s.host.streams t

-- Every counter is the number of claims, a file that is claimed is on the disk, and no two living
-- files have one path.
abbrev pub Owned : {R : Type 0} → State R → Type 0
Owned s = Sound (claims_of s) s.host
